-- ===== src/Fluid/Server/Pages.antt =====
-- Requests for pages.
use soundcan.Base.{Option, none, some, [], ◌∷◌}
use soundcan.CText.{Text, text}
use soundcan.Fluid.Outcome.{Outcome, returned, broken}
use soundcan.Fluid.Tokens.Join.{join}
use soundcan.Fluid.Server.{Reply, not_found, page, get_mime_type, header_of}

-- What a browser asks for.
abbrev pub page_request : Text → Text
page_request path = join 32 (text "GET" ∷ path ∷ text "HTTP/1.1" ∷ [])

-- What comes of a file, with a time for the header. The buffer of the reply has no room for the
-- terminator behind the header of an empty file.
abbrev pub answer : Text → Text → Option Text → Outcome Reply
answer time name none = returned not_found
answer time name (some []) = broken
answer time name (some (c ∷ cs)) = returned (page (header_of time (get_mime_type name)) (c ∷ cs))
