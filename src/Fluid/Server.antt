-- ===== src/Fluid/Server.antt =====
-- ATTIC/fluidsynth/fluid-ui/server.c: requests, routes and replies.
pub mod Pages
pub mod Paths
pub mod Routes
use soundcan.Base.{
  ℕ, ◌+◌, ◌-◌, Bool, true, false, Option, none, some, List, [], ◌∷◌, ◌++◌, length, take, drop, ltb,
  leb, ◌==◌, if◌then◌else◌,
}
use soundcan.CText.{Text, text, same_text}
use soundcan.Fluid.Outcome.{Outcome, returned, never, broken, ◌>>=◌, fit}
use soundcan.Fluid.Tokens.{tokens}
use soundcan.Fluid.Client.{Synth}
use soundcan.Fluid.Controls.{Printf, Control, get_control_instance, set_control_instance}
use soundcan.Fluid.Controls.Instances.{get_control_instances}

-- strrchr: what comes before the last `c`, and what comes from it on.
unfoldable pub cut_last : ℕ → Text → Option (Text × Text)
cut_last c [] = none
cut_last c (d ∷ ds) = elim (cut_last c ds) [
  | some (before, from) ↦ some (d ∷ before, from)
  | none ↦ if d == c then some ([], d ∷ ds) else none
]

abbrev pub before_last : ℕ → Text → Text
before_last c s = elim (cut_last c s) [ none ↦ s | some (before, from) ↦ before ]

-- Whether a path that is not empty ends in a slash. `none` is the byte before the route.
unfoldable pub ends_in_slash : Text → Option Bool
ends_in_slash [] = none
ends_in_slash (c ∷ []) = some (c == 47)
ends_in_slash (c ∷ d ∷ ds) = ends_in_slash (d ∷ ds)

-- The name of the file in `fileURL`; the route and the name have 100 bytes each.
unfoldable pub index_of : Text → Option Bool → Outcome Text
index_of route none = broken
index_of route (some false) = returned route
index_of route (some true) = fit 100 (route ++ text "index.html")

-- The file is in a folder, so its name does not begin with the dot.
unfoldable pub with_extension : Text → Option (Text × Text) → Outcome Text
with_extension file none = fit 100 (file ++ text ".html")
with_extension file (some (before, from)) = returned file

unfoldable pub get_file_url : Text → Outcome Text
get_file_url route = do
  let path = before_last 63 route
  path' ← index_of path (ends_in_slash path)
  file ← fit 100 (text "/var/www" ++ path')
  with_extension file (cut_last 46 file)

unfoldable pub mime_of : Text → Text
mime_of extension =
    if same_text extension (text ".html")
    then text "text/html"
    else if same_text extension (text ".css")
    then text "text/css"
    else if same_text extension (text ".js")
    then text "application/js"
    else if same_text extension (text ".jpg")
    then text "image/jpeg"
    else if same_text extension (text ".png")
    then text "image/png"
    else if same_text extension (text ".gif")
    then text "image/gif"
    else text "text/html"

unfoldable pub get_mime_type : Text → Text
get_mime_type file = elim (cut_last 46 file) [
  | none ↦ text "text/html"
  | some (before, from) ↦ mime_of from
]

-- What is sent back: a status with no body, or a header and what follows it.
pub data Reply : Type 0 where
  bad_request not_found no_resource set_done : Reply
  json : Text → Reply
  page : Text → Text → Reply

-- The files by name, and the string that strftime leaves in `timeBuf`. getTimeString gives it the size
-- of a pointer, too small for the time, so what it leaves is not defined: `none` is no string.
pub record Host : Type 0 where
  pub file : Text → Option Text
  pub time : Option Text

-- `timeBuf` has 100 bytes.
unfoldable pub time_string : Option Text → Outcome Text
time_string none = broken
time_string (some time) = fit 100 time

-- The header with its terminator is copied to a buffer of the header's and the file's bytes.
unfoldable pub page_of : Text → Text → Outcome Reply
page_of header contents =
    if leb (length header + length contents) (length header)
    then broken
    else returned (page header contents)

abbrev pub header_of : Text → Text → Text
header_of time mime =
    text "HTTP/1.1 200 OK\r\nDate: "
    ++ (time ++ (text "\r\nContent-Type: " ++ (mime ++ text "\r\n\n")))

unfoldable pub file_handler : Host → Text → Outcome Reply
file_handler host route = do
  name ← get_file_url route
  elim (host.file name) [
    | none ↦ returned not_found
    | some contents ↦ (do
      time ← time_string host.time
      header ← fit 1024 (header_of time (get_mime_type name))
      page_of header contents)
  ]

-- `strncmp(route, SERVICEPREFIX, strlen(SERVICEPREFIX)) == 0`, and what follows.
unfoldable pub after_prefix : Text → Text → Option Text
after_prefix [] route = some route
after_prefix (p ∷ ps) [] = none
after_prefix (p ∷ ps) (c ∷ cs) = if p == c then after_prefix ps cs else none

abbrev pub spaces : Text
spaces = 32 ∷ 9 ∷ 10 ∷ 11 ∷ 12 ∷ 13 ∷ []

module _ (synth : Synth) (printf : Printf) (host : Host) where
  open synth use {State}
  open printf use {atoi}

  -- A value that is asked for with an index that is too large is read from a response never written.
  abbrev value_reply : State × List Control × Option Text → Outcome (State × List Control × Reply)
  value_reply (s, cs, none) = broken
  value_reply (s, cs, some value) = returned (s, cs, json value)

  -- `resource` is "control": `instance` and `value` come after it.
  unfoldable pub control_request :
      State → List Control → List Text → Outcome (State × List Control × Reply)
  control_request s cs [] = do
    (s', cs', response) ← get_control_instances synth printf s cs
    returned (s', cs', json response)
  control_request s cs (instance ∷ []) =
      get_control_instance synth printf s cs (atoi instance) >>= value_reply
  control_request s cs (instance ∷ value ∷ more) = do
    (s', cs') ← set_control_instance synth printf s cs (atoi instance) value
    returned (s', cs', set_done)

  unfoldable pub route_request :
      State → List Control → List Text → Outcome (State × List Control × Reply)
  route_request s cs [] = returned (s, cs, no_resource)
  route_request s cs (resource ∷ more) =
      if same_text resource (text "control")
      then control_request s cs more
      else returned (s, cs, no_resource)

  unfoldable pub service_handler :
      State → List Control → Text → Outcome (State × List Control × Reply)
  service_handler s cs path = route_request s cs (tokens (text "/") path)

  -- The route, and what follows the prefix in it.
  unfoldable pub prefix_request :
      State → List Control → Text → Option Text → Outcome (State × List Control × Reply)
  prefix_request s cs route (some path) = service_handler s cs path
  prefix_request s cs route none = do reply ← file_handler host route; returned (s, cs, reply)

  unfoldable pub get_request : State → List Control → Text → Outcome (State × List Control × Reply)
  get_request s cs route = prefix_request s cs route (after_prefix (text "/service/") route)

  -- The words of a request: a method of 10 bytes and a route of 100. A request of one word leaves the
  -- route unset, which is printed.
  unfoldable pub word_request :
      State → List Control → List Text → Outcome (State × List Control × Reply)
  word_request s cs [] = broken
  word_request s cs (method ∷ []) = broken
  word_request s cs (method ∷ route ∷ more) = do
    method' ← fit 10 method
    route' ← fit 100 route
    if same_text method' (text "GET")
        then get_request s cs route'
        else returned (s, cs, bad_request)

  -- One round of the loop of `main`, for the text of a request.
  unfoldable pub handle_request :
      State → List Control → Text → Outcome (State × List Control × Reply)
  handle_request s cs request = word_request s cs (tokens spaces request)

  -- The loop of `main`, over the requests that come.
  unfoldable pub serve :
      State → List Control → List Text → Outcome (State × List Control × List Reply)
  serve s cs [] = returned (s, cs, [])
  serve s cs (request ∷ requests) = do
    (s', cs', reply) ← handle_request s cs request
    (s'', cs'', replies) ← serve s' cs' requests
    returned (s'', cs'', reply ∷ replies)
