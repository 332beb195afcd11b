-- ===== src/Tests/FluidRuns.antt =====
-- The web interface of fluidsynth at a synthesizer that answers every command with 0.5.
use soundcan.Base.{
  ◌==◌, ℕ, zero, suc, ◌+◌, ◌-◌, ◌*◌, ◌/◌, ◌%◌, ◌≡◌, ◌≤◌, ◌<◌, refl, arith, none, some, List, [],
  ◌∷◌, ◌++◌, length, inl, ◌⊎◌, set, get_elem?, dec_lt, length-append, ltb, if◌then◌else◌,
}
use soundcan.CText.{Text, text, same_text, strcmp}
use soundcan.Fluid.Outcome.{returned, never, broken, ◌>>=◌, fit}
use soundcan.Fluid.Client.{chunk, pause, stream, Synth, read_all, read_answer, run_command}
use soundcan.Fluid.Client.Reads.{read_all-before_pause}
use soundcan.Fluid.Tokens.{tokens, tokens_from, cut_token, until_delimiter}
use soundcan.Fluid.Controls.{
  Int32, natural, negative, Printf, Control, type_float, get, set_float, set_control_instance,
  write_at, write_instrument, left_value, command_of, send_line,
}
use soundcan.Fluid.Controls.Table.{controls}
use soundcan.Fluid.Controls.Writes.{controls-AllShort, AllShort, set_control_instance-line_of}
use soundcan.Fluid.Server.{
  Host, set_done, page, header_of, page_of, time_string, cut_last, before_last, get_file_url,
  index_of, ends_in_slash, with_extension, get_mime_type, mime_of, word_request, get_request,
  prefix_request, after_prefix, service_handler, route_request, control_request, file_handler,
  handle_request, serve,
}
use soundcan.Fluid.Server.Paths.{has_byte, file_of, get_file_url_broken}
use soundcan.Fluid.Server.Routes.{
  set_request, handle_request-set_request, handle_request-set_request_long,
}

-- The state is the commands so far, the last one first.
abbrev synth : Synth
synth = record {
  State = List Text;
  command = λ s line. (line ∷ s, stream (chunk (text "0.5\n") ∷ pause ∷ []));
}

abbrev parse : ℕ → Text → ℕ
parse n [] = n
parse n (c ∷ cs) = parse (10 * n + (c - 48)) cs

abbrev atoi : Text → Int32
atoi [] = natural 0
atoi (c ∷ cs) = if c == 45 then negative (parse 0 cs) else natural (parse 0 (c ∷ cs))

abbrev digits : ℕ → ℕ → Text
digits zero n = []
digits (suc fuel) n =
    let more = digits fuel (n / 10) in
    if ltb n 10 then (48 + n) ∷ [] else more ++ (48 + n % 10) ∷ []

abbrev int : Int32 → Text
int (natural n) = digits 10 n
int (negative n) = 45 ∷ digits 10 n

abbrev printf : Printf
printf = record { atoi = atoi; float3 = λ s. s; int = int; int3 = int }

abbrev host : Host
host = record { file = λ name. some (text "<p>"); time = some (text "now") }

length-digits : (fuel n : ℕ) → length (digits fuel n) ≤ fuel
length-digits zero n = omega arith
length-digits (suc fuel) n = elim (dec_lt n 10) [
  | yes p ↦ ground arith
  | no p ↦
      let ih = length-digits fuel (n / 10) in
      ground (arith, ih, length-append (digits fuel (n / 10)) ((48 + n % 10) ∷ []))
]

length-int : (n : Int32) → length (int n) ≤ 11
length-int (natural n) = omega (arith, length-digits 10 n)
length-int (negative n) = omega (arith, length-digits 10 n)

abbrev gain : Control
gain = record {
  type = type_float;
  label = text "Gain";
  min_value = some (text "0.0");
  max_value = some (text "1.0");
  points = none;
  read_value = [];
  write_value = [];
  reader = get (text "get synth.gain");
  writer = set_float (text "set synth.gain ");
}

gain_there : get_elem? controls 1 ≡ some gain
unfolding controls
gain_there = refl

read_all-before_pause_example :
    ((4 < 100) × (read_all 100 [] (chunk (text "0.5\n") ∷ pause ∷ []) ≡ returned (text "0.5\n")))
    ⊎ (100 ≤ 4) × (read_all 100 [] (chunk (text "0.5\n") ∷ pause ∷ []) ≡ never)
read_all-before_pause_example =
    read_all-before_pause 100 (chunk (text "0.5\n") ∷ pause ∷ []) (omega arith) tt

set_control_instance-line_of_example :
    (left : Text) × (left ≡ text "0.250")
    × (set_control_instance synth printf [] controls (natural 1) (text "0.250") ≡ (
        send_line synth printf [] (some (text "set synth.gain 0.250")) >>= λ s'.
        returned (s', set controls 1 (record gain { write_value = left }))))
    × AllShort (set controls 1 (record gain { write_value = left }))
set_control_instance-line_of_example =
    set_control_instance-line_of synth printf [] controls 1 gain (text "0.250") controls-AllShort
      gain_there (omega arith) (λ t. length-int (atoi t)) (omega arith)

-- An instrument keeps the bank of the value alone.
bank_kept : left_value write_instrument (text "-001-005") ≡ text "-001"
unfolding left_value cut_token until_delimiter
bank_kept = refl

no_path : length (before_last 63 (text "?/index.html")) ≡ 0
unfolding cut_last
no_path = refl

index_named : get_file_url (text "/") ≡ returned (text "/var/www/index.html")
unfolding get_file_url cut_last index_of ends_in_slash with_extension fit
index_named = refl

-- A dot in a folder's name counts as an extension.
folder_with_dot : file_of (text "/v1.0/about") ≡ text "/var/www/v1.0/about"
unfolding has_byte
folder_with_dot = refl

get_file_url_broken_example : get_file_url (text "?/index.html") ≡ broken
get_file_url_broken_example = get_file_url_broken (text "?/index.html") (inl no_path)

-- The page of a folder, where strftime has left a time.
index_sent :
    file_handler host (text "/")
    ≡ returned (page (header_of (text "now") (text "text/html")) (text "<p>"))
unfolding file_handler time_string page_of get_file_url cut_last index_of ends_in_slash
    with_extension fit get_mime_type mime_of same_text strcmp
index_sent = refl

handle_request-set_request_example :
    handle_request synth printf host [] controls (set_request (text "1") (text "0.250")) ≡ (
      set_control_instance synth printf [] controls (natural 1) (text "0.250") >>= λ (s', cs').
      returned (s', cs', set_done))
handle_request-set_request_example =
    handle_request-set_request synth printf host [] controls (text "1") (text "0.250") (refl, tt)
      (refl, (refl, (refl, (refl, (refl, tt))))) (refl, tt)
      (refl, (refl, (refl, (refl, (refl, tt))))) (omega arith)

abbrev long_value : Text
long_value = text "0.2500000000000000000000000000"

handle_request-set_request_long_example :
    handle_request synth printf host [] controls (set_request (text "1") long_value) ≡ broken
handle_request-set_request_long_example =
    handle_request-set_request_long synth printf host [] controls (text "1") long_value 1 gain
      (refl, tt)
      (
        refl,
        (
          refl,
          (
            refl,
            (
              refl,
              (
                refl,
                (
                  refl,
                  (
                    refl,
                    (
                      refl,
                      (
                        refl,
                        (
                          refl,
                          (
                            refl,
                            (
                              refl,
                              (
                                refl,
                                (
                                  refl,
                                  (
                                    refl,
                                    (
                                      refl,
                                      (
                                        refl,
                                        (
                                          refl,
                                          (
                                            refl,
                                            (
                                              refl,
                                              (
                                                refl,
                                                (
                                                  refl,
                                                  (
                                                    refl,
                                                    (
                                                      refl,
                                                      (
                                                        refl,
                                                        (refl, (refl, (refl, (refl, (refl, tt))))),
                                                      ),
                                                    ),
                                                  ),
                                                ),
                                              ),
                                            ),
                                          ),
                                        ),
                                      ),
                                    ),
                                  ),
                                ),
                              ),
                            ),
                          ),
                        ),
                      ),
                    ),
                  ),
                ),
              ),
            ),
          ),
        ),
      )
      (refl, tt)
      (
        refl,
        (
          refl,
          (
            refl,
            (
              refl,
              (
                refl,
                (
                  refl,
                  (
                    refl,
                    (
                      refl,
                      (
                        refl,
                        (
                          refl,
                          (
                            refl,
                            (
                              refl,
                              (
                                refl,
                                (
                                  refl,
                                  (
                                    refl,
                                    (
                                      refl,
                                      (
                                        refl,
                                        (
                                          refl,
                                          (
                                            refl,
                                            (
                                              refl,
                                              (
                                                refl,
                                                (
                                                  refl,
                                                  (
                                                    refl,
                                                    (
                                                      refl,
                                                      (
                                                        refl,
                                                        (refl, (refl, (refl, (refl, (refl, tt))))),
                                                      ),
                                                    ),
                                                  ),
                                                ),
                                              ),
                                            ),
                                          ),
                                        ),
                                      ),
                                    ),
                                  ),
                                ),
                              ),
                            ),
                          ),
                        ),
                      ),
                    ),
                  ),
                ),
              ),
            ),
          ),
        ),
      )
      (omega arith) refl gain_there (omega arith)

serve_run :
    serve synth printf host [] controls (set_request (text "1") (text "0.250") ∷ [])
    ≡ returned (
      text "set synth.gain 0.250" ∷ [],
      set controls 1 (record gain { write_value = text "0.250" }),
      set_done ∷ [],
    )
unfolding serve handle_request word_request get_request prefix_request after_prefix service_handler
    route_request control_request set_control_instance write_at command_of send_line run_command
    read_answer read_all controls fit left_value tokens tokens_from same_text strcmp
serve_run = refl
