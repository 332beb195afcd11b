-- ===== src/Fluid/Server/Routes.antt =====
-- Requests for the controls.
use soundcan.Base.{
  ℕ, ◌+◌, ◌≡◌, ◌≤◌, refl, arith, some, List, [], ◌∷◌, ◌++◌, length, get_elem?, length-append,
}
use soundcan.CText.{Text, text, same_text, strcmp}
use soundcan.Fluid.Outcome.{returned, broken, ◌>>=◌, fit}
use soundcan.Fluid.Tokens.Join.{Free, Word, join, tokens-join, Free-append}
use soundcan.Fluid.Client.{Synth}
use soundcan.Fluid.Controls.{Printf, natural, Control, set_control_instance}
use soundcan.Fluid.Controls.Writes.{set_control_instance_long}
use soundcan.Fluid.Server.{
  Host, set_done, spaces, after_prefix, route_request, control_request, service_handler,
  get_request, prefix_request, word_request, handle_request,
}

-- What the page asks for.
abbrev pub set_path : Text → Text → Text
set_path instance value = join 47 (text "control" ∷ instance ∷ value ∷ [])

abbrev pub set_request : Text → Text → Text
set_request instance value =
    join 32 (text "GET" ∷ (text "/service/" ++ set_path instance value) ∷ text "HTTP/1.1" ∷ [])

set_path-Free :
    (instance value : Text)
    → Free spaces instance
    → Free spaces value
    → Free spaces (text "/service/" ++ set_path instance value)
set_path-Free instance value i v =
    let tail = Free-append spaces instance (47 ∷ value) i (refl, v) in
    Free-append spaces (text "/service/control/") (instance ++ 47 ∷ value)
      (
        refl,
        (
          refl,
          (
            refl,
            (
              refl,
              (
                refl,
                (
                  refl,
                  (
                    refl,
                    (
                      refl,
                      (refl, (refl, (refl, (refl, (refl, (refl, (refl, (refl, (refl, tt))))))))),
                    ),
                  ),
                ),
              ),
            ),
          ),
        ),
      )
      tail

module _ (synth : Synth) (printf : Printf) (host : Host) (s : synth.State) (cs : List Control) where
  get_request-set_path :
      (instance value : Text)
      → Word (text "/") instance
      → Word (text "/") value
      → get_request synth printf host s cs (text "/service/" ++ set_path instance value) ≡ (
          set_control_instance synth printf s cs (printf.atoi instance) value >>= λ (s', cs').
          returned (s', cs', set_done))
  unfolding get_request prefix_request after_prefix service_handler route_request control_request
      same_text strcmp
  get_request-set_path instance value wi wv =
      let parts =
        tokens-join (text "/") 47 (text "control" ∷ instance ∷ value ∷ []) refl
          ((refl, (refl, (refl, (refl, (refl, (refl, (refl, tt))))))), (wi, (wv, tt))) in
      ground (arith, parts)

  -- A request to set a control, with an instance and a value of 81 bytes at most together and with no
  -- space or slash in either, sets that control to the value.
  pub handle_request-set_request :
      (instance value : Text)
      → Word (text "/") instance
      → Word (text "/") value
      → Free spaces instance
      → Free spaces value
      → length instance + length value ≤ 81
      → handle_request synth printf host s cs (set_request instance value) ≡ (
          set_control_instance synth printf s cs (printf.atoi instance) value >>= λ (s', cs').
          returned (s', cs', set_done))
  unfolding handle_request word_request fit same_text strcmp
  handle_request-set_request instance value wi wv fi fv short =
      let route = text "/service/" ++ set_path instance value in
      let words = tokens-join spaces 32 (text "GET" ∷ route ∷ text "HTTP/1.1" ∷ []) refl (
        (refl, (refl, (refl, tt))),
        (
          set_path-Free instance value fi fv,
          ((refl, (refl, (refl, (refl, (refl, (refl, (refl, (refl, tt)))))))), tt),
        ),
      ) in
      let n = length-append instance (47 ∷ value) in
      ground (arith, words, n, get_request-set_path instance value wi wv)

  -- Such a request with a value of 30 bytes or more, for a control that is there, makes the server
  -- write past the 30 bytes of the control's `writeValue`.
  pub handle_request-set_request_long :
      (instance value : Text) (i : ℕ) (control : Control)
      → Word (text "/") instance
      → Word (text "/") value
      → Free spaces instance
      → Free spaces value
      → length instance + length value ≤ 81
      → printf.atoi instance ≡ natural i
      → get_elem? cs i ≡ some control
      → 30 ≤ length value
      → handle_request synth printf host s cs (set_request instance value) ≡ broken
  handle_request-set_request_long instance value i control wi wv fi fv short index there long =
      let handled = handle_request-set_request instance value wi wv fi fv short in
      let past = set_control_instance_long synth printf s cs i control value there long in
      ground (arith, handled, index, past)
