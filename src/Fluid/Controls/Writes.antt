-- ===== src/Fluid/Controls/Writes.antt =====
-- What the setting of a control does.
use mathlib.Core.Path.{subst}
use mathlib.Core.Option.{some-injective}
use soundcan.Base.{
  ℕ, ◌≡◌, ◌≤◌, ◌<◌, refl, arith, true, Option, none, some, List, [], ◌∷◌, ◌++◌, zero, suc, length,
  set, get_elem?, length-append, leb, leb→le,
}
use soundcan.CText.{Text, text}
use soundcan.Fluid.Outcome.{returned, broken, ◌>>=◌, fit, fit_fits}
use soundcan.Fluid.Tokens.{tokens}
use soundcan.Fluid.Tokens.Cut.{IsCut, cut_token-IsCut}
use soundcan.Fluid.Client.{Synth}
use soundcan.Fluid.Controls.{
  natural, Printf, Writer, write_nothing, write_instrument, set_float, set_int, Control, command_of,
  select_command, send_line, left_value, write_at, set_control_instance,
}
use soundcan.Fluid.Controls.Table.{controls}

-- The command of a writer has 27 bytes at most before its number.
abbrev Short : Writer → Type 0
Short (set_float name) = leb (length name) 27 ≡ true
Short (set_int name) = leb (length name) 27 ≡ true
Short _ = Unit {0}

abbrev pub AllShort : List Control → Type 0
AllShort [] = Unit {0}
AllShort (control ∷ controls) = Short control.writer × AllShort controls

-- The controls of the table are such.
pub controls-AllShort : AllShort controls
unfolding controls
controls-AllShort = (
  tt,
  (refl, (tt, (refl, (refl, (refl, (refl, (refl, (refl, (refl, (refl, (refl, (refl, tt)))))))))))),
)

get-Short :
    (cs : List Control) (i : ℕ) (control : Control)
    → AllShort cs
    → get_elem? cs i ≡ some control
    → Short control.writer
get-Short [] i control w h = ground arith
get-Short (c ∷ cs) zero control (w, ws) h =
    subst (λ c. Short c.writer) (some-injective c control h) w
get-Short (c ∷ cs) (suc i) control (w, ws) h = get-Short cs i control ws h

-- The line of a writer's command, whatever its length.
abbrev pub select_line : Printf → List Text → Option Text
select_line printf (bank ∷ preset ∷ more) = some (
    text "select 0 1 "
    ++ (printf.int (printf.atoi bank) ++ (text " " ++ printf.int (printf.atoi preset))))
select_line printf _ = none

abbrev pub line_of : Printf → Writer → Text → Option Text
line_of printf write_nothing value = none
line_of printf (set_float name) value = some (name ++ printf.float3 value)
line_of printf (set_int name) value = some (name ++ printf.int (printf.atoi value))
line_of printf write_instrument value = select_line printf (tokens (text "-") value)

module _ (printf : Printf) (int_short : (t : Text) → length (printf.int (printf.atoi t)) ≤ 11) where
  select_command-select_line :
      (parts : List Text) → select_command printf parts ≡ returned (select_line printf parts)
  unfolding select_command fit
  select_command-select_line [] = refl
  select_command-select_line (bank ∷ []) = refl
  select_command-select_line (bank ∷ preset ∷ more) =
      let b = int_short bank in
      let p = int_short preset in
      let l =
        length-append (printf.int (printf.atoi bank))
          (text " " ++ printf.int (printf.atoi preset)) in
      ground (arith, b, p, l)

  command_of-line_of :
      (writer : Writer) (value : Text)
      → Short writer
      → length (printf.float3 value) ≤ 22
      → command_of printf writer value ≡ returned (line_of printf writer value)
  unfolding command_of fit
  command_of-line_of write_nothing value w f = refl
  command_of-line_of (set_float name) value w f =
      ground (arith, leb→le (length name) 27 w, length-append name (printf.float3 value))
  command_of-line_of (set_int name) value w f = ground (
    arith,
    leb→le (length name) 27 w,
    int_short value,
    length-append name (printf.int (printf.atoi value)),
  )
  command_of-line_of write_instrument value w f =
      select_command-select_line (tokens (text "-") value)

set-AllShort :
    (cs : List Control) (i : ℕ) (control : Control)
    → AllShort cs
    → Short control.writer
    → AllShort (set cs i control)
set-AllShort [] i control w h = w
set-AllShort (c ∷ cs) zero control (w, ws) h = (h, ws)
set-AllShort (c ∷ cs) (suc i) control (w, ws) h = (w, set-AllShort cs i control ws h)

-- What a control keeps of a value: an instrument its part before the dash, every other one all of it.
abbrev pub Keeps : Writer → Text → Text → Type 0
Keeps write_instrument value left = IsCut (text "-") value left
Keeps _ value left = left ≡ value

left_value-Keeps : (writer : Writer) (value : Text) → Keeps writer value (left_value writer value)
unfolding left_value
left_value-Keeps write_nothing value = refl
left_value-Keeps write_instrument value = cut_token-IsCut (text "-") value
left_value-Keeps (set_float name) value = refl
left_value-Keeps (set_int name) value = refl

-- Where the names in the commands have 27 bytes at most, an int prints as 11 and the value as 22 at
-- most: a value of less than 30 bytes for a control that is there has its command sent whole, whatever
-- fluidsynth answers. The control keeps the value, and the instrument the part of it that ends with
-- the first run of characters other than dashes. The names stay as short.
pub set_control_instance-line_of :
    (synth : Synth) (printf : Printf) (s : synth.State) (cs : List Control) (i : ℕ)
    (control : Control) (value : Text)
    → AllShort cs
    → get_elem? cs i ≡ some control
    → length value < 30
    → ((t : Text) → length (printf.int (printf.atoi t)) ≤ 11)
    → length (printf.float3 value) ≤ 22
    → (left : Text) × Keeps control.writer value left
      × (set_control_instance synth printf s cs (natural i) value ≡ (
          send_line synth printf s (line_of printf control.writer value) >>= λ s'.
          returned (s', set cs i (record control { write_value = left }))))
      × AllShort (set cs i (record control { write_value = left }))
unfolding set_control_instance write_at
set_control_instance-line_of synth printf s cs i control value w h small int_short float_short =
    let short = get-Short cs i control w h in
    let fits = fit_fits 30 value small in
    let line = command_of-line_of printf int_short control.writer value short float_short in
    let left = left_value control.writer value in
    (
      left,
      left_value-Keeps control.writer value,
      ground (arith, h, fits, line),
      set-AllShort cs i (record control { write_value = left }) w short,
    )

-- A value of 30 bytes or more for a control that is there is written past the 30 bytes of `writeValue`.
pub set_control_instance_long :
    (synth : Synth) (printf : Printf) (s : synth.State) (cs : List Control) (i : ℕ)
    (control : Control) (value : Text)
    → get_elem? cs i ≡ some control
    → 30 ≤ length value
    → set_control_instance synth printf s cs (natural i) value ≡ broken
unfolding set_control_instance write_at fit
set_control_instance_long synth printf s cs i control value h long = ground (arith, h)
