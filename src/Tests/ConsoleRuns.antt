-- ===== src/Tests/ConsoleRuns.antt =====
-- Lines for the console of a plugin with one control.
use soundcan.Base.{
  ℕ, ◌≡◌, refl, arith, ◌==◌, if◌then◌else◌, true, false, none, some, List, [], ◌∷◌, length,
}
use soundcan.CText.{Text, text, same_text, strcmp}
use soundcan.Jalv.Controls.{port, ControlId}
use soundcan.Jalv.Console.Commands.{
  Patterns, Written, values, out_of_range, help, print_controls, jalv_process_command, run_commands,
}
use soundcan.Jalv.Console.Commands.Kept.{run_commands-returns}

abbrev gain : ControlId ℕ
gain = record {
  type = port;
  node = text "g";
  symbol = text "gain";
  label = none;
  property_urid = 0;
  index = 0;
  group = none;
  points = [];
  value_type = 7;
  min = none;
  max = none;
  def = none;
  is_toggle = false;
  is_integer = false;
  is_enumeration = false;
  is_logarithmic = false;
  is_writable = true;
  is_readable = false;
}

-- A line of five characters names the port, and one of six a port that is not there.
abbrev patterns : Patterns
patterns = record {
  preset = λ line. none;
  set_index = λ line.
      if length line == 5 then some (0, 77) else if length line == 6 then some (3, 77) else none;
  set_symbol = λ line. none;
  symbol_is = λ line. none;
}

abbrev lines : List Text
lines = text "set g" ∷ text "set no" ∷ text "controls\n" ∷ text "help\n" ∷ []

run_of_lines :
    run_commands patterns (text "gain" ∷ []) (gain ∷ []) (λ uri buf. buf) (1 ∷ []) lines
    ≡ some (
      77 ∷ [],
      values ((text "gain", 77) ∷ []) ∷ out_of_range ∷ values ((text "gain", 77) ∷ []) ∷ help ∷ [],
    )
unfolding run_commands jalv_process_command print_controls same_text strcmp
run_of_lines = refl

run_commands-returns_example :
    (controls_buf' : List ℕ) × (replies : List Written) × (run_commands patterns
        (text "gain" ∷ [])
        (gain ∷ [])
        (λ uri buf. buf)
        (1 ∷ [])
        lines
      ≡ some (controls_buf', replies))
    × (length controls_buf' ≡ 1)
    × (length replies ≡ 4)
run_commands-returns_example =
    run_commands-returns patterns (text "gain" ∷ []) (gain ∷ []) (λ uri buf. buf) (1 ∷ []) lines
      refl (λ uri buf. refl) (omega arith, tt)
