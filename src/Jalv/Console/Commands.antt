-- ===== src/Jalv/Console/Commands.antt =====
-- ATTIC/galv/golang/jalv/jalv_console.c: the commands of the console.
pub mod Kept
use soundcan.Base.{
  ℕ, Bool, true, false, Option, none, some, List, [], ◌∷◌, ◌++◌, set, get_elem?, take, ltb, length,
  ◌==◌, ◌&&◌, ◌||◌, if◌then◌else◌,
}
use soundcan.Base.Maybe.{◌>>=◌}
use soundcan.CText.{Text, text, same_text}
use soundcan.Jalv.State.{jalv_port_by_symbol}
use soundcan.Jalv.Controls.{ControlType, port, property, ControlId}

-- The patterns of sscanf, each with what it takes from a line.
pub record Patterns : Type 0 where
  pub preset : Text → Option Text
  pub set_index : Text → Option (ℕ × ℕ)
  pub set_symbol : Text → Option (Text × ℕ)
  pub symbol_is : Text → Option (Text × ℕ)

-- What the console writes: the help, the presets, an error, or values with their symbols.
pub data Written : Type 0 where
  help presets out_of_range no_control invalid : Written
  values : List (Text × ℕ) → Written

module _ {Node : Type 0} where
  abbrev is_printed : Bool → Bool → ControlId Node → Bool
  is_printed writable readable control = elim control.type [
    | port ↦ control.is_writable && writable || control.is_readable && readable
    | property ↦ false
  ]

  -- `none` is a read past the values.
  unfoldable pub print_controls :
      List (ControlId Node) → List ℕ → Bool → Bool → Option (List (Text × ℕ))
  print_controls [] controls_buf writable readable = some []
  print_controls (control ∷ controls) controls_buf writable readable =
      let rest = print_controls controls controls_buf writable readable in
      if is_printed writable readable control
      then (get_elem? controls_buf control.index >>= λ value.
          rest >>= λ printed. some ((control.symbol, value) ∷ printed))
      else rest

  module _ (patterns : Patterns) (symbols : List Text) (controls : List (ControlId Node))
      (apply_preset : Text → List ℕ → List ℕ) where
    -- The values of controls, with the values as they are.
    abbrev printed : List ℕ → Bool → Bool → Option (List ℕ × Written)
    printed controls_buf writable readable = do
      lines ← print_controls controls controls_buf writable readable
      some (controls_buf, values lines)

    -- A store into the values; `none` is a store past them.
    abbrev store_control : List ℕ → ℕ → ℕ → Option (List ℕ)
    store_control controls_buf index value =
        if ltb index (length controls_buf) then some (set controls_buf index value) else none

    -- A port that is known by its index is set and printed.
    abbrev set_and_print : List ℕ → ℕ → ℕ → Option (List ℕ × Written)
    set_and_print controls_buf index value = do
      stored ← store_control controls_buf index value
      symbol ← get_elem? symbols index
      some (stored, values ((symbol, value) ∷ []))

    abbrev set_by_index : List ℕ → ℕ → ℕ → Option (List ℕ × Written)
    set_by_index controls_buf index value =
        if ltb index (length symbols)
        then set_and_print controls_buf index value
        else some (controls_buf, out_of_range)

    abbrev set_by_symbol : List ℕ → Text → ℕ → Option (List ℕ × Written)
    set_by_symbol controls_buf sym value = elim (jalv_port_by_symbol symbols sym) [
      | none ↦ some (controls_buf, no_control)
      | some index ↦ set_and_print controls_buf index value
    ]

    abbrev or_symbol_is : List ℕ → Option (Text × ℕ) → Option (List ℕ × Written)
    or_symbol_is controls_buf none = some (controls_buf, invalid)
    or_symbol_is controls_buf (some (sym, value)) = set_by_symbol controls_buf sym value

    abbrev or_set_symbol : List ℕ → Text → Option (Text × ℕ) → Option (List ℕ × Written)
    or_set_symbol controls_buf cmd none = or_symbol_is controls_buf (patterns.symbol_is cmd)
    or_set_symbol controls_buf cmd (some (sym, value)) = set_by_symbol controls_buf sym value

    abbrev or_set_index : List ℕ → Text → Option (ℕ × ℕ) → Option (List ℕ × Written)
    or_set_index controls_buf cmd none = or_set_symbol controls_buf cmd (patterns.set_symbol cmd)
    or_set_index controls_buf cmd (some (index, value)) = set_by_index controls_buf index value

    -- A command that is not help, and not about presets.
    abbrev about_controls : List ℕ → Text → Option (List ℕ × Written)
    about_controls controls_buf cmd =
        if same_text cmd (text "controls\n")
        then printed controls_buf true false
        else if same_text cmd (text "monitors\n")
        then printed controls_buf false true
        else or_set_index controls_buf cmd (patterns.set_index cmd)

    abbrev or_preset : List ℕ → Text → Option Text → Option (List ℕ × Written)
    or_preset controls_buf cmd none = about_controls controls_buf cmd
    or_preset controls_buf cmd (some uri) = printed (apply_preset uri controls_buf) true false

    -- The symbols are those of the ports; `none` is an access past an array.
    unfoldable pub jalv_process_command : List ℕ → Text → Option (List ℕ × Written)
    jalv_process_command controls_buf cmd =
        if same_text (take 4 cmd) (text "help")
        then some (controls_buf, help)
        else if same_text cmd (text "presets\n")
        then some (controls_buf, presets)
        else or_preset controls_buf cmd (patterns.preset cmd)

    -- The prompt, over the lines that are read until there are no more or the host is done.
    unfoldable pub run_commands : List ℕ → List Text → Option (List ℕ × List Written)
    run_commands controls_buf [] = some (controls_buf, [])
    run_commands controls_buf (line ∷ lines) = do
      (controls_buf', written) ← jalv_process_command controls_buf line
      (controls_buf'', more) ← run_commands controls_buf' lines
      some (controls_buf'', written ∷ more)
