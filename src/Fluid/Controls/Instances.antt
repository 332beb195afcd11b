-- ===== src/Fluid/Controls/Instances.antt =====
-- ATTIC/fluidsynth/fluid-ui/fluid-controls.c: the list of the instruments, and the list of the controls
-- in JSON.
use soundcan.Base.{
  ℕ, zero, suc, ◌-◌, Bool, true, false, Option, none, some, List, [], ◌∷◌, ◌++◌, length, take, drop,
  set, get_elem?, leb, ◌==◌, if◌then◌else◌,
}
use soundcan.CText.{Text, text}
use soundcan.Fluid.Outcome.{Outcome, returned, never, broken, ◌>>=◌, fit}
use soundcan.Fluid.Client.{Synth, run_command}
use soundcan.Fluid.Controls.{
  natural, Printf, ValueType, type_bool, type_int, type_float, type_string, Control, read_control,
}

abbrev type_image : ValueType → Text
type_image type_bool = text "boolean"
type_image type_int = text "integer"
type_image type_float = text "float"
type_image type_string = text "string"

-- A row, and what comes after its newline.
unfoldable pub cut_row : Text → Text × Option Text
cut_row [] = ([], none)
cut_row (c ∷ cs) =
    let (row, rest) = cut_row cs in if c == 10 then ([], some cs) else (c ∷ row, rest)

-- strtok with newlines.
unfoldable pub next_row : Text → Option (Text × Option Text)
next_row [] = none
next_row (c ∷ cs) = let next = next_row cs in if c == 10 then next else some (cut_row (c ∷ cs))

abbrev or_empty : Option Text → Text
or_empty none = []
or_empty (some s) = s

-- `sInstrument[7] = '\0'`: the number of an instrument, its name from `sInstrument + 8`, and the text
-- that strtok goes on with. Both indices of a short row are in the rows after it. `none` is a read
-- past the end of the text.
unfoldable pub split_row : Text → Option Text → Option (Text × Text × Text)
split_row row none = if leb 8 (length row) then some (take 7 row, drop 8 row, []) else none
split_row row (some rest) =
    if leb 8 (length row)
    then some (take 7 row, drop 8 row, rest)
    else if length row == 7
    then some (row, rest, rest)
    else if leb (7 - length row) (length rest)
    then some (row, drop (7 - length row) rest, take (6 - length row) rest)
    else none

-- The loop of `initControl`, with the points so far. A row takes a character at least.
unfoldable pub points_from : ℕ → Text → Bool → Text → Outcome Text
points_from zero points comma rest = never
points_from (suc fuel) points comma rest = elim (next_row rest) [
  | none ↦ fit 20000 (points ++ text "]")
  | some (row, after) ↦ elim (split_row row after) [
    | none ↦ broken
    | some (value, symbol, rest') ↦ (do
      with_comma ← fit 20000 (points ++ (if comma then text "," else []))
      instrument ←
          fit 200
            (text "{\"value\":\"" ++ (value ++ (text "\",\"symbol\":\"" ++ (symbol ++ text "\"}"))))
      points' ← fit 20000 (with_comma ++ instrument)
      points_from fuel points' true rest')
  ]
]

unfoldable pub set_points : List Control → Text → List Control
set_points controls points = elim (get_elem? controls 2) [
  | none ↦ controls
  | some control ↦ set controls 2 (record control { points = some points })
]

-- strcat of a record of 20000 bytes to a response of 50000.
abbrev add_piece : Text → Text → Outcome Text
add_piece response piece = do piece' ← fit 20000 piece; fit 50000 (response ++ piece')

-- A field that is NULL is left out.
abbrev add_field : Text → Text → Option Text → Text → Outcome Text
add_field response label none end = returned response
add_field response label (some value) end = add_piece response (label ++ (value ++ end))

module _ (synth : Synth) (printf : Printf) where
  open synth use {State}
  open printf use {int}

  unfoldable pub init_control : State → List Control → Outcome (State × List Control)
  init_control s controls = do
    (s', response) ← run_command synth s (text "inst 1") 5000
    points ← points_from (suc (length response)) (text "[") false response
    returned (s', set_points controls points)

  -- The body of the loop of `getControlInstances`, after the value is read.
  unfoldable pub add_control : Text → ℕ → Control → Outcome Text
  add_control response i control = do
    opened ← fit 50000 (response ++ (if i == 0 then text "{" else text ",{"))
    with_index ← add_piece opened (text "\"index\":" ++ int (natural i))
    with_type ←
        add_field with_index (text ",\"type\":\"") (some (type_image control.type)) (text "\"")
    with_label ← add_field with_type (text ",\"label\":\"") (some control.label) (text "\"")
    with_min ← add_field with_label (text ",\"min\":\"") control.min_value (text "\"")
    with_max ← add_field with_min (text ",\"max\":\"") control.max_value (text "\"")
    with_value ← add_field with_max (text ",\"value\":\"") (some control.read_value) (text "\"")
    with_points ← add_field with_value (text ",\"points\":") control.points []
    fit 50000 (with_points ++ text "}")

  unfoldable pub add_controls :
      State → Text → ℕ → List Control → Outcome (State × List Control × Text)
  add_controls s response i [] = do
    response' ← fit 50000 (response ++ text "]")
    returned (s, [], response')
  add_controls s response i (control ∷ controls) = do
    (s', control') ← read_control synth printf s control control.reader
    response' ← add_control response i control'
    (s'', controls', response'') ← add_controls s' response' (suc i) controls
    returned (s'', control' ∷ controls', response'')

  unfoldable pub get_control_instances :
      State → List Control → Outcome (State × List Control × Text)
  get_control_instances s controls = do
    (s', controls') ← init_control s controls
    add_controls s' (text "[") 0 controls'
