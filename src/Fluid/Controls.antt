-- ===== src/Fluid/Controls.antt =====
-- ATTIC/fluidsynth/fluid-ui/fluid-controls.c: the controls of the synthesizer and their values.
pub mod Instances
pub mod Table
pub mod Writes
use soundcan.Base.{
  ℕ, zero, suc, ◌+◌, Bool, true, false, Option, none, some, List, [], ◌∷◌, ◌++◌, length, set,
  get_elem?, leb, if◌then◌else◌,
}
pub use soundcan.Abi.{Int32, natural, negative}
use soundcan.CText.{Text, text, same_text}
use soundcan.Fluid.Outcome.{Outcome, returned, never, broken, ◌>>=◌, fit}
use soundcan.Fluid.Tokens.{tokens, first_of, cut_token}
use soundcan.Fluid.Client.{Synth, run_command}

-- atoi, and what sprintf prints: `float3` for "%.3f" of atof of a text, `int` for "%d", `int3` for
-- "%03d".
pub record Printf : Type 0 where
  pub atoi : Text → Int32
  pub float3 : Text → Text
  pub int : Int32 → Text
  pub int3 : Int32 → Text

-- `ValueType`, less the end mark.
pub data ValueType : Type 0 where
  type_bool type_int type_float type_string : ValueType

-- The `readFunc` of a control: most read a value by a command.
pub data Reader : Type 0 where
  get : Text → Reader
  read_instrument : Reader

-- Its `writeFunc`: most set a value by a command.
pub data Writer : Type 0 where
  write_nothing write_instrument : Writer
  set_float set_int : Text → Writer

-- `control_t`
pub record Control : Type 0 where
  pub type : ValueType
  pub label : Text
  pub min_value : Option Text
  pub max_value : Option Text
  pub points : Option Text
  pub read_value : Text
  pub write_value : Text
  pub reader : Reader
  pub writer : Writer

abbrev pub newline : Text
newline = 10 ∷ []

-- `readValue` has 30 bytes.
unfoldable pub set_read_value : Control → Option Text → Outcome Control
set_read_value control none = returned (record control { read_value = text "NULL" })
set_read_value control (some value) = do
  value' ← fit 30 value
  returned (record control { read_value = value' })

module _ (printf : Printf) where
  open printf use {atoi, float3, int, int3}

  -- The columns of a row of `channels -verbose`, with the bank and the preset so far.
  unfoldable pub read_columns : List Text → Int32 → Int32 → Outcome (Int32 × Int32)
  read_columns [] bank preset = returned (bank, preset)
  read_columns (column ∷ []) bank preset =
      if same_text column (text "bank")
      then broken
      else if same_text column (text "preset")
      then broken
      else returned (bank, preset)
  read_columns (column ∷ next ∷ columns) bank preset =
      let with_bank = read_columns columns (atoi next) preset in
      let with_preset = read_columns columns bank (atoi next) in
      let other = read_columns (next ∷ columns) bank preset in
      if same_text column (text "bank")
      then with_bank
      else if same_text column (text "preset")
      then with_preset
      else other

  -- The first row of the response.
  unfoldable pub instrument_of : Text → Outcome (Int32 × Int32)
  instrument_of response = elim (first_of (tokens newline response)) [
    | none ↦ returned (negative 1, negative 1)
    | some row ↦ read_columns (tokens (text " ,") row) (negative 1) (negative 1)
  ]

  -- `writeInstrument`, of what stands between the dashes; a command has 50 bytes.
  unfoldable pub select_command : List Text → Outcome (Option Text)
  select_command (bank ∷ preset ∷ more) = do
    line ← fit 50 (text "select 0 1 " ++ (int (atoi bank) ++ (text " " ++ int (atoi preset))))
    returned (some line)
  select_command _ = returned none

  -- The command of a writer. `none` is no command.
  unfoldable pub command_of : Writer → Text → Outcome (Option Text)
  command_of write_nothing value = returned none
  command_of (set_float name) value = do line ← fit 50 (name ++ float3 value); returned (some line)
  command_of (set_int name) value = do
    line ← fit 50 (name ++ int (atoi value))
    returned (some line)
  command_of write_instrument value = select_command (tokens (text "-") value)

-- What a writer leaves in `writeValue`: `writeInstrument` splits it there.
unfoldable pub left_value : Writer → Text → Text
left_value write_instrument value = cut_token (text "-") value
left_value _ value = value

module _ (synth : Synth) (printf : Printf) where
  open synth use {State}
  open printf use {int3}

  -- A call of `readFunc`.
  unfoldable pub read_control : State → Control → Reader → Outcome (State × Control)
  read_control s control (get line) = do
    (s', response) ← run_command synth s line 100
    control' ← set_read_value control (first_of (tokens newline response))
    returned (s', control')
  read_control s control read_instrument = do
    (s', response) ← run_command synth s (text "channels -verbose") 1000
    (bank, preset) ← instrument_of printf response
    value ← fit 30 (int3 bank ++ (text "-" ++ int3 preset))
    returned (s', record control { read_value = value })

  -- A command whose response is dropped.
  unfoldable pub send_line : State → Option Text → Outcome State
  send_line s none = returned s
  send_line s (some line) = do (s', response) ← run_command synth s line 100; returned s'

  -- The control that `index` finds is read. The response stays as it was, `none`, where there is none.
  unfoldable pub read_at :
      State → List Control → ℕ → Option Control → Outcome (State × List Control × Option Text)
  read_at s controls i none = returned (s, controls, none)
  read_at s controls i (some control) = do
    (s', control') ← read_control s control control.reader
    returned (s', set controls i control', some control'.read_value)

  -- An index below 0 is outside the array.
  unfoldable pub get_control_instance :
      State → List Control → Int32 → Outcome (State × List Control × Option Text)
  get_control_instance s controls (negative n) = broken
  get_control_instance s controls (natural i) = read_at s controls i (get_elem? controls i)

  -- The control that `index` finds is set; `writeValue` has 30 bytes.
  unfoldable pub write_at :
      State → List Control → ℕ → Text → Option Control → Outcome (State × List Control)
  write_at s controls i value none = returned (s, controls)
  write_at s controls i value (some control) = do
    value' ← fit 30 value
    line ← command_of printf control.writer value'
    s' ← send_line s line
    returned
        (s', set controls i (record control { write_value = left_value control.writer value' }))

  unfoldable pub set_control_instance :
      State → List Control → Int32 → Text → Outcome (State × List Control)
  set_control_instance s controls (negative n) value = broken
  set_control_instance s controls (natural i) value =
      write_at s controls i value (get_elem? controls i)
