-- ===== src/Lph/Ports.antt =====
-- ATTIC/lv2-pw-host/lph/ports.c and lph.c: the kinds of the ports, and a cycle over them.
use soundcan.Base.{
  ℕ, suc, ◌+◌, Bool, Option, none, some, List, [], ◌∷◌, length, ltb, ◌&&◌, if◌then◌else◌,
}
use soundcan.Base.Maybe.{◌>>=◌}
use soundcan.CText.{Text}

-- `lph_port_type`
pub data LphPortType : Type 0 where
  control_input control_output audio_input audio_output atom_input atom_output : LphPortType

-- `lph_port` after init_ports: the type stands for the methods, and `none` for a port that only has
-- those that do nothing, and no `setup`.
pub record LphPort : Type 0 where
  pub index : ℕ
  pub name : Text
  pub type : Option LphPortType

-- What lilv answers about a port.
pub record LphAnswers : Type 0 where
  pub symbol : Text
  pub is_atom_port : Bool
  pub is_control_port : Bool
  pub is_audio_port : Bool
  pub lv2_input : Bool
  pub lv2_output : Bool

unfoldable pub lph_type : LphAnswers → Option LphPortType
lph_type answers =
    if answers.is_atom_port && answers.lv2_input
    then some atom_input
    else if answers.is_atom_port && answers.lv2_output
    then some atom_output
    else if answers.is_control_port && answers.lv2_input
    then some control_input
    else if answers.is_control_port && answers.lv2_output
    then some control_output
    else if answers.is_audio_port && answers.lv2_input
    then some audio_input
    else if answers.is_audio_port && answers.lv2_output
    then some audio_output
    else none

-- A port has an element of an array of 100, and its name an array of 100 bytes; `none` is a write past
-- either.
unfoldable pub init_port : ℕ → LphAnswers → Option LphPort
init_port n answers =
    if ltb n 100 && ltb (length answers.symbol) 100
    then some (record { index = n; name = answers.symbol; type = lph_type answers })
    else none

unfoldable pub init_ports_from : ℕ → List LphAnswers → Option (List LphPort)
init_ports_from n [] = some []
init_ports_from n (answers ∷ more) = do
  port ← init_port n answers
  ports ← init_ports_from (suc n) more
  some (port ∷ ports)

unfoldable pub init_ports : List LphAnswers → Option (List LphPort)
init_ports answers = init_ports_from 0 answers

-- The calls of `setup`; `none` is a call of NULL.
unfoldable pub setup_all : List LphPort → Option (List LphPortType)
setup_all [] = some []
setup_all (port ∷ ports) = do type ← port.type; types ← setup_all ports; some (type ∷ types)

module _ {State : Type 0} where
  unfoldable pub each_port : (State → LphPort → State) → State → List LphPort → State
  each_port method s [] = s
  each_port method s (port ∷ ports) = each_port method (method s port) ports

  -- A cycle of `n_samples` samples at `denom` samples a second: `pre_run` of each port gets the time
  -- of its first sample, the plugin runs, and then comes `post_run` of each. The clock is an int64_t
  -- that does not overflow.
  unfoldable pub on_process :
      (ℕ → ℕ → ℕ → State → LphPort → State)
      → (ℕ → State → State)
      → (State → LphPort → State)
      → List LphPort
      → ℕ
      → ℕ
      → ℕ
      → State
      → ℕ × State
  on_process pre_run run post_run ports clock_time denom n_samples s = (
    clock_time + n_samples,
    each_port post_run (run n_samples (each_port (pre_run clock_time denom n_samples) s ports))
        ports,
  )
