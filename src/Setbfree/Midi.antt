-- ===== src/Setbfree/Midi.antt =====
-- ATTIC/setbfree/src/plugin.c: the ports, and the MIDI message of a parameter.
use soundcan.Base.{
  ℕ, ◌+◌, ◌-◌, ◌%◌, Bool, Option, none, some, List, [], ◌∷◌, ◌++◌, length, get_elem?, leb, ◌==◌,
  ◌&&◌, if◌then◌else◌,
}
use soundcan.Base.Maybe.{◌>>=◌}
use soundcan.Abi.{Int32, natural, negative}

-- `PortEnum`: the last of each group is known by the first of the next.
abbrev pub port_control_first : ℕ
port_control_first = 2

abbrev pub port_control_send_configuration : ℕ
port_control_send_configuration = port_control_first

abbrev pub port_control_preset : ℕ
port_control_preset = 3

abbrev pub port_control_lower_manual_preset : ℕ
port_control_lower_manual_preset = 4

abbrev pub port_control_upper_manual_preset : ℕ
port_control_upper_manual_preset = 5

abbrev pub port_control_random_drawbars : ℕ
port_control_random_drawbars = 6

abbrev pub port_control_first_setting : ℕ
port_control_first_setting = 7

abbrev pub port_control_drawbar_upper : ℕ
port_control_drawbar_upper = 18

abbrev pub port_control_drawbar_lower : ℕ
port_control_drawbar_lower = 27

abbrev pub port_control_drawbar_pedal : ℕ
port_control_drawbar_pedal = 36

abbrev pub port_enum_size : ℕ
port_enum_size = 45

-- `ConvertFuncPtr_t`: NULL, or one of the functions.
pub data Convert : Type 0 where
  no_convert convert_8to0 convert_linear convert_0to1 convert_0to2 convert_0to5 : Convert

-- `Parameter` with its `SetBFreeMidiConfig`. A port is an address, and floats are bit patterns.
pub record Parameter : Type 0 where
  pub port : Option ℕ
  pub last_value : ℕ
  pub channel : ℕ
  pub control : ℕ
  pub convert : Convert

-- What the code uses of floats: products and quotients, the tests `==` and `< 0.5`, and the
-- conversions from an int and to an int or a uint8_t.
pub record FloatOps : Type 0 where
  pub mul : ℕ → ℕ → ℕ
  pub div : ℕ → ℕ → ℕ
  pub equal : ℕ → ℕ → Bool
  pub below_half : ℕ → Bool
  pub of_int : Int32 → ℕ
  pub to_int : ℕ → Int32
  pub to_byte : ℕ → ℕ

-- An int as a uint8_t.
abbrev pub byte_of : Int32 → ℕ
byte_of (natural n) = n % 256
byte_of (negative n) = (256 - n % 256) % 256

-- 127 less an int.
abbrev pub from_127 : Int32 → Int32
from_127 (natural n) = if leb n 127 then natural (127 - n) else negative (n - 127)
from_127 (negative n) = natural (127 + n)

-- The byte that a function converts to, with `to_midi`. `none` is a call of NULL.
module _ (floats : FloatOps) where
  open floats use {mul, div, below_half, of_int, to_int, to_byte}

  unfoldable pub scaled : ℕ → ℕ → Int32
  scaled c n = to_int (div (mul c (of_int (natural 127))) (of_int (natural n)))

  unfoldable pub convert_byte : Convert → ℕ → Option ℕ
  convert_byte no_convert c = none
  convert_byte convert_8to0 c = some (byte_of (from_127 (scaled c 8)))
  convert_byte convert_linear c = some (byte_of (to_int (mul c (of_int (natural 127)))))
  convert_byte convert_0to1 c = some (if below_half c then 0 else 127)
  convert_byte convert_0to2 c = some (byte_of (scaled c 2))
  convert_byte convert_0to5 c = some (byte_of (scaled c 5))

  -- The bytes of the message of a port, if there is one. A slot of the buffer has four bytes, of which
  -- the first is the size; what is behind the size is not sent.
  unfoldable pub signal : ℕ → Parameter → Option (List (List ℕ))
  signal port parameter =
      let value = to_byte parameter.last_value in
      if leb port_control_preset port && leb port port_control_upper_manual_preset
      then some (if value == 0 then [] else ((0xc0 ∷ (value - 1) ∷ []) ∷ []))
      else if port == port_control_random_drawbars
      then some (if value == 0 then [] else ((0xc0 ∷ 54 ∷ []) ∷ []))
      else (convert_byte parameter.convert parameter.last_value >>= λ byte.
          some ((((0xb0 + parameter.channel) % 256) ∷ parameter.control ∷ byte ∷ []) ∷ []))

  -- The buffer has a slot for each port; `none` is a write past it.
  unfoldable pub push : List (List ℕ) → List (List ℕ) → Option (List (List ℕ))
  push msgs new = if leb (length msgs + length new) port_enum_size then some (msgs ++ new) else none

  unfoldable pub write_midi_signal : List Parameter → List (List ℕ) → ℕ → Option (List (List ℕ))
  write_midi_signal parameters msgs port = do
    parameter ← get_elem? parameters port
    new ← signal port parameter
    push msgs new
