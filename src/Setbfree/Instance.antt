-- ===== src/Setbfree/Instance.antt =====
-- ATTIC/setbfree/src/plugin.c: a new instance, and its ports.
pub mod Ready
use soundcan.Base.{
  ℕ, zero, suc, ◌+◌, Option, none, some, List, [], ◌∷◌, ◌++◌, set, get_elem?, ltb, if◌then◌else◌,
}
use soundcan.CText.{Text, text, same_text}
use soundcan.Abi.{natural, negative}
use soundcan.Setbfree.Midi.{
  port_control_drawbar_upper, port_control_drawbar_lower, port_control_drawbar_pedal,
  port_control_first, port_enum_size, Convert, no_convert, convert_8to0, convert_linear,
  convert_0to1, convert_0to2, convert_0to5, Parameter, FloatOps,
}

-- `Data`, less the message buffer. A pointer is an address.
pub record ControllerData : Type 0 where
  pub urid_midi_event : ℕ
  pub parameters : List Parameter
  pub port_events_in : Option ℕ
  pub port_events_out : Option ℕ

-- `LV2_Feature`, where the data of a map is the function it maps by, and `none` is NULL.
pub record Feature : Type 0 where
  pub uri : Text
  pub map : Option (Text → ℕ)

unfoldable pub find_map : List Feature → Option (Text → ℕ)
find_map [] = none
find_map (feature ∷ features) =
    let rest = find_map features in
    if same_text feature.uri (text "http://lv2plug.in/ns/ext/urid#map") then feature.map else rest

abbrev config : ℕ → ℕ → Convert → Parameter → Parameter
config channel control convert parameter = record parameter {
  channel = channel;
  control = control;
  convert = convert;
}

abbrev unset : Parameter
unset = record { port = none; last_value = 0; channel = 0; control = 0; convert = no_convert }

-- The nine drawbars of a channel, from a control on.
abbrev drawbars : ℕ → ℕ → ℕ → Parameter → List Parameter
drawbars zero channel control parameter = []
drawbars (suc n) channel control parameter =
    config channel control convert_8to0 parameter ∷ drawbars n channel (suc control) parameter

module _ (floats : FloatOps) where
  open floats use {of_int}

  -- The parameters of a new instance, one for each port: the atom ports, the presets, and the settings.
  unfoldable pub new_parameters : List Parameter
  new_parameters =
      let synced = record unset { last_value = of_int (natural 0) } in
      let fresh = record unset { last_value = of_int (negative 1) } in
      unset
      ∷ unset
      ∷ synced
      ∷ synced
      ∷ synced
      ∷ synced
      ∷ synced
      ∷ config 0 93 convert_linear fresh
      ∷ config 0 91 convert_linear fresh
      ∷ config 0 7 convert_linear fresh
      ∷ config 0 80 convert_0to1 fresh
      ∷ config 0 81 convert_0to1 fresh
      ∷ config 0 82 convert_0to1 fresh
      ∷ config 0 83 convert_0to1 fresh
      ∷ config 0 30 convert_0to1 fresh
      ∷ config 0 31 convert_0to1 fresh
      ∷ config 0 92 convert_0to5 fresh
      ∷ config 0 1 convert_0to2 fresh
      ∷ (drawbars 9 0 70 fresh ++ (drawbars 9 1 70 fresh ++ drawbars 9 2 70 fresh))

  -- `none` is NULL: the host has no map.
  unfoldable pub instantiate : List Feature → Option ControllerData
  instantiate features = elim (find_map features) [
    | none ↦ none
    | some map ↦ some (record {
      urid_midi_event = map (text "http://lv2plug.in/ns/ext/midi#MidiEvent");
      parameters = new_parameters;
      port_events_in = none;
      port_events_out = none;
    })
  ]

-- The parameter of a port is connected; `none` is a port past the array.
unfoldable pub connect_parameter : List Parameter → ℕ → Option ℕ → Option (List Parameter)
connect_parameter parameters port address = elim (get_elem? parameters port) [
  | none ↦ none
  | some parameter ↦ some (set parameters port (record parameter { port = address }))
]

unfoldable pub connect_port : ControllerData → ℕ → Option ℕ → Option ControllerData
connect_port self zero address = some (record self { port_events_in = address })
connect_port self (suc zero) address = some (record self { port_events_out = address })
connect_port self (suc (suc port)) address =
    elim (connect_parameter self.parameters (suc (suc port)) address) [
      | none ↦ none
      | some parameters ↦ some (record self { parameters = parameters })
    ]
