-- ===== src/Setbfree/Instance/Ready.antt =====
-- A new instance with its ports connected.
use soundcan.Base.{ℕ, zero, suc, ◌≡◌, refl, ap, arith, Option, true, none, some, List, drop, length}
use soundcan.Base.Maybe.{◌>>=◌}
use soundcan.CText.{Text, text}
use soundcan.Setbfree.Midi.{FloatOps}
use soundcan.Setbfree.Run.Sent.{ready_from}
use soundcan.Setbfree.Instance.{
  ControllerData, Feature, find_map, instantiate, new_parameters, connect_parameter, connect_port,
}

-- `n` ports, from `port` on, each connected to its address.
abbrev connect_ports : ℕ → ℕ → (ℕ → ℕ) → ControllerData → Option ControllerData
connect_ports zero port addresses plugin = some plugin
connect_ports (suc n) port addresses plugin =
    connect_port plugin port (some (addresses port)) >>= connect_ports n (suc port) addresses

abbrev new_instance : FloatOps → (Text → ℕ) → ControllerData
new_instance floats map = record {
  urid_midi_event = map (text "http://lv2plug.in/ns/ext/midi#MidiEvent");
  parameters = new_parameters floats;
  port_events_in = none;
  port_events_out = none;
}

instantiate-new_instance :
    (floats : FloatOps) (features : List Feature) (map : Text → ℕ)
    → find_map features ≡ some map
    → instantiate floats features ≡ some (new_instance floats map)
unfolding instantiate
instantiate-new_instance floats features map h = ground (arith, h)

-- A host that has a map of URIs gets an instance, in which the 45 ports can be connected, wherever; then
-- the parameters are as the cycles of the plugin need them.
instantiate-connect_ports :
    (floats : FloatOps) (features : List Feature) (map : Text → ℕ) (addresses : ℕ → ℕ)
    → find_map features ≡ some map
    → (plugin : ControllerData) × ((instantiate floats features >>= connect_ports 45 0 addresses)
        ≡ some plugin)
      × (length plugin.parameters ≡ 45)
      × (ready_from 2 (drop 2 plugin.parameters) ≡ true)
unfolding new_parameters connect_port connect_parameter
instantiate-connect_ports floats features map addresses h = (
  _,
  ap (λ o. o >>= connect_ports 45 0 addresses) (instantiate-new_instance floats features map h),
  refl,
  refl,
)
