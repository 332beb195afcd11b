-- ===== src/Tests/StateRuns.antt =====
-- A preset that sets a port.
use soundcan.Base.{◌≡◌, refl, arith, some, List, [], ◌∷◌}
use soundcan.CText.{Text, text, same_text, strcmp}
use soundcan.Jalv.Types.{jalv_running}
use soundcan.Jalv.Process.{apply_ui_events}
use soundcan.Jalv.State.{
  Numbers, Shared, port_from, jalv_port_by_symbol, float_value, set_port_value,
}
use soundcan.Jalv.State.Applied.{pause_of, set_port_value-apply_ui_events}
use soundcan.Tests.Layout.{lv2}
use soundcan.Tests.Rings.{Bytes, byte_ring, words}
use soundcan.Tests.ProcessRuns.{process, empty_ring}

abbrev symbols : List Text
symbols = text "gain" ∷ text "level" ∷ []

abbrev numbers : Numbers
numbers = record {
  float = 5;
  double = 6;
  int = 7;
  long = 8;
  of_float = words.get_u32;
  of_double = words.get_u32;
  of_int = words.get_u32;
  of_long = words.get_u32;
}

abbrev shared : Shared Bytes
shared = record {
  process = record process { run_state = jalv_running };
  ui_to_plugin = empty_ring;
  plugin_to_ui = empty_ring;
}

level : jalv_port_by_symbol symbols (text "level") ≡ some 1
unfolding port_from same_text strcmp
level = refl

seventy_seven : float_value numbers 5 (words.put_u32 77) ≡ some 77
unfolding float_value
seventy_seven = refl

set_port_value-apply_ui_events_example :
    ((set_port_value byte_ring words numbers symbols shared
        (text "level")
        (words.put_u32 77)
        5).1.process
      ≡ shared.process)
    × (r : Bytes) × (apply_ui_events byte_ring words lv2
          (set_port_value byte_ring words numbers symbols shared
            (text "level")
            (words.put_u32 77)
            5).1.ui_to_plugin
          shared.process
          4
        ≡ some (
          0,
          r,
          record (shared.process) {
            controls_buf =
                (set_port_value byte_ring words numbers symbols
                  (pause_of shared)
                  (text "level")
                  (words.put_u32 77)
                  5).1.process.controls_buf;
          },
        ))
    × (r.bytes ≡ [])
set_port_value-apply_ui_events_example =
    set_port_value-apply_ui_events byte_ring words lv2 numbers symbols shared (text "level")
      (words.put_u32 77) 5 1 77 4 level seventy_seven refl (omega arith) (omega arith) (omega arith)
      refl (omega arith)
