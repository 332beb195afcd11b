-- ===== src/Tests/UiRuns.antt =====
-- The console's options, and what the UI is told.
use soundcan.Base.{◌≡◌, refl, arith, false, true, none, some, List, [], ◌∷◌, ◌++◌, length}
use soundcan.CText.{Text, text}
use soundcan.Jalv.Console.{Settings, parsed, early_exit, jalv_frontend_init}
use soundcan.Jalv.Console.Options.{
  Item, show_ui, control, name, command_line, effects, effect, before, gives_control,
  jalv_frontend_init-command_line,
}
use soundcan.Jalv.Comm.Sends.{event}
use soundcan.Jalv.Setup.{LilvPort, absent, buf_size_of, jalv_create_ports}
use soundcan.Jalv.Update.{jalv_update}
use soundcan.Jalv.Update.Read.{Told, message, latency, told_bytes, all_told}
use soundcan.Jalv.Update.Small.{create_ports-jalv_update}
use soundcan.Tests.Rings.{Bytes, byte_ring, words}
use soundcan.Tests.HostRuns.{jalv, keys_in}

abbrev defaults : Settings
defaults = record {
  name = none;
  name_exact = false;
  load = none;
  controls = [];
  ring_size = 0;
  dump = false;
  trace = false;
  show_ui = false;
  print_controls = false;
  non_interactive = false;
  ui_uri = none;
}

abbrev items : List Item
items = show_ui ∷ control (text "vol=1.4") ∷ name (text "-n") ∷ []

-- Settings that have a control.
abbrev with_controls : Settings
with_controls = record defaults { controls = text "old=1" ∷ [] }

abbrev plugin : List Text
plugin = text "urn:plugin" ∷ []

jalv_frontend_init-command_line_example :
    (jalv_frontend_init length true (text "jalv" ∷ command_line items plugin) with_controls
      ≡ parsed (effects length items (before items with_controls)) plugin)
    × (jalv_frontend_init length true
          (text "jalv" ∷ command_line items (text "-h" ∷ plugin))
          with_controls
        ≡ early_exit)
    × (jalv_frontend_init length true
          (text "jalv" ∷ command_line items (text "-V" ∷ plugin))
          with_controls
        ≡ early_exit)
jalv_frontend_init-command_line_example =
    jalv_frontend_init-command_line length (text "jalv") items plugin plugin with_controls refl

-- The options that the items stand for.
effects_of_items :
    effects length items (before items with_controls)
    ≡ record defaults { show_ui = true; controls = text "vol=1.4" ∷ []; name = some (text "-n") }
unfolding effects effect before gives_control
effects_of_items = refl

abbrev things : List Told
things = message (event 1 9 (1 ∷ 2 ∷ [])) ∷ latency 64 ∷ []

abbrev told_ring : Bytes
told_ring = record { bytes = all_told words things; room = 10 }

abbrev any_size : LilvPort
any_size = record keys_in { minimum_size = absent }

asks_nothing : buf_size_of absent ≡ 0
unfolding buf_size_of
asks_nothing = refl

abbrev latency_ring : Bytes
latency_ring = record { bytes = told_bytes words (latency 64) ++ []; room = 10 }

create_ports-jalv_update_example :
    jalv_update byte_ring words false 9
      ((jalv_create_ports true jalv (any_size ∷ []) (0 ∷ [])).1.ui_msg_size)
      latency_ring
      []
    ≡ none
create_ports-jalv_update_example =
    create_ports-jalv_update byte_ring words true jalv (any_size ∷ []) (0 ∷ []) 9 latency_ring []
      (latency 64) [] refl (asks_nothing, tt) (omega arith) refl
