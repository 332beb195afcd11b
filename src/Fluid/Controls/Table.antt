-- ===== src/Fluid/Controls/Table.antt =====
-- The controls of ATTIC/fluidsynth/fluid-ui/fluid-controls.c: what each reads and writes by, and the
-- table.
use soundcan.Base.{Option, none, some, List, [], ◌∷◌}
use soundcan.CText.{Text, text}
use soundcan.Fluid.Controls.{
  ValueType, type_int, type_float, type_string, Reader, get, read_instrument, Writer, write_nothing,
  write_instrument, set_float, set_int, Control,
}

abbrev read_title : Reader
read_title = get (text "get midi.jack.id")

abbrev write_title : Writer
write_title = write_nothing

abbrev read_gain : Reader
read_gain = get (text "get synth.gain")

abbrev write_gain : Writer
write_gain = set_float (text "set synth.gain ")

abbrev read_reverb_active : Reader
read_reverb_active = get (text "get synth.reverb.active")

abbrev write_reverb_active : Writer
write_reverb_active = set_int (text "set synth.reverb.active ")

abbrev read_reverb_damp : Reader
read_reverb_damp = get (text "get synth.reverb.damp")

abbrev write_reverb_damp : Writer
write_reverb_damp = set_float (text "set synth.reverb.damp ")

abbrev read_reverb_level : Reader
read_reverb_level = get (text "get synth.reverb.level")

abbrev write_reverb_level : Writer
write_reverb_level = set_float (text "set synth.reverb.level ")

abbrev read_reverb_room_size : Reader
read_reverb_room_size = get (text "get synth.reverb.room-size")

abbrev write_reverb_room_size : Writer
write_reverb_room_size = set_float (text "set synth.reverb.room-size ")

abbrev read_reverb_width : Reader
read_reverb_width = get (text "get synth.reverb.width")

abbrev write_reverb_width : Writer
write_reverb_width = set_float (text "set synth.reverb.width ")

abbrev read_chorus_active : Reader
read_chorus_active = get (text "get synth.chorus.active")

abbrev write_chorus_active : Writer
write_chorus_active = set_int (text "set synth.chorus.active ")

abbrev read_chorus_depth : Reader
read_chorus_depth = get (text "get synth.chorus.depth")

abbrev write_chorus_depth : Writer
write_chorus_depth = set_float (text "set synth.chorus.depth ")

abbrev read_chorus_level : Reader
read_chorus_level = get (text "get synth.chorus.level")

abbrev write_chorus_level : Writer
write_chorus_level = set_float (text "set synth.chorus.level ")

abbrev read_chorus_nr : Reader
read_chorus_nr = get (text "get synth.chorus.nr")

abbrev write_chorus_nr : Writer
write_chorus_nr = set_int (text "set synth.chorus.nr ")

abbrev read_chorus_speed : Reader
read_chorus_speed = get (text "get synth.chorus.speed")

abbrev write_chorus_speed : Writer
write_chorus_speed = set_float (text "set synth.chorus.speed ")

-- A control before its value is read.
abbrev new_control : ValueType → Text → Option Text → Option Text → Reader → Writer → Control
new_control type label min_value max_value reader writer = record {
  type = type;
  label = label;
  min_value = min_value;
  max_value = max_value;
  points = none;
  read_value = [];
  write_value = [];
  reader = reader;
  writer = writer;
}

abbrev range : ValueType → Text → Text → Text → Reader → Writer → Control
range type label min_value max_value = new_control type label (some min_value) (some max_value)

unfoldable pub controls : List Control
controls =
    new_control type_string (text "Title") none none read_title write_title
    ∷ range type_float (text "Gain") (text "0.0") (text "1.0") read_gain write_gain
    ∷ new_control type_string (text "Instrument") none none read_instrument write_instrument
    ∷ range type_int (text "Reverb active") (text "0") (text "1") read_reverb_active
        write_reverb_active
    ∷ range type_float (text "Reverb damp") (text "0.0") (text "1.0") read_reverb_damp
        write_reverb_damp
    ∷ range type_float (text "Reverb level") (text "0.0") (text "1.0") read_reverb_level
        write_reverb_level
    ∷ range type_float (text "Reverb room-size") (text "0.0") (text "1.0") read_reverb_room_size
        write_reverb_room_size
    ∷ range type_float (text "Reverb width") (text "0.0") (text "100.0") read_reverb_width
        write_reverb_width
    ∷ range type_int (text "Chorus active") (text "0") (text "1") read_chorus_active
        write_chorus_active
    ∷ range type_float (text "Chorus depth") (text "4.0") (text "10.0") read_chorus_depth
        write_chorus_depth
    ∷ range type_float (text "Chorus level") (text "0.25") (text "2.5") read_chorus_level
        write_chorus_level
    ∷ range type_int (text "Chorus nr") (text "0") (text "10") read_chorus_nr write_chorus_nr
    ∷ range type_float (text "Chorus speed") (text "0.101") (text "5.0") read_chorus_speed
        write_chorus_speed
    ∷ []
