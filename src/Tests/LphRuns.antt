-- ===== src/Tests/LphRuns.antt =====
-- MIDI from PipeWire.
use soundcan.Base.{◌-◌, ◌≤◌, ◌≡◌, refl, arith, true, false, some, List, [], ◌∷◌}
use soundcan.Jalv.Evbuf.{Evbuf, lv2_evbuf_reset}
use soundcan.Jalv.Evbuf.Readback.{Event, Holds, write_all, total}
use soundcan.Lph.AtomInput.{Control, Sequence, sequence, pre_run_atom_input}
use soundcan.Lph.AtomInput.Read.{midi_events, with_control, pre_run_atom_input-Holds}
use soundcan.Lph.AtomOutput.{OutputBuffer, post_run_atom_output}
use soundcan.Lph.AtomOutput.Taken.{queued, post_run_atom_output-queued}
use soundcan.Lph.AtomOutput.Echo.{copied, pre_run_atom_input-post_run_atom_output}
use soundcan.Base.Memory.{store_bytes, load_bytes}
use soundcan.CText.{Text}
use soundcan.Lph.UriTable.{uri_table_map, uri_table_unmap}
use soundcan.Lph.UriTable.Names.{uri_table_map-unmap}
use soundcan.Tests.Layout.{lv2}

-- A note, a clock byte and a control that is no MIDI.
abbrev controls : List Control
controls =
    record { is_midi = true; offset = 3; bytes = 0x90 ∷ 60 ∷ 100 ∷ [] }
    ∷ record { is_midi = true; offset = 4; bytes = 0xf8 ∷ [] }
    ∷ record { is_midi = false; offset = 5; bytes = 1 ∷ [] }
    ∷ []

abbrev port : Sequence
port = record { type = 0; size = 0; contents = λ a. 0; buf_offset = 0 }

abbrev buffer : Evbuf
buffer = record {
  capacity = 8192;
  atom_chunk = 1;
  atom_sequence = 2;
  size = 0;
  type = 0;
  contents = λ a. 0;
}

pre_run_atom_input-Holds_example :
    (s' : Sequence) × (ev' : Evbuf) × (taken : List Event) × (pre_run_atom_input lv2 7
        (λ n. n)
        port
        (some (sequence controls))
      ≡ some s')
    × (write_all lv2 (lv2_evbuf_reset lv2 buffer true) (midi_events 7 (λ n. n) controls)
        ≡ some (ev', taken))
    × (s'.type ≡ 0)
    × Holds lv2 s'.contents 0 (s'.size - 8) taken
    × (total lv2 (midi_events 7 (λ n. n) controls) ≤ 8176 → taken ≡ midi_events 7 (λ n. n) controls)
pre_run_atom_input-Holds_example =
    pre_run_atom_input-Holds lv2 7 (λ n. n) port buffer controls (omega arith) refl refl
      (omega arith)

-- The note comes back.
events_fit : total lv2 (midi_events 7 (λ n. n) controls) ≤ 8176
unfolding midi_events with_control total
events_fit = omega arith

pre_run_atom_input-post_run_atom_output_example :
    (s' : Sequence) × (pre_run_atom_input lv2 7 (λ n. n) port (some (sequence controls)) ≡ some s')
    × (post_run_atom_output lv2 7 (copied 2 s') true
        ≡ some (queued 7 (midi_events 7 (λ n. n) controls)))
pre_run_atom_input-post_run_atom_output_example =
    pre_run_atom_input-post_run_atom_output lv2 7 2 (λ n. n) port buffer controls (omega arith) refl
      refl (omega arith) events_fit

-- A sequence of a note.
abbrev note_out : OutputBuffer
note_out = record {
  size = 32;
  type = 2;
  contents = store_bytes (store_bytes (λ a. 0) 0 (lv2.put_event 3 7 3)) 16 (0x90 ∷ 60 ∷ 100 ∷ []);
}

note_held :
    Holds lv2 note_out.contents 0 24
      (record { frames = 3; type = 7; body = 0x90 ∷ 60 ∷ 100 ∷ [] } ∷ [])
unfolding store_bytes load_bytes
note_held = (
  record { frames_small = omega arith; type_small = omega arith; body_small = omega arith },
  omega arith,
  refl,
  refl,
  refl,
)

post_run_atom_output-queued_example :
    post_run_atom_output lv2 7 note_out true
    ≡ some (queued 7 (record { frames = 3; type = 7; body = 0x90 ∷ 60 ∷ 100 ∷ [] } ∷ []))
post_run_atom_output-queued_example =
    post_run_atom_output-queued lv2 7 note_out
      (record { frames = 3; type = 7; body = 0x90 ∷ 60 ∷ 100 ∷ [] } ∷ []) (omega arith)
      (omega arith) note_held

abbrev uris : List Text
uris = (97 ∷ []) ∷ (98 ∷ 99 ∷ []) ∷ []

uri_table_map-unmap_example :
    (uri_table_unmap ((uri_table_map uris (98 ∷ []) true).1) ((uri_table_map uris (98 ∷ []) true).0)
      ≡ some (98 ∷ []))
    × (uri_table_unmap ((uri_table_map uris (98 ∷ []) true).1) 2 ≡ uri_table_unmap uris 2)
uri_table_map-unmap_example = uri_table_map-unmap uris (98 ∷ []) 2 (omega arith) (omega arith)
