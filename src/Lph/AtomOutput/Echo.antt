-- ===== src/Lph/AtomOutput/Echo.antt =====
-- MIDI from PipeWire to PipeWire, through a plugin that hands on what it gets.
use soundcan.Base.{ℕ, ◌^◌, ◌≡◌, ◌<◌, ◌≤◌, ◌∙◌, ap, arith, true, some, List}
use soundcan.Lv2.{AtomLayout}
use soundcan.Jalv.Evbuf.{Evbuf}
use soundcan.Jalv.Evbuf.Readback.{total}
use soundcan.Lph.AtomInput.{Control, Sequence, sequence, pre_run_atom_input}
use soundcan.Lph.AtomInput.Read.{AllControls, midi_events, pre_run_atom_input-Leaves}
use soundcan.Lph.AtomOutput.{OutputBuffer, post_run_atom_output}
use soundcan.Lph.AtomOutput.Taken.{queued, post_run_atom_output-queued}

-- The output of a plugin that copies its input.
abbrev pub copied : ℕ → Sequence → OutputBuffer
copied type s = record { size = s.size; type = type; contents = s.contents }

-- The MIDI that PipeWire hands to a plugin that copies its input to its output comes back: the bytes of
-- its events, less the clock, in order. Their padded sizes add up to at most 8176, each control has a
-- body, and URIDs, times and sizes are 32 bit words.
pub pre_run_atom_input-post_run_atom_output :
    (lv2 : AtomLayout) (midi type : ℕ) (sec : ℕ → ℕ) (s : Sequence) (ev : Evbuf) (cs : List Control)
    → midi < 2 ^ 32
    → ev.capacity ≡ 8192
    → ev.contents ≡ s.contents
    → AllControls lv2 sec cs
    → total lv2 (midi_events midi sec cs) ≤ 8176
    → (s' : Sequence) × (pre_run_atom_input lv2 midi sec s (some (sequence cs)) ≡ some s')
      × (post_run_atom_output lv2 midi (copied type s') true
          ≡ some (queued midi (midi_events midi sec cs)))
pre_run_atom_input-post_run_atom_output lv2 midi type sec s ev cs m whole stored a small =
    let (s', ev', taken, run, wrote, same, valid, held, fit) =
      pre_run_atom_input-Leaves lv2 midi sec s ev cs m whole stored a in
    let sent =
      post_run_atom_output-queued lv2 midi (copied type s') taken
        (omega (arith, valid.header, same.sized))
        (omega (arith, valid.within, same.whole, same.sized)) held in
    (s', run, sent ∙ ap (λ es. some (queued midi es)) (fit small))
