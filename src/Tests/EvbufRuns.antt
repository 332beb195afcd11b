-- ===== src/Tests/EvbufRuns.antt =====
-- Event buffers written and read.
use soundcan.Base.{
  ℕ, ◌≡◌, ◌≤◌, ◌+◌, ◌↔◌, refl, Bool, true, none, some, List, [], ◌∷◌, map, length, arith,
}
use soundcan.Jalv.Evbuf.{
  Evbuf, lv2_evbuf_write, lv2_evbuf_end, lv2_evbuf_reset, lv2_evbuf_begin, allocated,
}
use soundcan.Jalv.Evbuf.Bounds.{IsSequence, write-IsSequence, write_past_end}
use soundcan.Jalv.Evbuf.Readback.{Event, got, readback, read_from, write_all, total}
use soundcan.Tests.Layout.{lv2}

abbrev pub buffer : Evbuf
buffer = record {
  capacity = 64;
  atom_chunk = 1;
  atom_sequence = 2;
  size = 8;
  type = 2;
  contents = λ a. 0;
}

abbrev notes : List Event
notes =
    record { frames = 3; type = 7; body = 0x90 ∷ 60 ∷ 100 ∷ [] }
    ∷ record { frames = 9; type = 7; body = 0x80 ∷ 60 ∷ 0 ∷ [] }
    ∷ []

readback_example :
    (ev' : Evbuf) × (taken : List Event) × (write_all lv2 (lv2_evbuf_reset lv2 buffer true) notes
      ≡ some (ev', taken))
    × (read_from lv2 (length taken + 1) ev' (lv2_evbuf_begin lv2 ev') ≡ map got taken)
    × (total lv2 notes + 16 ≤ 64 → taken ≡ notes)
readback_example = readback lv2 buffer notes (omega arith) refl (omega arith) (omega arith)

buffer-IsSequence : IsSequence buffer
buffer-IsSequence = omega arith

write-IsSequence_example :
    (r : Bool × Evbuf × ℕ) × (lv2_evbuf_write lv2 buffer (lv2_evbuf_end lv2 buffer) 3 7 (0xf8 ∷ [])
      ≡ some r)
    × ((r.0 ≡ true) ↔ (24 + 1 + 8 ≤ 64))
    × IsSequence r.1
    × (r.2 ≡ lv2_evbuf_end lv2 r.1)
write-IsSequence_example = write-IsSequence lv2 buffer 3 7 (0xf8 ∷ []) buffer-IsSequence

-- An output buffer of 8 bytes, as lv2_evbuf_reset leaves it.
abbrev output : Evbuf
output = record {
  capacity = 8;
  atom_chunk = 1;
  atom_sequence = 2;
  size = 8;
  type = 1;
  contents = λ a. 0;
}

write_past_end_example :
    lv2_evbuf_write lv2 output 0 0 7 (1 ∷ 2 ∷ 3 ∷ 4 ∷ 5 ∷ 6 ∷ 7 ∷ 8 ∷ 9 ∷ []) ≡ none
write_past_end_example =
    write_past_end lv2 output 0 0 7 (1 ∷ 2 ∷ 3 ∷ 4 ∷ 5 ∷ 6 ∷ 7 ∷ 8 ∷ 9 ∷ []) (omega arith)
      (omega arith) (omega arith) (omega arith) (unfold allocated in omega arith)
