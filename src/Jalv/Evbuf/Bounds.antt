-- ===== src/Jalv/Evbuf/Bounds.antt =====
-- No write through the end iterator of a buffer whose capacity is a multiple of 8 leaves the
-- allocated bytes.
use soundcan.Base.{
  ℕ, ◌+◌, ◌-◌, ◌%◌, ◌≤◌, ◌<◌, ◌≡◌, ◌∙◌, refl, ap, dec_lt, Bool, none, ◌↔◌, true, false, some, List,
  length, arith,
}
use soundcan.Lv2.{AtomLayout}
use soundcan.Jalv.Evbuf.{
  Evbuf, lv2_evbuf_get_size, lv2_evbuf_end, lv2_evbuf_write, lv2_evbuf_reset, room, allocated, u32,
}
use soundcan.Base.Memory.{store_bytes}

-- A buffer of events: an input buffer between lv2_evbuf_reset and the next.
pub record IsSequence (ev : Evbuf) : Type 0 where
  pub typed : ev.type ≡ ev.atom_sequence
  pub small : ev.capacity < u32
  pub whole : ev.capacity % 8 ≡ 0
  pub header : 8 ≤ ev.size
  pub aligned : ev.size % 8 ≡ 0
  pub within : ev.size + 8 ≤ ev.capacity

module _ (lv2 : AtomLayout) where
  open lv2 use {pad_size, put_event}

  pub get_size_sequence :
      (ev : Evbuf)
      → ev.type ≡ ev.atom_sequence
      → 8 ≤ ev.size
      → ev.size < u32
      → lv2_evbuf_get_size lv2 ev ≡ ev.size - 8
  unfolding lv2_evbuf_get_size
  get_size_sequence ev t h s = ground (arith, lv2.sequence_body_is_8)

  pub pad_aligned : (n : ℕ) → n % 8 ≡ 0 → n + 7 < u32 → pad_size n ≡ n
  pad_aligned n a h =
      omega (arith, lv2.pad_size_ge n h, lv2.pad_size_lt n h, lv2.pad_size_aligned n h)

  pub end_sequence : (ev : Evbuf) → IsSequence ev → lv2_evbuf_end lv2 ev ≡ ev.size - 8
  unfolding lv2_evbuf_end
  end_sequence ev v =
      ap pad_size (get_size_sequence ev v.typed v.header (omega (arith, v.small, v.within)))
      ∙ pad_aligned (ev.size - 8) (omega (arith, v.aligned, v.header))
          (omega (arith, v.small, v.within))

  pub reset-IsSequence :
      (ev : Evbuf)
      → ev.capacity < u32
      → ev.capacity % 8 ≡ 0
      → 16 ≤ ev.capacity
      → IsSequence (lv2_evbuf_reset lv2 ev true)
  unfolding lv2_evbuf_reset
  reset-IsSequence ev s w h = ground (arith, lv2.sequence_body_is_8)

  pub reset_parts :
      (ev : Evbuf)
      → ((lv2_evbuf_reset lv2 ev true).size ≡ 8)
        × ((lv2_evbuf_reset lv2 ev true).capacity ≡ ev.capacity)
  unfolding lv2_evbuf_reset
  reset_parts ev = (lv2.sequence_body_is_8, refl)

  -- The test of lv2_evbuf_write does not wrap here.
  pub room_sequence : (ev : Evbuf) → IsSequence ev → room lv2 ev ≡ ev.capacity - 8 - ev.size
  unfolding room
  room_sequence ev v = omega (arith, lv2.atom_is_8)

  -- The buffer that a write at the end leaves.
  unfoldable pub written : Evbuf → ℕ → ℕ → List ℕ → Evbuf
  written ev frames type body = record ev {
    size = ev.size + pad_size (16 + length body);
    contents =
        store_bytes (store_bytes ev.contents (ev.size - 8) (put_event frames type (length body)))
          (ev.size - 8 + 16) body;
  }

  pub write_fits :
      (ev : Evbuf) (frames type : ℕ) (body : List ℕ)
      → IsSequence ev
      → 24 + length body + ev.size ≤ ev.capacity
      → lv2_evbuf_write lv2 ev (lv2_evbuf_end lv2 ev) frames type body
        ≡ some (true, written ev frames type body, ev.size - 8 + pad_size (16 + length body))
  unfolding lv2_evbuf_write allocated written
  write_fits ev frames type body v h =
      let n = 16 + length body in
      let ge = lv2.pad_size_ge n (omega (arith, v.small)) in
      let lt = lv2.pad_size_lt n (omega (arith, v.small)) in
      let al = lv2.pad_size_aligned n (omega (arith, v.small)) in
      rw (end_sequence ev v)
        (ground (arith, lv2.event_is_16, lv2.sequence_is_16, room_sequence ev v))

  pub write_full :
      (ev : Evbuf) (frames type : ℕ) (body : List ℕ)
      → IsSequence ev
      → ev.capacity < 24 + length body + ev.size
      → lv2_evbuf_write lv2 ev (lv2_evbuf_end lv2 ev) frames type body
        ≡ some (false, ev, lv2_evbuf_end lv2 ev)
  unfolding lv2_evbuf_write
  write_full ev frames type body v h = ground (arith, lv2.event_is_16, room_sequence ev v)

  pub written-IsSequence :
      (ev : Evbuf) (frames type : ℕ) (body : List ℕ)
      → IsSequence ev
      → 24 + length body + ev.size ≤ ev.capacity
      → IsSequence (written ev frames type body)
  unfolding written
  written-IsSequence ev frames type body v h =
      let n = 16 + length body in
      let ge = lv2.pad_size_ge n (omega (arith, v.small)) in
      let lt = lv2.pad_size_lt n (omega (arith, v.small)) in
      let al = lv2.pad_size_aligned n (omega (arith, v.small)) in omega (arith, v)

  moved :
      (ev : Evbuf) (frames type : ℕ) (body : List ℕ)
      → IsSequence ev
      → ev.size - 8 + pad_size (16 + length body) ≡ (written ev frames type body).size - 8
  unfolding written
  moved ev frames type body v = omega (arith, v.header)

  end_written :
      (ev : Evbuf) (frames type : ℕ) (body : List ℕ)
      → IsSequence ev
      → 24 + length body + ev.size ≤ ev.capacity
      → ev.size - 8 + pad_size (16 + length body) ≡ lv2_evbuf_end lv2 (written ev frames type body)
  end_written ev frames type body v h =
      rw (end_sequence (written ev frames type body) (written-IsSequence ev frames type body v h))
        (moved ev frames type body v)

  -- A write through the end iterator never leaves the allocated bytes. It succeeds exactly where the
  -- event and its body fit with 8 bytes to spare, keeps the buffer well formed, and moves the iterator
  -- to the new end.
  pub write-IsSequence :
      (ev : Evbuf) (frames type : ℕ) (body : List ℕ)
      → IsSequence ev
      → (r : Bool × Evbuf × ℕ) × (lv2_evbuf_write lv2 ev (lv2_evbuf_end lv2 ev) frames type body
          ≡ some r)
        × ((r.0 ≡ true) ↔ (24 + length body + ev.size ≤ ev.capacity))
        × IsSequence r.1
        × (r.2 ≡ lv2_evbuf_end lv2 r.1)
  write-IsSequence ev frames type body v = elim (dec_lt ev.capacity (24 + length body + ev.size)) [
    | yes p ↦ (
      (false, ev, lv2_evbuf_end lv2 ev),
      write_full ev frames type body v p,
      ((λ h. absurd (ground arith)), (λ h. absurd (omega arith))),
      v,
      refl,
    )
    | no p ↦
        let fits : 24 + length body + ev.size ≤ ev.capacity = omega arith in
        (
          (true, written ev frames type body, ev.size - 8 + pad_size (16 + length body)),
          write_fits ev frames type body v fits,
          ((λ _. fits), (λ _. refl)),
          written-IsSequence ev frames type body v fits,
          (end_written ev frames type body v fits),
        )
  ]

  -- Where fewer than 8 bytes are left, the test of lv2_evbuf_write wraps and refuses nothing: an event
  -- that does not fit the allocated bytes is written past them.
  pub write_past_end :
      (ev : Evbuf) (offset frames type : ℕ) (body : List ℕ)
      → ev.capacity < u32
      → ev.size < u32
      → ev.capacity < ev.size + 8
      → length body < u32
      → allocated lv2 ev < offset + 16 + length body
      → lv2_evbuf_write lv2 ev offset frames type body ≡ none
  unfolding lv2_evbuf_write allocated room
  write_past_end ev offset frames type body c s h n past =
      ground (arith, lv2.event_is_16, lv2.atom_is_8)
