-- ===== src/Jalv/Evbuf.antt =====
-- ATTIC/galv/golang/jalv/lv2_evbuf.c, the event buffer of a port. A function that takes an iterator
-- takes the buffer that the iterator points to and the iterator's offset.
pub mod Bounds
pub mod Readback
pub mod Growth
use soundcan.Base.{
  ℕ, ◌+◌, ◌-◌, ◌%◌, ◌^◌, ◌≡◌, Bool, true, false, Option, none, some, List, length, ltb, leb, ◌==◌,
  ◌&&◌, if◌then◌else◌,
}
use soundcan.Base.Memory.{Memory, store_bytes, load_bytes}
use soundcan.Lv2.{AtomLayout}

abbrev pub u32 : ℕ
u32 = 2 ^ 32

-- `struct LV2_Evbuf_Impl`: `size` and `type` are those of `buf.atom`, and `contents` is the memory
-- from LV2_ATOM_CONTENTS(LV2_Atom_Sequence, &buf) on.
pub record Evbuf : Type 0 where
  pub capacity : ℕ
  pub atom_chunk : ℕ
  pub atom_sequence : ℕ
  pub size : ℕ
  pub type : ℕ
  pub contents : Memory

-- What lv2_evbuf_get hands out through its pointers.
pub record Got : Type 0 where
  pub frames : ℕ
  pub subframes : ℕ
  pub type : ℕ
  pub size : ℕ
  pub body : List ℕ

module _ (lv2 : AtomLayout) where
  open lv2 use {
    sizeof_atom, sizeof_event, sizeof_sequence_body, sizeof_sequence, pad_size, put_event,
    event_frames, event_type, event_size,
  }

  -- `none` where the allocation failed. `memset` clears the struct, and not the contents behind it.
  unfoldable pub lv2_evbuf_new : Option Memory → ℕ → ℕ → ℕ → Option Evbuf
  lv2_evbuf_new none capacity atom_chunk atom_sequence = none
  lv2_evbuf_new (some garbage) capacity atom_chunk atom_sequence = some (record {
    capacity = capacity;
    atom_chunk = atom_chunk;
    atom_sequence = atom_sequence;
    size = 0;
    type = 0;
    contents = garbage;
  })

  unfoldable pub lv2_evbuf_reset : Evbuf → Bool → Evbuf
  lv2_evbuf_reset ev input =
      if input
      then record ev { size = sizeof_sequence_body; type = ev.atom_sequence }
      else record ev { size = ev.capacity; type = ev.atom_chunk }

  -- The subtraction is on uint32_t; the function asserts that it does not wrap.
  unfoldable pub lv2_evbuf_get_size : Evbuf → ℕ
  lv2_evbuf_get_size ev =
      if ev.type == ev.atom_sequence then (ev.size + u32 - sizeof_sequence_body) % u32 else 0

  unfoldable pub lv2_evbuf_begin : Evbuf → ℕ
  lv2_evbuf_begin ev = 0

  unfoldable pub lv2_evbuf_end : Evbuf → ℕ
  lv2_evbuf_end ev = pad_size (lv2_evbuf_get_size ev)

  unfoldable pub lv2_evbuf_is_valid : Evbuf → ℕ → Bool
  lv2_evbuf_is_valid ev offset = ltb offset (lv2_evbuf_get_size ev)

  -- `aev->body.size` at an offset.
  unfoldable pub size_at : Evbuf → ℕ → ℕ
  size_at ev offset = event_size (load_bytes ev.contents offset sizeof_event)

  unfoldable pub lv2_evbuf_next : Evbuf → ℕ → ℕ
  lv2_evbuf_next ev offset =
      if lv2_evbuf_is_valid ev offset
      then (offset + pad_size ((sizeof_event + size_at ev offset) % u32)) % u32
      else offset

  -- `none` is a result of false.
  unfoldable pub lv2_evbuf_get : Evbuf → ℕ → Option Got
  lv2_evbuf_get ev offset =
      if lv2_evbuf_is_valid ev offset
      then some (record {
        frames = event_frames (load_bytes ev.contents offset sizeof_event);
        subframes = 0;
        type = event_type (load_bytes ev.contents offset sizeof_event);
        size = size_at ev offset;
        body = load_bytes ev.contents (offset + sizeof_event) (size_at ev offset);
      })
      else none

  -- What is left by the test of lv2_evbuf_write, which subtracts on size_t.
  unfoldable pub room : Evbuf → ℕ
  room ev = (ev.capacity + 2 ^ 64 - sizeof_atom + 2 ^ 64 - ev.size) % 2 ^ 64

  -- The contents lie in `sizeof(LV2_Atom_Sequence) + capacity` allocated bytes.
  unfoldable pub allocated : Evbuf → ℕ
  allocated ev = sizeof_sequence + ev.capacity

  -- The result is the returned bool, the buffer and the iterator's offset; `none` is a write past the
  -- allocated bytes. `size` is the length of `body`.
  unfoldable pub lv2_evbuf_write : Evbuf → ℕ → ℕ → ℕ → List ℕ → Option (Bool × Evbuf × ℕ)
  lv2_evbuf_write ev offset frames type body =
      let size = length body in
      if ltb (room ev) (sizeof_event + size)
      then some (false, ev, offset)
      else if leb (offset + sizeof_event + size) (allocated ev)
      then (let step = pad_size ((sizeof_event + size) % u32) in
          some (
            true,
            record ev {
              size = (ev.size + step) % u32;
              contents =
                  store_bytes (store_bytes ev.contents offset (put_event frames type size))
                    (offset + sizeof_event) body;
            },
            (offset + step) % u32,
          ))
      else none
