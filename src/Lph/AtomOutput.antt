-- ===== src/Lph/AtomOutput.antt =====
-- ATTIC/lv2-pw-host/lph/ports.c: the MIDI output of a plugin, from its sequence to a PipeWire buffer.
pub mod Taken
pub mod Echo
use soundcan.Base.{
  ℕ, zero, suc, ◌+◌, ◌-◌, ◌%◌, ◌^◌, Bool, true, false, Option, none, some, List, [], ◌∷◌, ◌++◌, ltb,
  leb, ◌==◌, if◌then◌else◌,
}
use soundcan.Base.Maybe.{◌>>=◌}
use soundcan.Base.Memory.{Memory, load_bytes}
use soundcan.Lv2.{AtomLayout}
use soundcan.Lph.AtomInput.{atom_buffer_size}

-- The buffer of the port, an LV2_Atom_Sequence: `contents` is the memory behind the header.
pub record OutputBuffer : Type 0 where
  pub size : ℕ
  pub type : ℕ
  pub contents : Memory

-- What goes to PipeWire: no buffer is there, a buffer as it was, or one with a sequence of controls. The
-- controls are the MIDI bytes; their offset is 0.
pub data QueuedBuffer : Type 0 where
  no_buffer untouched : QueuedBuffer
  controls : List (List ℕ) → QueuedBuffer

module _ (lv2 : AtomLayout) where
  open lv2 use {sizeof_atom, sizeof_event, sizeof_sequence, pad_size, event_type, event_size}

  pub pre_run_atom_output : ℕ → OutputBuffer → OutputBuffer
  pre_run_atom_output atom_chunk s = record s {
    size = atom_buffer_size - sizeof_atom;
    type = atom_chunk;
  }

  -- The MIDI bytes of an event, if it is one; `none` is a read past the buffer.
  unfoldable pub midi_of : ℕ → OutputBuffer → ℕ → Option (List (List ℕ))
  midi_of midi_event s offset =
      let header = load_bytes s.contents offset sizeof_event in
      let size = event_size header in
      if leb (sizeof_sequence + offset + sizeof_event) atom_buffer_size
      then if event_type header == midi_event
        then if leb (sizeof_sequence + offset + sizeof_event + size) atom_buffer_size
          then some (load_bytes s.contents (offset + sizeof_event) size ∷ [])
          else none
        else some []
      else none

  -- `eventSize` as a uint32_t.
  unfoldable pub event_step : OutputBuffer → ℕ → ℕ
  event_step s offset =
      (pad_size sizeof_event + pad_size (event_size (load_bytes s.contents offset sizeof_event)))
      % 2 ^ 32

  -- The loop, with `payloadSize`. `none` is a read past the buffer, which an event of a negative size
  -- makes in the next round, or the end of the fuel.
  unfoldable pub take_events : ℕ → ℕ → OutputBuffer → ℕ → ℕ → Option (List (List ℕ))
  take_events zero midi_event s offset payload = none
  take_events (suc fuel) midi_event s offset payload =
      let step = event_step s offset in
      let rest = take_events fuel midi_event s (offset + step) (payload - step) in
      if leb payload sizeof_event
      then some []
      else (midi_of midi_event s offset >>= λ here.
          if leb (2 ^ 31) step then none else (rest >>= λ there. some (here ++ there)))

  -- A round takes 16 bytes of the payload, unless the size of its event wraps.
  unfoldable pub post_run_atom_output : ℕ → OutputBuffer → Bool → Option QueuedBuffer
  post_run_atom_output midi_event s false = some no_buffer
  post_run_atom_output midi_event s true =
      if leb s.size sizeof_sequence
      then some untouched
      else (take_events (suc s.size) midi_event s 0 s.size >>= λ taken. some (controls taken))
