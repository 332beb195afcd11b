-- ===== src/Lph/AtomInput.antt =====
-- ATTIC/lv2-pw-host/lph/ports.c: the MIDI input of a plugin, from a PipeWire buffer to a sequence.
pub mod Written
pub mod Read
use soundcan.Base.{
  ℕ, ◌+◌, ◌-◌, ◌%◌, ◌^◌, Bool, true, false, Option, none, some, List, [], ◌∷◌, length, leb, ◌==◌,
  if◌then◌else◌,
}
use soundcan.Base.Maybe.{◌>>=◌}
use soundcan.Base.Memory.{Memory, store_bytes}
use soundcan.Lv2.{AtomLayout}

abbrev pub atom_buffer_size : ℕ
atom_buffer_size = 8192

-- A `struct spa_pod_control` of the sequence in the buffer.
pub record Control : Type 0 where
  pub is_midi : Bool
  pub offset : ℕ
  pub bytes : List ℕ

-- What spa_pod_from_data finds.
pub data Pod : Type 0 where
  no_pod no_sequence : Pod
  sequence : List Control → Pod

-- The buffer of the port, an LV2_Atom_Sequence, and `buf_offset`: `contents` is the memory behind the
-- sequence's header, and `type` is what calloc left there, since no code sets it.
pub record Sequence : Type 0 where
  pub type : ℕ
  pub size : ℕ
  pub contents : Memory
  pub buf_offset : ℕ

module _ (lv2 : AtomLayout) where
  open lv2 use {
    sizeof_atom, sizeof_event, sizeof_sequence_body, sizeof_sequence, pad_size, put_event,
  }

  -- What the test compares with, on size_t.
  pub space_left : Sequence → ℕ
  space_left s = (atom_buffer_size + 2 ^ 64 - sizeof_atom + 2 ^ 64 - s.size) % 2 ^ 64

  -- An event behind the others, if it fits; `none` is a write past the buffer.
  pub write_midi : ℕ → Sequence → ℕ → List ℕ → Option Sequence
  write_midi midi_event s frames bytes =
      let n = length bytes in
      if leb (sizeof_event + n) (space_left s)
      then if leb (sizeof_sequence + s.buf_offset + sizeof_event + n) atom_buffer_size
        then (let step = pad_size ((sizeof_event + n) % 2 ^ 32) in
            some (record {
              type = s.type;
              size = (s.size + step) % 2 ^ 32;
              contents =
                  store_bytes (store_bytes s.contents s.buf_offset (put_event frames midi_event n))
                    (s.buf_offset + sizeof_event) bytes;
              buf_offset = s.buf_offset + step;
            }))
        else none
      else some s

  -- A control at a time, with its test for MIDI and its body. A clock byte is left out; `none` is a
  -- read of an empty body.
  pub add_control : ℕ → Sequence → ℕ → Bool → List ℕ → Option Sequence
  add_control midi_event s frames false bytes = some s
  add_control midi_event s frames true [] = none
  add_control midi_event s frames true (first ∷ more) =
      if first == 0xf8 then some s else write_midi midi_event s frames (first ∷ more)

  -- `sec` is the time of an offset.
  pub add_controls : ℕ → (ℕ → ℕ) → Sequence → List Control → Option Sequence
  add_controls midi_event sec s [] = some s
  add_controls midi_event sec s (c ∷ cs) =
      add_control midi_event s (sec c.offset) c.is_midi c.bytes
      >>= (λ s'. add_controls midi_event sec s' cs)

  -- lv2_atom_sequence_clear leaves the size of an empty sequence.
  pub cleared : Sequence → Sequence
  cleared s = record s { size = sizeof_sequence_body; buf_offset = 0 }

  -- The argument `none` is no buffer from PipeWire.
  pub pre_run_atom_input : ℕ → (ℕ → ℕ) → Sequence → Option Pod → Option Sequence
  pre_run_atom_input midi_event sec s none = some s
  pre_run_atom_input midi_event sec s (some no_pod) = some (cleared s)
  pre_run_atom_input midi_event sec s (some no_sequence) = some (cleared s)
  pre_run_atom_input midi_event sec s (some (sequence controls)) =
      add_controls midi_event sec (cleared s) controls
