-- ===== src/Jack.antt =====
-- What the program relies on of JACK's MIDI port API (jack/midiport.h), which is not part of the
-- repository.
use soundcan.Base.{ℕ, ◌≡◌, Bool, true, false, List, [], ◌∷◌, ◌++◌}

-- `jack_midi_event_t`
pub record MidiEvent : Type 0 where
  pub time : ℕ
  pub buffer : List ℕ

-- An output buffer holds events. jack_midi_event_write appends an event that the buffer accepts, which
-- depends on its space and on the order of times; it refuses another and leaves the buffer as it was.
pub record JackMidi : Type 1 where
  pub Buffer : Type 0
  pub events : Buffer → List MidiEvent
  pub accepts : Buffer → MidiEvent → Bool
  pub clear_buffer : Buffer → Buffer
  pub event_write : Buffer → MidiEvent → Buffer
  pub events-clear : (b : Buffer) → events (clear_buffer b) ≡ []
  pub write_accepted :
      (b : Buffer) (e : MidiEvent)
      → accepts b e ≡ true
      → events (event_write b e) ≡ events b ++ e ∷ []
  pub write_refused : (b : Buffer) (e : MidiEvent) → accepts b e ≡ false → event_write b e ≡ b
