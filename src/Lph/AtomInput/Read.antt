-- ===== src/Lph/AtomInput/Read.antt =====
-- The events that stand in the MIDI input of a plugin.
use mathlib.Core.Path.{subst}
use soundcan.Base.{
  ℕ, ◌+◌, ◌-◌, ◌≤◌, ◌^◌, ◌≡◌, ◌<◌, ◌∙◌, refl, sym, ap, arith, Bool, true, false, Option, none, some,
  List, [], ◌∷◌, length, ◌%◌, leb, ◌==◌, if◌then◌else◌, Bool-cases, inl, inr,
}
use soundcan.Base.Memory.{store_bytes}
use soundcan.Base.Maybe.{◌>>=◌}
use soundcan.Lv2.{AtomLayout}
use soundcan.Jalv.Evbuf.{Evbuf, lv2_evbuf_reset}
use soundcan.Jalv.Evbuf.Bounds.{IsSequence, reset-IsSequence, reset_parts}
use soundcan.Jalv.Evbuf.Readback.{
  Event, IsEvent, AllEvents, write_all, Holds, write_all-Leaves, total,
}
use soundcan.Lph.AtomInput.{
  Control, Sequence, sequence, add_control, add_controls, write_midi, cleared, space_left,
  atom_buffer_size, pre_run_atom_input,
}
use soundcan.Lph.AtomInput.Written.{AllOf, Same, write_events, events_written}

-- A control in front of the events of the others: the clock, and what is no MIDI, is no event.
unfoldable pub with_control : ℕ → ℕ → Bool → List ℕ → List Event → List Event
with_control midi frames false bytes rest = rest
with_control midi frames true [] rest = rest
with_control midi frames true (first ∷ more) rest =
    if first == 0xf8
    then rest
    else record { frames = frames; type = midi; body = first ∷ more } ∷ rest

-- The MIDI events of the controls.
unfoldable pub midi_events : ℕ → (ℕ → ℕ) → List Control → List Event
midi_events midi sec [] = []
midi_events midi sec (c ∷ cs) =
    with_control midi (sec c.offset) c.is_midi c.bytes (midi_events midi sec cs)

module _ (lv2 : AtomLayout) where
  -- A control with a body, whose time and size are machine words.
  abbrev pub IsControl : (ℕ → ℕ) → Control → Type 0
  IsControl sec c = (0 < length c.bytes) × (length c.bytes + 32 < 2 ^ 32) × (sec c.offset < 2 ^ 32)

  abbrev pub AllControls : (ℕ → ℕ) → List Control → Type 0
  AllControls sec [] = Unit {0}
  AllControls sec (c ∷ cs) = IsControl sec c × AllControls sec cs

  unless-AllEvents :
      (midi : ℕ) (b : Bool) (e : Event) (rest : List Event)
      → IsEvent e
      → e.type ≡ midi
      → AllEvents lv2 rest × AllOf midi rest
      → AllEvents lv2 (if b then rest else e ∷ rest) × AllOf midi (if b then rest else e ∷ rest)
  unless-AllEvents midi true e rest v t a = a
  unless-AllEvents midi false e rest v t (a, b) = ((v, a), (t, b))

  with_control-AllEvents :
      (midi frames : ℕ) (is_midi : Bool) (bytes : List ℕ) (rest : List Event)
      → midi < 2 ^ 32
      → frames < 2 ^ 32
      → length bytes + 32 < 2 ^ 32
      → AllEvents lv2 rest × AllOf midi rest
      → AllEvents lv2 (with_control midi frames is_midi bytes rest)
        × AllOf midi (with_control midi frames is_midi bytes rest)
  unfolding with_control
  with_control-AllEvents midi frames false bytes rest h f n a = a
  with_control-AllEvents midi frames true [] rest h f n a = a
  with_control-AllEvents midi frames true (first ∷ more) rest h f n a =
      unless-AllEvents midi (first == 0xf8)
        (record { frames = frames; type = midi; body = first ∷ more }) rest
        (record { frames_small = f; type_small = h; body_small = n }) refl a

  midi_events-AllEvents :
      (midi : ℕ) (sec : ℕ → ℕ) (cs : List Control)
      → midi < 2 ^ 32
      → AllControls sec cs
      → AllEvents lv2 (midi_events midi sec cs) × AllOf midi (midi_events midi sec cs)
  unfolding midi_events
  midi_events-AllEvents midi sec [] h a = (tt, tt)
  midi_events-AllEvents midi sec (c ∷ cs) h ((ne, small, now), a) =
      with_control-AllEvents midi (sec c.offset) c.is_midi c.bytes (midi_events midi sec cs) h now
        small (midi_events-AllEvents midi sec cs h a)

  add_control_event :
      (midi frames : ℕ) (s : Sequence) (is_midi : Bool) (bytes : List ℕ) (rest : List Event)
      → 0 < length bytes
      → (add_control lv2 midi s frames is_midi bytes >>= (λ s'. write_events lv2 midi s' rest))
        ≡ write_events lv2 midi s (with_control midi frames is_midi bytes rest)
  unfolding add_control with_control write_events
  add_control_event midi frames s false bytes rest h = refl
  add_control_event midi frames s true [] rest h = absurd (omega arith)
  add_control_event midi frames s true (first ∷ more) rest h = elim (Bool-cases (first == 0xf8)) [
    | inl e ↦ ground arith
    | inr e ↦ ground arith
  ]

  add_controls_events :
      (midi : ℕ) (sec : ℕ → ℕ) (s : Sequence) (cs : List Control)
      → AllControls sec cs
      → add_controls lv2 midi sec s cs ≡ write_events lv2 midi s (midi_events midi sec cs)
  unfolding add_controls write_events midi_events
  add_controls_events midi sec s [] a = refl
  add_controls_events midi sec s (c ∷ cs) ((ne, small, now), a) =
      let first = add_control lv2 midi s (sec c.offset) c.is_midi c.bytes in
      ap_bind first (λ s'. add_controls lv2 midi sec s' cs)
        (λ s'. write_events lv2 midi s' (midi_events midi sec cs))
        (λ s'. add_controls_events midi sec s' cs a)
      ∙ add_control_event midi (sec c.offset) s c.is_midi c.bytes (midi_events midi sec cs) ne
    where
      ap_bind :
          (m : Option Sequence) (f g : Sequence → Option Sequence)
          → ((x : Sequence) → f x ≡ g x)
          → (m >>= f) ≡ (m >>= g)
      ap_bind none f g h = refl
      ap_bind (some x) f g h = h x

  cleared-Same :
      (s : Sequence) (ev : Evbuf)
      → ev.capacity ≡ 8192
      → ev.contents ≡ s.contents
      → Same lv2 (cleared lv2 s) (lv2_evbuf_reset lv2 ev true)
  unfolding cleared lv2_evbuf_reset
  cleared-Same s ev whole stored = record {
    whole = whole;
    sized = refl;
    stored = sym stored;
    offset = omega (arith, lv2.sequence_body_is_8);
  }

  -- What pre_run_atom_input leaves is what an event buffer does.
  pre_run_atom_input-Same :
      (midi : ℕ) (sec : ℕ → ℕ) (s : Sequence) (ev : Evbuf) (cs : List Control)
      → midi < 2 ^ 32
      → ev.capacity ≡ 8192
      → ev.contents ≡ s.contents
      → AllControls sec cs
      → (s' : Sequence) × (ev' : Evbuf) × (taken : List Event) × (pre_run_atom_input lv2 midi sec s
            (some (sequence cs))
          ≡ some s')
        × (write_all lv2 (lv2_evbuf_reset lv2 ev true) (midi_events midi sec cs)
            ≡ some (ev', taken))
        × Same lv2 s' ev'
  unfolding pre_run_atom_input cleared
  pre_run_atom_input-Same midi sec s ev cs h whole stored a =
      let (valid, all) = midi_events-AllEvents midi sec cs h a in
      let same : Same lv2 (cleared lv2 s) (lv2_evbuf_reset lv2 ev true) =
        cleared-Same s ev whole stored in
      let (s', ev', taken, run, run', after) =
        events_written lv2 midi (cleared lv2 s) (lv2_evbuf_reset lv2 ev true)
          (midi_events midi sec cs) same
          (reset-IsSequence lv2 ev (omega (arith, whole)) (omega (arith, whole))
            (omega (arith, whole)))
          valid all in
      (s', ev', taken, add_controls_events midi sec (cleared lv2 s) cs a ∙ run, run', after)

  -- A sequence of a type, if there is one.
  abbrev HasType : ℕ → Option Sequence → Type 0
  HasType type none = Unit
  HasType type (some s) = s.type ≡ type

  if-HasType :
      (type : ℕ) (b : Bool) (m m' : Option Sequence)
      → HasType type m
      → HasType type m'
      → HasType type (if b then m else m')
  if-HasType type true m m' h h' = h
  if-HasType type false m m' h h' = h'

  bind-HasType :
      (type : ℕ) (m : Option Sequence) (f : Sequence → Option Sequence)
      → HasType type m
      → ((s : Sequence) → s.type ≡ type → HasType type (f s))
      → HasType type (m >>= f)
  bind-HasType type none f h g = tt
  bind-HasType type (some s) f h g = g s h

  write_midi-HasType :
      (midi frames : ℕ) (s : Sequence) (bytes : List ℕ)
      → HasType s.type (write_midi lv2 midi s frames bytes)
  unfolding write_midi
  write_midi-HasType midi frames s bytes =
      let fits = leb (lv2.sizeof_event + length bytes) (space_left lv2 s) in
      let inside =
        leb (lv2.sizeof_sequence + s.buf_offset + lv2.sizeof_event + length bytes)
          atom_buffer_size in
      let step = lv2.pad_size ((lv2.sizeof_event + length bytes) % 2 ^ 32) in
      let grown : Sequence = record {
        type = s.type;
        size = (s.size + step) % 2 ^ 32;
        contents =
            store_bytes
              (store_bytes s.contents s.buf_offset (lv2.put_event frames midi (length bytes)))
              (s.buf_offset + lv2.sizeof_event) bytes;
        buf_offset = s.buf_offset + step;
      } in
      if-HasType s.type fits (if inside then some grown else none) (some s)
        (if-HasType s.type inside (some grown) none refl tt) refl

  add_control-HasType :
      (midi frames : ℕ) (s : Sequence) (is_midi : Bool) (bytes : List ℕ)
      → HasType s.type (add_control lv2 midi s frames is_midi bytes)
  unfolding add_control
  add_control-HasType midi frames s false bytes = refl
  add_control-HasType midi frames s true [] = tt
  add_control-HasType midi frames s true (first ∷ more) =
      if-HasType s.type (first == 0xf8) (some s) (write_midi lv2 midi s frames (first ∷ more)) refl
        (write_midi-HasType midi frames s (first ∷ more))

  add_controls-HasType :
      (midi type : ℕ) (sec : ℕ → ℕ) (s : Sequence) (cs : List Control)
      → s.type ≡ type
      → HasType type (add_controls lv2 midi sec s cs)
  unfolding add_controls
  add_controls-HasType midi type sec s [] h = h
  add_controls-HasType midi type sec s (c ∷ cs) h =
      let first = add_control lv2 midi s (sec c.offset) c.is_midi c.bytes in
      bind-HasType type first (λ s'. add_controls lv2 midi sec s' cs)
        (subst (λ t. HasType t first) h
          (add_control-HasType midi (sec c.offset) s c.is_midi c.bytes))
        (λ s' e. add_controls-HasType midi type sec s' cs e)

  -- The type of the sequence is left as it was.
  type_kept :
      (midi : ℕ) (sec : ℕ → ℕ) (s s' : Sequence) (cs : List Control)
      → pre_run_atom_input lv2 midi sec s (some (sequence cs)) ≡ some s'
      → s'.type ≡ s.type
  unfolding pre_run_atom_input cleared
  type_kept midi sec s s' cs h =
      subst (HasType s.type) h (add_controls-HasType midi s.type sec (cleared lv2 s) cs refl)

  -- What pre_run_atom_input leaves, with the event buffer that it is like.
  pub pre_run_atom_input-Leaves :
      (midi : ℕ) (sec : ℕ → ℕ) (s : Sequence) (ev : Evbuf) (cs : List Control)
      → midi < 2 ^ 32
      → ev.capacity ≡ 8192
      → ev.contents ≡ s.contents
      → AllControls sec cs
      → (s' : Sequence) × (ev' : Evbuf) × (taken : List Event) × (pre_run_atom_input lv2 midi sec s
            (some (sequence cs))
          ≡ some s')
        × (write_all lv2 (lv2_evbuf_reset lv2 ev true) (midi_events midi sec cs)
            ≡ some (ev', taken))
        × Same lv2 s' ev'
        × IsSequence ev'
        × Holds lv2 s'.contents 0 (s'.size - 8) taken
        × (total lv2 (midi_events midi sec cs) ≤ 8176 → taken ≡ midi_events midi sec cs)
  pre_run_atom_input-Leaves midi sec s ev cs h whole stored a =
      let es = midi_events midi sec cs in
      let (valid, all) = midi_events-AllEvents midi sec cs h a in
      let (s', ev', taken, run, wrote, same) =
        pre_run_atom_input-Same midi sec s ev cs h whole stored a in
      let start = lv2_evbuf_reset lv2 ev true in
      let v =
        reset-IsSequence lv2 ev (omega (arith, whole)) (omega (arith, whole))
          (omega (arith, whole)) in
      let (empty, kept) = reset_parts lv2 ev in
      let (ev₂, taken₂, wrote₂, v₂, held, fit) =
        write_all-Leaves lv2 start [] es v (sym (omega arith)) valid in
      let one : ◌≡◌ {A = Evbuf × List Event} (ev₂, taken₂) (ev', taken) = cc (wrote, wrote₂) in
      let held' : Holds lv2 ev'.contents 0 (ev'.size - 8) taken =
        subst (λ (r : Evbuf × List Event). Holds lv2 r.0.contents 0 (r.0.size - 8) r.1) one held in
      let at_size : Holds lv2 ev'.contents 0 (s'.size - 8) taken =
        subst (λ n. Holds lv2 ev'.contents 0 (n - 8) taken) (sym same.sized) held' in
      (
        s',
        ev',
        taken,
        run,
        wrote,
        same,
        subst (λ (r : Evbuf × List Event). IsSequence r.0) one v₂,
        subst (λ mem. Holds lv2 mem 0 (s'.size - 8) taken) (sym same.stored) at_size,
        (λ small.
            ap (λ (r : Evbuf × List Event). r.1) (sym one)
            ∙ fit (omega (arith, whole, empty, small))),
      )

  -- pre_run_atom_input ends without leaving the buffer of 8192 bytes, and leaves the type of the
  -- sequence as it was. One after another, up to the size that the sequence has then, stand there the
  -- events that an event buffer of that capacity takes of the MIDI of the controls, less the clock, in
  -- order: all of them if their padded sizes add up to at most 8176. Each control has a body; URIDs,
  -- times and sizes are 32 bit words.
  pub pre_run_atom_input-Holds :
      (midi : ℕ) (sec : ℕ → ℕ) (s : Sequence) (ev : Evbuf) (cs : List Control)
      → midi < 2 ^ 32
      → ev.capacity ≡ 8192
      → ev.contents ≡ s.contents
      → AllControls sec cs
      → (s' : Sequence) × (ev' : Evbuf) × (taken : List Event) × (pre_run_atom_input lv2 midi sec s
            (some (sequence cs))
          ≡ some s')
        × (write_all lv2 (lv2_evbuf_reset lv2 ev true) (midi_events midi sec cs)
            ≡ some (ev', taken))
        × (s'.type ≡ s.type)
        × Holds lv2 s'.contents 0 (s'.size - 8) taken
        × (total lv2 (midi_events midi sec cs) ≤ 8176 → taken ≡ midi_events midi sec cs)
  pre_run_atom_input-Holds midi sec s ev cs h whole stored a =
      let (s', ev', taken, run, wrote, same, valid, held, fit) =
        pre_run_atom_input-Leaves midi sec s ev cs h whole stored a in
      (s', ev', taken, run, wrote, type_kept midi sec s s' cs run, held, fit)
