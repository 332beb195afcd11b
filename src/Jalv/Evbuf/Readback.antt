-- ===== src/Jalv/Evbuf/Readback.antt =====
-- What was written to an event buffer is what the iterators read from it.
use mathlib.Core.List.{append_assoc, append-nil}
use soundcan.Base.{
  ℕ, zero, suc, ◌+◌, ◌-◌, ◌%◌, ◌^◌, ◌≤◌, ◌<◌, ◌≡◌, ◌∙◌, refl, sym, ap, dec_lt, true, false, none,
  some, Option, List, [], ◌∷◌, ◌++◌, map, length, arith,
}
use soundcan.Base.Memory.{Memory, store_bytes, load_bytes, load-store_below, load-store_self}
use soundcan.Lv2.{AtomLayout}
use soundcan.Jalv.Evbuf.{
  Evbuf, Got, lv2_evbuf_begin, lv2_evbuf_end, lv2_evbuf_is_valid, lv2_evbuf_next, lv2_evbuf_get,
  lv2_evbuf_write, size_at, lv2_evbuf_reset, u32,
}
use soundcan.Jalv.Evbuf.Bounds.{
  IsSequence, get_size_sequence, written, write_fits, write_full, written-IsSequence,
  reset-IsSequence, reset_parts,
}

-- An event as it is handed to lv2_evbuf_write.
pub record Event : Type 0 where
  pub frames : ℕ
  pub type : ℕ
  pub body : List ℕ

pub record IsEvent (e : Event) : Type 0 where
  pub frames_small : e.frames < u32
  pub type_small : e.type < u32
  pub body_small : length e.body + 32 < u32

abbrev pub got : Event → Got
got e = record {
  frames = e.frames;
  subframes = 0;
  type = e.type;
  size = length e.body;
  body = e.body;
}

module _ (lv2 : AtomLayout) where
  open lv2 use {pad_size, put_event, event_frames, event_type, event_size, sizeof_event}

  -- The bytes that an event takes up.
  abbrev pub stride : Event → ℕ
  stride e = pad_size (16 + length e.body)

  -- `for (i = begin(buf); is_valid(i); i = next(i)) get(i, …)`, for at most `fuel` rounds.
  unfoldable pub read_from : ℕ → Evbuf → ℕ → List Got
  read_from zero ev offset = []
  read_from (suc fuel) ev offset = elim (lv2_evbuf_get lv2 ev offset) [
    | none ↦ []
    | some g ↦ g ∷ read_from fuel ev (lv2_evbuf_next lv2 ev offset)
  ]

  -- One write after another through the end iterator; what does not fit is dropped. The list is of
  -- the events that were taken.
  unfoldable pub write_all : Evbuf → List Event → Option (Evbuf × List Event)
  write_all ev [] = some (ev, [])
  write_all ev (e ∷ es) =
      elim (lv2_evbuf_write lv2 ev (lv2_evbuf_end lv2 ev) e.frames e.type e.body) [
        | none ↦ none
        | some r ↦ elim (write_all (r.1) es) [
          | none ↦ none
          | some (ev', taken) ↦ elim (r.0) [
            | true ↦ some (ev', e ∷ taken)
            | false ↦ some (ev', taken)
          ]
        ]
      ]

  -- The events that stand in memory from `offset` to `end`.
  abbrev pub Holds : Memory → ℕ → ℕ → List Event → Type 0
  Holds mem offset end [] = offset ≡ end
  Holds mem offset end (e ∷ es) =
      IsEvent e
      × (offset + 16 + length e.body ≤ end)
      × (load_bytes mem offset 16 ≡ put_event e.frames e.type (length e.body))
      × (load_bytes mem (offset + 16) (length e.body) ≡ e.body)
      × Holds mem (offset + stride e) end es

  pub Holds-le :
      (mem : Memory) (offset end : ℕ) (es : List Event)
      → end < 2 ^ 31
      → Holds mem offset end es
      → offset ≤ end
  Holds-le mem offset end [] s h = omega arith
  Holds-le mem offset end (e ∷ es) s h = omega (arith, h)

  -- A write at the end leaves the events before it, and adds one.
  Holds-written :
      (mem : Memory) (offset end : ℕ) (es : List Event) (e : Event)
      → end + stride e < 2 ^ 32
      → IsEvent e
      → 16 + length e.body ≤ stride e
      → Holds mem offset end es
      → Holds
          (store_bytes
            (store_bytes mem end (put_event e.frames e.type (length e.body)))
            (end + 16)
            e.body)
          offset
          (end + stride e)
          (es ++ e ∷ [])
  Holds-written mem offset end [] e s v fits h =
      let header = put_event e.frames e.type (length e.body) in
      let size : length header ≡ 16 =
        lv2.length-put_event e.frames e.type (length e.body) v.frames_small v.type_small
          (omega (arith, v.body_small))
        ∙ lv2.event_is_16 in
      rw h (
        v,
        omega arith,
        load-store_below (store_bytes mem end header) (end + 16) e.body end 16 (omega arith)
            ∙ (ap (λ n. load_bytes (store_bytes mem end header) end n) (sym size)
                ∙ load-store_self mem end header),
        load-store_self (store_bytes mem end header) (end + 16) e.body,
        refl,
      )
  Holds-written mem offset end (d ∷ es) e s v fits (dv, in_range, header, body, rest) =
      let before = put_event e.frames e.type (length e.body) in
      (
        dv,
        omega arith,
        load-store_below (store_bytes mem end before) (end + 16) e.body offset 16 (omega arith)
            ∙ load-store_below mem end before offset 16 (omega arith)
            ∙ header,
        load-store_below (store_bytes mem end before) (end + 16) e.body (offset + 16)
              (length d.body) (omega arith)
            ∙ load-store_below mem end before (offset + 16) (length d.body) (omega arith)
            ∙ body,
        Holds-written mem (offset + stride d) end es e s v fits rest,
      )

  get_held :
      (ev : Evbuf) (offset : ℕ) (e : Event) (es : List Event)
      → IsSequence ev
      → Holds ev.contents offset (ev.size - 8) (e ∷ es)
      → (lv2_evbuf_get lv2 ev offset ≡ some (got e))
        × (lv2_evbuf_next lv2 ev offset ≡ offset + stride e)
  unfolding lv2_evbuf_get lv2_evbuf_next lv2_evbuf_is_valid size_at
  get_held ev offset e es v (ev_e, in_range, header, body, rest) =
      let n = length e.body in
      let size = get_size_sequence lv2 ev v.typed v.header (omega (arith, v.small, v.within)) in
      let read = ap (load_bytes ev.contents offset) lv2.event_is_16 ∙ header in
      let f =
        ap event_frames read
        ∙ lv2.frames-put_event e.frames e.type n ev_e.frames_small ev_e.type_small
            (omega (arith, ev_e.body_small)) in
      let t =
        ap event_type read
        ∙ lv2.type-put_event e.frames e.type n ev_e.frames_small ev_e.type_small
            (omega (arith, ev_e.body_small)) in
      let s =
        ap event_size read
        ∙ lv2.size-put_event e.frames e.type n ev_e.frames_small ev_e.type_small
            (omega (arith, ev_e.body_small)) in
      let lt = lv2.pad_size_lt (16 + n) (omega (arith, v.small, v.within)) in
      let arg : (sizeof_event + event_size (load_bytes ev.contents offset sizeof_event)) % u32
          ≡ 16 + n =
        omega (arith, lv2.event_is_16, v.small, v.within) in
      let whole : load_bytes ev.contents (offset + sizeof_event) n ≡ e.body =
        ap (λ k. load_bytes ev.contents (offset + k) n) lv2.event_is_16 ∙ body in
      (ground arith, ground (arith, ap pad_size arg))

  get_past : (ev : Evbuf) → IsSequence ev → lv2_evbuf_get lv2 ev (ev.size - 8) ≡ none
  unfolding lv2_evbuf_get lv2_evbuf_is_valid
  get_past ev v =
      ground (arith, get_size_sequence lv2 ev v.typed v.header (omega (arith, v.small, v.within)))

  read_held :
      (fuel : ℕ) (ev : Evbuf) (offset : ℕ) (es : List Event)
      → length es < fuel
      → IsSequence ev
      → Holds ev.contents offset (ev.size - 8) es
      → read_from fuel ev offset ≡ map got es
  unfolding read_from
  read_held zero ev offset es h v held = absurd (omega arith)
  read_held (suc fuel) ev offset [] h v held =
      ground (arith, ap (lv2_evbuf_get lv2 ev) held, get_past ev v)
  read_held (suc fuel) ev offset (e ∷ es) h v held =
      let (here, next) = get_held ev offset e es v held in
      ground (
        arith,
        here,
        ap (read_from fuel ev) next,
        read_held fuel ev (offset + stride e) es (omega arith) v (held.4),
      )

  -- The bytes that a list of events takes up.
  unfoldable pub total : List Event → ℕ
  total [] = 0
  total (e ∷ es) = stride e + total es

  abbrev pub AllEvents : List Event → Type 0
  AllEvents [] = Unit {0}
  AllEvents (e ∷ es) = IsEvent e × AllEvents es

  total_ge : (e : Event) (es : List Event) → IsEvent e → 16 + length e.body ≤ total (e ∷ es)
  unfolding total
  total_ge e es v =
      omega (arith, lv2.pad_size_ge (16 + length e.body) (omega (arith, v.body_small)))

  rest_fits :
      (ev : Evbuf) (e : Event) (es : List Event)
      → total (e ∷ es) + ev.size + 8 ≤ ev.capacity
      → total es + (written lv2 ev e.frames e.type e.body).size + 8
        ≤ (written lv2 ev e.frames e.type e.body).capacity
  unfolding total written
  rest_fits ev e es h = omega arith

  held_next :
      (ev : Evbuf) (old : List Event) (e : Event)
      → IsSequence ev
      → 24 + length e.body + ev.size ≤ ev.capacity
      → IsEvent e
      → Holds ev.contents 0 (ev.size - 8) old
      → Holds
          (written lv2 ev e.frames e.type e.body).contents
          0
          ((written lv2 ev e.frames e.type e.body).size - 8)
          (old ++ e ∷ [])
  unfolding written
  held_next ev old e v fits one held =
      let n = 16 + length e.body in
      let ge = lv2.pad_size_ge n (omega (arith, one.body_small)) in
      let lt = lv2.pad_size_lt n (omega (arith, one.body_small)) in
      let moved : ev.size + pad_size n - 8 ≡ ev.size - 8 + pad_size n = omega (arith, v.header) in
      rw moved
        (Holds-written ev.contents 0 (ev.size - 8) old e (omega (arith, v.small)) one ge held)

  -- What the writes of `es` to a buffer that holds `old` leave.
  abbrev pub Leaves : Evbuf → List Event → List Event → Type 0
  Leaves ev old es =
      (ev' : Evbuf) × (taken : List Event) × (write_all ev es ≡ some (ev', taken))
      × IsSequence ev'
      × Holds ev'.contents 0 (ev'.size - 8) (old ++ taken)
      × (total es + ev.size + 8 ≤ ev.capacity → taken ≡ es)

  pub write_all-Leaves :
      (ev : Evbuf) (old es : List Event)
      → IsSequence ev
      → Holds ev.contents 0 (ev.size - 8) old
      → AllEvents es
      → Leaves ev old es
  unfolding write_all
  write_all-Leaves ev old [] v held all = (ev, [], refl, v, rw append-nil held, λ _. refl)
  write_all-Leaves ev old (e ∷ es) v held (one, all) =
      elim (dec_lt ev.capacity (24 + length e.body + ev.size)) [
        | yes p ↦
            let (ev', taken, run, valid, after, whole) = write_all-Leaves ev old es v held all in
            (
              ev',
              taken,
              ground (arith, write_full lv2 ev e.frames e.type e.body v p),
              valid,
              after,
              λ h. absurd (omega (arith, total_ge e es one)),
            )
        | no p ↦
            let fits : 24 + length e.body + ev.size ≤ ev.capacity = omega arith in
            let ge = lv2.pad_size_ge (16 + length e.body) (omega (arith, v.small)) in
            let lt = lv2.pad_size_lt (16 + length e.body) (omega (arith, v.small)) in
            let next = written lv2 ev e.frames e.type e.body in
            let (ev', taken, run, valid, after, whole) =
              write_all-Leaves next (old ++ e ∷ []) es
                (written-IsSequence lv2 ev e.frames e.type e.body v fits)
                (held_next ev old e v fits one held) all in
            (
              ev',
              e ∷ taken,
              ground (arith, write_fits lv2 ev e.frames e.type e.body v fits),
              valid,
              rw (append_assoc old (e ∷ []) taken) at after,
              (λ h. ap (◌∷◌ e) (whole (rest_fits ev e es h))),
            )
      ]

  -- A buffer that has been reset for input takes every event that fits and drops the rest, never
  -- leaving its memory. What is read from it, from lv2_evbuf_begin by lv2_evbuf_next, is exactly the
  -- events that it took, in order; and it takes all of them if their padded sizes add up to at most
  -- its capacity less 16. The capacity is a multiple of 8 from 16 on.
  pub readback :
      (ev : Evbuf) (es : List Event)
      → ev.capacity < u32
      → ev.capacity % 8 ≡ 0
      → 16 ≤ ev.capacity
      → AllEvents es
      → (ev' : Evbuf) × (taken : List Event) × (write_all (lv2_evbuf_reset lv2 ev true) es
          ≡ some (ev', taken))
        × (read_from (length taken + 1) ev' (lv2_evbuf_begin lv2 ev') ≡ map got taken)
        × (total es + 16 ≤ ev.capacity → taken ≡ es)
  unfolding lv2_evbuf_begin
  readback ev es small aligned h all =
      let start = lv2_evbuf_reset lv2 ev true in
      let v = reset-IsSequence lv2 ev small aligned h in
      let (empty, same) = reset_parts lv2 ev in
      let (ev', taken, run, valid, held, whole) =
        write_all-Leaves start [] es v (sym (omega arith)) all in
      (
        ev',
        taken,
        run,
        read_held (length taken + 1) ev' 0 taken (omega arith) valid held,
        (λ fits. whole (omega arith)),
      )
