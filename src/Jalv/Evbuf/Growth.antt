-- ===== src/Jalv/Evbuf/Growth.antt =====
-- How an event buffer grows, write by write.
use soundcan.Base.{
  ℕ, ◌+◌, ◌≡◌, ◌≤◌, ap, arith, dec_lt, Bool, true, some, List, [], ◌∷◌, length, if◌then◌else◌,
  Option-cases, Bool-cases, inl, inr,
}
use mathlib.Core.Path.{subst}
use soundcan.Lv2.{AtomLayout}
use soundcan.Jalv.Evbuf.{Evbuf, lv2_evbuf_end, lv2_evbuf_write, lv2_evbuf_begin, lv2_evbuf_reset}
use soundcan.Jalv.Evbuf.Bounds.{
  IsSequence, written, write_fits, write_full, written-IsSequence, reset_parts, end_sequence,
}
use soundcan.Jalv.Evbuf.Readback.{Event, write_all}

module _ (lv2 : AtomLayout) where
  -- Writes that go through do so for the first event and for the others.
  pub write_all_rest :
      (ev ev' : Evbuf) (e : Event) (es taken : List Event) (r : Bool × Evbuf × ℕ)
      → lv2_evbuf_write lv2 ev (lv2_evbuf_end lv2 ev) e.frames e.type e.body ≡ some r
      → write_all lv2 ev (e ∷ es) ≡ some (ev', taken)
      → (more : List Event) × (write_all lv2 (r.1) es ≡ some (ev', more))
        × (taken ≡ (if r.0 then e ∷ more else more))
  unfolding write_all
  write_all_rest ev ev' e es taken r run all = elim (Option-cases (write_all lv2 (r.1) es)) [
    | inl none_left ↦ absurd (ground (arith, run, none_left, all))
    | inr ((last, more), rest) ↦ elim (Bool-cases (r.0)) [
      | inl t ↦ (more, ground (arith, run, rest, t, all), ground (arith, run, rest, t, all))
      | inr t ↦ (more, ground (arith, run, rest, t, all), ground (arith, run, rest, t, all))
    ]
  ]

  size_written :
      (ev : Evbuf) (e : Event)
      → IsSequence ev
      → 24 + length e.body + ev.size ≤ ev.capacity
      → ev.size + 16 ≤ (written lv2 ev e.frames e.type e.body).size
  unfolding written
  size_written ev e v h =
      omega (arith, lv2.pad_size_ge (16 + length e.body) (omega (arith, v.small)))

  -- Each event that is taken makes the buffer grow, and the buffer stays well formed.
  pub length-write_all :
      (ev ev' : Evbuf) (es taken : List Event)
      → IsSequence ev
      → write_all lv2 ev es ≡ some (ev', taken)
      → (length taken + ev.size ≤ ev'.size) × IsSequence ev'
  unfolding write_all
  length-write_all ev ev' [] taken v all =
      let same : ev ≡ ev' = cc all in
      let none_taken : [] ≡ taken = cc all in
      (
        omega (arith, ap (λ (x : Evbuf). x.size) same, ap length none_taken),
        subst IsSequence same v,
      )
  length-write_all ev ev' (e ∷ es) taken v all =
      elim (dec_lt ev.capacity (24 + length e.body + ev.size)) [
        | yes p ↦
            let run = write_full lv2 ev e.frames e.type e.body v p in
            let (more, rest, eq) = write_all_rest ev ev' e es taken _ run all in
            let (grows, v') = length-write_all ev ev' es more v rest in
            (omega (arith, grows, ap length eq), v')
        | no p ↦
            let fits : 24 + length e.body + ev.size ≤ ev.capacity = omega arith in
            let run = write_fits lv2 ev e.frames e.type e.body v fits in
            let next = written lv2 ev e.frames e.type e.body in
            let (more, rest, eq) = write_all_rest ev ev' e es taken _ run all in
            let (grows, v') =
              length-write_all next ev' es more
                (written-IsSequence lv2 ev e.frames e.type e.body v fits) rest in
            (omega (arith, grows, ap length eq, size_written ev e v fits), v')
      ]

  -- An empty buffer begins at its end.
  pub begin_reset :
      (ev : Evbuf)
      → IsSequence (lv2_evbuf_reset lv2 ev true)
      → lv2_evbuf_begin lv2 (lv2_evbuf_reset lv2 ev true)
        ≡ lv2_evbuf_end lv2 (lv2_evbuf_reset lv2 ev true)
  unfolding lv2_evbuf_begin
  begin_reset ev v =
      let (eight, same) = reset_parts lv2 ev in
      omega (arith, end_sequence lv2 (lv2_evbuf_reset lv2 ev true) v, eight)
