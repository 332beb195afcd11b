-- ===== src/Jalv/JackLatency/Range.antt =====
-- The latency that is reported to JACK.
use soundcan.Base.{
  ℕ, suc, zero, ◌+◌, ◌^◌, ◌≡◌, ◌<◌, ◌≤◌, ◌∙◌, ap, arith, Bool, none, some, List, [], ◌∷◌, length,
  get_elem?, min, max, Option-cases, inl, inr,
}
use soundcan.Jalv.Types.{ProcessPort}
use soundcan.Jalv.Process.{Process}
use soundcan.Jalv.Setup.{uint32_max}
use soundcan.Jalv.JackLatency.{LatencyRange, port_of_mode, widen, gather_ranges, latency_cb}

-- The ranges of the ports of a mode.
unfoldable pub ranges_of : Bool → (ℕ → LatencyRange) → List ProcessPort → List LatencyRange
ranges_of capture ranges [] = []
ranges_of capture ranges (port ∷ ports) = elim (port_of_mode capture port) [
  | none ↦ ranges_of capture ranges ports
  | some j ↦ ranges j ∷ ranges_of capture ranges ports
]

-- The least and the greatest latency of a list.
abbrev pub least : ℕ → List LatencyRange → ℕ
least bound [] = bound
least bound (r ∷ rs) = least (min bound r.low) rs

abbrev pub greatest : ℕ → List LatencyRange → ℕ
greatest bound [] = bound
greatest bound (r ∷ rs) = greatest (max bound r.high) rs

gathered :
    (capture : Bool) (ranges : ℕ → LatencyRange) (ports : List ProcessPort) (found : ℕ)
    (range : LatencyRange)
    → found + length ports < 2 ^ 32
    → gather_ranges capture ranges ports found range ≡ (
      found + length (ranges_of capture ranges ports),
      record {
        low = least range.low (ranges_of capture ranges ports);
        high = greatest range.high (ranges_of capture ranges ports);
      },
    )
unfolding gather_ranges ranges_of widen
gathered capture ranges [] found range h = ground arith
gathered capture ranges (port ∷ ports) found range h =
    elim (Option-cases (port_of_mode capture port)) [
      | inl e ↦ ground (arith, e, gathered capture ranges ports found range (omega arith))
      | inr (j, e) ↦ ground (
        arith,
        e,
        gathered capture ranges ports (found + 1) (widen range (ranges j)) (omega arith),
      )
    ]

least-le : (bound : ℕ) (rs : List LatencyRange) → least bound rs ≤ bound
least-le bound [] = omega arith
least-le bound (r ∷ rs) = omega (arith, least-le (min bound r.low) rs)

greatest-ge : (bound : ℕ) (rs : List LatencyRange) → bound ≤ greatest bound rs
greatest-ge bound [] = omega arith
greatest-ge bound (r ∷ rs) = omega (arith, greatest-ge (max bound r.high) rs)

covered :
    (capture : Bool) (ranges : ℕ → LatencyRange) (ports : List ProcessPort) (low high i j : ℕ)
    (port : ProcessPort)
    → get_elem? ports i ≡ some port
    → port_of_mode capture port ≡ some j
    → (least low (ranges_of capture ranges ports) ≤ (ranges j).low)
      × ((ranges j).high ≤ greatest high (ranges_of capture ranges ports))
      × (0 < length (ranges_of capture ranges ports))
unfolding ranges_of
covered capture ranges [] low high i j port h e = ground arith
covered capture ranges (p ∷ ports) low high zero j port h e =
    let same : p ≡ port = cc h in
    let rs = ranges_of capture ranges ports in
    let at : port_of_mode capture p ≡ some j = ap (port_of_mode capture) same ∙ e in
    let below = least-le (min low (ranges j).low) rs in
    let above = greatest-ge (max high (ranges j).high) rs in
    (ground (arith, at, below), ground (arith, at, above), ground (arith, at))
covered capture ranges (p ∷ ports) low high (suc i) j port h e =
    elim (Option-cases (port_of_mode capture p)) [
      | inl none_here ↦
          let (below, above, some_there) = covered capture ranges ports low high i j port h e in
          (
            ground (arith, none_here, below),
            ground (arith, none_here, above),
            ground (arith, none_here, some_there),
          )
      | inr (k, here) ↦
          let (below, above, some_there) =
            covered capture ranges ports (min low (ranges k).low) (max high (ranges k).high) i j
              port h e in
          (ground (arith, here, below), ground (arith, here, above), ground (arith, here))
    ]

-- The range that is set for the ports of a mode is the least and the greatest latency of those ports,
-- each with the plugin's own added, so that it covers each port. There is a port of the mode, and the
-- sums are below 2^32.
pub latency_cb-covers :
    (capture : Bool) (ranges : ℕ → LatencyRange) (p : Process) (i j : ℕ) (port : ProcessPort)
    → length p.ports < 2 ^ 32
    → greatest 0 (ranges_of capture ranges p.ports) + p.plugin_latency < 2 ^ 32
    → (ranges j).low + p.plugin_latency < 2 ^ 32
    → get_elem? p.ports i ≡ some port
    → port_of_mode capture port ≡ some j
    → ((latency_cb capture ranges p).low
        ≡ least uint32_max (ranges_of capture ranges p.ports) + p.plugin_latency)
      × ((latency_cb capture ranges p).high
          ≡ greatest 0 (ranges_of capture ranges p.ports) + p.plugin_latency)
      × ((latency_cb capture ranges p).low ≤ (ranges j).low + p.plugin_latency)
      × ((ranges j).high + p.plugin_latency ≤ (latency_cb capture ranges p).high)
unfolding latency_cb
latency_cb-covers capture ranges p i j port size top bottom h e =
    let start : LatencyRange = record { low = uint32_max; high = 0 } in
    let all = gathered capture ranges p.ports 0 start (omega arith) in
    let (below, above, some_port) = covered capture ranges p.ports uint32_max 0 i j port h e in
    (
      ground (arith, all, below, some_port),
      ground (arith, all),
      ground (arith, all, below, some_port),
      ground (arith, all, above),
    )
