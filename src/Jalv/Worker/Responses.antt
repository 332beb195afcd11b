-- ===== src/Jalv/Worker/Responses.antt =====
-- The responses that the audio thread delivers.
use mathlib.Core.List.{append_assoc}
use soundcan.Base.{
  ℕ, zero, suc, ◌+◌, ◌≤◌, ◌<◌, ◌≡◌, ◌∙◌, refl, sym, ap, arith, some, List, [], ◌∷◌, ◌++◌, length,
  length-append,
}
use soundcan.Zix.{ZixRing}
use soundcan.Zix.Front.{read_front}
use soundcan.Abi.{Words}
use soundcan.Jalv.Worker.{Worker, Interface, emit_from, jalv_worker_emit_responses, max_packet_size}
use soundcan.Jalv.Worker.Packets.{packet, packets, length-packet}

abbrev pub Fit : List (List ℕ) → Type 0
Fit [] = Unit {0}
Fit (p ∷ ps) = (length p ≤ max_packet_size) × Fit ps

module _ (zix : ZixRing) (abi : Words) {P : Type 0} (iface : Interface P) where
  open zix use {Ring, contents, space, read}

  -- The plugin's state after `work_response` was called for some responses.
  unfoldable pub delivered : P → List (List ℕ) → P
  delivered p [] = p
  delivered p (bytes ∷ more) = delivered (iface.work_response p bytes) more

  emit_packets :
      (fuel : ℕ) (r : Ring) (p : P) (ps : List (List ℕ))
      → length (packets abi ps) < fuel
      → Fit ps
      → contents r ≡ packets abi ps
      → (r' : Ring) × (emit_from zix abi iface fuel r p ≡ some (r', delivered p ps))
        × (contents r' ≡ [])
  unfolding emit_from delivered
  emit_packets zero r p ps h f held = absurd (omega arith)
  emit_packets (suc fuel) r p [] h f held =
      (r, ground (arith, zix.read_short r 4 (omega (arith, ap length held))), held)
  emit_packets (suc fuel) r p (bytes ∷ ps) h f held =
      let head = abi.put_u32 (length bytes) in
      let (r₁, run₁, left₁) =
        read_front zix r head (bytes ++ packets abi ps) 4 (sym (abi.length-put_u32 (length bytes)))
          (held ∙ append_assoc head bytes (packets abi ps)) in
      let (r₂, run₂, left₂) = read_front zix r₁ bytes (packets abi ps) (length bytes) refl left₁ in
      let (r₃, run₃, left₃) =
        emit_packets fuel r₂ (iface.work_response p bytes) ps
          (omega
            (arith, length-append (packet abi bytes) (packets abi ps), length-packet abi bytes))
          (f.1) left₂ in
      (
        r₃,
        ground (arith, run₁, abi.get-put_u32 (length bytes) (omega (arith, f.0)), run₂, run₃),
        left₃,
      )

  -- jalv_worker_emit_responses ends, and hands each response that stands in the ring to the plugin
  -- once, in order and whole, leaving the ring empty. No response is larger than the buffer.
  pub emit-delivered :
      (w : Worker Ring P) (ps : List (List ℕ))
      → Fit ps
      → contents w.responses ≡ packets abi ps
      → (w' : Worker Ring P) × (jalv_worker_emit_responses zix abi iface w ≡ some w')
        × (w'.plugin ≡ delivered w.plugin ps)
        × (contents w'.responses ≡ [])
        × (w'.state ≡ w.state)
        × (w'.sem ≡ w.sem)
  unfolding jalv_worker_emit_responses
  emit-delivered w ps f held =
      let (r, run, empty) =
        emit_packets (length (contents w.responses) + 1) w.responses w.plugin ps
          (omega (arith, ap length held)) f held in
      (
        record w { responses = r; plugin = delivered w.plugin ps },
        ground (arith, run),
        refl,
        empty,
        refl,
        refl,
      )
