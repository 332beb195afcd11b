-- ===== src/Jalv/Worker/Packets.antt =====
-- Packets in a ring: the size of the data and the data.
use soundcan.Base.{
  ℕ, ◌+◌, ◌^◌, ◌≤◌, ◌<◌, ◌≡◌, ◌∙◌, refl, sym, ap, arith, dec_lt, some, List, [], ◌∷◌, ◌++◌, length,
  length-append,
}
use mathlib.Core.List.{append_assoc, append-nil}
use soundcan.Zix.{ZixRing}
use soundcan.Zix.Front.{read_front}
use soundcan.Abi.{Words}
use soundcan.Jalv.Comm.{jalv_write_split_message}
use soundcan.Jalv.Comm.Sends.{split_message_fits, split_message_full}
use soundcan.Jalv.Worker.{jalv_worker_write_packet, read_size, read_body}

module _ (abi : Words) where
  open abi use {put_u32}

  abbrev pub packet : List ℕ → List ℕ
  packet bytes = put_u32 (length bytes) ++ bytes

  abbrev pub packets : List (List ℕ) → List ℕ
  packets [] = []
  packets (p ∷ ps) = packet p ++ packets ps

  pub packets-append :
      (ps : List (List ℕ)) (p : List ℕ) → packets (ps ++ p ∷ []) ≡ packets ps ++ packet p
  packets-append [] p = append-nil (packet p)
  packets-append (q ∷ ps) p =
      ap (λ xs. packet q ++ xs) (packets-append ps p)
      ∙ sym (append_assoc (packet q) (packets ps) (packet p))

  pub length-packet : (bytes : List ℕ) → length (packet bytes) ≡ 4 + length bytes
  length-packet bytes =
      omega (arith, length-append (put_u32 (length bytes)) bytes, abi.length-put_u32 (length bytes))

module _ (zix : ZixRing) (abi : Words) where
  open zix use {Ring, contents, space}
  open abi use {put_u32}

  write_packet_split :
      (r : Ring) (bytes : List ℕ)
      → jalv_worker_write_packet zix abi r bytes
        ≡ jalv_write_split_message zix abi r (put_u32 (length bytes)) bytes
  unfolding jalv_worker_write_packet jalv_write_split_message
  write_packet_split r bytes = refl

  pub write_packet_fits :
      (r : Ring) (bytes : List ℕ)
      → 4 + length bytes ≤ space r
      → (r' : Ring) × (jalv_worker_write_packet zix abi r bytes ≡ some r')
        × (contents r' ≡ contents r ++ packet abi bytes)
  write_packet_fits r bytes h =
      let (r', run, (c, s)) =
        split_message_fits zix abi r (put_u32 (length bytes)) bytes
          (omega (arith, abi.length-put_u32 (length bytes))) in
      (r', write_packet_split r bytes ∙ run, c)

  -- A packet that was written stands whole at the end of the ring.
  pub contents-write_packet :
      (r r' : Ring) (bytes : List ℕ)
      → jalv_worker_write_packet zix abi r bytes ≡ some r'
      → contents r' ≡ contents r ++ packet abi bytes
  contents-write_packet r r' bytes e = elim (dec_lt (space r) (4 + length bytes)) [
    | yes p ↦
        let full =
          split_message_full zix abi r (put_u32 (length bytes)) bytes
            (omega (arith, abi.length-put_u32 (length bytes))) in
        absurd (cc (e, write_packet_split r bytes, full))
    | no p ↦
        let (r₁, run, c) = write_packet_fits r bytes (omega arith) in
        let same : r' ≡ r₁ = cc (e, run) in ap contents same ∙ c
  ]

  -- The packet at the front is read as it was written.
  pub read_packet :
      (r : Ring) (garbage bytes rest : List ℕ)
      → length bytes < 2 ^ 32
      → contents r ≡ packet abi bytes ++ rest
      → (r₁ : Ring) × (r₂ : Ring) × (read_size zix abi r ≡ (length bytes, r₁))
        × (read_body zix abi garbage r₁ (length bytes) ≡ (bytes, r₂))
        × (contents r₂ ≡ rest)
  unfolding read_size read_body
  read_packet r garbage bytes rest small held =
      let head = put_u32 (length bytes) in
      let (r₁, run₁, left₁) =
        read_front zix r head (bytes ++ rest) 4 (sym (abi.length-put_u32 (length bytes)))
          (held ∙ append_assoc head bytes rest) in
      let (r₂, run₂, left₂) = read_front zix r₁ bytes rest (length bytes) refl left₁ in
      (
        r₁,
        r₂,
        ground (arith, run₁, abi.get-put_u32 (length bytes) small),
        ground (arith, run₂),
        left₂,
      )
