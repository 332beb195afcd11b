-- ===== src/Jalv/Comm/Sends.antt =====
-- A message is written whole or not at all.
use mathlib.Core.List.{append_assoc}
use soundcan.Base.{
  ℕ, ◌+◌, ◌-◌, ◌%◌, ◌^◌, ◌≤◌, ◌<◌, ◌≡◌, ◌∙◌, ap, arith, dec_lt, Option, none, some, List, ◌++◌,
  length, length-append,
}
use soundcan.Zix.{ZixRing}
use soundcan.Abi.{Words}
use soundcan.Jalv.Comm.{
  jalv_write_split_message, jalv_write_event, jalv_write_control, header_bytes,
  control_change_bytes, event_transfer_bytes, event_transfer, control_port_change, MessageType,
  code_of,
}

module _ (zix : ZixRing) where
  open zix use {Ring, contents, space, begin_write, pending}

  -- A ring after `bytes` were written.
  abbrev pub Appends : Ring → List ℕ → Ring → Type 0
  Appends r bytes r' = (contents r' ≡ contents r ++ bytes) × (space r' ≡ space r - length bytes)

  pub split_message_fits :
      (abi : Words) (r : Ring) (header body : List ℕ)
      → length header + length body ≤ space r
      → (r' : Ring) × (jalv_write_split_message zix abi r header body ≡ some r')
        × Appends r (header ++ body) r'
  unfolding jalv_write_split_message
  split_message_fits abi r header body h =
      let start = zix.pending-begin r in
      let (tx, first, held) =
        zix.amend_fits r (begin_write r) header (omega (arith, ap length start)) in
      let one : pending tx ≡ header = held ∙ ap (λ bs. bs ++ header) start in
      let (tx', second, all) = zix.amend_fits r tx body (omega (arith, ap length one)) in
      let both : pending tx' ≡ header ++ body = all ∙ ap (λ bs. bs ++ body) one in
      (
        zix.commit_write r tx',
        ground (arith, first, second),
        (
          zix.contents-commit r tx' ∙ ap (λ bs. contents r ++ bs) both,
          zix.space-commit r tx' ∙ ap (λ bs. space r - length bs) both,
        ),
      )

  pub split_message_full :
      (abi : Words) (r : Ring) (header body : List ℕ)
      → space r < length header + length body
      → jalv_write_split_message zix abi r header body ≡ none
  unfolding jalv_write_split_message
  split_message_full abi r header body h =
      let start = zix.pending-begin r in
      elim (dec_lt (space r) (length header)) [
        | yes p ↦
            ground (arith, zix.amend_full r (begin_write r) header (omega (arith, ap length start)))
        | no p ↦
            let (tx, first, held) =
              zix.amend_fits r (begin_write r) header (omega (arith, ap length start)) in
            let one : pending tx ≡ header = held ∙ ap (λ bs. bs ++ header) start in
            ground (arith, first, zix.amend_full r tx body (omega (arith, ap length one)))
      ]

-- What the UI sends: a control value or an atom for a port.
pub data Message : Type 0 where
  control : ℕ → ℕ → Message
  event : ℕ → ℕ → List ℕ → Message

module _ (abi : Words) where
  -- The bytes of a message: the header with the payload's size, and the payload.
  unfoldable pub encode : Message → List ℕ
  encode (control port value) =
      header_bytes abi control_port_change 8 ++ control_change_bytes abi port value
  encode (event port type body) =
      header_bytes abi event_transfer (12 + length body)
      ++ (event_transfer_bytes abi port (length body) type ++ body)

  pub length-header_bytes : (t : MessageType) (n : ℕ) → length (header_bytes abi t n) ≡ 8
  unfolding header_bytes
  length-header_bytes t n = omega (
    arith,
    length-append (abi.put_u32 (code_of t)) (abi.put_u32 n),
    abi.length-put_u32 (code_of t),
    abi.length-put_u32 n,
  )

  pub length-control_change_bytes : (p v : ℕ) → length (control_change_bytes abi p v) ≡ 8
  unfolding control_change_bytes
  length-control_change_bytes p v = omega (
    arith,
    length-append (abi.put_u32 p) (abi.put_u32 v),
    abi.length-put_u32 p,
    abi.length-put_u32 v,
  )

  pub length-event_transfer_bytes : (p s t : ℕ) → length (event_transfer_bytes abi p s t) ≡ 12
  unfolding event_transfer_bytes
  length-event_transfer_bytes p s t = omega (
    arith,
    length-append (abi.put_u32 p) (abi.put_u32 s ++ abi.put_u32 t),
    length-append (abi.put_u32 s) (abi.put_u32 t),
    abi.length-put_u32 p,
    abi.length-put_u32 s,
    abi.length-put_u32 t,
  )

module _ (zix : ZixRing) (abi : Words) where
  open zix use {Ring, contents, space}

  unfoldable pub send : Ring → Message → Option Ring
  send r (control port value) = jalv_write_control zix abi r port value
  send r (event port type body) = jalv_write_event zix abi r port type body

  abbrev pub IsMessage : Message → Type 0
  IsMessage (control port value) = (port < 2 ^ 32) × (value < 2 ^ 32)
  IsMessage (event port type body) = (port < 2 ^ 32) × (type < 2 ^ 32) × (length body + 12 < 2 ^ 32)

  event_split :
      (r : Ring) (port type : ℕ) (body : List ℕ)
      → length body + 12 < 2 ^ 32
      → jalv_write_event zix abi r port type body
        ≡ jalv_write_split_message zix abi r
            (header_bytes abi event_transfer (12 + length body)
              ++ event_transfer_bytes abi port (length body) type)
            body
  unfolding jalv_write_event
  event_split r port type body h =
      let small : (12 + length body) % 2 ^ 32 ≡ 12 + length body = omega arith in rw small

  -- Where a message fits, it is appended to the ring whole.
  pub send_fits :
      (r : Ring) (msg : Message)
      → IsMessage msg
      → length (encode abi msg) ≤ space r
      → (r' : Ring) × (send r msg ≡ some r') × Appends zix r (encode abi msg) r'
  unfolding send encode jalv_write_control
  send_fits r (control port value) v h =
      let (r', run, c, s) =
        zix.write_fits r
          (header_bytes abi control_port_change 8 ++ control_change_bytes abi port value) h in
      (r', run, (c, s))
  send_fits r (event port type body) v h =
      let n = length body in
      let header = header_bytes abi event_transfer (12 + n) in
      let start = event_transfer_bytes abi port n type in
      let join = append_assoc header start body in
      let (r', run, (c, s)) =
        split_message_fits zix abi r (header ++ start) body
          (omega (arith, h, ap length join, length-append (header ++ start) body)) in
      (
        r',
        event_split r port type body (v.2) ∙ run,
        (c ∙ ap (λ bs. contents r ++ bs) join, s ∙ ap (λ bs. space r - length bs) join),
      )

  -- Where a message does not fit the ring, the call fails and writes nothing.
  send_full :
      (r : Ring) (msg : Message)
      → IsMessage msg
      → space r < length (encode abi msg)
      → send r msg ≡ none
  unfolding send encode jalv_write_control
  send_full r (control port value) v h =
      zix.write_full r
        (header_bytes abi control_port_change 8 ++ control_change_bytes abi port value) h
  send_full r (event port type body) v h =
      let n = length body in
      let header = header_bytes abi event_transfer (12 + n) in
      let start = event_transfer_bytes abi port n type in
      event_split r port type body (v.2)
      ∙ (split_message_full zix abi r (header ++ start) body (
          omega (
            arith,
            h,
            ap length (append_assoc header start body),
            length-append (header ++ start) body,
          )))
