-- ===== src/Jalv/Process/Apply.antt =====
-- What stands in the ring is what the audio thread applies.
use mathlib.Core.List.{append_assoc}
use soundcan.Base.{
  ℕ, zero, suc, ◌+◌, ◌^◌, ◌≤◌, ◌<◌, ◌≡◌, ◌∙◌, refl, sym, ap, arith, some, List, [], ◌∷◌, ◌++◌,
  length, drop, length-append,
}
use soundcan.Base.Maybe.{>>=-eq-some}
use soundcan.Zix.{ZixRing}
use soundcan.Zix.Front.{read_front}
use soundcan.Abi.{Words}
use soundcan.Lv2.{AtomLayout}
use soundcan.Jalv.Comm.{
  header_bytes, control_change_bytes, event_transfer_bytes, MessageType, code_of,
  control_port_change, event_transfer,
}
use soundcan.Jalv.Comm.Parts.{header_parts, control_parts, event_parts}
use soundcan.Jalv.Comm.Sends.{
  Message, control, event, encode, IsMessage, length-header_bytes, length-control_change_bytes,
  length-event_transfer_bytes,
}
use soundcan.Jalv.Process.{
  Process, went_on, receive, apply_control_change, apply_event_transfer, apply_message, apply_from,
  apply_ui_events, write_received,
}
use soundcan.Jalv.Process.Perform.{perform, perform_all, encode_all, AllMessages, payload}

module _ (zix : ZixRing) (abi : Words) (lv2 : AtomLayout) where
  open zix use {Ring, contents, read}
  open abi use {get_u32}

  -- The bytes after the header.
  abbrev body_of : Message → List ℕ
  body_of (control port value) = control_change_bytes abi port value
  body_of (event port type body) = event_transfer_bytes abi port (length body) type ++ body

  abbrev type_of : Message → MessageType
  type_of (control port value) = control_port_change
  type_of (event port type body) = event_transfer

  encode_parts :
      (msg : Message) → encode abi msg ≡ header_bytes abi (type_of msg) (payload msg) ++ body_of msg
  unfolding encode
  encode_parts (control port value) = refl
  encode_parts (event port type body) = refl

  length-body_of : (msg : Message) → length (body_of msg) ≡ payload msg
  length-body_of (control port value) = length-control_change_bytes abi port value
  length-body_of (event port type body) = omega (
    arith,
    length-append (event_transfer_bytes abi port (length body) type) body,
    length-event_transfer_bytes abi port (length body) type,
  )

  length-encode : (msg : Message) → length (encode abi msg) ≡ 8 + payload msg
  length-encode msg = omega (
    arith,
    ap length (encode_parts msg),
    length-append (header_bytes abi (type_of msg) (payload msg)) (body_of msg),
    length-header_bytes abi (type_of msg) (payload msg),
    length-body_of msg,
  )

  payload_small : (msg : Message) → IsMessage zix abi msg → payload msg < 2 ^ 32
  payload_small (control port value) v = omega arith
  payload_small (event port type body) v = omega arith

  stop :
      (fuel : ℕ) (r : Ring) (p : Process) (nframes i space : ℕ)
      → space ≤ i
      → apply_from zix abi lv2 (suc fuel) r p nframes i space ≡ some (0, r, p)
  unfolding apply_from
  stop fuel r p nframes i space h = ground arith

  -- The body of the loop takes the payload off the ring and has the message's effect.
  apply_one :
      (r : Ring) (p q : Process) (nframes : ℕ) (msg : Message) (rest : List ℕ)
      → IsMessage zix abi msg
      → contents r ≡ body_of msg ++ rest
      → perform abi lv2 p nframes msg ≡ some q
      → (r' : Ring) × (contents r' ≡ rest)
        × (apply_message zix abi lv2 r p nframes (code_of (type_of msg)) (payload msg)
            ≡ went_on (r', q))
  unfolding apply_message apply_control_change apply_event_transfer write_received perform receive
  apply_one r p q nframes (control port value) rest (hp, hv) held done =
      let (r', run, left) =
        read_front zix r (control_change_bytes abi port value) rest 8
          (sym (length-control_change_bytes abi port value)) held in
      let (first, second) = control_parts abi port value hp hv in
      (r', left, ground (arith, run, first, second))
  apply_one r p q nframes (event port type body) rest (hp, ht, hb) held done =
      let n = length body in
      let msg = event_transfer_bytes abi port n type ++ body in
      let (r', run, left) =
        read_front zix r msg rest (12 + n) (sym (length-body_of (event port type body))) held in
      let (e1, e2, e3, e4) =
        event_parts abi (msg ++ drop (length msg) p.process_msg) port type body
          (drop (length msg) p.process_msg) hp ht (omega arith) refl in
      (r', left, ground (arith, run, e1, e2, e3, e4))

  -- One round of the loop.
  round :
      (fuel : ℕ) (r : Ring) (p q : Process) (nframes i space : ℕ) (msg : Message) (rest : List ℕ)
      → i < space
      → IsMessage zix abi msg
      → contents r ≡ encode abi msg ++ rest
      → perform abi lv2 p nframes msg ≡ some q
      → (r' : Ring) × (contents r' ≡ rest)
        × (apply_from zix abi lv2 (suc fuel) r p nframes i space
            ≡ apply_from zix abi lv2 fuel r' q nframes (i + 8 + payload msg) space)
  unfolding apply_from
  round fuel r p q nframes i space msg rest h v held done =
      let header = header_bytes abi (type_of msg) (payload msg) in
      let split =
        held ∙ ap (λ bs. bs ++ rest) (encode_parts msg) ∙ append_assoc header (body_of msg) rest in
      let (r₁, run, left) =
        read_front zix r header (body_of msg ++ rest) 8
          (sym (length-header_bytes abi (type_of msg) (payload msg))) split in
      let (t, s) = header_parts abi (type_of msg) (payload msg) (payload_small msg v) in
      let (r₂, left₂, step) = apply_one r₁ p q nframes msg rest v left done in
      (r₂, left₂, ground (arith, run, t, s, step))

  apply_all :
      (fuel : ℕ) (r : Ring) (p q : Process) (nframes i space : ℕ) (msgs : List Message)
      → AllMessages zix abi msgs
      → contents r ≡ encode_all abi msgs
      → i + length (encode_all abi msgs) ≡ space
      → length (encode_all abi msgs) < fuel
      → perform_all abi lv2 p nframes msgs ≡ some q
      → (r' : Ring) × (apply_from zix abi lv2 fuel r p nframes i space ≡ some (0, r', q))
        × (contents r' ≡ [])
  unfolding encode_all perform_all
  apply_all zero r p q nframes i space msgs v held e h done = absurd (omega arith)
  apply_all (suc fuel) r p q nframes i space [] v held e h done =
      (r, ground (arith, stop fuel r p nframes i space (omega arith)), held)
  apply_all (suc fuel) r p q nframes i space (msg ∷ msgs) (one, v) held e h done =
      let (mid, first, later) =
        >>=-eq-some (perform abi lv2 p nframes msg) (λ m. perform_all abi lv2 m nframes msgs)
          done in
      let size = length-append (encode abi msg) (encode_all abi msgs) in
      let this = length-encode msg in
      let (r₁, left, step) =
        round fuel r p mid nframes i space msg (encode_all abi msgs) (omega arith) one held first in
      let (r₂, run, empty) =
        apply_all fuel r₁ mid q nframes (i + 8 + payload msg) space msgs v left (omega arith)
          (omega arith) later in
      (r₂, step ∙ run, empty)

  -- What the UI has written, the audio thread applies: where the ring holds the bytes of messages that
  -- can each be performed in turn, apply_ui_events ends, returns 0, leaves the ring empty and the
  -- process as performing the messages in order leaves it.
  pub apply_ui_events-perform_all :
      (r : Ring) (p q : Process) (nframes : ℕ) (msgs : List Message)
      → AllMessages zix abi msgs
      → contents r ≡ encode_all abi msgs
      → perform_all abi lv2 p nframes msgs ≡ some q
      → (r' : Ring) × (apply_ui_events zix abi lv2 r p nframes ≡ some (0, r', q))
        × (contents r' ≡ [])
  unfolding apply_ui_events
  apply_ui_events-perform_all r p q nframes msgs v held done =
      let size = ap length held in
      apply_all (length (contents r) + 1) r p q nframes 0 (length (contents r)) msgs v held
        (omega (arith, size)) (omega (arith, size)) done
