-- ===== src/Jalv/Update/Read.antt =====
-- What the UI is told.
use soundcan.Base.{ℕ, ◌+◌, ◌^◌, ◌≤◌, ◌<◌, ◌≡◌, arith, List, [], ◌∷◌, ◌++◌, length, length-append}
use soundcan.Zix.{ZixRing}
use soundcan.Abi.{Words}
use soundcan.Jalv.Comm.{
  header_bytes, control_change_bytes, event_transfer_bytes, MessageType, control_port_change,
  event_transfer, latency_change,
}
use soundcan.Jalv.Comm.Sends.{
  Message, control, event, IsMessage, length-header_bytes, length-control_change_bytes,
  length-event_transfer_bytes,
}
use soundcan.Jalv.Update.{Call, port_event, recompute_latencies}

-- What the audio thread tells the UI: a message, or a latency.
pub data Told : Type 0 where
  message : Message → Told
  latency : ℕ → Told

abbrev pub type_of : Told → MessageType
type_of (message (control port value)) = control_port_change
type_of (message (event port type body)) = event_transfer
type_of (latency frames) = latency_change

abbrev pub payload_of : Told → ℕ
payload_of (message (control port value)) = 8
payload_of (message (event port type body)) = 12 + length body
payload_of (latency frames) = 4

module _ (abi : Words) where
  open abi use {put_u32}

  -- The bytes after the header.
  abbrev pub payload_bytes : Told → List ℕ
  payload_bytes (message (control port value)) = control_change_bytes abi port value
  payload_bytes (message (event port type body)) =
      event_transfer_bytes abi port (length body) type ++ body
  payload_bytes (latency frames) = put_u32 frames

  unfoldable pub told_bytes : Told → List ℕ
  told_bytes t = header_bytes abi (type_of t) (payload_of t) ++ payload_bytes t

  unfoldable pub all_told : List Told → List ℕ
  all_told [] = []
  all_told (t ∷ ts) = told_bytes t ++ all_told ts

  -- The call for what is told: the buffer for a control starts with the message and not with its value.
  unfoldable pub call_of : ℕ → Told → Call
  call_of transfer (message (control port value)) = port_event port 0 (put_u32 port)
  call_of transfer (message (event port type body)) =
      port_event port transfer (put_u32 (length body) ++ (put_u32 type ++ body))
  call_of transfer (latency frames) = recompute_latencies

  pub length-payload_bytes : (t : Told) → length (payload_bytes t) ≡ payload_of t
  length-payload_bytes (message (control port value)) = length-control_change_bytes abi port value
  length-payload_bytes (message (event port type body)) = omega (
    arith,
    length-append (event_transfer_bytes abi port (length body) type) body,
    length-event_transfer_bytes abi port (length body) type,
  )
  length-payload_bytes (latency frames) = abi.length-put_u32 frames

  pub length-told_bytes : (t : Told) → length (told_bytes t) ≡ 8 + payload_of t
  unfolding told_bytes
  length-told_bytes t = omega (
    arith,
    length-append (header_bytes abi (type_of t) (payload_of t)) (payload_bytes t),
    length-header_bytes abi (type_of t) (payload_of t),
    length-payload_bytes t,
  )

module _ (zix : ZixRing) (abi : Words) where
  open zix use {Ring, contents}
  open abi use {put_u32, get_u32}

  -- A message with fields that are 32 bit words, which `size` bytes can hold.
  abbrev pub IsTold : ℕ → Told → Type 0
  IsTold size (message msg) = IsMessage zix abi msg × (payload_of (message msg) ≤ size)
  IsTold size (latency frames) = 4 ≤ size

  abbrev pub AllTold : ℕ → List Told → Type 0
  AllTold size [] = Unit {0}
  AllTold size (t ∷ ts) = IsTold size t × AllTold size ts

  pub payload_small : (size : ℕ) (t : Told) → IsTold size t → payload_of t < 2 ^ 32
  payload_small size (message (control port value)) v = omega arith
  payload_small size (message (event port type body)) v = omega arith
  payload_small size (latency frames) v = omega arith
