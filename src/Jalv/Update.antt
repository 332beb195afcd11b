-- ===== src/Jalv/Update.antt =====
-- ATTIC/galv/golang/jalv/jalv.c: jalv_update, by which the UI gets what the audio thread has sent.
pub mod Read
pub mod Small
use soundcan.Base.{
  ℕ, zero, suc, ◌+◌, Bool, true, false, Option, none, some, List, [], ◌∷◌, ◌++◌, length, take, drop,
  ltb, leb, ◌==◌, if◌then◌else◌,
}
use soundcan.Zix.{ZixRing}
use soundcan.Abi.{Words}
use soundcan.Jalv.Comm.{code_of, control_port_change, event_transfer, latency_change, sizeof_header}

-- A call of the frontend or of the backend: jalv_frontend_port_event with the port, the protocol and
-- the buffer, or jalv_backend_recompute_latencies.
pub data Call : Type 0 where
  port_event : ℕ → ℕ → List ℕ → Call
  recompute_latencies : Call

module _ (zix : ZixRing) (abi : Words) where
  open zix use {Ring, contents, read}
  open abi use {get_u32}

  -- The call for a message of a type; `ui_msg` is the buffer with the message at its start. `none` is
  -- an unknown type.
  unfoldable pub dispatch : ℕ → ℕ → List ℕ → Option Call
  dispatch transfer type ui_msg =
      if type == code_of control_port_change
      then some (port_event (get_u32 (take 4 ui_msg)) 0 (take 4 ui_msg))
      else if type == code_of event_transfer
      then some (
          port_event (get_u32 (take 4 ui_msg)) transfer
            (take (8 + get_u32 (take 4 (drop 4 ui_msg))) (drop 4 ui_msg)))
      else if type == code_of latency_change
      then some recompute_latencies
      else none

  -- The loop from `i`: the value that is returned, the ring, and the calls. `none` is a read past the
  -- `ui_msg_size` bytes of `ui_msg`, or out of fuel.
  unfoldable pub update_from : ℕ → ℕ → ℕ → Ring → List ℕ → ℕ → ℕ → Option (ℕ × Ring × List Call)
  update_from zero transfer ui_msg_size ring ui_msg i space = none
  update_from (suc fuel) transfer ui_msg_size ring ui_msg i space = elim (ltb i space) [
    | false ↦ some (1, ring, [])
    | true ↦ elim (read ring sizeof_header) [
      | none ↦ some (1, ring, [])
      | some (header, ring') ↦
          let size = get_u32 (drop 4 header) in
          elim (read ring' size) [
            | none ↦ some (1, ring', [])
            | some (bytes, ring'') ↦ elim (leb size ui_msg_size) [
              | false ↦ none
              | true ↦
                  let msg = bytes ++ drop (length bytes) ui_msg in
                  elim (dispatch transfer (get_u32 (take 4 header)) msg) [
                    | none ↦ some (1, ring'', [])
                    | some call ↦
                        elim (update_from fuel transfer ui_msg_size ring'' msg
                          (i + sizeof_header + size) space) [
                            | none ↦ none
                            | some (status, last, calls) ↦ some (status, last, call ∷ calls)
                          ]
                  ]
            ]
          ]
    ]
  ]

  -- `finished` tells whether the semaphore `done` can be taken: then the frontend is closed. `transfer`
  -- is the URID of atom:eventTransfer. A round takes 8 bytes at least.
  unfoldable pub jalv_update : Bool → ℕ → ℕ → Ring → List ℕ → Option (ℕ × Ring × List Call)
  jalv_update finished transfer ui_msg_size ring ui_msg =
      if finished
      then some (0, ring, [])
      else update_from (length (contents ring) + 1) transfer ui_msg_size ring ui_msg 0
          (length (contents ring))
