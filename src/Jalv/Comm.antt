-- ===== src/Jalv/Comm.antt =====
-- ATTIC/galv/golang/jalv/comm.h and comm.c: the messages between the UI and the audio thread.
pub mod Sends
pub mod Parts
use soundcan.Base.{ℕ, ◌+◌, ◌%◌, ◌^◌, ◌≡◌, Bool, true, false, Option, none, some, List, ◌++◌, length}
use soundcan.Zix.{ZixRing}
use soundcan.Abi.{Words}

-- `JalvMessageType`
pub data MessageType : Type 0 where
  no_message control_port_change event_transfer latency_change state_request run_state_change :
      MessageType

-- The value of the enumerator.
abbrev pub code_of : MessageType → ℕ
code_of no_message = 0
code_of control_port_change = 1
code_of event_transfer = 2
code_of latency_change = 3
code_of state_request = 4
code_of run_state_change = 5

abbrev pub sizeof_header : ℕ
sizeof_header = 8

abbrev pub sizeof_control_change : ℕ
sizeof_control_change = 8

abbrev pub sizeof_event_transfer : ℕ
sizeof_event_transfer = 12

module _ (abi : Words) where
  open abi use {put_u32}

  -- The bytes of a `JalvMessageHeader`.
  unfoldable pub header_bytes : MessageType → ℕ → List ℕ
  header_bytes type size = put_u32 (code_of type) ++ put_u32 size

  -- The bytes of a `JalvControlChange`; `value` is the float's bit pattern.
  unfoldable pub control_change_bytes : ℕ → ℕ → List ℕ
  control_change_bytes port_index value = put_u32 port_index ++ put_u32 value

  -- The bytes of a `JalvEventTransfer`.
  unfoldable pub event_transfer_bytes : ℕ → ℕ → ℕ → List ℕ
  event_transfer_bytes port_index size type = put_u32 port_index ++ (put_u32 size ++ put_u32 type)

module _ (zix : ZixRing) (abi : Words) where
  open zix use {Ring, begin_write, amend_write, commit_write, write}

  -- `none` is a status other than ZIX_STATUS_SUCCESS; the ring is then as it was.
  unfoldable pub jalv_write_split_message : Ring → List ℕ → List ℕ → Option Ring
  jalv_write_split_message target header body =
      elim (amend_write target (begin_write target) header) [
        | none ↦ none
        | some tx ↦ elim (amend_write target tx body) [
          | none ↦ none
          | some tx' ↦ some (commit_write target tx')
        ]
      ]

  pub jalv_write_event : Ring → ℕ → ℕ → List ℕ → Option Ring
  jalv_write_event target port_index type body =
      let size = length body in
      jalv_write_split_message target
        (header_bytes abi event_transfer ((sizeof_event_transfer + size) % 2 ^ 32)
          ++ event_transfer_bytes abi port_index size type)
        body

  pub jalv_write_control : Ring → ℕ → ℕ → Option Ring
  jalv_write_control target port_index value = write target (
      header_bytes abi control_port_change sizeof_control_change
      ++ control_change_bytes abi port_index value)
