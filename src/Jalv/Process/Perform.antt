-- ===== src/Jalv/Process/Perform.antt =====
-- The effects that the UI's messages are sent for.
use soundcan.Base.{ℕ, ◌+◌, Option, none, some, List, [], ◌∷◌, ◌++◌, length, if◌then◌else◌, ltb, leb}
use soundcan.Base.Maybe.{◌>>=◌}
use soundcan.Zix.{ZixRing}
use soundcan.Abi.{Words}
use soundcan.Lv2.{AtomLayout}
use soundcan.Jalv.Comm.{event_transfer_bytes}
use soundcan.Jalv.Comm.Sends.{Message, control, event, encode, IsMessage}
use soundcan.Jalv.Process.{Process, write_to_port, receive, set_control_value}

module _ (abi : Words) (lv2 : AtomLayout) where
  -- The effect that a message is sent for. The message body passes through `process_msg`.
  unfoldable pub perform : Process → ℕ → Message → Option Process
  perform p nframes (control port value) = set_control_value p port value
  perform p nframes (event port type body) =
      if leb (12 + length body) p.process_msg_size
      then if ltb port p.num_ports
        then write_to_port lv2
            (receive p (event_transfer_bytes abi port (length body) type ++ body)) port nframes type
            body
        else none
      else none

  unfoldable pub perform_all : Process → ℕ → List Message → Option Process
  perform_all p nframes [] = some p
  perform_all p nframes (msg ∷ msgs) = perform p nframes msg >>= (λ q. perform_all q nframes msgs)

module _ (abi : Words) where
  -- The bytes of messages one after another.
  unfoldable pub encode_all : List Message → List ℕ
  encode_all [] = []
  encode_all (msg ∷ msgs) = encode abi msg ++ encode_all msgs

abbrev pub AllMessages : ZixRing → Words → List Message → Type 0
AllMessages zix abi [] = Unit {0}
AllMessages zix abi (msg ∷ msgs) = IsMessage zix abi msg × AllMessages zix abi msgs

-- The payload's size.
abbrev pub payload : Message → ℕ
payload (control port value) = 8
payload (event port type body) = 12 + length body
