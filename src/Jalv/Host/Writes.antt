-- ===== src/Jalv/Host/Writes.antt =====
-- What the UI writes is what it means to send.
use soundcan.Base.{
  ℕ, ◌≡◌, ◌∙◌, sym, ap, arith, List, ◌++◌, ltb, if◌then◌else◌, length, take, drop, length-append,
  drop-append,
}
use mathlib.Core.List.{append_assoc}
use soundcan.Base.{◌≢◌}
use soundcan.Zix.{ZixRing}
use soundcan.Abi.{Words}
use soundcan.Jalv.Comm.Parts.{get_first}
use soundcan.Jalv.Comm.Sends.{Message, control, event, send, IsMessage}
use soundcan.Jalv.Host.{jalv_send_to_plugin, wrote, zix_success}

-- The port of a message.
abbrev pub port_of : Message → ℕ
port_of (control port value) = port
port_of (event port type body) = port

-- The protocol of a message: 0 is a float.
abbrev pub protocol_of : ℕ → Message → ℕ
protocol_of transfer (control port value) = 0
protocol_of transfer (event port type body) = transfer

module _ (zix : ZixRing) (abi : Words) where
  open zix use {Ring}
  open abi use {put_u32, get_u32}

  -- The buffer that the UI hands over: a float, or an atom.
  abbrev pub buffer_of : Message → List ℕ
  buffer_of (control port value) = put_u32 value
  buffer_of (event port type body) = put_u32 (length body) ++ (put_u32 type ++ body)

  -- A message for a port that the plugin has is sent by jalv_send_to_plugin as it was handed over,
  -- and nothing is written for another port. The URID of atom:eventTransfer is not 0, and the fields
  -- of the message and its size are below 2^32.
  pub send_to_plugin-send :
      (ports transfer : ℕ) (r : Ring) (msg : Message)
      → transfer ≢ 0
      → IsMessage zix abi msg
      → jalv_send_to_plugin zix abi ports transfer r
          (port_of msg)
          (protocol_of transfer msg)
          (buffer_of msg)
        ≡ (if ltb (port_of msg) ports
            then wrote zix abi r (send zix abi r msg)
            else (zix_success, r))
  unfolding jalv_send_to_plugin send
  send_to_plugin-send ports transfer r (control port value) nz v =
      let four = abi.length-put_u32 value in
      let back = abi.get-put_u32 value (v.1) in ground (arith, four, back)
  send_to_plugin-send ports transfer r (event port type body) nz (hp, ht, hb) =
      let n = length body in
      let S = put_u32 n in
      let T = put_u32 type in
      let s = abi.length-put_u32 n in
      let t = abi.length-put_u32 type in
      let size = length-append S (T ++ body) in
      let size₂ = length-append T body in
      let e1 = get_first abi n (T ++ body) (omega arith) in
      let d4 = drop-append S (T ++ body) 4 (sym s) in
      let e2 : get_u32 (take 4 (drop 4 (S ++ (T ++ body)))) ≡ type =
        ap (λ bs. get_u32 (take 4 bs)) d4 ∙ get_first abi type body ht in
      let d8 : drop 8 (S ++ (T ++ body)) ≡ body =
        ap (drop 8) (sym (append_assoc S T body))
        ∙ drop-append (S ++ T) body 8 (omega (arith, length-append S T, s, t)) in
      ground (arith, s, t, size, size₂, e1, e2, d8)
