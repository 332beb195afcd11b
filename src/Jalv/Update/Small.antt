-- ===== src/Jalv/Update/Small.antt =====
-- A message buffer that is too small.
use mathlib.Core.List.{append_assoc}
use soundcan.Base.{
  ℕ, ◌^◌, ◌≡◌, ◌<◌, ◌≤◌, ◌∙◌, sym, ap, arith, Bool, false, none, List, ◌++◌, length, length-append,
}
use soundcan.Zix.{ZixRing}
use soundcan.Zix.Front.{read_front}
use soundcan.Abi.{Words}
use soundcan.Jalv.Comm.{header_bytes}
use soundcan.Jalv.Comm.Parts.{header_parts}
use soundcan.Jalv.Comm.Sends.{control, event, length-header_bytes}
use soundcan.Jalv.Setup.{LilvPort, Jalv, jalv_create_ports}
use soundcan.Jalv.Setup.Sizes.{NoSizes, ui_msg_size_create_ports}
use soundcan.Jalv.Update.{update_from, jalv_update}
use soundcan.Jalv.Update.Read.{
  Told, type_of, payload_of, payload_bytes, told_bytes, length-payload_bytes, length-told_bytes,
}

module _ (zix : ZixRing) (abi : Words) where
  open zix use {Ring, contents}

  too_small :
      (transfer size : ℕ) (r : Ring) (ui_msg : List ℕ) (t : Told) (rest : List ℕ)
      → payload_of t < 2 ^ 32
      → size < payload_of t
      → contents r ≡ told_bytes abi t ++ rest
      → jalv_update zix abi false transfer size r ui_msg ≡ none
  unfolding jalv_update update_from told_bytes
  too_small transfer size r ui_msg t rest small h held =
      let n = payload_of t in
      let header = header_bytes abi (type_of t) n in
      let bytes = payload_bytes abi t in
      let (r₁, run, left) =
        read_front zix r header (bytes ++ rest) 8 (sym (length-header_bytes abi (type_of t) n))
          (held ∙ append_assoc header bytes rest) in
      let (kind, many) = header_parts abi (type_of t) n small in
      let (r₂, run₂, left₂) =
        read_front zix r₁ bytes rest n (sym (length-payload_bytes abi t)) left in
      let some_space : 8 ≤ length (contents r) =
        omega
          (arith, ap length held, length-append (told_bytes abi t) rest, length-told_bytes abi t) in
      ground (arith, run, kind, many, run₂, some_space)

  -- Where no port of the plugin asks for the size of its buffer, the message buffer that jalv_open
  -- makes after jalv_create_ports has no bytes, and the first thing that the audio thread tells is
  -- written past it. The size is 0 at first.
  pub create_ports-jalv_update :
      (metadata : Bool) (jalv : Jalv) (lps : List LilvPort) (defaults : List ℕ) (transfer : ℕ)
      (r : Ring) (ui_msg : List ℕ) (t : Told) (rest : List ℕ)
      → jalv.ui_msg_size ≡ 0
      → NoSizes lps
      → payload_of t < 2 ^ 32
      → contents r ≡ told_bytes abi t ++ rest
      → jalv_update zix abi false transfer
          ((jalv_create_ports metadata jalv lps defaults).1.ui_msg_size)
          r
          ui_msg
        ≡ none
  create_ports-jalv_update metadata jalv lps defaults transfer r ui_msg t rest zero_size none_asks
        small held =
      let size = (jalv_create_ports metadata jalv lps defaults).1.ui_msg_size in
      let same : size ≡ 0 =
        ui_msg_size_create_ports metadata jalv lps defaults none_asks ∙ zero_size in
      too_small transfer size r ui_msg t rest small (omega (arith, same, payload_pos t)) held
    where
      payload_pos : (t : Told) → 0 < payload_of t
      payload_pos (Told.message (control port value)) = omega arith
      payload_pos (Told.message (event port type body)) = omega arith
      payload_pos (Told.latency frames) = omega arith
