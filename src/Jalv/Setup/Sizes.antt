-- ===== src/Jalv/Setup/Sizes.antt =====
-- The size of the UI's message buffer that jalv_create_ports computes.
use soundcan.Base.{ℕ, ◌+◌, ◌≡◌, refl, arith, Bool, List, [], ◌∷◌, length}
use soundcan.Jalv.Setup.{
  LilvPort, Jalv, buf_size_of, jalv_process_port_init, create_port, create_ports_from,
  jalv_create_ports, zero_port, calloc,
}

-- No port asks for a size of its buffer.
abbrev pub NoSizes : List LilvPort → Type 0
NoSizes [] = Unit {0}
NoSizes (lp ∷ lps) = (buf_size_of lp.minimum_size ≡ 0) × NoSizes lps

ui_msg_size_create_port :
    (metadata : Bool) (jalv : Jalv) (lp : LilvPort) (index : ℕ)
    → buf_size_of lp.minimum_size ≡ 0
    → (create_port metadata jalv lp zero_port index).1.ui_msg_size ≡ jalv.ui_msg_size
unfolding create_port jalv_process_port_init
ui_msg_size_create_port metadata jalv lp index h = ground (arith, h)

ui_msg_size_from :
    (metadata : Bool) (jalv : Jalv) (lps : List LilvPort) (index : ℕ)
    → NoSizes lps
    → (create_ports_from metadata jalv lps index).1.ui_msg_size ≡ jalv.ui_msg_size
unfolding create_ports_from
ui_msg_size_from metadata jalv [] index h = refl
ui_msg_size_from metadata jalv (lp ∷ lps) index (none_here, h) =
    let next = (create_port metadata jalv lp zero_port index).1 in
    ground (
      arith,
      ui_msg_size_create_port metadata jalv lp index none_here,
      ui_msg_size_from metadata next lps (index + 1) h,
    )

pub ui_msg_size_create_ports :
    (metadata : Bool) (jalv : Jalv) (lps : List LilvPort) (defaults : List ℕ)
    → NoSizes lps
    → (jalv_create_ports metadata jalv lps defaults).1.ui_msg_size ≡ jalv.ui_msg_size
unfolding jalv_create_ports
ui_msg_size_create_ports metadata jalv lps defaults h =
    let p = jalv.process in
    ui_msg_size_from metadata
      (record jalv {
        process = record p {
          num_ports = length lps;
          ports = calloc (length lps) zero_port;
          controls_buf = defaults;
        };
      })
      lps 0 h
