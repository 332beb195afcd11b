-- ===== src/Jalv/Controls/Set.antt =====
-- ATTIC/galv/golang/jalv/jalv.c: a control is set, and the UI gets the first values.
use soundcan.Base.{
  ℕ, suc, ◌-◌, ◌^◌, Bool, true, false, Option, none, some, List, [], ◌∷◌, set, get_elem?, ◌==◌,
  if◌then◌else◌,
}
use soundcan.Base.Maybe.{◌>>=◌}
use soundcan.CText.{Text}
use soundcan.Zix.{ZixRing}
use soundcan.Abi.{Words}
use soundcan.Jalv.Types.{PortType, type_control}
use soundcan.Jalv.Host.{jalv_send_to_plugin}
use soundcan.Jalv.State.{Shared}
use soundcan.Jalv.Controls.{ControlType, port, property, ControlId, jalv_control_by_symbol}

-- The atoms that the forge makes in a buffer of so many bytes: a patch:Set of a property to a value of
-- a type, and a patch:Get. `event_transfer` and `float` are the URIDs.
pub record Forge : Type 0 where
  pub float : ℕ
  pub event_transfer : ℕ
  pub patch_set : ℕ → ℕ → ℕ → List ℕ → List ℕ
  pub patch_get : ℕ → List ℕ

-- UINT32_MAX
abbrev no_port : ℕ
no_port = 2 ^ 32 - 1

module _ (zix : ZixRing) (abi : Words) (forge : Forge) where
  open zix use {Ring}
  open forge use {float, event_transfer, patch_set, patch_get}

  -- An atom to the control port, if there is one.
  abbrev to_control_port : Shared Ring → List ℕ → Shared Ring
  to_control_port s atom = if s.process.control_in == no_port then s else record s {
    ui_to_plugin =
        (jalv_send_to_plugin zix abi s.process.num_ports event_transfer s.ui_to_plugin
          s.process.control_in event_transfer atom).1;
  }

  module _ {Node : Type 0} where
    -- `ui_msg_size` is the size of the buffer that the forge writes to.
    unfoldable pub set_by_type :
        ControlType → Shared Ring → ℕ → ControlId Node → ℕ → List ℕ → Shared Ring
    set_by_type port s ui_msg_size control type body =
        if type == float
        then record s {
          process = record (s.process) {
            controls_buf = set s.process.controls_buf control.index (abi.get_u32 body);
          };
        }
        else s
    set_by_type property s ui_msg_size control type body =
        to_control_port s (patch_set ui_msg_size control.property_urid type body)

    unfoldable pub jalv_set_control : Shared Ring → ℕ → ControlId Node → ℕ → List ℕ → Shared Ring
    jalv_set_control s ui_msg_size control type body =
        set_by_type control.type s ui_msg_size control type body

    -- The argument `none` is one that sscanf does not take apart.
    unfoldable pub jalv_apply_control_arg :
        Shared Ring → ℕ → List (ControlId Node) → Option (Text × ℕ) → Bool × Shared Ring
    jalv_apply_control_arg s ui_msg_size controls none = (false, s)
    jalv_apply_control_arg s ui_msg_size controls (some (sym, val)) =
        elim (jalv_control_by_symbol controls sym) [
          | none ↦ (false, s)
          | some control ↦ (true, jalv_set_control s ui_msg_size control float (abi.put_u32 val))
        ]

  -- The values of the control ports, with their indices, from port `i` on; `none` is a read past the
  -- values.
  unfoldable pub initial_values : ℕ → List PortType → List ℕ → Option (List (ℕ × ℕ))
  initial_values i [] controls_buf = some []
  initial_values i (type_control ∷ types) controls_buf = do
    value ← get_elem? controls_buf i
    values ← initial_values (suc i) types controls_buf
    some ((i, value) ∷ values)
  initial_values i (_ ∷ types) controls_buf = initial_values (suc i) types controls_buf

  -- What the frontend is told of the ports, and the request for the parameters, from a buffer of 32
  -- bytes.
  unfoldable pub jalv_init_ui : Shared Ring → List PortType → Option (List (ℕ × ℕ) × Shared Ring)
  jalv_init_ui s types = do
    values ← initial_values 0 types s.process.controls_buf
    some (values, to_control_port s (patch_get 32))
