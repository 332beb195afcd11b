-- ===== src/Jalv/Types.antt =====
-- ATTIC/galv/golang/jalv/types.h and the port of process.h.
use soundcan.Base.{ℕ, Option, Bool}
use soundcan.Jalv.Evbuf.{Evbuf}

-- `PortFlow`
pub data PortFlow : Type 0 where
  flow_unknown flow_input flow_output : PortFlow

-- `PortType`
pub data PortType : Type 0 where
  type_unknown type_control type_audio type_event type_cv : PortType

-- `JalvRunState`
abbrev pub jalv_running : ℕ
jalv_running = 0

abbrev pub jalv_paused : ℕ
jalv_paused = 1

-- `JalvProcessPort`, less the names. The port of the audio system is a number, and
-- `none` is NULL.
pub record ProcessPort : Type 0 where
  pub type : PortType
  pub flow : PortFlow
  pub sys_port : Option ℕ
  pub evbuf : Option Evbuf
  pub buf_size : ℕ
  pub reports_latency : Bool
  pub is_primary : Bool
  pub supports_midi : Bool
