-- ===== src/Jalv/Cycle.antt =====
-- jalv_run of ATTIC/galv/golang/jalv/process.c: what the audio thread does in a cycle.
use soundcan.Base.{ℕ, ◌+◌, Bool, Option, none, some, List, [], ◌∷◌, length}
use soundcan.Base.Maybe.{◌>>=◌}
use soundcan.Base.Memory.{Memory}
use soundcan.Zix.{ZixRing}
use soundcan.Abi.{Words}
use soundcan.Lv2.{AtomLayout}
use soundcan.Jalv.Types.{ProcessPort}
use soundcan.Jalv.Evbuf.{Evbuf}
use soundcan.Jalv.Process.{Process, apply_ui_events, count_frames}
use soundcan.Jalv.Worker.{Interface, emit_from}

-- What a plugin leaves in the LV2_Atom_Sequence of a port.
pub record AtomBuffer : Type 0 where
  pub size : ℕ
  pub type : ℕ
  pub contents : Memory

-- A plugin over its state `P`: lilv_instance_run reads the buffers of the ports and the controls, and
-- writes the atom buffer at each index and the controls. `end_run` is that of its worker interface,
-- and leaves the state as it is where there is none.
pub record Plugin (P : Type 0) : Type 0 where
  pub iface : Interface P
  pub run : P → List ProcessPort → List ℕ → ℕ → P × (ℕ → AtomBuffer) × List ℕ
  pub end_run : P → P

-- What the audio thread works on: `JalvProcess` with its rings, the response rings of its workers, of
-- which NULL is `none`, the plugin, and the output buffers of the audio system.
pub record Cycle (R P B : Type 0) : Type 0 where
  pub process : Process
  pub ui_to_plugin : R
  pub plugin_to_ui : R
  pub worker : Option R
  pub state_worker : Option R
  pub plugin : P
  pub outputs : List B

-- The buffer that a port keeps with what the plugin left in it.
abbrev pub filled : Option Evbuf → AtomBuffer → Option Evbuf
filled none b = none
filled (some ev) b = some (record ev { size = b.size; type = b.type; contents = b.contents })

unfoldable pub fill_ports : List ProcessPort → (ℕ → AtomBuffer) → ℕ → List ProcessPort
fill_ports [] buffers index = []
fill_ports (port ∷ ports) buffers index =
    record port { evbuf = filled port.evbuf (buffers index) } ∷ fill_ports ports buffers (index + 1)

module _ (zix : ZixRing) (abi : Words) {P : Type 0} (plugin : Plugin P) where
  open zix use {Ring, contents}

  -- jalv_worker_emit_responses, which returns at once where there is no worker.
  unfoldable pub emit_of : Option Ring → P → Option (Option Ring × P)
  emit_of none state = some (none, state)
  emit_of (some ring) state =
      elim (emit_from zix abi plugin.iface (length (contents ring) + 1) ring state) [
        | none ↦ none
        | some (ring', state') ↦ some (some ring', state')
      ]

  unfoldable pub end_of : Option Ring → P → P
  end_of none state = state
  end_of (some ring) state = plugin.end_run state

module _ (zix : ZixRing) (abi : Words) (lv2 : AtomLayout) {P B : Type 0} (plugin : Plugin P) where
  open zix use {Ring}

  -- lilv_instance_run
  unfoldable pub run_plugin : Cycle Ring P B → ℕ → Cycle Ring P B
  run_plugin c nframes =
      let p = c.process in
      let (state, buffers, controls) = plugin.run c.plugin p.ports p.controls_buf nframes in
      record c {
        plugin = state;
        process = record p { ports = fill_ports p.ports buffers 0; controls_buf = controls };
      }

  -- `none` is an abort. The status of apply_ui_events is dropped.
  unfoldable pub jalv_run : Cycle Ring P B → ℕ → Option (Bool × Cycle Ring P B)
  jalv_run c nframes = do
    (status, ui, p) ← apply_ui_events zix abi lv2 c.ui_to_plugin c.process nframes
    let c₁ = run_plugin (record c { ui_to_plugin = ui; process = p }) nframes
    (state_worker, s₁) ← emit_of zix abi plugin c₁.state_worker c₁.plugin
    (worker, s₂) ← emit_of zix abi plugin c₁.worker s₁
    let (update, p') = count_frames zix abi lv2 c₁.process nframes
    some (
      update,
      record c₁ {
        state_worker = state_worker;
        worker = worker;
        plugin = end_of zix abi plugin worker s₂;
        process = p';
      },
    )
