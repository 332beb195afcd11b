-- ===== src/Jalv/Setup/Buffers.antt =====
-- The buffers that jalv_process_activate makes.
use soundcan.Base.{
  ℕ, suc, zero, ◌+◌, ◌%◌, ◌^◌, ◌≡◌, ◌<◌, ◌≤◌, ◌∙◌, sym, ap, arith, true, Option, none, some, List,
  [], ◌∷◌, length, get_elem?, set, ◌&&◌, ◌==◌, if◌then◌else◌, max,
}
use soundcan.Base.Memory.{Memory}
use soundcan.Base.Maybe.{◌>>=◌, >>=-eq-some}
use soundcan.Lv2.{AtomLayout}
use soundcan.Jalv.Types.{ProcessPort, type_event, flow_input}
use soundcan.Jalv.Evbuf.{Evbuf, lv2_evbuf_new, lv2_evbuf_reset}
use soundcan.Jalv.Evbuf.Bounds.{IsSequence, reset-IsSequence, write-IsSequence}
use soundcan.Jalv.Process.{Process, write_to_port, is_event, is_input}
use soundcan.Jalv.Setup.{activate_port, activate_from, message_size, jalv_process_activate}

module _ (lv2 : AtomLayout) where
  -- The size of the buffer of a port.
  abbrev pub size_for : ℕ → ProcessPort → ℕ
  size_for midi_buf_size port = if port.buf_size == 0 then midi_buf_size else port.buf_size

  -- A size for which the tests of lv2_evbuf_write do not wrap.
  abbrev pub IsWhole : ℕ → Type 0
  IsWhole size = (size < 2 ^ 32) × (size % 8 ≡ 0) × (16 ≤ size)

  -- A loop that goes through has gone through for the first port and for the others.
  activate_cons :
      (chunk sequence midi : ℕ) (memory : ℕ → Option Memory) (port : ProcessPort)
      (ports made : List ProcessPort) (index : ℕ)
      → activate_from lv2 chunk sequence midi memory (port ∷ ports) index ≡ some made
      → (first : ProcessPort) × (rest : List ProcessPort) × (activate_port lv2 chunk sequence midi
            (memory index)
            port
          ≡ some first)
        × (activate_from lv2 chunk sequence midi memory ports (index + 1) ≡ some rest)
        × (made ≡ first ∷ rest)
  unfolding activate_from
  activate_cons chunk sequence midi memory port ports made index e =
      let (first, one, e₁) =
        >>=-eq-some (activate_port lv2 chunk sequence midi (memory index) port)
          (λ first.
            activate_from lv2 chunk sequence midi memory ports (index + 1)
            >>= (λ rest. some (first ∷ rest)))
          e in
      let (rest, more, e₂) =
        >>=-eq-some (activate_from lv2 chunk sequence midi memory ports (index + 1))
          (λ rest. some (first ∷ rest)) e₁ in
      (first, rest, one, more, cc e₂)

  pub length-activate_from :
      (chunk sequence midi : ℕ) (memory : ℕ → Option Memory) (ports made : List ProcessPort)
      (index : ℕ)
      → activate_from lv2 chunk sequence midi memory ports index ≡ some made
      → length made ≡ length ports
  unfolding activate_from
  length-activate_from chunk sequence midi memory [] made index e = ground arith
  length-activate_from chunk sequence midi memory (port ∷ ports) made index e =
      let (first, rest, one, more, eq) =
        activate_cons chunk sequence midi memory port ports made index e in
      let tail = length-activate_from chunk sequence midi memory ports rest (index + 1) more in
      omega (arith, ap length eq, tail)

  nth_activate_from :
      (chunk sequence midi : ℕ) (memory : ℕ → Option Memory) (ports made : List ProcessPort)
      (index i : ℕ) (port : ProcessPort)
      → activate_from lv2 chunk sequence midi memory ports index ≡ some made
      → get_elem? ports i ≡ some port
      → (port' : ProcessPort) × (m : Option Memory) × (get_elem? made i ≡ some port')
        × (activate_port lv2 chunk sequence midi m port ≡ some port')
  nth_activate_from chunk sequence midi memory [] made index i port e h = ground arith
  nth_activate_from chunk sequence midi memory (p ∷ ports) made index zero port e h =
      let (first, rest, one, more, eq) =
        activate_cons chunk sequence midi memory p ports made index e in
      let same : p ≡ port = cc h in
      (
        first,
        memory index,
        ap (λ ps. get_elem? ps 0) eq,
        ap (activate_port lv2 chunk sequence midi (memory index)) (sym same) ∙ one,
      )
  nth_activate_from chunk sequence midi memory (p ∷ ports) made index (suc i) port e h =
      let (first, rest, one, more, eq) =
        activate_cons chunk sequence midi memory p ports made index e in
      let (port', m, at, act) =
        nth_activate_from chunk sequence midi memory ports rest (index + 1) i port more h in
      (port', m, ap (λ ps. get_elem? ps (suc i)) eq ∙ at, act)

  -- An input event port gets a well formed, empty buffer.
  input_buffer :
      (chunk sequence midi : ℕ) (m : Option Memory) (port port' : ProcessPort)
      → port.type ≡ type_event
      → port.flow ≡ flow_input
      → IsWhole (size_for midi port)
      → activate_port lv2 chunk sequence midi m port ≡ some port'
      → (ev : Evbuf) × (port'.evbuf ≡ some ev) × IsSequence ev
  unfolding activate_port lv2_evbuf_new is_event is_input
  input_buffer chunk sequence midi none port port' t f w e = ground arith
  input_buffer chunk sequence midi (some garbage) port port' t f (small, whole, least) e =
      let size = size_for midi port % 2 ^ 32 in
      let ev : Evbuf = record {
        capacity = size;
        atom_chunk = chunk;
        atom_sequence = sequence;
        size = 0;
        type = 0;
        contents = garbage;
      } in
      (
        lv2_evbuf_reset lv2 ev true,
        ground arith,
        reset-IsSequence lv2 ev (omega arith) (omega arith) (omega arith),
      )

  activated_ports :
      (p q : Process) (chunk sequence midi : ℕ) (memory : ℕ → Option Memory) (garbage : List ℕ)
      → jalv_process_activate lv2 p chunk sequence midi memory garbage ≡ some q
      → (activate_from lv2 chunk sequence midi memory p.ports 0 ≡ some q.ports)
        × (q.process_msg_size ≡ message_size p.process_msg_size p.ports)
        × (q.control_in ≡ p.control_in)
        × (q.num_ports ≡ p.num_ports)
  unfolding jalv_process_activate
  activated_ports p q chunk sequence midi memory garbage e =
      let (ports, run, last) =
        >>=-eq-some (activate_from lv2 chunk sequence midi memory p.ports 0)
          (λ ports. some (record p {
            ports = ports;
            process_msg_size = message_size p.process_msg_size p.ports;
            process_msg = garbage;
          }))
          e in
      let same : record p {
        ports = ports;
        process_msg_size = message_size p.process_msg_size p.ports;
        process_msg = garbage;
      }
          ≡ q =
        cc last in
      (
        run ∙ ap (λ (r : Process). some r.ports) same,
        sym (ap (λ (r : Process). r.process_msg_size) same),
        sym (ap (λ (r : Process). r.control_in) same),
        sym (ap (λ (r : Process). r.num_ports) same),
      )

  -- What jalv_process_activate leaves as it was.
  pub activate_keeps :
      (p q : Process) (chunk sequence midi : ℕ) (memory : ℕ → Option Memory) (garbage : List ℕ)
      → jalv_process_activate lv2 p chunk sequence midi memory garbage ≡ some q
      → (q.control_in ≡ p.control_in) × (length q.ports ≡ length p.ports)
  activate_keeps p q chunk sequence midi memory garbage e =
      let (run, size, control, num) = activated_ports p q chunk sequence midi memory garbage e in
      (control, length-activate_from chunk sequence midi memory p.ports q.ports 0 run)

  message_size_ge : (size : ℕ) (ports : List ProcessPort) → size ≤ message_size size ports
  unfolding message_size
  message_size_ge size [] = omega arith
  message_size_ge size (port ∷ ports) =
      let next =
        if is_event port.type && is_input port.flow then max size port.buf_size else size in
      let grows : size ≤ next = ground arith in omega (arith, grows, message_size_ge next ports)

  message_size_nth :
      (size : ℕ) (ports : List ProcessPort) (i : ℕ) (port : ProcessPort)
      → get_elem? ports i ≡ some port
      → port.type ≡ type_event
      → port.flow ≡ flow_input
      → port.buf_size ≤ message_size size ports
  unfolding message_size is_event is_input
  message_size_nth size [] i port h t f = ground arith
  message_size_nth size (p ∷ ports) zero port h t f =
      let same : p ≡ port = cc h in
      let next = if is_event p.type && is_input p.flow then max size p.buf_size else size in
      let counted : port.buf_size ≤ next = ground (
        arith,
        ap (λ (x : ProcessPort). x.type) same,
        ap (λ (x : ProcessPort). x.flow) same,
        ap (λ (x : ProcessPort). x.buf_size) same,
      ) in
      omega (arith, counted, message_size_ge next ports)
  message_size_nth size (p ∷ ports) (suc i) port h t f =
      message_size_nth (if is_event p.type && is_input p.flow then max size p.buf_size else size)
        ports i port h t f

  -- After jalv_process_activate an input event port takes or refuses any event without leaving its
  -- memory, and the message buffer is at least as large as what the port asks for its own. The size of
  -- the port's buffer is a multiple of 8, from 16 on and below 2^32.
  pub activated_port_takes_events :
      (p q : Process) (chunk sequence midi : ℕ) (memory : ℕ → Option Memory) (garbage : List ℕ)
      (i : ℕ) (port : ProcessPort) (nframes type : ℕ) (body : List ℕ)
      → jalv_process_activate lv2 p chunk sequence midi memory garbage ≡ some q
      → get_elem? p.ports i ≡ some port
      → port.type ≡ type_event
      → port.flow ≡ flow_input
      → IsWhole (size_for midi port)
      → (q' : Process) × (write_to_port lv2 q i nframes type body ≡ some q')
        × (port.buf_size ≤ q.process_msg_size)
  unfolding write_to_port
  activated_port_takes_events p q chunk sequence midi memory garbage i port nframes type body e h t
        f w =
      let (run, size, control, num) = activated_ports p q chunk sequence midi memory garbage e in
      let (port', m, at, act) =
        nth_activate_from chunk sequence midi memory p.ports q.ports 0 i port run h in
      let (ev, has, v) = input_buffer chunk sequence midi m port port' t f w act in
      let ((taken, ev', offset), wrote, n, v', o) = write-IsSequence lv2 ev nframes type body v in
      (
        record q { ports = set q.ports i (record port' { evbuf = some ev' }) },
        ground (arith, at, has, wrote),
        omega (arith, size, message_size_nth p.process_msg_size p.ports i port h t f),
      )
