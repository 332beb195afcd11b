-- ===== src/Jalv/Setup/Ports.antt =====
-- The ports that jalv_create_ports makes.
use soundcan.Base.{
  ℕ, suc, zero, ◌+◌, ◌≡◌, ◌<◌, ◌∙◌, refl, ap, arith, Bool, true, List, [], ◌∷◌, length, set,
  length-set, Bool-cases, ◌⊎◌, inl, inr, ◌↔◌,
}
use soundcan.Jalv.Types.{ProcessPort}
use soundcan.Jalv.Setup.{
  LilvPort, Jalv, jalv_process_port_init, create_port, create_ports_from, jalv_create_ports,
  stored_control_in, zero_port, calloc, known_flow, known_type, port_flow, port_type,
}

-- No port is ever the primary one.
is_primary_init :
    (metadata : Bool) (lp : LilvPort) (port : ProcessPort)
    → (jalv_process_port_init metadata lp port).1.is_primary ≡ port.is_primary
unfolding jalv_process_port_init
is_primary_init metadata lp port = ground arith

control_in_create_port :
    (metadata : Bool) (jalv : Jalv) (lp : LilvPort) (index : ℕ)
    → (create_port metadata jalv lp zero_port index).1.process.control_in ≡ jalv.process.control_in
unfolding create_port stored_control_in
control_in_create_port metadata jalv lp index =
    ground (arith, is_primary_init metadata lp zero_port)

ports_create_port :
    (metadata : Bool) (jalv : Jalv) (lp : LilvPort) (index : ℕ)
    → (create_port metadata jalv lp zero_port index).1.process.ports
      ≡ set jalv.process.ports index ((jalv_process_port_init metadata lp zero_port).1)
unfolding create_port
ports_create_port metadata jalv lp index = ground arith

control_in_from :
    (metadata : Bool) (jalv : Jalv) (lps : List LilvPort) (index : ℕ)
    → (create_ports_from metadata jalv lps index).1.process.control_in ≡ jalv.process.control_in
unfolding create_ports_from
control_in_from metadata jalv [] index = refl
control_in_from metadata jalv (lp ∷ lps) index =
    let one = control_in_create_port metadata jalv lp index in
    let next = (create_port metadata jalv lp zero_port index).1 in
    ground (arith, one, control_in_from metadata next lps (index + 1))

length_from :
    (metadata : Bool) (jalv : Jalv) (lps : List LilvPort) (index : ℕ)
    → length ((create_ports_from metadata jalv lps index).1.process.ports)
      ≡ length jalv.process.ports
unfolding create_ports_from
length_from metadata jalv [] index = refl
length_from metadata jalv (lp ∷ lps) index =
    let next = (create_port metadata jalv lp zero_port index).1 in
    let made = (jalv_process_port_init metadata lp zero_port).1 in
    let one : length next.process.ports ≡ length jalv.process.ports =
      ap length (ports_create_port metadata jalv lp index)
      ∙ length-set jalv.process.ports index made in
    ground (arith, one, length_from metadata next lps (index + 1))

length-calloc {ℓ} : {A : Type ℓ} → (n : ℕ) (x : A) → length (calloc n x) ≡ n
length-calloc zero x = refl
length-calloc (suc n) x = ap suc (length-calloc n x)

-- jalv_create_ports leaves the index of the control input as it was, and makes as many ports as the
-- plugin has.
pub control_in_create_ports :
    (metadata : Bool) (jalv : Jalv) (lps : List LilvPort) (defaults : List ℕ)
    → ((jalv_create_ports metadata jalv lps defaults).1.process.control_in
        ≡ jalv.process.control_in)
      × (length ((jalv_create_ports metadata jalv lps defaults).1.process.ports) ≡ length lps)
unfolding jalv_create_ports
control_in_create_ports metadata jalv lps defaults =
    let p = jalv.process in
    let start = record jalv {
      process = record p {
        num_ports = length lps;
        ports = calloc (length lps) zero_port;
        controls_buf = defaults;
      };
    } in
    (
      control_in_from metadata start lps 0,
      length_from metadata start lps 0 ∙ length-calloc (length lps) zero_port,
    )

-- A port of one of the two directions, and one of the kinds that the host has buffers for: JACK has
-- signal ports for control voltages where it has metadata.
abbrev pub HasDirection : LilvPort → Type 0
HasDirection lp = (lp.is_input_port ≡ true) ⊎ (lp.is_output_port ≡ true)

abbrev pub HasKind : Bool → LilvPort → Type 0
HasKind metadata lp =
    (lp.is_control_port ≡ true)
    ⊎ ((lp.is_audio_port ≡ true)
        ⊎ ((lp.is_atom_port ≡ true) ⊎ ((metadata ≡ true) × (lp.is_cv_port ≡ true))))

-- A port that the host can use, or that need not be connected.
abbrev pub Usable : Bool → LilvPort → Type 0
Usable metadata lp = (lp.optional ≡ true) ⊎ (HasDirection lp × HasKind metadata lp)

known_flow-HasDirection : (lp : LilvPort) → HasDirection lp → known_flow (port_flow lp) ≡ true
unfolding known_flow port_flow
known_flow-HasDirection lp (inl h) = ground (arith, h)
known_flow-HasDirection lp (inr h) = ground (arith, h)

HasDirection-known_flow : (lp : LilvPort) → known_flow (port_flow lp) ≡ true → HasDirection lp
unfolding known_flow port_flow
HasDirection-known_flow lp k = elim (Bool-cases lp.is_input_port) [
  | inl i ↦ inl i
  | inr i ↦ elim (Bool-cases lp.is_output_port) [
    | inl o ↦ inr o
    | inr o ↦ absurd (ground (arith, i, o, k))
  ]
]

known_type-HasKind :
    (metadata : Bool) (lp : LilvPort)
    → HasKind metadata lp
    → known_type (port_type metadata lp) ≡ true
unfolding known_type port_type
known_type-HasKind metadata lp (inl h) = ground (arith, h)
known_type-HasKind metadata lp (inr (inl h)) = ground (arith, h)
known_type-HasKind metadata lp (inr (inr (inl h))) = ground (arith, h)
known_type-HasKind metadata lp (inr (inr (inr (h, k)))) = ground (arith, h, k)

HasKind-known_type :
    (metadata : Bool) (lp : LilvPort)
    → known_type (port_type metadata lp) ≡ true
    → HasKind metadata lp
unfolding known_type port_type
HasKind-known_type metadata lp k = elim (Bool-cases lp.is_control_port) [
  | inl c ↦ inl c
  | inr c ↦ elim (Bool-cases lp.is_audio_port) [
    | inl a ↦ inr (inl a)
    | inr a ↦ elim (Bool-cases lp.is_atom_port) [
      | inl e ↦ inr (inr (inl e))
      | inr e ↦ inr (inr (inr (ground (arith, c, a, e, k), ground (arith, c, a, e, k))))
    ]
  ]
]

abbrev pub AllUsable : Bool → List LilvPort → Type 0
AllUsable metadata [] = Unit {0}
AllUsable metadata (lp ∷ lps) = Usable metadata lp × AllUsable metadata lps

status-Usable :
    (metadata : Bool) (jalv : Jalv) (lp : LilvPort) (index : ℕ)
    → Usable metadata lp
    → (create_port metadata jalv lp zero_port index).0 ≡ 0
unfolding create_port jalv_process_port_init
status-Usable metadata jalv lp index (inl h) = ground arith
status-Usable metadata jalv lp index (inr (h, k)) =
    ground (arith, known_flow-HasDirection lp h, known_type-HasKind metadata lp k)

Usable-status :
    (metadata : Bool) (jalv : Jalv) (lp : LilvPort) (index : ℕ)
    → (create_port metadata jalv lp zero_port index).0 ≡ 0
    → Usable metadata lp
unfolding create_port jalv_process_port_init
Usable-status metadata jalv lp index h = elim (Bool-cases lp.optional) [
  | inl o ↦ inl o
  | inr m ↦
      inr (HasDirection-known_flow lp (ground arith), HasKind-known_type metadata lp (ground arith))
]

status_from :
    (metadata : Bool) (jalv : Jalv) (lps : List LilvPort) (index : ℕ)
    → AllUsable metadata lps
    → (create_ports_from metadata jalv lps index).0 ≡ 0
unfolding create_ports_from
status_from metadata jalv [] index a = refl
status_from metadata jalv (lp ∷ lps) index (u, a) =
    let next = (create_port metadata jalv lp zero_port index).1 in
    ground
      (arith, status-Usable metadata jalv lp index u, status_from metadata next lps (index + 1) a)

-- The status is 0 or 1.
status_bit :
    (metadata : Bool) (jalv : Jalv) (lp : LilvPort) (index : ℕ)
    → (create_port metadata jalv lp zero_port index).0 < 2
unfolding create_port jalv_process_port_init
status_bit metadata jalv lp index = ground arith

usable_from :
    (metadata : Bool) (jalv : Jalv) (lps : List LilvPort) (index : ℕ)
    → (create_ports_from metadata jalv lps index).0 ≡ 0
    → AllUsable metadata lps
unfolding create_ports_from
usable_from metadata jalv [] index h = tt
usable_from metadata jalv (lp ∷ lps) index h =
    let bit = status_bit metadata jalv lp index in
    let next = (create_port metadata jalv lp zero_port index).1 in
    (
      Usable-status metadata jalv lp index (ground (arith, bit)),
      usable_from metadata next lps (index + 1) (ground (arith, bit)),
    )

-- jalv_create_ports returns 0 exactly for a plugin each of whose ports need not be connected, or is an
-- input or an output and a control, an audio port, an event port or, where JACK has metadata, a CV
-- port.
pub create_ports-AllUsable :
    (metadata : Bool) (jalv : Jalv) (lps : List LilvPort) (defaults : List ℕ)
    → ((jalv_create_ports metadata jalv lps defaults).0 ≡ 0) ↔ AllUsable metadata lps
unfolding jalv_create_ports
create_ports-AllUsable metadata jalv lps defaults =
    let p = jalv.process in
    let start = record jalv {
      process = record p {
        num_ports = length lps;
        ports = calloc (length lps) zero_port;
        controls_buf = defaults;
      };
    } in
    (usable_from metadata start lps 0, status_from metadata start lps 0)
