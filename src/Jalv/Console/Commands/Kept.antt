-- ===== src/Jalv/Console/Commands/Kept.antt =====
-- What the commands of the console keep.
use mathlib.Core.Path.{subst}
use soundcan.Base.{
  ℕ, suc, ◌+◌, ◌≡◌, ◌<◌, ◌∙◌, refl, sym, ap, arith, dec_lt, Bool, true, false, Option, none, some,
  List, [], ◌∷◌, length, set, take, get_or, get_elem?_in, length-set, Bool-cases, inl, inr,
  if◌then◌else◌,
}
use soundcan.Base.Maybe.{◌>>=◌}
use soundcan.CText.{Text, text, same_text}
use soundcan.Jalv.State.{port_from, jalv_port_by_symbol}
use soundcan.Jalv.Controls.{ControlId}
use soundcan.Jalv.Console.Commands.{
  Patterns, Written, print_controls, is_printed, printed, set_and_print, set_by_index,
  set_by_symbol, or_symbol_is, or_set_symbol, or_set_index, about_controls, or_preset,
  jalv_process_command, run_commands,
}

port_from-lt :
    (i n : ℕ) (symbols : List Text) (name : Text)
    → port_from i symbols name ≡ some n
    → n < i + length symbols
unfolding port_from
port_from-lt i n [] name h = absurd (ground (arith, h))
port_from-lt i n (s ∷ symbols) name h = elim (Bool-cases (same_text s name)) [
  | inl e ↦ ground (arith, e, h)
  | inr e ↦ omega (arith, port_from-lt (suc i) n symbols name (ground (arith, e, h)))
]

-- Each control of a port has its value.
abbrev pub AllInside : {Node : Type 0} → ℕ → List (ControlId Node) → Type 0
AllInside n [] = Unit {0}
AllInside n (c ∷ cs) = (c.index < n) × AllInside n cs

-- A command ends well, with as many values.
abbrev pub Kept : ℕ → Option (List ℕ × Written) → Type 0
Kept n result =
    (controls_buf : List ℕ) × (written : Written) × (result ≡ some (controls_buf, written))
    × (length controls_buf ≡ n)

module _ {Node : Type 0} where
  print_controls-returns :
      (controls : List (ControlId Node)) (controls_buf : List ℕ) (w r : Bool)
      → AllInside (length controls_buf) controls
      → (lines : List (Text × ℕ)) × (print_controls controls controls_buf w r ≡ some lines)
  unfolding print_controls
  print_controls-returns [] controls_buf w r inside = ([], refl)
  print_controls-returns (c ∷ cs) controls_buf w r (i, inside) =
      let value = get_elem?_in controls_buf c.index 0 i in
      let (lines, e) = print_controls-returns cs controls_buf w r inside in
      elim (Bool-cases (is_printed w r c)) [
        | inl b ↦ ((c.symbol, get_or controls_buf c.index 0) ∷ lines, ground (arith, b, value, e))
        | inr b ↦ (lines, ground (arith, b, e))
      ]

  module _ (patterns : Patterns) (symbols : List Text) (controls : List (ControlId Node))
      (apply_preset : Text → List ℕ → List ℕ) where
    printed-Kept :
        (controls_buf : List ℕ) (w r : Bool)
        → AllInside (length controls_buf) controls
        → Kept
            (length controls_buf)
            (printed patterns symbols controls apply_preset controls_buf w r)
    printed-Kept controls_buf w r inside =
        let (lines, e) = print_controls-returns controls controls_buf w r inside in
        (controls_buf, _, ap (λ o. o >>= λ l. some (controls_buf, Written.values l)) e, refl)

    stored_and_printed :
        (controls_buf : List ℕ) (index value : ℕ)
        → index < length symbols
        → index < length controls_buf
        → set_and_print patterns symbols controls apply_preset controls_buf index value
          ≡ some
              (set controls_buf index value, Written.values ((get_or symbols index [], value) ∷ []))
    stored_and_printed controls_buf index value inside there =
        let e = get_elem?_in symbols index [] inside in ground (arith, e)

    set_and_print-Kept :
        (controls_buf : List ℕ) (index value : ℕ)
        → length symbols ≡ length controls_buf
        → index < length symbols
        → Kept
            (length controls_buf)
            (set_and_print patterns symbols controls apply_preset controls_buf index value)
    set_and_print-Kept controls_buf index value all inside = (
      set controls_buf index value,
      _,
      stored_and_printed controls_buf index value inside (omega (arith, all)),
      length-set controls_buf index value,
    )

    set_by_index-Kept :
        (controls_buf : List ℕ) (index value : ℕ)
        → length symbols ≡ length controls_buf
        → Kept
            (length controls_buf)
            (set_by_index patterns symbols controls apply_preset controls_buf index value)
    set_by_index-Kept controls_buf index value all = elim (dec_lt index (length symbols)) [
      | yes p ↦
          let (buf, written, e, n) = set_and_print-Kept controls_buf index value all p in
          (buf, written, ground (arith, e), n)
      | no p ↦ (controls_buf, Written.out_of_range, ground arith, refl)
    ]

    found-Kept :
        (controls_buf : List ℕ) (name : Text) (value : ℕ) (found : Option ℕ)
        → length symbols ≡ length controls_buf
        → jalv_port_by_symbol symbols name ≡ found
        → Kept
            (length controls_buf)
            (set_by_symbol patterns symbols controls apply_preset controls_buf name value)
    found-Kept controls_buf name value none all h =
        (controls_buf, Written.no_control, ground (arith, h), refl)
    found-Kept controls_buf name value (some index) all h =
        let (buf, written, e, n) =
          set_and_print-Kept controls_buf index value all
            (omega (arith, port_from-lt 0 index symbols name h)) in
        (buf, written, ground (arith, h, e), n)

    set_by_symbol-Kept :
        (controls_buf : List ℕ) (name : Text) (value : ℕ)
        → length symbols ≡ length controls_buf
        → Kept
            (length controls_buf)
            (set_by_symbol patterns symbols controls apply_preset controls_buf name value)
    set_by_symbol-Kept controls_buf name value all =
        found-Kept controls_buf name value (jalv_port_by_symbol symbols name) all refl

    or_symbol_is-Kept :
        (controls_buf : List ℕ) (taken : Option (Text × ℕ))
        → length symbols ≡ length controls_buf
        → Kept
            (length controls_buf)
            (or_symbol_is patterns symbols controls apply_preset controls_buf taken)
    or_symbol_is-Kept controls_buf none all = (controls_buf, Written.invalid, refl, refl)
    or_symbol_is-Kept controls_buf (some (name, value)) all =
        set_by_symbol-Kept controls_buf name value all

    or_set_symbol-Kept :
        (controls_buf : List ℕ) (cmd : Text) (taken : Option (Text × ℕ))
        → length symbols ≡ length controls_buf
        → Kept
            (length controls_buf)
            (or_set_symbol patterns symbols controls apply_preset controls_buf cmd taken)
    or_set_symbol-Kept controls_buf cmd none all =
        or_symbol_is-Kept controls_buf (patterns.symbol_is cmd) all
    or_set_symbol-Kept controls_buf cmd (some (name, value)) all =
        set_by_symbol-Kept controls_buf name value all

    or_set_index-Kept :
        (controls_buf : List ℕ) (cmd : Text) (taken : Option (ℕ × ℕ))
        → length symbols ≡ length controls_buf
        → Kept
            (length controls_buf)
            (or_set_index patterns symbols controls apply_preset controls_buf cmd taken)
    or_set_index-Kept controls_buf cmd none all =
        or_set_symbol-Kept controls_buf cmd (patterns.set_symbol cmd) all
    or_set_index-Kept controls_buf cmd (some (index, value)) all =
        set_by_index-Kept controls_buf index value all

    if-Kept :
        (n : ℕ) (b : Bool) (x y : Option (List ℕ × Written))
        → Kept n x
        → Kept n y
        → Kept n (if b then x else y)
    if-Kept n true x y h h' = h
    if-Kept n false x y h h' = h'

    about_controls-Kept :
        (controls_buf : List ℕ) (cmd : Text)
        → length symbols ≡ length controls_buf
        → AllInside (length controls_buf) controls
        → Kept
            (length controls_buf)
            (about_controls patterns symbols controls apply_preset controls_buf cmd)
    about_controls-Kept controls_buf cmd all inside =
        if-Kept (length controls_buf) (same_text cmd (text "controls\n")) _ _
          (printed-Kept controls_buf true false inside)
          (if-Kept (length controls_buf) (same_text cmd (text "monitors\n")) _ _
            (printed-Kept controls_buf false true inside)
            (or_set_index-Kept controls_buf cmd (patterns.set_index cmd) all))

    or_preset-Kept :
        (controls_buf : List ℕ) (cmd : Text) (taken : Option Text)
        → length symbols ≡ length controls_buf
        → ((uri : Text) (buf : List ℕ) → length (apply_preset uri buf) ≡ length buf)
        → AllInside (length controls_buf) controls
        → Kept
            (length controls_buf)
            (or_preset patterns symbols controls apply_preset controls_buf cmd taken)
    or_preset-Kept controls_buf cmd none all same inside =
        about_controls-Kept controls_buf cmd all inside
    or_preset-Kept controls_buf cmd (some uri) all same inside =
        let n = same uri controls_buf in
        let (buf, written, e, m) =
          printed-Kept (apply_preset uri controls_buf) true false
            (subst (λ k. AllInside k controls) (sym n) inside) in
        (buf, written, e, m ∙ n)

    jalv_process_command-Kept :
        (controls_buf : List ℕ) (cmd : Text)
        → length symbols ≡ length controls_buf
        → ((uri : Text) (buf : List ℕ) → length (apply_preset uri buf) ≡ length buf)
        → AllInside (length controls_buf) controls
        → Kept
            (length controls_buf)
            (jalv_process_command patterns symbols controls apply_preset controls_buf cmd)
    unfolding jalv_process_command
    jalv_process_command-Kept controls_buf cmd all same inside =
        if-Kept (length controls_buf) (same_text (take 4 cmd) (text "help")) _ _
          (controls_buf, Written.help, refl, refl)
          (if-Kept (length controls_buf) (same_text cmd (text "presets\n")) _ _
            (controls_buf, Written.presets, refl, refl)
            (or_preset-Kept controls_buf cmd (patterns.preset cmd) all same inside))

    -- Whatever lines are typed, each of them ends well: no value outside of the array is read or set,
    -- where that would end the run with `none`, and there are as many values as before. Each port has
    -- its value, so has each control of a port, and a preset changes values in place.
    pub run_commands-returns :
        (controls_buf : List ℕ) (lines : List Text)
        → length symbols ≡ length controls_buf
        → ((uri : Text) (buf : List ℕ) → length (apply_preset uri buf) ≡ length buf)
        → AllInside (length controls_buf) controls
        → (controls_buf' : List ℕ) × (replies : List Written) × (run_commands patterns symbols
              controls apply_preset controls_buf lines
            ≡ some (controls_buf', replies))
          × (length controls_buf' ≡ length controls_buf)
          × (length replies ≡ length lines)
    unfolding run_commands
    run_commands-returns controls_buf [] all same inside = (controls_buf, [], refl, refl, refl)
    run_commands-returns controls_buf (line ∷ lines) all same inside =
        let (buf, reply, e, n) = jalv_process_command-Kept controls_buf line all same inside in
        let (buf', replies, es, ns, count) =
          run_commands-returns buf lines (all ∙ sym n) same
            (subst (λ k. AllInside k controls) (sym n) inside) in
        (buf', reply ∷ replies, ground (arith, e, es), ns ∙ n, ap suc count)
