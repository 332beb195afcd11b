-- ===== src/Jalv/Console/Options.antt =====
-- Options that are written on a command line are read from it.
use soundcan.Base.{
  ℕ, zero, suc, ◌≡◌, ◌∙◌, refl, ap, arith, Bool, true, false, none, some, List, [], ◌∷◌, ◌++◌,
  length, length-append, take, ◌==◌, if◌then◌else◌, Bool-cases, inl, inr,
}
use soundcan.CText.{Text, text, strcmp, same_text}
use soundcan.Jalv.Console.{
  Settings, parsed, failed, early_exit, char_at, kind, flag, option_value, count_control,
  takes_value, is_control_option, parse_from, jalv_frontend_init,
}

-- An option that sets something, as the usage text describes it.
pub data Item : Type 0 where
  show_ui print_controls non_interactive dump trace name_exact : Item
  ui_uri load ring_size control name : Text → Item

-- The words of an option.
unfoldable pub words_of : Item → List Text
words_of show_ui = text "-s" ∷ []
words_of print_controls = text "-p" ∷ []
words_of non_interactive = text "-i" ∷ []
words_of dump = text "-d" ∷ []
words_of trace = text "-t" ∷ []
words_of name_exact = text "-x" ∷ []
words_of (ui_uri value) = text "-U" ∷ value ∷ []
words_of (load value) = text "-l" ∷ value ∷ []
words_of (ring_size value) = text "-b" ∷ value ∷ []
words_of (control value) = text "-c" ∷ value ∷ []
words_of (name value) = text "-n" ∷ value ∷ []

unfoldable pub command_line : List Item → List Text → List Text
command_line [] rest = rest
command_line (i ∷ is) rest = words_of i ++ command_line is rest

-- What an option is for.
unfoldable pub effect : (Text → ℕ) → Item → Settings → Settings
effect atoi show_ui o = record o { show_ui = true }
effect atoi print_controls o = record o { print_controls = true }
effect atoi non_interactive o = record o { non_interactive = true }
effect atoi dump o = record o { dump = true }
effect atoi trace o = record o { trace = true }
effect atoi name_exact o = record o { name_exact = true }
effect atoi (ui_uri value) o = record o { ui_uri = some value }
effect atoi (load value) o = record o { load = some value }
effect atoi (ring_size value) o = record o { ring_size = atoi value }
effect atoi (control value) o = record o { controls = o.controls ++ value ∷ [] }
effect atoi (name value) o = record o { name = some value }

unfoldable pub effects : (Text → ℕ) → List Item → Settings → Settings
effects atoi [] o = o
effects atoi (i ∷ is) o = effects atoi is (effect atoi i o)

-- Whether a control is given.
unfoldable pub gives_control : List Item → Bool
gives_control [] = false
gives_control (control value ∷ is) = true
gives_control (_ ∷ is) = gives_control is

-- The controls of the command line replace those that were there before it.
unfoldable pub before : List Item → Settings → Settings
before is o = if gives_control is then record o { controls = [] } else o

-- Arguments of which the first is no option.
abbrev pub ArePlain : List Text → Type 0
ArePlain [] = Unit {0}
ArePlain (arg ∷ rest) = (char_at arg 0 == b'-') ≡ false

-- The number of controls after an option.
abbrev counted : Item → ℕ → ℕ
counted (control value) n = suc n
counted _ n = n

abbrev all_counted : List Item → ℕ → ℕ
all_counted [] n = n
all_counted (i ∷ is) n = all_counted is (counted i n)

-- An option after `n` controls.
abbrev put : (Text → ℕ) → Item → ℕ → Settings → Settings
put atoi (control value) n o = record o { controls = take n o.controls ++ value ∷ [] }
put atoi i n o = effect atoi i o

take_all : (n : ℕ) (xs : List Text) → n ≡ length xs → take n xs ≡ xs
take_all zero [] h = refl
take_all zero (x ∷ xs) h = absurd (omega (arith, h))
take_all (suc n) [] h = refl
take_all (suc n) (x ∷ xs) h = ap (◌∷◌ x) (take_all n xs (omega (arith, h)))

module _ (atoi : Text → ℕ) where
  read_item :
      (i : Item) (rest : List Text) (n : ℕ) (o : Settings)
      → parse_from atoi true (words_of i ++ rest) none n o
        ≡ parse_from atoi true rest none (counted i n) (put atoi i n o)
  unfolding parse_from words_of effect kind flag option_value count_control takes_value
      is_control_option same_text strcmp
  read_item show_ui rest n o = refl
  read_item print_controls rest n o = refl
  read_item non_interactive rest n o = refl
  read_item dump rest n o = refl
  read_item trace rest n o = refl
  read_item name_exact rest n o = refl
  read_item (ui_uri value) rest n o = refl
  read_item (load value) rest n o = refl
  read_item (ring_size value) rest n o = refl
  read_item (control value) rest n o = refl
  read_item (name value) rest n o = refl

  -- With as many controls as were counted, an option has its effect.
  put-effect :
      (i : Item) (n : ℕ) (o : Settings)
      → length o.controls ≡ n
      → (put atoi i n o ≡ effect atoi i o) × (length ((effect atoi i o).controls) ≡ counted i n)
  unfolding effect
  put-effect show_ui n o h = (refl, h)
  put-effect print_controls n o h = (refl, h)
  put-effect non_interactive n o h = (refl, h)
  put-effect dump n o h = (refl, h)
  put-effect trace n o h = (refl, h)
  put-effect name_exact n o h = (refl, h)
  put-effect (ui_uri value) n o h = (refl, h)
  put-effect (load value) n o h = (refl, h)
  put-effect (ring_size value) n o h = (refl, h)
  put-effect (control value) n o h = (
    ap (λ (xs : List Text). record o { controls = xs ++ value ∷ [] })
        (take_all n o.controls (omega (arith, h))),
    omega (arith, h, length-append o.controls (value ∷ [])),
  )
  put-effect (name value) n o h = (refl, h)

  read_items :
      (is : List Item) (rest : List Text) (n : ℕ) (o : Settings)
      → length o.controls ≡ n
      → parse_from atoi true (command_line is rest) none n o
        ≡ parse_from atoi true rest none (all_counted is n) (effects atoi is o)
  unfolding command_line effects
  read_items [] rest n o h = refl
  read_items (i ∷ is) rest n o h =
      let (e, c) = put-effect i n o h in
      read_item i (command_line is rest) n o
      ∙ ap (parse_from atoi true (command_line is rest) none (counted i n)) e
      ∙ read_items is rest (counted i n) (effect atoi i o) c

  before-effect :
      (i : Item) (is : List Item) (o : Settings)
      → effect atoi i (record o { controls = [] }) ≡ record (effect atoi i o) { controls = [] }
      → before is (effect atoi i o) ≡ effect atoi i (before is o)
  unfolding before
  before-effect i is o h = elim (Bool-cases (gives_control is)) [
    | inl g ↦ ground (arith, g, h)
    | inr g ↦ ground (arith, g)
  ]

  -- An option that is no control, in front of the others.
  read_other :
      (i : Item) (is : List Item) (rest : List Text) (o : Settings)
      → parse_from atoi true (words_of i ++ command_line is rest) none 0 o
        ≡ parse_from atoi true (command_line is rest) none 0 (effect atoi i o)
      → parse_from atoi true (command_line is rest) none 0 (effect atoi i o)
        ≡ parse_from atoi true rest none
            (all_counted is 0)
            (effects atoi is (before is (effect atoi i o)))
      → effect atoi i (record o { controls = [] }) ≡ record (effect atoi i o) { controls = [] }
      → parse_from atoi true (words_of i ++ command_line is rest) none 0 o
        ≡ parse_from atoi true rest none
            (all_counted is 0)
            (effects atoi is (effect atoi i (before is o)))
  read_other i is rest o one more h =
      one
      ∙ more
      ∙ ap (λ o'. parse_from atoi true rest none (all_counted is 0) (effects atoi is o'))
          (before-effect i is o h)

  -- No control has been read.
  read_first :
      (is : List Item) (rest : List Text) (o : Settings)
      → parse_from atoi true (command_line is rest) none 0 o
        ≡ parse_from atoi true rest none (all_counted is 0) (effects atoi is (before is o))
  unfolding command_line effects before gives_control effect
  read_first [] rest o = refl
  read_first (control value ∷ is) rest o =
      read_item (control value) (command_line is rest) 0 o
      ∙ read_items is rest 1 (record o { controls = value ∷ [] }) refl
  read_first (show_ui ∷ is) rest o =
      read_other show_ui is rest o (read_item show_ui (command_line is rest) 0 o)
        (read_first is rest (effect atoi show_ui o)) refl
  read_first (print_controls ∷ is) rest o =
      read_other print_controls is rest o (read_item print_controls (command_line is rest) 0 o)
        (read_first is rest (effect atoi print_controls o)) refl
  read_first (non_interactive ∷ is) rest o =
      read_other non_interactive is rest o (read_item non_interactive (command_line is rest) 0 o)
        (read_first is rest (effect atoi non_interactive o)) refl
  read_first (dump ∷ is) rest o =
      read_other dump is rest o (read_item dump (command_line is rest) 0 o)
        (read_first is rest (effect atoi dump o)) refl
  read_first (trace ∷ is) rest o =
      read_other trace is rest o (read_item trace (command_line is rest) 0 o)
        (read_first is rest (effect atoi trace o)) refl
  read_first (name_exact ∷ is) rest o =
      read_other name_exact is rest o (read_item name_exact (command_line is rest) 0 o)
        (read_first is rest (effect atoi name_exact o)) refl
  read_first (ui_uri value ∷ is) rest o =
      read_other (ui_uri value) is rest o (read_item (ui_uri value) (command_line is rest) 0 o)
        (read_first is rest (effect atoi (ui_uri value) o)) refl
  read_first (load value ∷ is) rest o =
      read_other (load value) is rest o (read_item (load value) (command_line is rest) 0 o)
        (read_first is rest (effect atoi (load value) o)) refl
  read_first (ring_size value ∷ is) rest o =
      read_other (ring_size value) is rest o
        (read_item (ring_size value) (command_line is rest) 0 o)
        (read_first is rest (effect atoi (ring_size value) o)) refl
  read_first (name value ∷ is) rest o =
      read_other (name value) is rest o (read_item (name value) (command_line is rest) 0 o)
        (read_first is rest (effect atoi (name value) o)) refl

  read_plain :
      (rest : List Text) (n : ℕ) (o : Settings)
      → ArePlain rest
      → parse_from atoi true rest none n o ≡ parsed o rest
  unfolding parse_from
  read_plain [] n o h = refl
  read_plain (arg ∷ rest) n o h = ground (arith, h)

  read_exit :
      (rest : List Text) (n : ℕ) (o : Settings)
      → (parse_from atoi true (text "-h" ∷ rest) none n o ≡ early_exit)
        × (parse_from atoi true (text "-V" ∷ rest) none n o ≡ early_exit)
  unfolding parse_from kind same_text strcmp
  read_exit rest n o = (refl, refl)

  -- Options that set something, in any order and with any texts as their arguments: before arguments
  -- of which the first does not begin with a dash, jalv_frontend_init has the effect of each option in
  -- turn, and leaves the arguments; the controls that are given replace those that were there. Before
  -- -h or -V and any words it exits early. Memory for the controls is there.
  pub jalv_frontend_init-command_line :
      (cmd : Text) (is : List Item) (rest more : List Text) (o : Settings)
      → ArePlain rest
      → (jalv_frontend_init atoi true (cmd ∷ command_line is rest) o
          ≡ parsed (effects atoi is (before is o)) rest)
        × (jalv_frontend_init atoi true (cmd ∷ command_line is (text "-h" ∷ more)) o ≡ early_exit)
        × (jalv_frontend_init atoi true (cmd ∷ command_line is (text "-V" ∷ more)) o ≡ early_exit)
  unfolding jalv_frontend_init
  jalv_frontend_init-command_line cmd is rest more o h =
      let n = all_counted is 0 in
      let o' = effects atoi is (before is o) in
      let (help, version) = read_exit more n o' in
      (
        read_first is rest o ∙ read_plain rest n o' h,
        read_first is (text "-h" ∷ more) o ∙ help,
        read_first is (text "-V" ∷ more) o ∙ version,
      )

  last_option :
      (arg : Text) (n : ℕ) (o : Settings)
      → (char_at arg 0 == b'-') ≡ true
      → takes_value atoi true (kind arg) ≡ true
      → parse_from atoi true (arg ∷ []) none n o ≡ failed 1
  unfolding parse_from takes_value
  last_option arg n o dash h = ground arith

  -- After any options, an option that wants an argument and is the last word makes jalv_frontend_init
  -- return 1.
  jalv_frontend_init_missing :
      (cmd arg : Text) (is : List Item) (o : Settings)
      → (char_at arg 0 == b'-') ≡ true
      → takes_value atoi true (kind arg) ≡ true
      → jalv_frontend_init atoi true (cmd ∷ command_line is (arg ∷ [])) o ≡ failed 1
  unfolding jalv_frontend_init
  jalv_frontend_init_missing cmd arg is o dash h =
      read_first is (arg ∷ []) o
      ∙ last_option arg (all_counted is 0) (effects atoi is (before is o)) dash h
