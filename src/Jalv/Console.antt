-- ===== src/Jalv/Console.antt =====
-- ATTIC/galv/golang/jalv/jalv_console.c: the options on the command line.
pub mod Options
pub mod Commands
use soundcan.Base.{
  ℕ, zero, suc, ◌+◌, Bool, true, false, Option, none, some, List, [], ◌∷◌, ◌++◌, take, get_or, ◌==◌,
  ◌||◌, ◌&&◌, not, if◌then◌else◌,
}
use soundcan.CText.{Text, text, same_text}

-- `JalvOptions`, as far as the console sets it.
pub record Settings : Type 0 where
  pub name : Option Text
  pub name_exact : Bool
  pub load : Option Text
  pub controls : List Text
  pub ring_size : ℕ
  pub dump : Bool
  pub trace : Bool
  pub show_ui : Bool
  pub print_controls : Bool
  pub non_interactive : Bool
  pub ui_uri : Option Text

-- What jalv_frontend_init returns, and what it leaves of the arguments.
pub data Parsed : Type 0 where
  parsed : Settings → List Text → Parsed
  early_exit : Parsed
  failed : ℕ → Parsed

-- The character at a position; after the last one is the terminator.
abbrev pub char_at : Text → ℕ → ℕ
char_at s k = get_or s k 0

pub data Kind : Type 0 where
  help version set_show_ui set_print_controls set_ui_uri set_load set_ring_size : Kind
  add_control set_non_interactive set_dump set_trace set_name set_name_exact unknown : Kind

-- The chain of tests on the second character, and on the whole word.
unfoldable pub kind : Text → Kind
kind arg =
    let c = char_at arg 1 in
    if c == b'h' || same_text arg (text "--help")
    then help
    else if c == b'V' || same_text arg (text "--version")
    then version
    else if c == b's'
    then set_show_ui
    else if c == b'p'
    then set_print_controls
    else if c == b'U'
    then set_ui_uri
    else if c == b'l'
    then set_load
    else if c == b'b'
    then set_ring_size
    else if c == b'c'
    then add_control
    else if c == b'i'
    then set_non_interactive
    else if c == b'd'
    then set_dump
    else if c == b't'
    then set_trace
    else if c == b'n'
    then set_name
    else if c == b'x'
    then set_name_exact
    else unknown

-- `atoi` is that of <stdlib.h>, converted to uint32_t, and `memory` tells whether realloc succeeds.
module _ (atoi : Text → ℕ) (memory : Bool) where
  -- An option that has no argument.
  unfoldable pub flag : Kind → Settings → Settings
  flag set_show_ui o = record o { show_ui = true }
  flag set_print_controls o = record o { print_controls = true }
  flag set_non_interactive o = record o { non_interactive = true }
  flag set_dump o = record o { dump = true }
  flag set_trace o = record o { trace = true }
  flag set_name_exact o = record o { name_exact = true }
  flag _ o = o

  -- An option with its argument, after `n_controls` controls. A control is stored at that index, and
  -- the NULL that ends the list behind it.
  unfoldable pub option_value : Kind → Text → ℕ → Settings → Settings
  option_value set_ui_uri value n_controls o = record o { ui_uri = some value }
  option_value set_load value n_controls o = record o { load = some value }
  option_value set_ring_size value n_controls o = record o { ring_size = atoi value }
  option_value add_control value n_controls o = record o {
    controls = take n_controls o.controls ++ value ∷ [];
  }
  option_value set_name value n_controls o = record o { name = some value }
  option_value _ value n_controls o = o

  unfoldable pub takes_value : Kind → Bool
  takes_value set_ui_uri = true
  takes_value set_load = true
  takes_value set_ring_size = true
  takes_value add_control = true
  takes_value set_name = true
  takes_value _ = false

  unfoldable pub is_control_option : Kind → Bool
  is_control_option add_control = true
  is_control_option _ = false

  unfoldable pub count_control : Kind → ℕ → ℕ
  count_control add_control n_controls = suc n_controls
  count_control _ n_controls = n_controls

  -- The loop; the option is the one whose argument comes next.
  unfoldable pub parse_from : List Text → Option Kind → ℕ → Settings → Parsed
  parse_from [] none n_controls o = parsed o []
  parse_from [] (some k) n_controls o = failed 1
  parse_from (value ∷ rest) (some k) n_controls o =
      if is_control_option k && not memory
      then failed 12
      else parse_from rest none (count_control k n_controls) (option_value k value n_controls o)
  parse_from (arg ∷ rest) none n_controls o =
      if not (char_at arg 0 == b'-') then parsed o (arg ∷ rest) else elim (kind arg) [
        | help ↦ early_exit
        | version ↦ early_exit
        | unknown ↦ failed 1
        | k ↦
            if takes_value k
            then parse_from rest (some k) n_controls o
            else parse_from rest none n_controls (flag k o)
      ]

  -- The first argument is the command.
  unfoldable pub jalv_frontend_init : List Text → Settings → Parsed
  jalv_frontend_init [] o = parsed o []
  jalv_frontend_init (cmd ∷ args) o = parse_from args none 0 o
