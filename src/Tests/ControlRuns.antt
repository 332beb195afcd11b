-- ===== src/Tests/ControlRuns.antt =====
-- The controls of a plugin with three properties.
use soundcan.Base.{ℕ, ◌≡◌, refl, true, false, none, ◌++◌, List, [], ◌∷◌}
use soundcan.CText.{Text, text, same_text, strcmp}
use soundcan.Jalv.Controls.{ForgeTypes, PropertyAnswers, set_readable, jalv_create_controls}
use soundcan.Jalv.Controls.Created.{
  is_member, is_distinct, writable_controls, readable_controls, AllAbsent,
  jalv_create_controls-readable_controls,
}

abbrev writable : List Text
writable = text "gain" ∷ text "mode" ∷ []

abbrev readable : List Text
readable = text "mode" ∷ text "level" ∷ []

abbrev answers : PropertyAnswers ℕ
answers = record {
  writable = writable;
  readable = readable;
  ask = λ uri. is_member uri writable;
  has_range = λ uri type. same_text type (text "http://lv2plug.in/ns/ext/atom#Float");
  symbol = λ uri. uri;
  label = λ uri. none;
  min = λ uri. none;
  max = λ uri. none;
  def = λ uri. none;
}

abbrev urid : Text → ℕ
urid uri = 7

abbrev forge : ForgeTypes
forge = record { float = 7; int = 8; long = 9; bool = 10 }

distinct : is_distinct writable ≡ true
unfolding same_text strcmp
distinct = refl

absent : AllAbsent answers urid forge [] readable
unfolding set_readable
absent = (refl, (refl, tt))

jalv_create_controls-readable_controls_example :
    jalv_create_controls answers urid forge true false
      (jalv_create_controls answers urid forge true true [])
    ≡ writable_controls answers urid forge (λ u. is_member u readable) writable
      ++ readable_controls answers urid forge readable
jalv_create_controls-readable_controls_example =
    jalv_create_controls-readable_controls answers urid forge [] distinct (λ u. refl) absent
