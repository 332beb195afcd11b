-- ===== src/Jalv/Controls.antt =====
-- ATTIC/galv/golang/jalv/control.c and jalv.c: the controls of a plugin, from what lilv knows of its
-- ports and its properties.
pub mod Marked
pub mod Created
pub mod Set
use soundcan.Base.{
  ℕ, Bool, true, false, not, Option, none, some, List, [], ◌∷◌, ◌++◌, map, ◌==◌, ◌&&◌, ◌||◌,
  if◌then◌else◌,
}
use soundcan.CText.{Text, text, same_text}

-- `ControlType`
pub data ControlType : Type 0 where
  port property : ControlType

-- What a comparison for qsort returns: -1, 0 or 1.
pub data Cmp : Type 0 where
  lt eq gt : Cmp

-- `ScalePoint`; floats are bit patterns.
pub record ScalePoint : Type 0 where
  pub value : ℕ
  pub label : Text

-- `ControlID`, less the widget and the forge, over the nodes of lilv. A URI or a symbol is a text,
-- `none` is NULL, and the URID 0 is none.
pub record ControlId (Node : Type 0) : Type 0 where
  pub type : ControlType
  pub node : Text
  pub symbol : Text
  pub label : Option Node
  pub property_urid : ℕ
  pub index : ℕ
  pub group : Option Node
  pub points : List ScalePoint
  pub value_type : ℕ
  pub min : Option Node
  pub max : Option Node
  pub def : Option Node
  pub is_toggle : Bool
  pub is_integer : Bool
  pub is_enumeration : Bool
  pub is_logarithmic : Bool
  pub is_writable : Bool
  pub is_readable : Bool

-- The nodes of lilv that are values, floats, and qsort with an order.
pub record Values : Type 1 where
  pub Node : Type 0
  pub is_number : Node → Bool
  pub as_float : Node → ℕ
  pub as_string : Node → Text
  pub new_float : ℕ → Node
  pub mul : ℕ → ℕ → ℕ
  pub below : ℕ → ℕ → Bool
  pub equal : ℕ → ℕ → Bool
  pub qsort : (ScalePoint → ScalePoint → Cmp) → List ScalePoint → List ScalePoint

-- The URIDs of the forge.
pub record ForgeTypes : Type 0 where
  pub float : ℕ
  pub int : ℕ
  pub long : ℕ
  pub bool : ℕ

-- What lilv answers about a port; the points are values with their labels.
pub record PortAnswers (Node : Type 0) : Type 0 where
  pub node : Text
  pub symbol : Text
  pub name : Option Node
  pub group : Option Node
  pub lv2_input : Bool
  pub lv2_output : Bool
  pub toggled : Bool
  pub integer : Bool
  pub enumeration : Bool
  pub logarithmic : Bool
  pub sample_rate : Bool
  pub min : Option Node
  pub max : Option Node
  pub def : Option Node
  pub points : Option (List (Node × Node))

-- What lilv knows of the properties of a plugin: `ask` tells whether the plugin has a property as a
-- writable one, `has_range` whether the range of a property is a type.
pub record PropertyAnswers (Node : Type 0) : Type 0 where
  pub writable : List Text
  pub readable : List Text
  pub ask : Text → Bool
  pub has_range : Text → Text → Bool
  pub symbol : Text → Text
  pub label : Text → Option Node
  pub min : Text → Option Node
  pub max : Text → Option Node
  pub def : Text → Option Node

module _ (values : Values) where
  open values use {Node, is_number, as_float, as_string, new_float, mul, below, equal, qsort}

  unfoldable pub scale_point_cmp : ScalePoint → ScalePoint → Cmp
  scale_point_cmp a b =
      if below a.value b.value then lt else if equal a.value b.value then eq else gt

  -- An end of the range of a control that follows the sample rate.
  abbrev adjusted : ℕ → Option Node → Option Node
  adjusted rate none = none
  adjusted rate (some node) =
      if is_number node then some (new_float (mul (as_float node) rate)) else some node

  -- The points whose values are numbers.
  abbrev number_points : List (Node × Node) → List ScalePoint
  number_points [] = []
  number_points ((value, label) ∷ points) =
      let rest = number_points points in
      if is_number value
      then record { value = as_float value; label = as_string label } ∷ rest
      else rest

  abbrev sorted_points : Option (List (Node × Node)) → List ScalePoint
  sorted_points none = []
  sorted_points (some points) = qsort scale_point_cmp (number_points points)

  unfoldable pub new_port_control : PortAnswers Node → ℕ → ℕ → ForgeTypes → ControlId Node
  new_port_control answers port_index rate forge = record {
    type = port;
    node = answers.node;
    symbol = answers.symbol;
    label = answers.name;
    property_urid = 0;
    index = port_index;
    group = answers.group;
    points = sorted_points answers.points;
    value_type = forge.float;
    min = if answers.sample_rate then adjusted rate answers.min else answers.min;
    max = if answers.sample_rate then adjusted rate answers.max else answers.max;
    def = answers.def;
    is_toggle = answers.toggled;
    is_integer = answers.integer;
    is_enumeration = answers.enumeration;
    is_logarithmic = answers.logarithmic;
    is_writable = answers.lv2_input;
    is_readable = answers.lv2_output;
  }

-- The types that are looked for in turn.
abbrev value_types : List Text
value_types =
    text "http://lv2plug.in/ns/ext/atom#Int"
    ∷ text "http://lv2plug.in/ns/ext/atom#Long"
    ∷ text "http://lv2plug.in/ns/ext/atom#Float"
    ∷ text "http://lv2plug.in/ns/ext/atom#Double"
    ∷ text "http://lv2plug.in/ns/ext/atom#Bool"
    ∷ text "http://lv2plug.in/ns/ext/atom#String"
    ∷ text "http://lv2plug.in/ns/ext/atom#Path"
    ∷ []

-- The URID of the first type that is a range, or 0.
unfoldable pub property_type : (Text → ℕ) → (Text → Bool) → List Text → ℕ
property_type urid ranges [] = 0
property_type urid ranges (type ∷ types) =
    let rest = property_type urid ranges types in if ranges type then urid type else rest

module _ {Node : Type 0} where
  unfoldable pub new_property_control :
      PropertyAnswers Node → (Text → ℕ) → ForgeTypes → Text → ControlId Node
  new_property_control answers urid forge uri =
      let value_type = property_type urid (answers.has_range uri) value_types in
      record {
        type = property;
        node = uri;
        symbol = answers.symbol uri;
        label = answers.label uri;
        property_urid = urid uri;
        index = 0;
        group = none;
        points = [];
        value_type = value_type;
        min = answers.min uri;
        max = answers.max uri;
        def = answers.def uri;
        is_toggle = value_type == forge.bool;
        is_integer = value_type == forge.int || value_type == forge.long;
        is_enumeration = false;
        is_logarithmic = false;
        is_writable = false;
        is_readable = false;
      }

  -- The flag tells whether the array can grow; a control that has no place is lost.
  unfoldable pub add_control_id :
      Bool → List (ControlId Node) → ControlId Node → List (ControlId Node)
  add_control_id true controls control = controls ++ control ∷ []
  add_control_id false controls control = controls

  unfoldable pub get_property_control : List (ControlId Node) → ℕ → Option (ControlId Node)
  get_property_control [] urid = none
  get_property_control (control ∷ controls) urid =
      let rest = get_property_control controls urid in
      if control.property_urid == urid then some control else rest

  unfoldable pub jalv_control_by_symbol : List (ControlId Node) → Text → Option (ControlId Node)
  jalv_control_by_symbol [] sym = none
  jalv_control_by_symbol (control ∷ controls) sym =
      let rest = jalv_control_by_symbol controls sym in
      if same_text control.symbol sym then some control else rest

  abbrev pub behind :
      ControlId Node → Option (List (ControlId Node)) → Option (List (ControlId Node))
  behind control none = none
  behind control (some controls) = some (control ∷ controls)

  -- `is_readable` of the first control of a property; `none` where there is none.
  unfoldable pub set_readable : List (ControlId Node) → Text → Option (List (ControlId Node))
  set_readable [] uri = none
  set_readable (control ∷ controls) uri =
      let rest = set_readable controls uri in
      if same_text control.node uri
      then some (record control { is_readable = true } ∷ controls)
      else behind control rest

  module _ (answers : PropertyAnswers Node) (urid : Text → ℕ) (forge : ForgeTypes)
      (grows : Bool) where
    -- A new control for a property, if its type is known.
    unfoldable pub add_property : Bool → List (ControlId Node) → Text → List (ControlId Node)
    add_property writable controls uri =
        let control = new_property_control answers urid forge uri in
        if control.value_type == 0
        then controls
        else add_control_id grows controls (
            if writable
            then record control { is_writable = true }
            else record control { is_readable = true })

    unfoldable pub create_control : Bool → List (ControlId Node) → Text → List (ControlId Node)
    create_control writable controls uri =
        if not writable && answers.ask uri
        then (elim (set_readable controls uri) [
          | none ↦ add_property writable controls uri
          | some controls' ↦ controls'
        ])
        else add_property writable controls uri

    unfoldable pub create_all : Bool → List (ControlId Node) → List Text → List (ControlId Node)
    create_all writable controls [] = controls
    create_all writable controls (uri ∷ uris) =
        create_all writable (create_control writable controls uri) uris

    unfoldable pub jalv_create_controls : Bool → List (ControlId Node) → List (ControlId Node)
    jalv_create_controls writable controls =
        create_all writable controls (if writable then answers.writable else answers.readable)
