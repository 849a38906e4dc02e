-- ===== src/Prelude/Json.antt =====
-- A decoded JSON value, as encoding/json gives it for `interface{}`: the keys of an object are
-- different, in the order in which Go ranges over the map. A number is its literal.
use mathlib.Core.Bool.{Bool}
use mathlib.Core.Option.{Option, none, some}
use mathlib.Core.List.{List, [], ◌∷◌}
use komodor_security_reporte.Prelude.Tests.{if◌then◌else◌}
use komodor_security_reporte.Prelude.Text.{Text, text_eq}

mutual
  pub data Json : Type 0 where
    null : Json
    bool : Bool → Json
    number : Text → Json
    string : Text → Json
    array : Items → Json
    object : Fields → Json

  pub data Items : Type 0 where
    nil : Items
    cons : Json → Items → Items

  pub data Fields : Type 0 where
    end : Fields
    field : Text → Json → Fields → Fields

-- m[key]
unfoldable pub get_field : Text → Fields → Option Json
get_field key end = none
get_field key (field k v fs) = let rest = get_field key fs in if text_eq k key then some v else rest

-- The items of an array.
abbrev pub items_of : Items → List Json
items_of nil = []
items_of (cons v vs) = v ∷ items_of vs
