-- ===== src/Scanners/Payload.antt =====
-- Decoded payloads of unknown shape, as internal/scanners/wiz and internal/scanners/clair read
-- them.
pub mod Parts
use komodor_security_reporte.Prelude.{
  ◌≡◌, Bool, true, false, Option, none, some, if◌then◌else◌, List, [], ◌∷◌, ◌++◌,
}
use komodor_security_reporte.Prelude.Text.{Text, is_empty}
use komodor_security_reporte.Prelude.Json.{
  Json, null, bool, number, string, array, object, Items, nil, cons, Fields, end, field, get_field,
}

-- toString of a field that may be missing. No decoded value is a fmt.Stringer.
unfoldable pub to_string : Option Json → Text
to_string (some (string s)) = s
to_string _ = []

-- toString(vuln[key])
abbrev pub text_of : Fields → Text → Text
text_of vuln key = to_string (get_field key vuln)

unfoldable pub first_non_empty : List Text → Text
first_non_empty [] = []
first_non_empty (value ∷ values) =
    let rest = first_non_empty values in if is_empty value then rest else value

-- walk of collectVulnerabilityObjects, over the test that it makes of an object
module _ (looks_like : Fields → Bool) where
  unfoldable mutual
    pub walk : Json → List Fields
    walk (object fs) = let rest = walk_fields fs in if looks_like fs then fs ∷ rest else rest
    walk (array vs) = walk_items vs
    walk _ = []

    pub walk_items : Items → List Fields
    walk_items nil = []
    walk_items (cons v vs) = walk v ++ walk_items vs

    pub walk_fields : Fields → List Fields
    walk_fields end = []
    walk_fields (field k v fs) = walk v ++ walk_fields fs
