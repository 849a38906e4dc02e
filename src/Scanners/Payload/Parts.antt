-- ===== src/Scanners/Payload/Parts.antt =====
-- The objects that the walks of internal/scanners/wiz and internal/scanners/clair find.
use komodor_security_reporte.Prelude.{
  ◌≡◌, inl, inr, Bool, true, Bool-cases, some, if◌then◌else◌, List, ◌∷◌, Memᴰ, ap, ◌∙◌, ◌⊎◌,
}
use komodor_security_reporte.Prelude.Text.{Text}
use komodor_security_reporte.Prelude.Json.{
  Json, null, bool, number, string, array, object, Items, nil, cons, Fields, end, field,
}
use komodor_security_reporte.Scanners.Payload.{walk, walk_items, walk_fields}
use komodor_security_reporte.Scanners.Dedupe.{
  dedupe, find_key, HasDistinctKeys, dedupe-HasDistinctKeys, dedupe-Memᴰ, find_key-dedupe,
  find_key-Memᴰ,
}
use mathlib.Core.List.Memᴰ

-- A value is somewhere in another one.
mutual
  pub data IsPart (v : Json) : Json → Type 0 where
    whole : {w : Json} → v ≡ w → IsPart v w
    in_array : {ws : Items} → IsPartOfItems v ws → IsPart v (array ws)
    in_object : {fs : Fields} → IsPartOfFields v fs → IsPart v (object fs)

  pub data IsPartOfItems (v : Json) : Items → Type 0 where
    first_item : {w : Json} {ws : Items} → IsPart v w → IsPartOfItems v (cons w ws)
    later_item : {w : Json} {ws : Items} → IsPartOfItems v ws → IsPartOfItems v (cons w ws)

  pub data IsPartOfFields (v : Json) : Fields → Type 0 where
    first_field : {k : Text} {w : Json} {fs : Fields} → IsPart v w → IsPartOfFields v (field k w fs)
    later_field :
        {k : Text} {w : Json} {fs : Fields} → IsPartOfFields v fs → IsPartOfFields v (field k w fs)

object_injective : {fs gs : Fields} → object fs ≡ object gs → fs ≡ gs
object_injective e = cc e

module _ (looks_like : Fields → Bool) {fs : Fields} where
  listed :
      (gs : Fields) (rest : List Fields)
      → (fs ≡ gs) × (looks_like fs ≡ true)
      → Memᴰ fs (if looks_like gs then gs ∷ rest else rest)
  listed gs rest (e, looks) = elim (Bool-cases (looks_like gs)) [
    | inl h ↦ rw h (Memᴰ.head e)
    | inr h ↦ cc (h, looks, ap looks_like e)
  ]

  listed_later :
      (gs : Fields) (rest : List Fields)
      → Memᴰ fs rest
      → Memᴰ fs (if looks_like gs then gs ∷ rest else rest)
  listed_later gs rest m = elim (Bool-cases (looks_like gs)) [
    | inl h ↦ rw h (Memᴰ.tail m)
    | inr h ↦ rw h m
  ]

  listed_cases :
      (gs : Fields) (rest : List Fields)
      → Memᴰ fs (if looks_like gs then gs ∷ rest else rest)
      → ((fs ≡ gs) × (looks_like fs ≡ true)) ⊎ Memᴰ fs rest
  listed_cases gs rest = elim (Bool-cases (looks_like gs)) [
    | inl h ↦ rw h (λ m. elim (Memᴰ.cases_cons m) [
      | inl e ↦ inl (e, ap looks_like e ∙ h)
      | inr later ↦ inr later
    ])
    | inr h ↦ rw h (λ m. inr m)
  ]

  -- The walk lists each part that is an object and passes the test.
  mutual
    unfolding walk

    pub walk_complete :
        (v : Json) → looks_like fs ≡ true → IsPart (object fs) v → Memᴰ fs (walk looks_like v)
    walk_complete (object gs) looks (whole e) =
        listed gs (walk_fields looks_like gs) (object_injective e, looks)
    walk_complete (object gs) looks (in_object p) =
        listed_later gs (walk_fields looks_like gs) (walk_fields_complete gs looks p)
    walk_complete (array vs) looks (in_array p) = walk_items_complete vs looks p
    walk_complete (array vs) looks (whole e) = cc e
    walk_complete null looks (whole e) = cc e
    walk_complete (bool b) looks (whole e) = cc e
    walk_complete (number n) looks (whole e) = cc e
    walk_complete (string s) looks (whole e) = cc e

    walk_items_complete :
        (vs : Items)
        → looks_like fs ≡ true
        → IsPartOfItems (object fs) vs
        → Memᴰ fs (walk_items looks_like vs)
    walk_items_complete nil looks p = elim p [ ]
    walk_items_complete (cons v vs) looks (first_item p) =
        Memᴰ.append_left (walk_items looks_like vs) (walk_complete v looks p)
    walk_items_complete (cons v vs) looks (later_item p) =
        Memᴰ.append_right (walk looks_like v) (walk_items_complete vs looks p)

    walk_fields_complete :
        (gs : Fields)
        → looks_like fs ≡ true
        → IsPartOfFields (object fs) gs
        → Memᴰ fs (walk_fields looks_like gs)
    walk_fields_complete end looks p = elim p [ ]
    walk_fields_complete (field k v gs) looks (first_field p) =
        Memᴰ.append_left (walk_fields looks_like gs) (walk_complete v looks p)
    walk_fields_complete (field k v gs) looks (later_field p) =
        Memᴰ.append_right (walk looks_like v) (walk_fields_complete gs looks p)

  -- It lists nothing else.
  mutual
    unfolding walk

    pub walk_sound :
        (v : Json) → Memᴰ fs (walk looks_like v) → (looks_like fs ≡ true) × IsPart (object fs) v
    walk_sound (object gs) m = elim (listed_cases gs (walk_fields looks_like gs) m) [
      | inl (e, looks) ↦ (looks, whole (ap object e))
      | inr later ↦ let below = walk_fields_sound gs later in (below.0, in_object below.1)
    ]
    walk_sound (array vs) m = let below = walk_items_sound vs m in (below.0, in_array below.1)
    walk_sound null m = absurd (Memᴰ.not-nil m)
    walk_sound (bool b) m = absurd (Memᴰ.not-nil m)
    walk_sound (number n) m = absurd (Memᴰ.not-nil m)
    walk_sound (string s) m = absurd (Memᴰ.not-nil m)

    walk_items_sound :
        (vs : Items)
        → Memᴰ fs (walk_items looks_like vs)
        → (looks_like fs ≡ true) × IsPartOfItems (object fs) vs
    walk_items_sound nil m = absurd (Memᴰ.not-nil m)
    walk_items_sound (cons v vs) m = elim (Memᴰ.append_cases (walk looks_like v) m) [
      | inl here ↦ let found = walk_sound v here in (found.0, first_item found.1)
      | inr later ↦ let found = walk_items_sound vs later in (found.0, later_item found.1)
    ]

    walk_fields_sound :
        (gs : Fields)
        → Memᴰ fs (walk_fields looks_like gs)
        → (looks_like fs ≡ true) × IsPartOfFields (object fs) gs
    walk_fields_sound end m = absurd (Memᴰ.not-nil m)
    walk_fields_sound (field k v gs) m = elim (Memᴰ.append_cases (walk looks_like v) m) [
      | inl here ↦ let found = walk_sound v here in (found.0, first_field found.1)
      | inr later ↦ let found = walk_fields_sound gs later in (found.0, later_field found.1)
    ]

-- A list of objects collected from a payload: parts of it that pass the test, each such part with
-- its key, and no key twice.
pub record IsCollected (looks_like : Fields → Bool) (key : Fields → Text) (payload : Json)
    (objects : List Fields) : Type 0 where
  pub are_parts :
      (fs : Fields) → Memᴰ fs objects → (looks_like fs ≡ true) × IsPart (object fs) payload
  pub covers :
      (fs : Fields)
      → looks_like fs ≡ true
      → IsPart (object fs) payload
      → (first : Fields) × (find_key key (key fs) objects ≡ some first)
  pub distinct : HasDistinctKeys key objects

pub dedupe-walk-IsCollected :
    (looks_like : Fields → Bool) (key : Fields → Text) (payload : Json)
    → IsCollected looks_like key payload (dedupe key (walk looks_like payload))
dedupe-walk-IsCollected looks_like key payload = record {
  are_parts = λ fs m. walk_sound looks_like payload (dedupe-Memᴰ key (walk looks_like payload) m);
  covers = λ fs looks p.
      let first =
        find_key-Memᴰ key (walk looks_like payload) (walk_complete looks_like payload looks p) in
      (first.0, find_key-dedupe key (key fs) (walk looks_like payload) ∙ first.1);
  distinct = dedupe-HasDistinctKeys key (walk looks_like payload);
}
