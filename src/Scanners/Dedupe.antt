-- ===== src/Scanners/Dedupe.antt =====
-- The removal of duplicates that internal/scanners/{snyk,wiz,clair,trivyoperator} share: the first
-- item of each key stays. The keys that were seen are a set, kept as a list.
use komodor_security_reporte.Prelude.{
  ◌≡◌, ◌∙◌, inl, inr, arith, Bool-cases, Option, none, some, if◌then◌else◌, List, [], ◌∷◌, Memᴰ,
}
use komodor_security_reporte.Prelude.Text.{Text, text_eq, text_eq_iff, text_eq_refl, is_among}

module _ {A : Type 0} (key : A → Text) where
  unfoldable pub dedupe_from : List Text → List A → List A
  dedupe_from seen [] = []
  dedupe_from seen (x ∷ xs) =
      let rest = dedupe_from (key x ∷ seen) xs in if is_among (key x) seen then rest else x ∷ rest

  unfoldable pub dedupe : List A → List A
  unfolding dedupe_from
  dedupe xs = dedupe_from [] xs

  -- The first item with a key.
  unfoldable pub find_key : Text → List A → Option A
  find_key k [] = none
  find_key k (x ∷ xs) = let rest = find_key k xs in if text_eq (key x) k then some x else rest

  -- No two items have the same key.
  abbrev pub HasDistinctKeys : List A → Type 0
  HasDistinctKeys [] = Unit
  HasDistinctKeys (x ∷ xs) = (find_key (key x) xs ≡ none) × HasDistinctKeys xs

  find_key-dedupe_from :
      (k : Text) (seen : List Text) (xs : List A)
      → find_key k (dedupe_from seen xs) ≡ (if is_among k seen then none else find_key k xs)
  unfolding find_key dedupe_from
  find_key-dedupe_from k seen [] = ground arith
  find_key-dedupe_from k seen (x ∷ xs) = elim (Bool-cases (is_among (key x) seen)) [
    | inl e ↦ rw e (ground (arith, find_key-dedupe_from k (key x ∷ seen) xs, text_eq_iff (key x) k))
    | inr e ↦ rw e (ground (arith, find_key-dedupe_from k (key x ∷ seen) xs, text_eq_iff (key x) k))
  ]

  dedupe_from-HasDistinctKeys :
      (seen : List Text) (xs : List A) → HasDistinctKeys (dedupe_from seen xs)
  unfolding dedupe_from
  dedupe_from-HasDistinctKeys seen [] = tt
  dedupe_from-HasDistinctKeys seen (x ∷ xs) = elim (Bool-cases (is_among (key x) seen)) [
    | inl e ↦ rw e (dedupe_from-HasDistinctKeys (key x ∷ seen) xs)
    | inr e ↦ rw e (
      find_key-dedupe_from (key x) (key x ∷ seen) xs ∙ rw (text_eq_refl (key x)),
      dedupe_from-HasDistinctKeys (key x ∷ seen) xs,
    )
  ]

  -- Each key has the first item that had it.
  pub find_key-dedupe : (k : Text) (xs : List A) → find_key k (dedupe xs) ≡ find_key k xs
  unfolding dedupe
  find_key-dedupe k xs = find_key-dedupe_from k [] xs

  pub dedupe-HasDistinctKeys : (xs : List A) → HasDistinctKeys (dedupe xs)
  unfolding dedupe
  dedupe-HasDistinctKeys xs = dedupe_from-HasDistinctKeys [] xs

  dedupe_from-Memᴰ :
      (seen : List Text) (xs : List A) {x : A} → Memᴰ x (dedupe_from seen xs) → Memᴰ x xs
  unfolding dedupe_from
  dedupe_from-Memᴰ seen [] = λ h. h
  dedupe_from-Memᴰ seen (y ∷ ys) {x} = elim (Bool-cases (is_among (key y) seen)) [
    | inl e ↦ rw e (λ h. Memᴰ.tail (dedupe_from-Memᴰ (key y ∷ seen) ys h))
    | inr e ↦ rw e (λ h. kept (λ m. dedupe_from-Memᴰ (key y ∷ seen) ys m) h)
  ]
    where
      kept :
          (Memᴰ x (dedupe_from (key y ∷ seen) ys) → Memᴰ x ys)
          → Memᴰ x (y ∷ dedupe_from (key y ∷ seen) ys)
          → Memᴰ x (y ∷ ys)
      kept below (Memᴰ.head e) = Memᴰ.head e
      kept below (Memᴰ.tail m) = Memᴰ.tail (below m)

  -- Only items of the list stay.
  pub dedupe-Memᴰ : (xs : List A) {x : A} → Memᴰ x (dedupe xs) → Memᴰ x xs
  unfolding dedupe
  dedupe-Memᴰ xs = dedupe_from-Memᴰ [] xs

  -- The key of each item of the list has an item.
  pub find_key-Memᴰ : (xs : List A) {x : A} → Memᴰ x xs → (y : A) × (find_key (key x) xs ≡ some y)
  unfolding find_key
  find_key-Memᴰ [] m = elim m [ ]
  find_key-Memᴰ (y ∷ ys) (Memᴰ.head e) = (y, rw e (rw (text_eq_refl (key y))))
  find_key-Memᴰ (y ∷ ys) {x} (Memᴰ.tail m) =
      let below = find_key-Memᴰ ys m in
      elim (Bool-cases (text_eq (key y) (key x))) [
        | inl e ↦ (y, rw e)
        | inr e ↦ (below.0, rw e below.1)
      ]
