-- ===== src/Prelude/Sort.antt =====
-- Package `sort` of Go: the order of texts, and sorting by a test `less`.
use mathlib.Core.Path.{ap₂, sym}
use mathlib.Core.List.{Perm, Permᴰ, List, ◌∷◌, [], map}
use mathlib.Core.Logic.{∥∥₁_elim, inl, inr}
use mathlib.Core.List.Perm
use komodor_security_reporte.Prelude.Text.{Text, text_ltb}
use mathlib.Core.Bool.{Bool, false, true}
use mathlib.Core.Path.{◌≡◌, refl, ap, ◌∙◌}
use komodor_security_reporte.Prelude.Tests.{if◌then◌else◌, Bool-cases}
use native.Mathlib.Omega.{arith}
use komodor_security_reporte.Prelude.Lists.{All}

pub text_ltb_irrefl : (s : Text) → text_ltb s s ≡ false
unfolding text_ltb
text_ltb_irrefl [] = refl
text_ltb_irrefl (a ∷ s) = ground (arith, text_ltb_irrefl s)

pub text_ltb_trans :
    (s t u : Text) → text_ltb s t ≡ true → text_ltb t u ≡ true → text_ltb s u ≡ true
unfolding text_ltb
text_ltb_trans [] [] u h k = cc
text_ltb_trans [] (b ∷ t) [] h k = cc
text_ltb_trans [] (b ∷ t) (c ∷ u) h k = refl
text_ltb_trans (a ∷ s) [] u h k = cc
text_ltb_trans (a ∷ s) (b ∷ t) [] h k = cc
text_ltb_trans (a ∷ s) (b ∷ t) (c ∷ u) h k = ground (arith, text_ltb_trans s t u)

pub text_ltb_connected : (s t : Text) → text_ltb s t ≡ false → text_ltb t s ≡ false → s ≡ t
unfolding text_ltb
text_ltb_connected [] [] h k = refl
text_ltb_connected [] (b ∷ t) h k = cc
text_ltb_connected (a ∷ s) [] h k = cc
text_ltb_connected (a ∷ s) (b ∷ t) h k = ground (arith, text_ltb_connected s t)

pub text_ltb_asym : (s t : Text) → text_ltb s t ≡ true → text_ltb t s ≡ false
text_ltb_asym s t h = ground (arith, text_ltb_trans s t s h, text_ltb_irrefl s)

module _ {ℓ} {A : Type ℓ} (less : A → A → Bool) where
  unfoldable pub insert_sorted : A → List A → List A
  insert_sorted x [] = x ∷ []
  insert_sorted x (y ∷ ys) =
      let rest = insert_sorted x ys in if less y x then y ∷ rest else x ∷ y ∷ ys

  -- `sort.Slice` and `sort.Strings`: where `less` ties, the order is one of those that Go may give.
  unfoldable pub sort_by : List A → List A
  unfolding insert_sorted
  sort_by [] = []
  sort_by (x ∷ xs) = insert_sorted x (sort_by xs)

-- sort.Strings
unfoldable pub sort_texts : List Text → List Text
unfolding sort_by
sort_texts = sort_by text_ltb

insert_comm :
    (a b : Text) (l : List Text)
    → insert_sorted text_ltb a (insert_sorted text_ltb b l)
      ≡ insert_sorted text_ltb b (insert_sorted text_ltb a l)
unfolding insert_sorted
insert_comm a b [] = ground (arith, text_ltb_connected a b, text_ltb_asym a b)
insert_comm a b (y ∷ ys) = ground (
  arith,
  insert_comm a b ys,
  text_ltb_connected a b,
  text_ltb_asym a b,
  text_ltb_trans y a b,
  text_ltb_trans y b a,
)

pub sort_texts-permᴰ : {xs ys : List Text} → Permᴰ xs ys → sort_texts xs ≡ sort_texts ys
unfolding sort_texts
sort_texts-permᴰ Permᴰ.nil = refl
sort_texts-permᴰ (Permᴰ.cons e p) = ap₂ (insert_sorted text_ltb) e (sort_texts-permᴰ p)
sort_texts-permᴰ (Permᴰ.swap {a = a} {b = b} {l = l} e f) =
    insert_comm a b (sort_by text_ltb l)
    ∙ ap₂ (λ x y. insert_sorted text_ltb x (insert_sorted text_ltb y (sort_by text_ltb l))) f e
sort_texts-permᴰ (Permᴰ.trans p q) = sort_texts-permᴰ p ∙ sort_texts-permᴰ q

pub Texts-set : IsSet (List Text)
Texts-set = hlevel

-- Sorting forgets the order of its input.
pub sort_texts-perm : {xs ys : List Text} → Perm xs ys → sort_texts xs ≡ sort_texts ys
sort_texts-perm p = ∥∥₁_elim p (Texts-set _ _) sort_texts-permᴰ

module _ {ℓ} {A : Type ℓ} (less : A → A → Bool) (key : A → Text) where
  module _ (by_key : (x y : A) → less x y ≡ text_ltb (key x) (key y)) where
    map-insert_sorted :
        (x : A) (l : List A)
        → map key (insert_sorted less x l) ≡ insert_sorted text_ltb (key x) (map key l)
    unfolding insert_sorted
    map-insert_sorted x [] = refl
    map-insert_sorted x (y ∷ ys) = elim (Bool-cases (text_ltb (key y) (key x))) [
      | inl e ↦ rw (by_key y x) (rw e (ap (λ l. key y ∷ l) (map-insert_sorted x ys)))
      | inr e ↦ rw (by_key y x) (rw e)
    ]

    -- The keys of a list sorted by key are the sorted keys, whatever becomes of the ties.
    pub map-sort_by : (l : List A) → map key (sort_by less l) ≡ sort_texts (map key l)
    unfolding sort_by sort_texts
    map-sort_by [] = refl
    map-sort_by (x ∷ l) =
        map-insert_sorted x (sort_by less l) ∙ ap (insert_sorted text_ltb (key x)) (map-sort_by l)

insert_sorted-perm {ℓ} :
    {A : Type ℓ} (less : A → A → Bool) (x : A) (l : List A) → Perm (insert_sorted less x l) (x ∷ l)
unfolding insert_sorted
insert_sorted-perm less x [] = Perm.refl (x ∷ [])
insert_sorted-perm less x (y ∷ ys) = elim (Bool-cases (less y x)) [
  | inl e ↦ rw e (Perm.trans (Perm.cons y (insert_sorted-perm less x ys)) (Perm.swap x y ys))
  | inr e ↦ rw e (Perm.refl (x ∷ y ∷ ys))
]

pub sort_by-perm {ℓ} : {A : Type ℓ} (less : A → A → Bool) (l : List A) → Perm (sort_by less l) l
unfolding sort_by
sort_by-perm less [] = Perm.refl []
sort_by-perm less (x ∷ l) =
    Perm.trans (insert_sorted-perm less x (sort_by less l)) (Perm.cons x (sort_by-perm less l))

-- No item of the list is before `x` by `less`.
abbrev pub IsSortedBy {ℓ} : {A : Type ℓ} → (A → A → Bool) → List A → Type ℓ
IsSortedBy less [] = Unit
IsSortedBy less (x ∷ l) = All (λ y. less y x ≡ false) l × IsSortedBy less l

-- The laws of a strict order that sorting needs.
pub record IsStrictOrder {ℓ} {A : Type ℓ} (less : A → A → Bool) : Type ℓ where
  pub asym : (x y : A) → less x y ≡ true → less y x ≡ false
  pub negative_trans : (x y z : A) → less z y ≡ false → less y x ≡ false → less z x ≡ false

text_ltb-negative_trans :
    (s t u : Text) → text_ltb u t ≡ false → text_ltb t s ≡ false → text_ltb u s ≡ false
text_ltb-negative_trans s t u h k = elim (Bool-cases (text_ltb s t)) [
  | inl e ↦ elim (Bool-cases (text_ltb t u)) [
    | inl f ↦ text_ltb_asym s u (text_ltb_trans s t u e f)
    | inr f ↦ rw (text_ltb_connected u t h f) (text_ltb_asym s t e)
  ]
  | inr e ↦ rw (text_ltb_connected s t e k) h
]

-- An order by texts that are taken from the items.
pub by_text-IsStrictOrder {ℓ} :
    {A : Type ℓ} (less : A → A → Bool) (key : A → Text)
    → ((x y : A) → less x y ≡ text_ltb (key x) (key y))
    → IsStrictOrder less
by_text-IsStrictOrder less key by_key = record {
  asym = λ x y h. by_key y x ∙ text_ltb_asym (key x) (key y) (sym (by_key x y) ∙ h);
  negative_trans = λ x y z h k.
      by_key z x
      ∙ text_ltb-negative_trans (key x) (key y) (key z) (sym (by_key z y) ∙ h)
          (sym (by_key y x) ∙ k);
}

module _ {ℓ} {A : Type ℓ} (less : A → A → Bool) (order : IsStrictOrder less) where
  All-insert_sorted {κ} :
      (P : A → Type κ) (x : A) (l : List A) → P x → All P l → All P (insert_sorted less x l)
  unfolding insert_sorted
  All-insert_sorted P x [] h hs = (h, hs)
  All-insert_sorted P x (y ∷ ys) h (hy, hs) = elim (Bool-cases (less y x)) [
    | inl e ↦ rw e (hy, All-insert_sorted P x ys h hs)
    | inr e ↦ rw e (h, (hy, hs))
  ]

  All-later :
      (x y : A) (l : List A)
      → less y x ≡ false
      → All (λ z. less z y ≡ false) l
      → All (λ z. less z x ≡ false) l
  All-later x y [] h hs = tt
  All-later x y (z ∷ l) h (hz, hs) = (order.negative_trans x y z hz h, All-later x y l h hs)

  insert_sorted-IsSortedBy :
      (x : A) (l : List A) → IsSortedBy less l → IsSortedBy less (insert_sorted less x l)
  unfolding insert_sorted
  insert_sorted-IsSortedBy x [] h = (tt, tt)
  insert_sorted-IsSortedBy x (y ∷ ys) (first, later) = elim (Bool-cases (less y x)) [
    | inl e ↦ rw e (
      All-insert_sorted (λ z. less z y ≡ false) x ys (order.asym y x e) first,
      insert_sorted-IsSortedBy x ys later,
    )
    | inr e ↦ rw e ((e, All-later x y ys e first), (first, later))
  ]

  pub sort_by-IsSortedBy : (l : List A) → IsSortedBy less (sort_by less l)
  unfolding sort_by
  sort_by-IsSortedBy [] = tt
  sort_by-IsSortedBy (x ∷ l) = insert_sorted-IsSortedBy x (sort_by less l) (sort_by-IsSortedBy l)
