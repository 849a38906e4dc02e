-- ===== src/Prelude/Text.antt =====
-- Go strings as lists of bytes, with the functions of package `strings` that the program calls.
-- Case and white space are those of ASCII.
use Prim.Native.Char.{code}
use Prim.Native.Nat.{ℕ, zero, suc, ◌+◌, ◌-◌}
use Prim.Native.String.{String}
use mathlib.Core.Path.{◌≡◌, refl, ◌∙◌, sym, ap}
use mathlib.Core.Logic.{◌↔◌, inl, inr}
use mathlib.Core.Bool.{Bool, true, false, ◌&&◌, ◌||◌}
use mathlib.Core.Option.{Option, none, some}
use mathlib.Core.Option
use mathlib.Core.List.{List, [], ◌∷◌, ◌++◌, reverse}
use native.Mathlib.Omega.{arith}
use komodor_security_reporte.Prelude.Tests.{leb, ltb, ◌==◌, if◌then◌else◌, Bool-cases}
use komodor_security_reporte.Prelude.Lists.{length, take, drop, take-length_append}

abbrev pub Text : Type 0
Text = List ℕ

-- A literal.
abbrev pub codes : String → Text
codes String.[] = []
codes (String.◌∷◌ c s) = code c ∷ codes s

-- s == t
unfoldable pub text_eq : Text → Text → Bool
text_eq [] [] = true
text_eq (a ∷ s) (b ∷ t) = a == b && text_eq s t
text_eq _ _ = false

-- s == ""
abbrev pub is_empty : Text → Bool
is_empty [] = true
is_empty (_ ∷ _) = false

pub text_eq_sound : (s t : Text) → text_eq s t ≡ true → s ≡ t
unfolding text_eq
text_eq_sound [] [] h = refl
text_eq_sound [] (b ∷ t) h = cc
text_eq_sound (a ∷ s) [] h = cc
text_eq_sound (a ∷ s) (b ∷ t) h = ground (arith, text_eq_sound s t)

pub text_eq_refl : (s : Text) → text_eq s s ≡ true
unfolding text_eq
text_eq_refl [] = refl
text_eq_refl (a ∷ s) = ground (arith, text_eq_refl s)

pub text_eq_iff : (s t : Text) → (text_eq s t ≡ true) ↔ (s ≡ t)
text_eq_iff s t = (text_eq_sound s t, λ e. cc (text_eq_refl s, e))

-- An injective function keeps the test.
pub text_eq_injective :
    (f : Text → Text)
    → ((k j : Text) → f k ≡ f j → k ≡ j)
    → (k j : Text) → text_eq (f k) (f j) ≡ text_eq k j
text_eq_injective f injective k j = elim (Bool-cases (text_eq (f k) (f j))) [
  | inl e ↦
      e ∙ sym (ap (text_eq k) (sym (injective k j (text_eq_sound (f k) (f j) e))) ∙ text_eq_refl k)
  | inr e ↦ elim (Bool-cases (text_eq k j)) [
    | inl h ↦ cc (ap (λ x. text_eq (f k) (f x)) (text_eq_sound k j h), text_eq_refl (f k))
    | inr h ↦ e ∙ sym h
  ]
]

-- s < t, byte by byte
unfoldable pub text_ltb : Text → Text → Bool
text_ltb [] [] = false
text_ltb [] (b ∷ t) = true
text_ltb (a ∷ s) [] = false
text_ltb (a ∷ s) (b ∷ t) = ltb a b || (a == b && text_ltb s t)

-- strings.Index of a single byte
unfoldable pub index_byte : ℕ → Text → Option ℕ
index_byte c [] = none
index_byte c (a ∷ s) = let rest = Option.map suc (index_byte c s) in if a == c then some 0 else rest

-- strings.Contains of a single byte
unfoldable pub contains_byte : ℕ → Text → Bool
contains_byte c [] = false
contains_byte c (a ∷ s) = a == c || contains_byte c s

-- strings.HasPrefix
unfoldable pub has_prefix : Text → Text → Bool
has_prefix [] s = true
has_prefix (a ∷ p) [] = false
has_prefix (a ∷ p) (b ∷ s) = a == b && has_prefix p s

abbrev lower_byte : ℕ → ℕ
lower_byte c = if leb b'A' c && leb c b'Z' then c + 32 else c

-- strings.ToLower
unfoldable pub to_lower : Text → Text
to_lower [] = []
to_lower (c ∷ s) = lower_byte c ∷ to_lower s

abbrev upper_byte : ℕ → ℕ
upper_byte c = if leb b'a' c && leb c b'z' then c - 32 else c

-- strings.ToUpper
unfoldable pub to_upper : Text → Text
to_upper [] = []
to_upper (c ∷ s) = upper_byte c ∷ to_upper s

-- strings.Index
unfoldable pub index_of : Text → Text → Option ℕ
unfolding has_prefix
index_of sub [] = if is_empty sub then some 0 else none
index_of sub (c ∷ s) =
    let rest = Option.map suc (index_of sub s) in if has_prefix sub (c ∷ s) then some 0 else rest

-- strings.Join
unfoldable pub join : Text → List Text → Text
join separator [] = []
join separator (s ∷ []) = s
join separator (s ∷ t ∷ ts) = s ++ (separator ++ join separator (t ∷ ts))

-- The text is one of these.
abbrev pub is_among : Text → List Text → Bool
is_among k [] = false
is_among k (j ∷ js) = if text_eq j k then true else is_among k js

-- white space: \t \n \v \f \r and the blank
abbrev is_space : ℕ → Bool
is_space c = (leb 9 c && leb c 13) || c == 32

trim_left : Text → Text
trim_left [] = []
trim_left (c ∷ s) = let rest = trim_left s in if is_space c then rest else c ∷ s

-- strings.TrimSpace
unfoldable pub trim_space : Text → Text
unfolding trim_left
trim_space s = reverse (trim_left (reverse (trim_left s)))

-- What an index says: the text falls into two parts there, and the part before it lacks the byte.
pub index_byte-some :
    (c : ℕ) (s : Text) (i : ℕ)
    → index_byte c s ≡ some i
    → (s ≡ take i s ++ c ∷ drop (suc i) s) × (contains_byte c (take i s) ≡ false)
unfolding index_byte contains_byte
index_byte-some c [] i h = cc
index_byte-some c (a ∷ s) zero h = ground arith
index_byte-some c (a ∷ s) (suc i) h = ground (arith, index_byte-some c s i)

pub index_byte-none : (c : ℕ) (s : Text) → index_byte c s ≡ none → contains_byte c s ≡ false
unfolding index_byte contains_byte
index_byte-none c [] h = refl
index_byte-none c (a ∷ s) h = ground (arith, index_byte-none c s)

-- The converse, which computes the index of the first separator.
pub index_byte-append :
    (c : ℕ) (s t : Text) → contains_byte c s ≡ false → index_byte c (s ++ c ∷ t) ≡ some (length s)
unfolding index_byte contains_byte
index_byte-append c [] t h = ground arith
index_byte-append c (a ∷ s) t h = ground (arith, index_byte-append c s t)

pub index_byte_absent : (c : ℕ) (s : Text) → contains_byte c s ≡ false → index_byte c s ≡ none
unfolding index_byte contains_byte
index_byte_absent c [] h = refl
index_byte_absent c (a ∷ s) h = ground (arith, index_byte_absent c s)

pub contains_byte-append :
    (c : ℕ) (s t : Text) → contains_byte c (s ++ t) ≡ (contains_byte c s || contains_byte c t)
unfolding contains_byte
contains_byte-append c [] t = refl
contains_byte-append c (a ∷ s) t = ground (arith, contains_byte-append c s t)

pub contains_byte-take :
    (c : ℕ) (i : ℕ) (s : Text) → contains_byte c s ≡ false → contains_byte c (take i s) ≡ false
unfolding contains_byte
contains_byte-take c zero s h = refl
contains_byte-take c (suc i) [] h = refl
contains_byte-take c (suc i) (a ∷ s) h = ground (arith, contains_byte-take c i s)

pub contains_byte-drop :
    (c : ℕ) (i : ℕ) (s : Text) → contains_byte c s ≡ false → contains_byte c (drop i s) ≡ false
unfolding contains_byte
contains_byte-drop c zero s h = h
contains_byte-drop c (suc i) [] h = refl
contains_byte-drop c (suc i) (a ∷ s) h = ground (arith, contains_byte-drop c i s)

-- A cut at the first separator, read off the index.
pub take-index : (c : ℕ) (s t : Text) → take (length s) (s ++ c ∷ t) ≡ s
take-index c s t = take-length_append s (c ∷ t)

pub drop-index : (c : ℕ) (s t : Text) → drop (suc (length s)) (s ++ c ∷ t) ≡ t
drop-index c [] t = refl
drop-index c (a ∷ s) t = drop-index c s t

pub contains_byte_join :
    (c d : ℕ) (s t : Text)
    → contains_byte c s ≡ false
    → (d == c) ≡ false
    → contains_byte c t ≡ false
    → contains_byte c (s ++ d ∷ t) ≡ false
unfolding contains_byte
contains_byte_join c d [] t hs hd ht = ground arith
contains_byte_join c d (a ∷ s) t hs hd ht = ground (arith, contains_byte_join c d s t)

pub contains_byte_mid : (c : ℕ) (s t : Text) → contains_byte c (s ++ c ∷ t) ≡ true
unfolding contains_byte
contains_byte_mid c [] t = ground arith
contains_byte_mid c (a ∷ s) t = ground (arith, contains_byte_mid c s t)

pub contains_byte_later :
    (c : ℕ) (s t : Text) → contains_byte c t ≡ true → contains_byte c (s ++ t) ≡ true
unfolding contains_byte
contains_byte_later c [] t h = h
contains_byte_later c (a ∷ s) t h = ground (arith, contains_byte_later c s t)

-- A text with a separator falls apart in one way, if its first part lacks the separator.
pub split_unique :
    (c : ℕ) (s t x y : Text)
    → contains_byte c s ≡ false
    → contains_byte c t ≡ false
    → s ++ c ∷ x ≡ t ++ c ∷ y
    → (s ≡ t) × (x ≡ y)
unfolding contains_byte
split_unique c [] [] x y hs ht e = (refl, cc)
split_unique c [] (b ∷ t) x y hs ht e = ground arith
split_unique c (a ∷ s) [] x y hs ht e = ground arith
split_unique c (a ∷ s) (b ∷ t) x y hs ht e =
    let h : s ++ c ∷ x ≡ t ++ c ∷ y = cc e in
    let (front, back) = split_unique c s t x y (ground arith) (ground arith) h in
    (cc (e, front), back)

pub append_cancel : (s x y : Text) → s ++ x ≡ s ++ y → x ≡ y
append_cancel [] x y e = e
append_cancel (a ∷ s) x y e = append_cancel s x y (cc e)
