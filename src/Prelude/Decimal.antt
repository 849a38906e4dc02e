-- ===== src/Prelude/Decimal.antt =====
-- The verb %d of package `fmt`, on the numbers that are not negative.
use komodor_security_reporte.Prelude.Tests.{ltb, if◌then◌else◌, Bool-cases}
use komodor_security_reporte.Prelude.Text.{Text, contains_byte, contains_byte-append}
use Prim.Native.Nat.{ℕ, suc, ◌<◌, ◌/◌, ◌*◌, ◌+◌, ◌%◌, ◌-◌, zero}
use mathlib.Core.List.{[], ◌∷◌, ◌++◌}
use mathlib.Core.Path.{◌≡◌, sym, ◌∙◌, ap, refl}
use native.Mathlib.Omega.{arith}
use mathlib.Core.Logic.{inl, inr, ◌⊎◌}
use mathlib.Core.Bool.{false}

-- Each unit of fuel writes a digit; a number has fewer digits than it has units, and one more.
unfoldable pub decimal_from : ℕ → ℕ → Text
decimal_from zero n = []
decimal_from (suc fuel) n =
    let rest = decimal_from fuel (n / 10) in
    if ltb n 10 then (b'0' + n) ∷ [] else rest ++ (b'0' + n % 10) ∷ []

unfoldable pub decimal : ℕ → Text
unfolding decimal_from
decimal n = decimal_from (suc n) n

-- The number that digits stand for.
read_digits : ℕ → Text → ℕ
read_digits acc [] = acc
read_digits acc (c ∷ s) = read_digits (acc * 10 + (c - b'0')) s

read_digits-snoc :
    (acc : ℕ) (s : Text) (c : ℕ)
    → read_digits acc (s ++ c ∷ []) ≡ read_digits acc s * 10 + (c - b'0')
unfolding read_digits
read_digits-snoc acc [] c = refl
read_digits-snoc acc (d ∷ s) c = read_digits-snoc (acc * 10 + (d - b'0')) s c

read-decimal_from : (fuel n : ℕ) → n < fuel → read_digits 0 (decimal_from fuel n) ≡ n
unfolding decimal_from
read-decimal_from zero n h = absurd (omega arith)
read-decimal_from (suc fuel) n h = elim (Bool-cases (ltb n 10)) [
  | inl e ↦ rw e (unfold read_digits in ground arith)
  | inr e ↦
      rw e (
        rw (read_digits-snoc 0) (rw (read-decimal_from fuel (n / 10) (ground arith)) (omega arith)))
]

-- Printed numbers differ where the numbers do.
pub decimal_injective : (m n : ℕ) → decimal m ≡ decimal n → m ≡ n
unfolding decimal
decimal_injective m n h =
    sym (read-decimal_from (suc m) m (omega arith))
    ∙ (ap (read_digits 0) h ∙ read-decimal_from (suc n) n (omega arith))

contains_byte-decimal_from :
    (c fuel n : ℕ) → (c < b'0') ⊎ (b'9' < c) → contains_byte c (decimal_from fuel n) ≡ false
unfolding decimal_from
contains_byte-decimal_from c zero n h = unfold contains_byte in refl
contains_byte-decimal_from c (suc fuel) n h = elim (Bool-cases (ltb n 10)) [
  | inl e ↦ rw e (unfold contains_byte in ground arith)
  | inr e ↦ rw e (
      rw (contains_byte-append c)
        (rw (contains_byte-decimal_from c fuel (n / 10) h) (unfold contains_byte in ground arith)))
]

-- A printed number holds no byte below the digits.
pub contains_byte-decimal :
    (c n : ℕ) → (c < b'0') ⊎ (b'9' < c) → contains_byte c (decimal n) ≡ false
unfolding decimal
contains_byte-decimal c n h = contains_byte-decimal_from c (suc n) n h
