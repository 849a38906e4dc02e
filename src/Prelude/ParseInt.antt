-- ===== src/Prelude/ParseInt.antt =====
-- strconv.ParseInt of base 10 and 64 bits, and json's decoding of an integer.
use Prim.Native.Nat.{ℕ, zero, suc, ◌+◌, ◌-◌, ◌*◌, ◌/◌, ◌%◌, ◌<◌, ◌^◌}
use mathlib.Core.Path.{◌≡◌, refl, ap, ◌∙◌}
use mathlib.Core.Bool.{false, ◌&&◌}
use mathlib.Core.Option.{Option, none, some}
use mathlib.Core.List.{[], ◌∷◌, ◌++◌}
use mathlib.Core.Logic.{inl, inr}
use native.Mathlib.Omega.{arith}
use komodor_security_reporte.Prelude.Tests.{ltb, leb, if◌then◌else◌, Bool-cases, ◌==◌}
use komodor_security_reporte.Prelude.Text.{Text, contains_byte, is_empty}
use komodor_security_reporte.Prelude.Int.{ℤ, pos, negsuc}
use komodor_security_reporte.Prelude.Decimal.{decimal, decimal_from, contains_byte-decimal}

-- The number of these digits, after those of `acc`.
unfoldable parse_digits : ℕ → Text → Option ℕ
parse_digits acc [] = some acc
parse_digits acc (c ∷ s) =
    let rest = parse_digits (acc * 10 + (c - b'0')) s in
    if leb b'0' c && leb c b'9' then rest else none

unfoldable parse_nat : Text → Option ℕ
unfolding parse_digits
parse_nat [] = none
parse_nat (c ∷ s) = parse_digits 0 (c ∷ s)

abbrev neg : ℕ → ℤ
neg zero = pos 0
neg (suc n) = negsuc n

abbrev as_positive : Option ℕ → Option ℤ
as_positive none = none
as_positive (some n) = if ltb n (2 ^ 63) then some (pos n) else none

abbrev as_negative : Option ℕ → Option ℤ
as_negative none = none
as_negative (some n) = if leb n (2 ^ 63) then some (neg n) else none

unfoldable pub parse_int : Text → Option ℤ
unfolding parse_nat
parse_int [] = none
parse_int (c ∷ s) =
    if c == b'-'
    then as_negative (parse_nat s)
    else if c == b'+'
    then as_positive (parse_nat s)
    else as_positive (parse_nat (c ∷ s))

parse_digits-snoc :
    (acc : ℕ) (s : Text) (d m : ℕ)
    → d < 10
    → parse_digits acc s ≡ some m
    → parse_digits acc (s ++ (b'0' + d) ∷ []) ≡ some (m * 10 + d)
unfolding parse_digits
parse_digits-snoc acc [] d m h e = ground arith
parse_digits-snoc acc (c ∷ s) d m h e =
    ground (arith, parse_digits-snoc (acc * 10 + (c - b'0')) s d m h)

parse_digits-decimal_from : (fuel n : ℕ) → n < fuel → parse_digits 0 (decimal_from fuel n) ≡ some n
unfolding decimal_from
parse_digits-decimal_from zero n h = elim h [ ]
parse_digits-decimal_from (suc fuel) n h = elim (Bool-cases (ltb n 10)) [
  | inl e ↦ rw e (unfold parse_digits in ground arith)
  | inr e ↦ rw e (
      parse_digits-snoc 0 (decimal_from fuel (n / 10)) (n % 10) (n / 10) (omega arith)
        (parse_digits-decimal_from fuel (n / 10) (ground arith))
      ∙ ap some (omega arith))
]

-- A text of digits, without a sign.
parse_int_unsigned :
    (s : Text) {n : ℕ}
    → contains_byte b'-' s ≡ false
    → contains_byte b'+' s ≡ false
    → is_empty s ≡ false
    → parse_digits 0 s ≡ some n
    → n < 2 ^ 63
    → parse_int s ≡ some (pos n)
unfolding parse_int parse_nat contains_byte
parse_int_unsigned [] minus plus some_digit e h = cc
parse_int_unsigned (c ∷ s) minus plus some_digit e h = ground arith

is_empty-snoc : (s : Text) (c : ℕ) → is_empty (s ++ c ∷ []) ≡ false
is_empty-snoc [] c = refl
is_empty-snoc (a ∷ s) c = refl

is_empty-decimal : (n : ℕ) → is_empty (decimal n) ≡ false
unfolding decimal decimal_from
is_empty-decimal n = elim (Bool-cases (ltb n 10)) [
  | inl e ↦ rw e
  | inr e ↦ rw e (is_empty-snoc _ _)
]

-- A printed number of 63 bits is read back.
pub parse_int-decimal : (n : ℕ) → n < 2 ^ 63 → parse_int (decimal n) ≡ some (pos n)
parse_int-decimal n h =
    parse_int_unsigned (decimal n) (contains_byte-decimal b'-' n (inl (omega arith)))
      (contains_byte-decimal b'+' n (inl (omega arith))) (is_empty-decimal n)
      (unfold decimal in parse_digits-decimal_from (suc n) n (omega arith)) h
