-- ===== src/Command/Limited.antt =====
-- What the limited writer of internal/scanners/command/runner.go keeps.
use mathlib.Core.Path.{ap₂}
use komodor_security_reporte.Prelude.{
  ℕ, zero, suc, ◌≡◌, ◌+◌, ◌-◌, ◌++◌, refl, arith, ap, sym, ◌∙◌, length, take, List, [], ◌∷◌,
  Bool-cases, inl, inr, map, append_assoc, append-nil,
}
use komodor_security_reporte.Prelude.Int.{ℤ, pos, pos_part, leb_ℤ}
use komodor_security_reporte.Prelude.Text.{Text}
use komodor_security_reporte.Command.{LimitedWriter, new_limited_writer, write, write_all}

-- All that is written, in order.
unfoldable pub output : List Text → Text
output [] = []
output (p ∷ ps) = p ++ output ps

take-append : (k : ℕ) (p q : Text) → take k (p ++ q) ≡ take k p ++ take (k - length p) q
take-append zero p q =
    let none_left : 0 ≡ 0 - length p = omega arith in ap (λ n. take n q) none_left
take-append (suc k) [] q =
    let all_left : suc k ≡ suc k - 0 = omega arith in ap (λ n. take n q) all_left
take-append (suc k) (b ∷ p) q =
    let same : k - length p ≡ suc k - suc (length p) = omega arith in
    ap (λ l. b ∷ l) (take-append k p q ∙ ap (λ n. take k p ++ take n q) same)

length-take_min : (k : ℕ) (p : Text) → k - length p ≡ k - length (take k p)
length-take_min zero p = omega arith
length-take_min (suc k) [] = refl
length-take_min (suc k) (b ∷ p) = omega (arith, length-take_min k p)

take_nil : (k : ℕ) → take {A = ℕ} k [] ≡ []
take_nil zero = refl
take_nil (suc k) = refl

write-length : (p : Text) (w : LimitedWriter) → (write p w).0 ≡ length p
unfolding write
write-length p w = elim (Bool-cases (leb_ℤ w.limit (pos w.seen))) [
  | inl full ↦ rw full
  | inr free ↦ rw free
]

write_all_from :
    (ps : List Text) (w : LimitedWriter)
    → (write_all ps w).1.writer ≡ w.writer ++ take (pos_part w.limit - w.seen) (output ps)
unfolding write_all output write
write_all_from [] w = sym (ap (λ l. w.writer ++ l) (take_nil _) ∙ append-nil w.writer)
write_all_from (p ∷ ps) w =
    let room = pos_part w.limit - w.seen in
    let kept = take room p in
    elim (Bool-cases (leb_ℤ w.limit (pos w.seen))) [
      | inl full ↦
          let none_left : room ≡ 0 = ground arith in
          rw (write, full)
            (write_all_from ps w
              ∙ ap (λ n. w.writer ++ take n (output ps)) none_left
              ∙ sym (ap (λ n. w.writer ++ take n (p ++ output ps)) none_left))
      | inr free ↦
          let left : pos_part w.limit - (w.seen + length kept) ≡ room - length p =
            omega (arith, length-take_min room p) in
          rw (write, free)
            (write_all_from ps (record w { writer = w.writer ++ kept; seen = w.seen + length kept })
              ∙ append_assoc w.writer kept _
              ∙ ap (λ l. w.writer ++ l)
                  (ap (λ n. kept ++ take n (output ps)) left
                    ∙ sym (take-append room p (output ps))))
    ]

write_all_lengths : (ps : List Text) (w : LimitedWriter) → (write_all ps w).0 ≡ map length ps
unfolding write_all write
write_all_lengths [] w = refl
write_all_lengths (p ∷ ps) w =
    ap₂ (λ n ns. n ∷ ns) (write-length p w) (write_all_lengths ps (write p w).1)

-- However the output comes in pieces, a new writer keeps its first `limit` bytes, none for a
-- negative limit, and reports every piece as written in full.
pub write_all_lem :
    (ps : List Text) (limit : ℤ)
    → ((write_all ps (new_limited_writer limit)).1.writer ≡ take (pos_part limit) (output ps))
      × ((write_all ps (new_limited_writer limit)).0 ≡ map length ps)
write_all_lem ps limit =
    let all : pos_part limit - 0 ≡ pos_part limit = omega arith in
    (
      write_all_from ps (new_limited_writer limit) ∙ ap (λ n. take n (output ps)) all,
      write_all_lengths ps (new_limited_writer limit),
    )
