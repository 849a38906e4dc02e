-- ===== src/State/Redis/Clear.antt =====
-- Clear of internal/state/backends/redis/store.go.
use komodor_security_reporte.Prelude.{
  ◌≡◌, ◌≢◌, ◌⊎◌, inl, inr, refl, Bool, true, false, Bool-cases, if◌then◌else◌, ◌==◌, ℕ, zero, suc,
  ◌<◌, ◌≤◌, arith, List, [], ◌∷◌, ◌++◌, append_assoc, ◌||◌,
}
use komodor_security_reporte.Prelude.Text.{Text, codes, is_among}
use komodor_security_reporte.State.Redis.{
  Commands, Scanned, scan_error, page, cleared, out_of_fuel, delete_page, clear_from, clear,
  Cleared, scan_failed, delete_failed, redis_key,
}

Scanned-cases :
    (r : Scanned) → (r ≡ scan_error) ⊎ ((keys : List Text) × (next : ℕ) × (r ≡ page keys next))
Scanned-cases scan_error = inl refl
Scanned-cases (page keys next) = inr (keys, next, refl)

Cleared-cases :
    (c : Cleared) → (c ≡ scan_failed) ⊎ ((c ≡ delete_failed) ⊎ ((c ≡ cleared) ⊎ (c ≡ out_of_fuel)))
Cleared-cases scan_failed = inl refl
Cleared-cases delete_failed = inr (inl refl)
Cleared-cases cleared = inr (inr (inl refl))
Cleared-cases out_of_fuel = inr (inr (inr refl))

-- No byte of the text has a meaning in a pattern: * ? [ and \\.
unfoldable pub is_plain : Text → Bool
is_plain [] = true
is_plain (c ∷ s) =
    if c == b'*' || (c == b'?' || (c == b'[' || c == b'\\')) then false else is_plain s

-- What the documentation of Redis says of a pattern that is a plain text before a star: it matches
-- the texts that begin with it.
pub record MatchesStar (matches : Text → Text → Bool) : Type 0 where
  pub star :
      (plain rest : Text)
      → is_plain plain ≡ true
      → matches (plain ++ codes "*") (plain ++ rest) ≡ true

is_plain-append : (s t : Text) → is_plain s ≡ true → is_plain t ≡ true → is_plain (s ++ t) ≡ true
unfolding is_plain
is_plain-append [] t = λ h g. g
is_plain-append (c ∷ s) t =
    elim (Bool-cases (c == b'*' || (c == b'?' || (c == b'[' || c == b'\\')))) [
      | inl e ↦ rw (e, is_plain) (λ h g. absurd (cc h))
      | inr e ↦ rw (e, is_plain) (is_plain-append s t)
    ]

-- The pattern of Clear matches each key of the store.
matches_own_keys :
    (matches : Text → Text → Bool) (encode : Text → Text) (key_prefix key : Text)
    → MatchesStar matches
    → is_plain key_prefix ≡ true
    → matches (key_prefix ++ codes ":state:*") (redis_key encode key_prefix key) ≡ true
unfolding redis_key is_plain
matches_own_keys matches encode key_prefix key law plain =
    let before = key_prefix ++ codes ":state:" in
    let pattern : before ++ codes "*" ≡ key_prefix ++ codes ":state:*" =
      append_assoc key_prefix (codes ":state:") (codes "*") in
    let whole : before ++ encode key ≡ redis_key encode key_prefix key =
      append_assoc key_prefix (codes ":state:") (encode key) in
    rw (← pattern) (
      rw (← whole)
        (law.star before (encode key) (is_plain-append key_prefix (codes ":state:") plain refl)))

-- SCAN's cursors come to an end: `rank` counts down to it.
pub record Ends {S : Type 0} (commands : Commands S) (rank : ℕ → ℕ) : Type 0 where
  pub next_rank :
      (s : S) (cursor : ℕ) (pattern : Text) (keys : List Text) (next : ℕ)
      → (commands.scan s cursor pattern).0 ≡ page keys next
      → (next ≡ 0) ⊎ (rank next < rank cursor)

-- SCAN's guarantee for the keys `held` that stay: a full iteration returns each that matches. A
-- key has its place, and a page has the keys of the places between its two cursors.
pub record Covers {S : Type 0} (commands : Commands S) (rank : ℕ → ℕ) (held : S → Text → Bool)
    (matches : Text → Text → Bool) (place : Text → ℕ) : Type 0 where
  pub on_page :
      (s : S) (cursor : ℕ) (pattern key : Text) (keys : List Text) (next : ℕ)
      → (commands.scan s cursor pattern).0 ≡ page keys next
      → held s key ≡ true
      → matches pattern key ≡ true
      → place key ≤ rank cursor
      → (is_among key keys ≡ true) ⊎ ((next ≢ 0) × (place key ≤ rank next))
  pub first_place : (key : Text) → place key ≤ rank 0
  pub scanning :
      (s : S) (cursor : ℕ) (pattern key : Text)
      → held (commands.scan s cursor pattern).1 key ≡ held s key
  pub deleting :
      (s : S) (keys : List Text) (key : Text)
      → (commands.delete_all s keys).0 ≡ true
      → held (commands.delete_all s keys).1 key ≡ (if is_among key keys then false else held s key)

module _ {S : Type 0} (commands : Commands S) (rank : ℕ → ℕ) where
  clear_from_end :
      Ends commands rank
      → (fuel : ℕ) (pattern : Text) (s : S) (cursor : ℕ) → rank cursor < fuel
      → (clear_from commands fuel pattern s cursor).0 ≢ out_of_fuel
  unfolding clear_from
  clear_from_end ends zero pattern s cursor h = absurd (omega arith)
  clear_from_end ends (suc fuel) pattern s cursor h =
      elim (Scanned-cases (commands.scan s cursor pattern).0) [
        | inl e ↦ rw (e, clear_from) (λ h. cc)
        | inr (keys, next, e) ↦
            elim (Bool-cases (delete_page commands keys (commands.scan s cursor pattern).1).0) [
              | inl ok ↦ elim (Bool-cases (next == 0)) [
                | inl z ↦ rw (e, clear_from) (rw ok (rw z (λ h. cc)))
                | inr z ↦
                    rw (e, clear_from)
                      (rw ok (
                        rw z (
                          clear_from_end ends fuel pattern _ next
                            (ground (arith, ends.next_rank s cursor pattern keys next e)))))
              ]
              | inr failed ↦ rw (e, clear_from) (rw failed (λ h. cc))
            ]
      ]

  module _ (held : S → Text → Bool) (matches : Text → Text → Bool) (place : Text → ℕ)
      (covers : Covers commands rank held matches place) where
    delete_page_lem :
        (keys : List Text) (s : S) (key : Text)
        → (delete_page commands keys s).0 ≡ true
        → held (delete_page commands keys s).1 key
          ≡ (if is_among key keys then false else held s key)
    unfolding delete_page
    delete_page_lem [] s key h = refl
    delete_page_lem (k ∷ ks) s key h = covers.deleting s (k ∷ ks) key h

    -- A matching key that a page leaves is on a later one.
    page_leaves :
        (pattern : Text) (s : S) (cursor : ℕ) (key : Text) (keys : List Text) (next : ℕ)
        → matches pattern key ≡ true
        → (commands.scan s cursor pattern).0 ≡ page keys next
        → (delete_page commands keys (commands.scan s cursor pattern).1).0 ≡ true
        → (held s key ≡ false) ⊎ (place key ≤ rank cursor)
        → (held (delete_page commands keys (commands.scan s cursor pattern).1).1 key ≡ false)
          ⊎ ((next ≢ 0) × (place key ≤ rank next))
    page_leaves pattern s cursor key keys next m e ok h = ground (
      arith,
      delete_page_lem keys (commands.scan s cursor pattern).1 key ok,
      covers.scanning s cursor pattern key,
      covers.on_page s cursor pattern key keys next e,
    )

    clear_from_empty :
        (fuel : ℕ) (pattern : Text) (s : S) (cursor : ℕ) (key : Text)
        → matches pattern key ≡ true
        → (held s key ≡ false) ⊎ (place key ≤ rank cursor)
        → (clear_from commands fuel pattern s cursor).0 ≡ cleared
        → held (clear_from commands fuel pattern s cursor).1 key ≡ false
    unfolding clear_from
    clear_from_empty zero pattern s cursor key m h = λ e. cc
    clear_from_empty (suc fuel) pattern s cursor key m h =
        elim (Scanned-cases (commands.scan s cursor pattern).0) [
          | inl e ↦ rw (e, clear_from) (λ h. cc)
          | inr (keys, next, e) ↦
              elim (Bool-cases (delete_page commands keys (commands.scan s cursor pattern).1).0) [
                | inl ok ↦
                    let left = page_leaves pattern s cursor key keys next m e ok h in
                    elim (Bool-cases (next == 0)) [
                      | inl z ↦ rw (e, clear_from) (rw ok (rw z (λ h. ground (arith, left))))
                      | inr z ↦
                          rw (e, clear_from)
                            (rw ok (
                              rw z (
                                clear_from_empty fuel pattern _ next key m (ground (arith, left)))))
                    ]
                | inr failed ↦ rw (e, clear_from) (rw failed (λ h. cc))
              ]
        ]

    -- Clear ends, in at most one more call of SCAN than the rank of its first cursor: either it fails
    -- with the error of a call, or it succeeds and each key of the store is gone, provided that the
    -- prefix has no character with a meaning in a pattern. The cursors of SCAN come to an end, an
    -- iteration returns all the keys that it must, and no other client writes.
    pub clear-outcome :
        Ends commands rank
        → MatchesStar matches
        → (fuel : ℕ) (encode : Text → Text) (key_prefix : Text) (s : S) → rank 0 < fuel
        → is_plain key_prefix ≡ true
        → let outcome = clear commands fuel key_prefix s in
          ((outcome.0 ≡ scan_failed) ⊎ (outcome.0 ≡ delete_failed))
          ⊎ ((outcome.0 ≡ cleared)
              × ((key : Text) → held outcome.1 (redis_key encode key_prefix key) ≡ false))
    unfolding clear
    clear-outcome ends law fuel encode key_prefix s h plain =
        let pattern = key_prefix ++ codes ":state:*" in
        elim (Cleared-cases (clear_from commands fuel pattern s 0).0) [
          | inl e ↦ inl (inl e)
          | inr (inl e) ↦ inl (inr e)
          | inr (inr (inl e)) ↦ inr (
            e,
            λ key.
                clear_from_empty fuel pattern s 0 (redis_key encode key_prefix key)
                  (matches_own_keys matches encode key_prefix key law plain)
                  (inr (covers.first_place (redis_key encode key_prefix key))) e,
          )
          | inr (inr (inr e)) ↦ absurd (clear_from_end ends fuel pattern s 0 h e)
        ]
