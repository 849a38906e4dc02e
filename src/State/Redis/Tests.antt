-- ===== src/State/Redis/Tests.antt =====
-- A server whose state is a map, and one whose state is the list of its keys.
use komodor_security_reporte.Prelude.{
  ◌≡◌, refl, ap, ◌∙◌, arith, ℕ, Option, none, some, Bool, true, false, Bool-cases, inl, inr,
  if◌then◌else◌, List, [], ◌∷◌, sym, ◌⊎◌, ◌++◌,
}
use komodor_security_reporte.Prelude.Text.{Text, codes, text_eq_iff, is_among, has_prefix}
use komodor_security_reporte.Prelude.Int.{pos}
use komodor_security_reporte.Prelude.Dict.{Dict, lookup, put, remove, lookup-put, lookup-remove}
use komodor_security_reporte.State.Entry.{Entry}
use komodor_security_reporte.State.Entry.Codec.{zero_entry}
use komodor_security_reporte.State.Backend.{IsReliable}
use komodor_security_reporte.State.Store.{Store, PassesOn, new_backend, loaded_of}
use komodor_security_reporte.State.Remote.{Client, IsQuiet, reply_of, answer_of, deleted}
use komodor_security_reporte.State.Redis.{
  Commands, Scanned, scan_error, page, clear, cleared, scan_failed, delete_failed, new_store,
  redis_key,
}
use komodor_security_reporte.State.Redis.Kept.{redis-IsReliable}
use komodor_security_reporte.State.Redis.Clear.{Ends, Covers, MatchesStar, is_plain, clear-outcome}

abbrev client : Client (Dict Text)
client = record {
  get = λ s k. (reply_of (lookup k s), s);
  set = λ s k t expiry. (true, put k t s);
  delete = λ s k. (deleted, remove k s);
}

client-IsQuiet : IsQuiet client (λ s k. lookup k s)
client-IsQuiet = record {
  getting = λ s k. refl;
  setting = λ s k j t expiry. lookup-put k j t s;
  deleting = λ s k j. lookup-remove k j s;
}

abbrev identity : Text → Text
identity text = text

abbrev same_store : Store (Dict Text) → Store (Dict Text)
same_store store = store

same_store-PassesOn : PassesOn same_store
same_store-PassesOn = record {
  get_on = λ store s k. refl;
  set_on = λ store s k e expiration. refl;
  delete_on = λ store s k. refl;
}

abbrev read_entry : Text → Option Entry
read_entry text = some (record zero_entry { fingerprint = text })

abbrev write_entry : Entry → Text
write_entry e = e.fingerprint

redis-IsReliable_example :
    IsReliable
      (new_backend same_store
        (new_store client identity (codes "reporter") read_entry write_entry (pos 60))
        (pos 60))
      (λ e. loaded_of (answer_of read_entry (some (write_entry e))))
redis-IsReliable_example =
    redis-IsReliable client (λ s k. lookup k s) client-IsQuiet identity (λ k j e. e)
      (codes "reporter") read_entry write_entry same_store same_store-PassesOn (pos 60)

-- The keys that are not among the others.
abbrev others : List Text → List Text → List Text
others keys [] = []
others keys (k ∷ ks) = if is_among k keys then others keys ks else k ∷ others keys ks

is_among-others :
    (keys s : List Text) (key : Text)
    → is_among key (others keys s) ≡ (if is_among key keys then false else is_among key s)
is_among-others keys [] key = ground arith
is_among-others keys (k ∷ ks) key = elim (Bool-cases (is_among k keys)) [
  | inl e ↦ rw e (ground (arith, is_among-others keys ks key, text_eq_iff k key))
  | inr e ↦ rw e (ground (arith, is_among-others keys ks key, text_eq_iff k key))
]

-- All keys come on one page.
abbrev commands : Commands (List Text)
commands = record {
  ttl_of = λ s k. (none, s);
  scan = λ s cursor pattern. (page s 0, s);
  delete_all = λ s keys. (true, others keys s);
}

abbrev no_rank : ℕ → ℕ
no_rank cursor = 0

abbrev keys_of : Scanned → List Text
keys_of scan_error = []
keys_of (page keys next) = keys

abbrev next_of : Scanned → ℕ
next_of scan_error = 0
next_of (page keys next) = next

commands-Ends : Ends commands no_rank
commands-Ends = record { next_rank = λ s cursor pattern keys next e. inl (sym (ap next_of e)) }

-- Each key has the place 0.
commands-Covers :
    (matches : Text → Text → Bool)
    → Covers commands no_rank (λ s key. is_among key s) matches (λ key. 0)
commands-Covers matches = record {
  on_page = λ s cursor pattern key keys next e held m below.
      inl (ap (is_among key) (sym (ap keys_of e)) ∙ held);
  first_place = λ key. omega arith;
  scanning = λ s cursor pattern key. refl;
  deleting = λ s keys key h. is_among-others keys s key;
}

abbrev without_last : Text → Text
without_last [] = []
without_last (c ∷ []) = []
without_last (c ∷ d ∷ s) = c ∷ without_last (d ∷ s)

without_last-append : (s : Text) (c : ℕ) → without_last (s ++ c ∷ []) ≡ s
without_last-append [] c = refl
without_last-append (a ∷ []) c = refl
without_last-append (a ∷ b ∷ s) c = ap (λ t. a ∷ t) (without_last-append (b ∷ s) c)

-- The match of a pattern that is a text before a star
abbrev matches_star : Text → Text → Bool
matches_star pattern key = has_prefix (without_last pattern) key

has_prefix-append : (s t : Text) → has_prefix s (s ++ t) ≡ true
unfolding has_prefix
has_prefix-append [] t = refl
has_prefix-append (c ∷ s) t = ground (arith, has_prefix-append s t)

matches_star-MatchesStar : MatchesStar matches_star
matches_star-MatchesStar = record {
  star = λ plain rest h.
      ap (λ p. has_prefix p (plain ++ rest)) (without_last-append plain b'*')
      ∙ has_prefix-append plain rest;
}

clear-outcome_example :
    let outcome = clear commands 1 (codes "reporter") (codes "reporter:state:k" ∷ codes "x" ∷ []) in
    ((outcome.0 ≡ scan_failed) ⊎ (outcome.0 ≡ delete_failed))
    ⊎ ((outcome.0 ≡ cleared)
        × ((key : Text) → is_among (redis_key (λ k. k) (codes "reporter") key) outcome.1 ≡ false))
unfolding is_plain
clear-outcome_example =
    clear-outcome commands no_rank (λ s key. is_among key s) matches_star (λ key. 0)
      (commands-Covers matches_star) commands-Ends matches_star-MatchesStar 1 (λ k. k)
      (codes "reporter") (codes "reporter:state:k" ∷ codes "x" ∷ []) (omega arith) refl
