-- ===== src/State/Store.antt =====
-- What the packages internal/state/backends/{configmap,redis,memcache} share: each has a store of
-- the cache library, a parameter here, and the same wrapper of that cache as a state backend.
use komodor_security_reporte.Prelude.{
  ◌≡◌, Bool, true, false, if◌then◌else◌, refl, Option, none, some, ◌∙◌, sym,
}
use komodor_security_reporte.Prelude.Text.{Text, text_eq}
use komodor_security_reporte.Prelude.Int.{ℤ, pos, ltb_ℤ}
use komodor_security_reporte.State.Entry.{Entry}
use komodor_security_reporte.State.Backend.{Backend, Loaded, load_failed, absent, found, IsReliable}

-- What Get of a store returns: an error, NotFound, or an entry.
pub data Answer : Type 0 where
  failed not_found : Answer
  value : Entry → Answer

-- A store keeps its entries in a state of type `S`. Its `set` takes the expiration option too, and
-- `set` and `delete` return whether they succeed.
pub record Store (S : Type 0) : Type 0 where
  pub get : S → Text → Answer × S
  pub set : S → Text → Entry → ℤ → Bool × S
  pub delete : S → Text → Bool × S

-- IsCacheNotFound, on the errors of a cache
unfoldable pub is_cache_not_found : Answer → Bool
is_cache_not_found not_found = true
is_cache_not_found _ = false

-- What GetEntry returns for what its cache answers.
unfoldable pub loaded_of : Answer → Loaded
unfolding is_cache_not_found
loaded_of (value e) = found e
loaded_of answer = if is_cache_not_found answer then absent else load_failed

-- The expiration that SetEntry asks for, zero without the option.
abbrev pub expiration_option : ℤ → ℤ
expiration_option ttl = if ltb_ℤ (pos 0) ttl then ttl else pos 0

-- The Backend of each package, over the cache that `new_cache` makes of the store.
unfoldable pub new_backend : {S : Type 0} → (Store S → Store S) → Store S → ℤ → Backend S
unfolding loaded_of
new_backend new_cache store ttl =
    let cache = new_cache store in
    record {
      get_entry = λ s key. let answer = cache.get s key in (loaded_of answer.0, answer.1);
      set_entry = λ s key e. cache.set s key e (expiration_option ttl);
      delete_entry = λ s key. cache.delete s key;
    }

-- A cache of the library hands each call with a text as its key on to its store.
pub record PassesOn {S : Type 0} (new_cache : Store S → Store S) : Type 0 where
  pub get_on : (store : Store S) (s : S) (k : Text) → (new_cache store).get s k ≡ store.get s k
  pub set_on :
      (store : Store S) (s : S) (k : Text) (e : Entry) (expiration : ℤ)
      → (new_cache store).set s k e expiration ≡ store.set s k e expiration
  pub delete_on :
      (store : Store S) (s : S) (k : Text) → (new_cache store).delete s k ≡ store.delete s k

-- A store that answers with what was set last, as `stored` reads it back.
pub record Keeps {S : Type 0} (store : Store S) (expiration : ℤ) (stored : Entry → Answer)
    : Type 0 where
  pub after_set :
      (s : S) (k j : Text) (e : Entry)
      → (store.get (store.set s k e expiration).1 j).0
        ≡ (if text_eq k j then stored e else (store.get s j).0)
  pub after_delete :
      (s : S) (k j : Text)
      → (store.get (store.delete s k).1 j).0
        ≡ (if text_eq k j then not_found else (store.get s j).0)
  pub after_get : (s : S) (k j : Text) → (store.get (store.get s k).1 j).0 ≡ (store.get s j).0

answer-if :
    (answer : Option Text → Answer) (b : Bool) (x y : Option Text)
    → answer (if b then x else y) ≡ (if b then answer x else answer y)
answer-if answer true x y = refl
answer-if answer false x y = refl

-- A store that keeps a text under each key, which it reads by `answer`, keeps its entries.
pub texts-Keeps :
    {S : Type 0} (store : Store S) (expiration : ℤ) (write : Entry → Text)
    (answer : Option Text → Answer) (text_at : S → Text → Option Text)
    → answer none ≡ not_found
    → ((k : Text) (s : S) → (store.get s k).0 ≡ answer (text_at s k))
    → ((k j : Text) (e : Entry) (s : S)
        → text_at (store.set s k e expiration).1 j
          ≡ (if text_eq k j then some (write e) else text_at s j))
    → ((k j : Text) (s : S)
        → text_at (store.delete s k).1 j ≡ (if text_eq k j then none else text_at s j))
    → ((k j : Text) (s : S) → answer (text_at (store.get s k).1 j) ≡ answer (text_at s j))
    → Keeps store expiration (λ e. answer (some (write e)))
texts-Keeps store expiration write answer text_at empty get_lem set_lem delete_lem again = record {
  after_set = λ s k j e.
      rw (get_lem j s)
        (get_lem j _ ∙ rw (set_lem k j e s) (answer-if answer (text_eq k j) (some (write e)) _));
  after_delete = λ s k j.
      rw (get_lem j s, sym empty)
        (get_lem j _ ∙ rw (delete_lem k j s) (answer-if answer (text_eq k j) none _));
  after_get = λ s k j. rw (get_lem j s) (get_lem j _ ∙ again k j s);
}

loaded_of-if :
    (b : Bool) (x y : Answer)
    → loaded_of (if b then x else y) ≡ (if b then loaded_of x else loaded_of y)
loaded_of-if true x y = refl
loaded_of-if false x y = refl

-- The wrapper of such a store is a reliable backend.
pub new_backend-IsReliable :
    {S : Type 0} (new_cache : Store S → Store S) (passes : PassesOn new_cache) (store : Store S)
    (ttl : ℤ) (stored : Entry → Answer)
    → Keeps store (expiration_option ttl) stored
    → IsReliable (new_backend new_cache store ttl) (λ e. loaded_of (stored e))
unfolding new_backend loaded_of
new_backend-IsReliable new_cache passes store ttl stored keeps = record {
  get_set = λ s k j e.
      rw
        (
          passes.set_on store s k e (expiration_option ttl),
          passes.get_on store (store.set s k e (expiration_option ttl)).1 j,
          passes.get_on store s j,
          keeps.after_set s k j e,
        )
        (loaded_of-if (text_eq k j) (stored e) (store.get s j).0);
  get_delete = λ s k j.
      rw
        (
          passes.delete_on store s k,
          passes.get_on store (store.delete s k).1 j,
          passes.get_on store s j,
          keeps.after_delete s k j,
        )
        (loaded_of-if (text_eq k j) not_found (store.get s j).0);
  get_get = λ s k j. rw (
    passes.get_on store s k,
    passes.get_on store (store.get s k).1 j,
    passes.get_on store s j,
    keeps.after_get s k j,
  );
}
