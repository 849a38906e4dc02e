-- ===== src/State/Backend.antt =====
-- The storage contract of internal/state/backend.go, over a type `S` of stored states.
use komodor_security_reporte.Prelude.Text.{Text, text_eq}
use komodor_security_reporte.Prelude.{◌≡◌, Bool, if◌then◌else◌, ◌⊎◌, inl, inr, refl}
use komodor_security_reporte.State.Entry.{Entry}

-- What GetEntry returns: an error, no entry, or an entry.
pub data Loaded : Type 0 where
  load_failed absent : Loaded
  found : Entry → Loaded

pub Loaded-cases : (l : Loaded) → (l ≡ load_failed) ⊎ ((l ≡ absent) ⊎ ((e : Entry) × (l ≡ found e)))
Loaded-cases load_failed = inl refl
Loaded-cases absent = inr (inl refl)
Loaded-cases (found e) = inr (inr (e, refl))

-- SetEntry and DeleteEntry return whether they succeed, and each operation the state it leaves: a
-- backend may remove an expired entry that it is asked for.
pub record Backend (S : Type 0) : Type 0 where
  pub get_entry : S → Text → Loaded × S
  pub set_entry : S → Text → Entry → Bool × S
  pub delete_entry : S → Text → Bool × S

-- What GetEntry returns, without the state.
abbrev pub load : {S : Type 0} → Backend S → S → Text → Loaded
load backend s k = (backend.get_entry s k).0

-- A backend that does what it is asked: what is read is what was written last, as `stored` keeps
-- it, which may round its times or find it expired, and reading changes nothing that is read.
pub record IsReliable {S : Type 0} (backend : Backend S) (stored : Entry → Loaded) : Type 0 where
  pub get_set :
      (s : S) (k j : Text) (e : Entry)
      → load backend (backend.set_entry s k e).1 j
        ≡ (if text_eq k j then stored e else load backend s j)
  pub get_delete :
      (s : S) (k j : Text)
      → load backend (backend.delete_entry s k).1 j
        ≡ (if text_eq k j then absent else load backend s j)
  pub get_get : (s : S) (k j : Text) → load backend (backend.get_entry s k).1 j ≡ load backend s j

-- The entry is still there when it is read, with its fingerprint.
abbrev pub IsKept : (Entry → Loaded) → Entry → Type 0
IsKept stored e = (kept : Entry) × (stored e ≡ found kept) × (kept.fingerprint ≡ e.fingerprint)
