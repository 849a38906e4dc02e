-- ===== src/State/Remote.antt =====
-- What the clients of Redis and of Memcache offer to internal/state/backends/{redis,memcache}, and
-- what those stores then keep.
use komodor_security_reporte.Prelude.{◌≡◌, Bool, Option, none, some, if◌then◌else◌, false, true}
use komodor_security_reporte.Prelude.Text.{Text, text_eq}
use komodor_security_reporte.Prelude.Int.{ℤ}
use komodor_security_reporte.State.Entry.{Entry}
use komodor_security_reporte.State.Store.{Answer, failed, not_found, value}

-- `nothing` is redis.Nil, and the ErrCacheMiss of Memcache.
pub data Reply : Type 0 where
  client_error nothing : Reply
  text : Text → Reply

pub data Deletion : Type 0 where
  deleted no_such_key delete_error : Deletion

-- Deleting succeeds on a key that is not there too.
abbrev pub is_deleted : Deletion → Bool
is_deleted delete_error = false
is_deleted _ = true

-- The calls of a client; `set` takes an expiry.
pub record Client (S : Type 0) : Type 0 where
  pub get : S → Text → Reply × S
  pub set : S → Text → Text → ℤ → Bool × S
  pub delete : S → Text → Deletion × S

abbrev pub reply_of : Option Text → Reply
reply_of none = nothing
reply_of (some t) = text t

-- A server that holds a text under each key: its calls succeed, nothing expires, and there is no
-- other client.
pub record IsQuiet {S : Type 0} (client : Client S) (held : S → Text → Option Text) : Type 0 where
  pub getting : (s : S) (k : Text) → client.get s k ≡ (reply_of (held s k), s)
  pub setting :
      (s : S) (k j t : Text) (expiry : ℤ)
      → held (client.set s k t expiry).1 j ≡ (if text_eq k j then some t else held s j)
  pub deleting :
      (s : S) (k j : Text) → held (client.delete s k).1 j ≡ (if text_eq k j then none else held s j)

-- What a store of this kind answers for what its server holds.
unfoldable pub answer_of : (Text → Option Entry) → Option Text → Answer
answer_of read none = not_found
answer_of read (some t) = elim (read t) [ none ↦ failed | some e ↦ value e ]
