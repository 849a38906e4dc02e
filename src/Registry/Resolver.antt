-- ===== src/Registry/Resolver.antt =====
-- internal/registry/resolver.go. The registry client `crane.Digest` is the parameter `lookup`.
use komodor_security_reporte.Prelude.{Option, none, some, ◌∷◌, ◌++◌, not, if◌then◌else◌}
use komodor_security_reporte.Prelude.Text.{Text, is_empty}
use komodor_security_reporte.Registry.ImageRef.{ImageRef, slash, at_sign}

-- What `Resolve` returns: the reference, and whether the lookup failed.
pub data Resolution : Type 0 where
  resolved_ok : ImageRef → Resolution
  resolve_failed : ImageRef → Resolution

-- `crane.Digest`: `none` is an error.
abbrev pub DigestLookup : Type 0
DigestLookup = Text → Option Text

unfoldable pub resolve : DigestLookup → ImageRef → Resolution
resolve lookup ref =
    if not (is_empty ref.digest) then resolved_ok ref else elim (lookup ref.resolved) [
      | none ↦ resolve_failed ref
      | some digest ↦ resolved_ok (record ref {
        digest = digest;
        resolved = ref.registry ++ slash ∷ (ref.repository ++ at_sign ∷ digest);
      })
    ]
