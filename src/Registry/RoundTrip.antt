-- ===== src/Registry/RoundTrip.antt =====
-- Laws of Parse and Resolve of internal/registry.
use komodor_security_reporte.Prelude.{
  true, false, some, [], ◌++◌, ◌≡◌, inl, inr, refl, arith, Option-cases, ℕ, ◌∷◌, append_assoc, sym,
}
use komodor_security_reporte.Prelude.Text.{
  Text, index_byte, contains_byte, index_byte-some, index_byte_absent, is_empty, index_byte-append,
  take-index, drop-index, contains_byte_join, contains_byte_later, contains_byte_mid,
}
use komodor_security_reporte.Registry.Resolver.{resolve, DigestLookup, resolved_ok}
use komodor_security_reporte.Registry.ImageRef.{
  ImageRef, parse, at_sign, slash, colon, split_digest, blank, apply_registry_and_repository,
  parse_repository_tag, with_repository, is_registry_host, assign_default_tag_if_needed,
  build_resolved,
}
use komodor_security_reporte.Registry.Canonical.{parse-IsCanonical}

-- A part of a written reference holds no separator of its own kind.
pub record IsHostName (host : Text) : Type 0 where
  pub is_host : is_registry_host host ≡ true
  pub no_slash : contains_byte slash host ≡ false
  pub no_at : contains_byte at_sign host ≡ false

-- The registry and repository of `host/rest`.
apply_host :
    (host rest : Text) (ref : ImageRef)
    → IsHostName host
    → apply_registry_and_repository (host ++ slash ∷ rest) ref ≡ with_repository host [] rest ref
unfolding apply_registry_and_repository
apply_host host rest ref h =
    rw (index_byte-append slash host rest h.no_slash, apply_registry_and_repository)
      (rw (take-index slash host rest, h.is_host) (rw (drop-index slash host rest)))

split_digest_at :
    (part digest : Text) (ref : ImageRef)
    → contains_byte at_sign part ≡ false
    → split_digest (part ++ at_sign ∷ digest) ref ≡ (part, record ref { digest = digest })
unfolding split_digest
split_digest_at part digest ref h =
    rw (index_byte-append at_sign part digest h, split_digest)
      (rw (take-index at_sign part digest, drop-index at_sign part digest))

split_digest_none :
    (image : Text) (ref : ImageRef)
    → contains_byte at_sign image ≡ false
    → split_digest image ref ≡ (image, ref)
unfolding split_digest
split_digest_none image ref h = rw (index_byte_absent at_sign image h, split_digest)

parse_repository_tag_at :
    (repo tag : Text)
    → contains_byte colon repo ≡ false
    → parse_repository_tag (repo ++ colon ∷ tag) ≡ (repo, tag)
unfolding parse_repository_tag
parse_repository_tag_at repo tag h =
    rw (index_byte-append colon repo tag h, parse_repository_tag)
      (rw (take-index colon repo tag, drop-index colon repo tag))

parse_repository_tag_none :
    (repo : Text) → contains_byte colon repo ≡ false → parse_repository_tag repo ≡ (repo, [])
unfolding parse_repository_tag
parse_repository_tag_none repo h = rw (index_byte_absent colon repo h, parse_repository_tag)

-- `host/repo:tag`
abbrev pub tagged : Text → Text → Text → Text
tagged host repo tag = host ++ slash ∷ (repo ++ colon ∷ tag)

-- `host/repo@digest`
abbrev pub pinned : Text → Text → Text → Text
pinned host repo digest = host ++ slash ∷ (repo ++ at_sign ∷ digest)

-- What Parse returns, by the image part and the digest that the text is split into.
parse_by_parts :
    (image part : Text) (r₁ : ImageRef)
    → is_empty image ≡ false
    → split_digest image (blank image) ≡ (part, r₁)
    → parse image
      ≡ some (record (apply_registry_and_repository part r₁) {
        resolved = build_resolved part (apply_registry_and_repository part r₁);
      })
unfolding parse
parse_by_parts image part r₁ e s = rw (e, s)

nonempty_append : (s t : Text) (c : ℕ) → is_empty (s ++ c ∷ t) ≡ false
nonempty_append [] t c = refl
nonempty_append (a ∷ s) t c = refl

-- Parse of `host/repo:tag`.
parse-tagged :
    (host repo tag : Text)
    → IsHostName host
    → contains_byte at_sign repo ≡ false
    → contains_byte colon repo ≡ false
    → is_empty tag ≡ false
    → contains_byte at_sign tag ≡ false
    → parse (tagged host repo tag)
      ≡ some (record {
        original = tagged host repo tag;
        registry = host;
        repository = repo;
        tag = tag;
        digest = [];
        resolved = tagged host repo tag;
      })
unfolding with_repository assign_default_tag_if_needed build_resolved
parse-tagged host repo tag hh ra rc te ta =
    let text = tagged host repo tag in
    let no_at : contains_byte at_sign text ≡ false =
      contains_byte_join at_sign slash host _ hh.no_at refl
        (contains_byte_join at_sign colon repo tag ra refl ta) in
    let has_colon : contains_byte colon text ≡ true =
      contains_byte_later colon host _
        (contains_byte_later colon (slash ∷ []) _ (contains_byte_mid colon repo tag)) in
    rw
      (parse_by_parts text text (blank text) (nonempty_append host _ slash)
        (split_digest_none _ _ no_at))
      (rw (apply_host host (repo ++ colon ∷ tag) (blank text) hh)
        (rw (parse_repository_tag_at repo tag rc, with_repository) (rw te (ground arith))))

-- Parse of `host/repo@digest`.
pub parse-pinned :
    (host repo digest : Text)
    → IsHostName host
    → contains_byte at_sign repo ≡ false
    → contains_byte colon repo ≡ false
    → is_empty digest ≡ false
    → parse (pinned host repo digest)
      ≡ some (record {
        original = pinned host repo digest;
        registry = host;
        repository = repo;
        tag = [];
        digest = digest;
        resolved = pinned host repo digest;
      })
unfolding with_repository assign_default_tag_if_needed build_resolved
parse-pinned host repo digest hh ra rc de =
    let text = pinned host repo digest in
    let part = host ++ slash ∷ repo in
    let no_at : contains_byte at_sign part ≡ false =
      contains_byte_join at_sign slash host repo hh.no_at refl ra in
    let joined : part ++ at_sign ∷ digest ≡ text = append_assoc host (slash ∷ repo) _ in
    let parts : split_digest text (blank text) ≡ (part, record (blank text) { digest = digest }) =
      rw (← joined) (split_digest_at part digest _ no_at) in
    rw
      (parse_by_parts text part (record (blank text) { digest = digest })
        (nonempty_append host _ slash) parts)
      (rw (apply_host host repo (record (blank text) { digest = digest }) hh)
        (rw (parse_repository_tag_none repo rc, with_repository) (rw de (cc joined))))

split_digest_kept :
    (image : Text)
    → is_empty (split_digest image (blank image)).1.digest ≡ false
    → (split_digest image (blank image)).0 ++ at_sign ∷ (split_digest image (blank image)).1.digest
      ≡ image
unfolding split_digest
split_digest_kept image h = elim (Option-cases (index_byte at_sign image)) [
  | inl e ↦ cc (let g : is_empty [] ≡ false = rw (e, split_digest) at h in g)
  | inr (i, e) ↦ rw (e, split_digest) (sym (index_byte-some at_sign image i e).0)
]

apply_registry_keeps :
    (image : Text) (ref : ImageRef) → (apply_registry_and_repository image ref).digest ≡ ref.digest
unfolding apply_registry_and_repository with_repository assign_default_tag_if_needed
apply_registry_keeps image ref = ground arith

-- A digest that Parse finds is kept in the resolved text, which is then the original one.
pub parse_pinned_unchanged :
    (image : Text) {r : ImageRef}
    → parse image ≡ some r
    → is_empty r.digest ≡ false
    → r.resolved ≡ image
unfolding parse build_resolved
parse_pinned_unchanged image {r} h d =
    let p = split_digest image (blank image) in
    ground (arith, apply_registry_keeps p.0 p.1, split_digest_kept image)

-- Resolve of a parsed reference without digest, given one by the lookup, adds the digest and keeps
-- registry, repository and tag; and Parse of the text that it writes reads the same registry,
-- repository and digest again, but no tag.
pub parse-resolve :
    (lookup : DigestLookup) (image digest : Text) {r : ImageRef}
    → parse image ≡ some r
    → is_empty r.digest ≡ true
    → lookup r.resolved ≡ some digest
    → is_empty digest ≡ false
    → (r' : ImageRef) × (resolve lookup r ≡ resolved_ok r')
      × (r'.registry ≡ r.registry)
      × (r'.repository ≡ r.repository)
      × (r'.tag ≡ r.tag)
      × (r'.digest ≡ digest)
      × (parse r'.resolved ≡ some (record r' { original = r'.resolved; tag = [] }))
unfolding resolve
parse-resolve lookup image digest {r} h e l d =
    let c = parse-IsCanonical image h in
    (
      record r { digest = digest; resolved = pinned r.registry r.repository digest },
      rw e (rw (l, resolve)),
      refl,
      refl,
      refl,
      refl,
      parse-pinned r.registry r.repository digest
          (record { is_host = c.host; no_slash = c.no_slash; no_at = c.no_at }) c.repository_no_at
          c.repository_no_colon d,
    )
