-- ===== src/Registry/Canonical.antt =====
-- What every reference parsed by Parse of internal/registry/image_ref.go has.
use komodor_security_reporte.Prelude.{
  suc, true, false, some, [], ◌++◌, take, drop, ◌≡◌, inl, inr, refl, arith, Bool-cases,
  Option-cases,
}
use komodor_security_reporte.Prelude.Text.{
  Text, codes, index_byte, contains_byte, index_byte-some, index_byte-none, contains_byte-append,
  contains_byte-take, contains_byte-drop,
}
use komodor_security_reporte.Registry.ImageRef.{
  ImageRef, parse, at_sign, slash, colon, split_digest, blank, docker_io,
  apply_registry_and_repository, parse_repository_tag, with_repository, is_registry_host,
}

-- What every parsed reference has: the registry is a host with no slash, and the separators of a
-- tag and of a digest are in none of its parts.
pub record IsCanonical (ref : ImageRef) : Type 0 where
  pub host : is_registry_host ref.registry ≡ true
  pub no_slash : contains_byte slash ref.registry ≡ false
  pub no_at : contains_byte at_sign ref.registry ≡ false
  pub repository_no_at : contains_byte at_sign ref.repository ≡ false
  pub repository_no_colon : contains_byte colon ref.repository ≡ false

parse_repository_tag_lacks :
    (value : Text)
    → contains_byte at_sign value ≡ false
    → (contains_byte colon (parse_repository_tag value).0 ≡ false)
      × (contains_byte at_sign (parse_repository_tag value).0 ≡ false)
unfolding parse_repository_tag
parse_repository_tag_lacks value h = elim (Option-cases (index_byte colon value)) [
  | inl e ↦ rw (e, parse_repository_tag) (index_byte-none colon value e, h)
  | inr (i, e) ↦
      rw (e, parse_repository_tag)
        ((index_byte-some colon value i e).1, contains_byte-take at_sign i value h)
]

with_repository_parts :
    (registry prefix value : Text) (ref : ImageRef)
    → let out = with_repository registry prefix value ref in
      (out.registry ≡ registry)
      × (out.repository ≡ prefix ++ (parse_repository_tag value).0)
      × (out.digest ≡ ref.digest)
      × (out.original ≡ ref.original)
unfolding with_repository
with_repository_parts registry prefix value ref =
    (ground arith, ground arith, ground arith, ground arith)

with_repository-IsCanonical :
    (registry prefix value : Text) (ref : ImageRef)
    → is_registry_host registry ≡ true
    → contains_byte slash registry ≡ false
    → contains_byte at_sign registry ≡ false
    → contains_byte at_sign prefix ≡ false
    → contains_byte colon prefix ≡ false
    → contains_byte at_sign value ≡ false
    → IsCanonical (with_repository registry prefix value ref)
with_repository-IsCanonical registry prefix value ref h s a pa pc va =
    let (er, ep, ed, eo) = with_repository_parts registry prefix value ref in
    let (lc, la) = parse_repository_tag_lacks value va in
    record {
      host = rw er h;
      no_slash = rw er s;
      no_at = rw er a;
      repository_no_at = rw (ep, contains_byte-append, pa, la);
      repository_no_colon = rw (ep, contains_byte-append, pc, lc);
    }

apply-IsCanonical :
    (image : Text) (ref : ImageRef)
    → contains_byte at_sign image ≡ false
    → IsCanonical (apply_registry_and_repository image ref)
unfolding apply_registry_and_repository contains_byte is_registry_host
apply-IsCanonical image ref h = elim (Option-cases (index_byte slash image)) [
  | inl e ↦
      rw (e, apply_registry_and_repository)
        (with_repository-IsCanonical docker_io (codes "library/") image ref refl refl refl refl refl
          h)
  | inr (i, e) ↦ elim (Bool-cases (is_registry_host (take i image))) [
    | inl host ↦
        rw (e, apply_registry_and_repository)
          (rw host (
            with_repository-IsCanonical (take i image) [] (drop (suc i) image) ref host
              (index_byte-some slash image i e).1 (contains_byte-take at_sign i image h) refl refl
              (contains_byte-drop at_sign (suc i) image h)))
    | inr other ↦
        rw (e, apply_registry_and_repository)
          (rw other (with_repository-IsCanonical docker_io [] image ref refl refl refl refl refl h))
  ]
]

pub split_digest_part :
    (image : Text) (ref : ImageRef) → contains_byte at_sign (split_digest image ref).0 ≡ false
unfolding split_digest
split_digest_part image ref = elim (Option-cases (index_byte at_sign image)) [
  | inl e ↦ rw (e, split_digest) (index_byte-none at_sign image e)
  | inr (i, e) ↦ rw (e, split_digest) (index_byte-some at_sign image i e).1
]

-- Every reference that Parse returns is canonical.
pub parse-IsCanonical : (image : Text) {r : ImageRef} → parse image ≡ some r → IsCanonical r
unfolding parse
parse-IsCanonical image {r} h =
    let part = split_digest image (blank image) in
    let c = apply-IsCanonical part.0 part.1 (split_digest_part image (blank image)) in
    ground (arith, c)
