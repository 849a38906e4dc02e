-- ===== src/Registry/ImageRef.antt =====
-- internal/registry/image_ref.go. A method that writes into `*ImageRef` returns the new record.
use komodor_security_reporte.Prelude.{
  ℕ, suc, Bool, ◌&&◌, ◌||◌, not, Option, none, some, ◌∷◌, ◌++◌, take, drop, if◌then◌else◌,
}
use komodor_security_reporte.Prelude.Text.{
  Text, codes, text_eq, is_empty, index_byte, contains_byte,
}

pub record ImageRef : Type 0 where
  pub original : Text
  pub registry : Text
  pub repository : Text
  pub tag : Text
  pub digest : Text
  pub resolved : Text

abbrev pub at_sign : ℕ
at_sign = b'@'

abbrev pub slash : ℕ
slash = b'/'

abbrev pub colon : ℕ
colon = b':'

abbrev pub dot : ℕ
dot = b'.'

abbrev pub docker_io : Text
docker_io = codes "docker.io"

abbrev pub latest : Text
latest = codes "latest"

-- The image part and the digest, which the code writes into the reference.
unfoldable pub split_digest : Text → ImageRef → Text × ImageRef
split_digest image ref = elim (index_byte at_sign image) [
  | none ↦ (image, ref)
  | some i ↦ (take i image, record ref { digest = drop (suc i) image })
]

-- `SplitN(value, ":", 2)` at the first colon.
unfoldable pub parse_repository_tag : Text → Text × Text
parse_repository_tag value = elim (index_byte colon value) [
  | none ↦ (value, codes "")
  | some i ↦ (take i value, drop (suc i) value)
]

unfoldable pub assign_default_tag_if_needed : ImageRef → Text → ImageRef
assign_default_tag_if_needed ref tag =
    if not (is_empty tag)
    then record ref { tag = tag }
    else if is_empty ref.digest
    then record ref { tag = latest }
    else ref

unfoldable pub is_registry_host : Text → Bool
is_registry_host value =
    contains_byte dot value || contains_byte colon value || text_eq value (codes "localhost")

-- The three branches of applyRegistryAndRepository share this ending: parse, then the tag.
unfoldable pub with_repository : Text → Text → Text → ImageRef → ImageRef
unfolding parse_repository_tag assign_default_tag_if_needed
with_repository registry prefix value ref =
    let (repo, tag) = parse_repository_tag value in
    assign_default_tag_if_needed (record ref { registry = registry; repository = prefix ++ repo })
      tag

unfoldable pub apply_registry_and_repository : Text → ImageRef → ImageRef
unfolding with_repository is_registry_host
apply_registry_and_repository image_part ref = elim (index_byte slash image_part) [
  | none ↦ with_repository docker_io (codes "library/") image_part ref
  | some i ↦
      if is_registry_host (take i image_part)
      then with_repository (take i image_part) (codes "") (drop (suc i) image_part) ref
      else with_repository docker_io (codes "") image_part ref
]

unfoldable pub build_resolved : Text → ImageRef → Text
build_resolved image_part ref =
    if not (is_empty ref.digest)
    then image_part ++ at_sign ∷ ref.digest
    else if text_eq ref.tag latest && not (contains_byte colon image_part)
    then image_part ++ codes ":latest"
    else image_part

abbrev pub blank : Text → ImageRef
blank image = record {
  original = image;
  registry = codes "";
  repository = codes "";
  tag = codes "";
  digest = codes "";
  resolved = codes "";
}

-- `none` is the error "empty image reference".
unfoldable pub parse : Text → Option ImageRef
unfolding split_digest apply_registry_and_repository build_resolved
parse image =
    if is_empty image
    then none
    else let (image_part, r₁) = split_digest image (blank image) in
      let r₂ = apply_registry_and_repository image_part r₁ in
      some (record r₂ { resolved = build_resolved image_part r₂ })
