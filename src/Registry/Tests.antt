-- ===== src/Registry/Tests.antt =====
-- Image references as they are written in pod templates.
use komodor_security_reporte.Prelude.{◌≡◌, refl, some, []}
use komodor_security_reporte.Prelude.Text.{codes, index_byte, text_eq, contains_byte}
use komodor_security_reporte.Registry.ImageRef.{ImageRef, parse, is_registry_host}
use komodor_security_reporte.Registry.Resolver.{DigestLookup, resolved_ok, resolve}
use komodor_security_reporte.Registry.RoundTrip.{IsHostName, parse-resolve}

abbrev nginx : ImageRef
nginx = record {
  original = codes "nginx:1.25";
  registry = codes "docker.io";
  repository = codes "library/nginx";
  tag = codes "1.25";
  digest = [];
  resolved = codes "nginx:1.25";
}

abbrev pinned_nginx : ImageRef
pinned_nginx = record {
  original = codes "nginx@sha256:ab";
  registry = codes "docker.io";
  repository = codes "library/nginx";
  tag = [];
  digest = codes "sha256:ab";
  resolved = codes "nginx@sha256:ab";
}

abbrev digest_of : DigestLookup
digest_of _ = some (codes "sha256:cd")

parse-nginx : parse (codes "nginx:1.25") ≡ some nginx
unfolding parse index_byte text_eq contains_byte
parse-nginx = refl

parse-pinned_nginx : parse (codes "nginx@sha256:ab") ≡ some pinned_nginx
unfolding parse index_byte text_eq contains_byte
parse-pinned_nginx = refl

localhost-IsHostName : IsHostName (codes "localhost:5000")
unfolding is_registry_host contains_byte
localhost-IsHostName = record { is_host = refl; no_slash = refl; no_at = refl }

parse-resolve_example :
    (r' : ImageRef) × (resolve digest_of nginx ≡ resolved_ok r')
    × (r'.registry ≡ nginx.registry)
    × (r'.repository ≡ nginx.repository)
    × (r'.tag ≡ nginx.tag)
    × (r'.digest ≡ codes "sha256:cd")
    × (parse r'.resolved ≡ some (record r' { original = r'.resolved; tag = [] }))
parse-resolve_example =
    parse-resolve digest_of (codes "nginx:1.25") (codes "sha256:cd") parse-nginx refl refl refl
