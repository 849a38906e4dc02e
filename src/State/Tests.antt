-- ===== src/State/Tests.antt =====
-- The formats of entries, and a cluster and a server of one client each, which keep a ConfigMap and
-- texts.
use komodor_security_reporte.Prelude.{◌≡◌, refl, ℕ, arith, Option, none, some, if◌then◌else◌}
use komodor_security_reporte.Prelude.Text.{Text, codes, text_eq}
use komodor_security_reporte.Prelude.Json.{Json}
use komodor_security_reporte.State.Entry.{Entry}
use komodor_security_reporte.State.Entry.Codec.{encode_entry, marshal, unmarshal, zero_entry}
use komodor_security_reporte.State.Entry.Formats.{rounded, unmarshal-marshal}

abbrev entry : Entry
entry = record {
  fingerprint = codes "sha256:ab/trivy";
  last_scanned_time = 5_500_000_000;
  last_published_time = 6_000_000_000;
  summary = codes "ok";
}

-- A JSON library that knows one text.
abbrev print : Json → Text
print v = codes "{}"

abbrev parse_json : Text → Option Json
parse_json text = if text_eq text (codes "{}") then some (encode_entry entry) else none

abbrev no_time : Text → Option ℕ
no_time text = none

reads : parse_json (print (encode_entry entry)) ≡ some (encode_entry entry)
unfolding text_eq
reads = refl

unmarshal-marshal_example :
    unmarshal parse_json no_time (marshal print entry) zero_entry ≡ some (rounded entry)
unmarshal-marshal_example =
    unmarshal-marshal parse_json no_time print entry zero_entry reads (omega arith) (omega arith)
