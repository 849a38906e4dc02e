-- ===== src/State/Entry/Formats.antt =====
-- What Unmarshal of internal/state/entry.go reads back.
use komodor_security_reporte.Prelude.{
  ℕ, ◌≡◌, ◌<◌, ◌*◌, ◌/◌, ◌^◌, arith, ap, Option, none, some, false, inr, ◌++◌, ◌∷◌,
}
use komodor_security_reporte.Prelude.Text.{
  Text, contains_byte, index_byte-append, take-index, drop-index, text_eq,
}
use komodor_security_reporte.Prelude.Decimal.{decimal, contains_byte-decimal}
use komodor_security_reporte.Prelude.Json.{Json, get_field, number}
use komodor_security_reporte.Prelude.Int.{pos}
use komodor_security_reporte.Prelude.ParseInt.{parse_int-decimal}
use komodor_security_reporte.State.Entry.{Entry}
use komodor_security_reporte.State.Entry.Codec.{
  second, bar, encode_entry, marshal, unmarshal, unmarshal_json, unmarshal_legacy, unix_time,
  split_bar, split_four, decode_string, decode_int64, parse_unix_field,
}

-- An entry as it is stored: its times are whole seconds.
unfoldable pub rounded : Entry → Entry
rounded e = record e {
  last_scanned_time = (e.last_scanned_time / second) * second;
  last_published_time = (e.last_published_time / second) * second;
}

-- A time whose seconds are an int64.
abbrev pub FitsUnix : ℕ → Type 0
FitsUnix t = t / second < 2 ^ 63

unix_time-pos : (n : ℕ) → unix_time (pos n) ≡ n * second
unix_time-pos n = ground arith

parse_unix_field-decimal :
    (parse_time : Text → Option ℕ) (t : ℕ)
    → FitsUnix t
    → parse_unix_field parse_time (number (decimal (t / second))) ≡ some ((t / second) * second)
unfolding parse_unix_field decode_int64
parse_unix_field-decimal parse_time t h =
    rw (parse_int-decimal (t / second) h, parse_unix_field) (ap some (unix_time-pos (t / second)))

unmarshal_json-encode_entry :
    (parse_time : Text → Option ℕ) (e old : Entry)
    → FitsUnix e.last_scanned_time
    → FitsUnix e.last_published_time
    → unmarshal_json parse_time (encode_entry e) old ≡ some (rounded e)
unfolding unmarshal_json encode_entry get_field text_eq decode_string rounded
unmarshal_json-encode_entry parse_time e old hs hp =
    rw (parse_unix_field-decimal parse_time e.last_scanned_time hs, unmarshal_json)
      (rw (parse_unix_field-decimal parse_time e.last_published_time hp))

-- Unmarshal reads what Marshal writes, up to whole seconds, whatever entry it is read into, if the
-- JSON library reads back this text.
pub unmarshal-marshal :
    (parse : Text → Option Json) (parse_time : Text → Option ℕ) (print : Json → Text)
    (e old : Entry)
    → parse (print (encode_entry e)) ≡ some (encode_entry e)
    → FitsUnix e.last_scanned_time
    → FitsUnix e.last_published_time
    → unmarshal parse parse_time (marshal print e) old ≡ some (rounded e)
unfolding unmarshal marshal
unmarshal-marshal parse parse_time print e old reads hs hp =
    rw (reads, unmarshal) (rw (unmarshal_json-encode_entry parse_time e old hs hp))

split_bar-append :
    (s t : Text) → contains_byte bar s ≡ false → split_bar (s ++ bar ∷ t) ≡ some (s, t)
unfolding split_bar
split_bar-append s t h =
    rw (index_byte-append bar s t h, split_bar) (rw (take-index bar s t, drop-index bar s t))

contains_byte-bar-decimal : (n : ℕ) → contains_byte bar (decimal n) ≡ false
contains_byte-bar-decimal n = contains_byte-decimal bar n (inr (omega arith))

split_four-bars :
    (a b c d : Text)
    → contains_byte bar a ≡ false
    → contains_byte bar b ≡ false
    → contains_byte bar c ≡ false
    → split_four (a ++ bar ∷ (b ++ bar ∷ (c ++ bar ∷ d))) ≡ some (a, b, c, d)
unfolding split_four
split_four-bars a b c d ha hb hc =
    rw (split_bar-append a (b ++ bar ∷ (c ++ bar ∷ d)) ha, split_four)
      (rw (split_bar-append b (c ++ bar ∷ d) hb) (rw (split_bar-append c d hc)))

-- Unmarshal reads an entry of the old format, fingerprint|scanned|published|summary with the times
-- in seconds: the summary may hold separators, the fingerprint not.
unmarshal_legacy_lem :
    (parse : Text → Option Json) (parse_time : Text → Option ℕ) (fingerprint summary : Text)
    (scanned published : ℕ) (old : Entry)
    → contains_byte bar fingerprint ≡ false
    → scanned < 2 ^ 63
    → published < 2 ^ 63
    → let text =
        fingerprint ++ bar ∷ (decimal scanned ++ bar ∷ (decimal published ++ bar ∷ summary)) in
      parse text ≡ none
      → unmarshal parse parse_time text old
        ≡ some (record {
          fingerprint = fingerprint;
          last_scanned_time = scanned * second;
          last_published_time = published * second;
          summary = summary;
        })
unfolding unmarshal unmarshal_legacy
unmarshal_legacy_lem parse parse_time fingerprint summary scanned published old h hs hp no_json =
    rw (no_json, unmarshal)
      (rw
        (
          split_four-bars fingerprint (decimal scanned) (decimal published) summary h
              (contains_byte-bar-decimal scanned) (contains_byte-bar-decimal published),
          unmarshal_legacy,
        )
        (rw (parse_int-decimal scanned hs, parse_int-decimal published hp)
          (rw (unix_time-pos scanned, unix_time-pos published))))
