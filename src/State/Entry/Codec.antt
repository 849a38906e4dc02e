-- ===== src/State/Entry/Codec.antt =====
-- The formats of internal/state/entry.go. The JSON library (`parse`, `print`) and the RFC 3339
-- reader of package `time` (`parse_time`) are parameters. Times lie after 1970.
use komodor_security_reporte.Prelude.{
  ℕ, ◌*◌, ◌/◌, Option, none, some, ◌>>=◌, if◌then◌else◌, [], take, drop, suc,
}
use komodor_security_reporte.Prelude.Text.{Text, codes, index_byte, is_empty, trim_space}
use komodor_security_reporte.Prelude.Int.{ℤ, pos, pos_part, ltb_ℤ}
use komodor_security_reporte.Prelude.Decimal.{decimal}
use komodor_security_reporte.Prelude.Json.{
  Json, null, number, string, object, end, field, get_field,
}
use komodor_security_reporte.Prelude.ParseInt.{parse_int}
use komodor_security_reporte.State.Entry.{Entry}

abbrev pub second : ℕ
second = 1_000_000_000

abbrev pub bar : ℕ
bar = b'|'

abbrev pub zero_entry : Entry
zero_entry = record {
  fingerprint = [];
  last_scanned_time = 0;
  last_published_time = 0;
  summary = [];
}

-- MarshalJSON, which encodes a map by its sorted keys; the zero time is 0 either way.
unfoldable pub encode_entry : Entry → Json
unfolding decimal
encode_entry e = object (
    field (codes "fingerprint") (string e.fingerprint) (
      field (codes "lastPublishedTime") (number (decimal (e.last_published_time / second))) (
        field (codes "lastScannedTime") (number (decimal (e.last_scanned_time / second)))
          (field (codes "summary") (string e.summary) end))))

-- json.Unmarshal into a string and into an int64, which `null` leaves as they are.
unfoldable pub decode_string : Json → Text → Option Text
decode_string (string s) old = some s
decode_string null old = some old
decode_string _ old = none

unfoldable pub decode_int64 : Json → Option ℤ
unfolding parse_int
decode_int64 (number literal) = parse_int literal
decode_int64 null = some (pos 0)
decode_int64 _ = none

-- A field of the object, if it is there.
abbrev decode_text_field : Option Json → Text → Option Text
decode_text_field none old = some old
decode_text_field (some raw) old = decode_string raw old

-- time.Unix of a positive number of seconds, else the zero time
abbrev pub unix_time : ℤ → ℕ
unix_time n = if ltb_ℤ (pos 0) n then pos_part n * second else 0

module _ (parse_time : Text → Option ℕ) where
  unfoldable pub decode_time_text : Text → Option ℕ
  unfolding parse_int
  decode_time_text text =
      let s = trim_space text in
      if is_empty s then some 0 else elim (parse_time s) [
        | some t ↦ some t
        | none ↦ elim (parse_int s) [
          | none ↦ none
          | some n ↦ if ltb_ℤ (pos 0) n then some (unix_time n) else none
        ]
      ]

  -- parseUnixField
  unfoldable pub parse_unix_field : Json → Option ℕ
  unfolding decode_time_text decode_int64
  parse_unix_field raw = elim (decode_int64 raw) [
    | some n ↦ some (unix_time n)
    | none ↦ elim raw [ string s ↦ decode_time_text s | _ ↦ none ]
  ]

  abbrev decode_time_field : Option Json → ℕ → Option ℕ
  decode_time_field none old = some old
  decode_time_field (some raw) old = parse_unix_field raw

  -- UnmarshalJSON, over the entry that is there before.
  unfoldable pub unmarshal_json : Json → Entry → Option Entry
  unfolding decode_string parse_unix_field get_field
  unmarshal_json null e = some zero_entry
  unmarshal_json (object fs) e = do
    fingerprint ← decode_text_field (get_field (codes "fingerprint") fs) e.fingerprint
    summary ← decode_text_field (get_field (codes "summary") fs) e.summary
    scanned ← decode_time_field (get_field (codes "lastScannedTime") fs) e.last_scanned_time
    published ← decode_time_field (get_field (codes "lastPublishedTime") fs) e.last_published_time
    some (record {
      fingerprint = fingerprint;
      last_scanned_time = scanned;
      last_published_time = published;
      summary = summary;
    })
  unmarshal_json _ e = none

-- strings.SplitN at a separator: the text before it and the text after it
unfoldable pub split_bar : Text → Option (Text × Text)
split_bar s = elim (index_byte bar s) [ none ↦ none | some i ↦ some (take i s, drop (suc i) s) ]

-- The four parts of a text, by the first three separators.
unfoldable pub split_four : Text → Option (Text × Text × Text × Text)
unfolding split_bar
split_four s = do
  (a, s₁) ← split_bar s
  (b, s₂) ← split_bar s₁
  (c, d) ← split_bar s₂
  some (a, b, c, d)

-- What Unmarshal does with a text that is no JSON entry.
unfoldable pub unmarshal_legacy : Text → Option Entry
unfolding split_four parse_int
unmarshal_legacy text = elim (split_four text) [
  | none ↦ some (record zero_entry { fingerprint = text })
  | some (fingerprint, first, second_part, summary) ↦ do
    scanned ← parse_int first
    published ← parse_int second_part
    some (record {
      fingerprint = fingerprint;
      last_scanned_time = unix_time scanned;
      last_published_time = unix_time published;
      summary = summary;
    })
]

module _ (parse : Text → Option Json) (parse_time : Text → Option ℕ) where
  abbrev or_legacy : Text → Option Entry → Option Entry
  or_legacy text (some e) = some e
  or_legacy text none = unmarshal_legacy text

  -- `none` is an error; else the entry that is left.
  unfoldable pub unmarshal : Text → Entry → Option Entry
  unfolding unmarshal_json unmarshal_legacy
  unmarshal text e = elim (parse text) [
    | none ↦ unmarshal_legacy text
    | some v ↦ or_legacy text (unmarshal_json parse_time v e)
  ]

unfoldable pub marshal : (Json → Text) → Entry → Text
unfolding encode_entry
marshal print e = print (encode_entry e)
