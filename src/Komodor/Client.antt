-- ===== src/Komodor/Client.antt =====
-- internal/komodor/client.go. Building the request, the HTTP round trip and JSON are parameters: a
-- step that fails is `none`.
pub mod Accepted
use komodor_security_reporte.Prelude.Text.{Text, codes, text_eq, is_empty, to_lower}
use Prim.Native.Nat.{ℕ}
use komodor_security_reporte.Prelude.{
  Bool, Option, false, if◌then◌else◌, some, ◌⊎◌, inr, none, not, ◌==◌, inl, ltb, ◌||◌, leb,
}

pub record ApiKeyValidationResponse : Type 0 where
  pub valid : Bool
  pub status : Text

-- A response: its status code and its body, which may fail to be read.
pub record Response : Type 0 where
  pub status_code : ℕ
  pub body : Option Text

pub data ClientError : Type 0 where
  invalid_key create_request_failed transport_failed read_failed decode_failed : ClientError
  bad_status : ℕ → Text → ClientError
  unexpected_response : Text → ClientError
  event_required marshal_failed url_failed : ClientError

-- strings.EqualFold on ASCII
abbrev equal_fold : Text → Text → Bool
equal_fold s t = text_eq (to_lower s) (to_lower t)

-- `none` is success.
unfoldable pub evaluate_api_key_validation :
    ℕ → Text → ApiKeyValidationResponse → Option ClientError
evaluate_api_key_validation status_code body response =
    if status_code == 403 || equal_fold response.status (codes "Forbidden")
    then some invalid_key
    else if ltb status_code 200 || leb 300 status_code
    then some (bad_status status_code body)
    else if not response.valid
    then some (unexpected_response body)
    else none

abbrev pub no_response : ApiKeyValidationResponse
no_response = record { valid = false; status = codes "" }

module _ (decode : Text → Option ApiKeyValidationResponse) where
  -- The body and what it decodes to, or the error.
  unfoldable pub parse_api_key_validation_response :
      Option Text → (Text × ApiKeyValidationResponse) ⊎ ClientError
  parse_api_key_validation_response none = inr read_failed
  parse_api_key_validation_response (some body) =
      if is_empty body
      then inl (body, no_response)
      else elim (decode body) [ none ↦ inr decode_failed | some r ↦ inl (body, r) ]

  -- `response` is what `httpClient.Do` gives, if the request could be made.
  unfoldable pub validate_api_key : Bool → Option Response → Option ClientError
  unfolding parse_api_key_validation_response evaluate_api_key_validation
  validate_api_key request_made response =
      if not request_made then some create_request_failed else elim response [
        | none ↦ some transport_failed
        | some r ↦ elim (parse_api_key_validation_response r.body) [
          | inr e ↦ some e
          | inl (body, parsed) ↦ evaluate_api_key_validation r.status_code body parsed
        ]
      ]

-- The request that PublishEvent sends.
pub record Request : Type 0 where
  pub url : Text
  pub content_type : Text
  pub api_key : Text
  pub payload : Text

pub record Client : Type 0 where
  pub base_url : Text
  pub api_key : Text

-- What the client calls of the standard library, for events of type `E`: `json.Marshal`,
-- `url.JoinPath`, `http.NewRequestWithContext` (whether it succeeds) and `httpClient.Do`.
pub record Transport (E : Type 0) : Type 0 where
  pub marshal : E → Option Text
  pub join_path : Text → Text → Option Text
  pub can_request : Text → Bool
  pub send : Request → Option Response

abbrev pub body_text : Option Text → Text
body_text none = codes ""
body_text (some t) = t

unfoldable pub publish_event : {E : Type 0} → Transport E → Client → Option E → Option ClientError
publish_event transport client event = elim event [
  | none ↦ some event_required
  | some e ↦ elim (transport.marshal e) [
    | none ↦ some marshal_failed
    | some payload ↦ elim (transport.join_path client.base_url (codes "/mgmt/v1/events")) [
      | none ↦ some url_failed
      | some url ↦
          if not (transport.can_request url)
          then some create_request_failed
          else elim (transport.send (record {
            url = url;
            content_type = codes "application/json";
            api_key = client.api_key;
            payload = payload;
          })) [
            | none ↦ some transport_failed
            | some r ↦
                if ltb r.status_code 200 || leb 300 r.status_code
                then some (bad_status r.status_code (body_text r.body))
                else none
          ]
    ]
  ]
]
