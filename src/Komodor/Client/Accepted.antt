-- ===== src/Komodor/Client/Accepted.antt =====
-- When PublishEvent of internal/komodor/client.go succeeds.
use komodor_security_reporte.Prelude.{
  ◌≡◌, ◌≤◌, ◌<◌, ◌↔◌, arith, none, some, true, Option-cases, inl, inr,
}
use komodor_security_reporte.Prelude.Text.{Text, codes}
use komodor_security_reporte.Komodor.Client.{Client, Request, Response, Transport, publish_event}

module _ {E : Type 0} (transport : Transport E) (client : Client) where
  -- The request of an event with this payload, at this address.
  unfoldable pub event_request : Text → Text → Request
  event_request payload url = record {
    url = url;
    content_type = codes "application/json";
    api_key = client.api_key;
    payload = payload;
  }

  -- The event is encoded, sent and answered with a status of success.
  pub record IsAccepted (e : E) : Type 0 where
    pub payload : Text
    pub url : Text
    pub response : Response
    pub encoded : transport.marshal e ≡ some payload
    pub joined : transport.join_path client.base_url (codes "/mgmt/v1/events") ≡ some url
    pub requested : transport.can_request url ≡ true
    pub sent : transport.send (event_request payload url) ≡ some response
    pub at_least : 200 ≤ response.status_code
    pub below : response.status_code < 300

  publish_event-IsAccepted : (e : E) → publish_event transport client (some e) ≡ none → IsAccepted e
  unfolding publish_event event_request
  publish_event-IsAccepted e h = elim (Option-cases (transport.marshal e)) [
    | inl failed ↦ ground arith
    | inr (payload, encoded) ↦
        elim (Option-cases (transport.join_path client.base_url (codes "/mgmt/v1/events"))) [
          | inl failed ↦ ground arith
          | inr (url, joined) ↦ elim (Option-cases (transport.send (event_request payload url))) [
            | inl failed ↦ ground arith
            | inr (response, sent) ↦ record {
              payload = payload;
              url = url;
              response = response;
              encoded = encoded;
              joined = joined;
              requested = ground arith;
              sent = sent;
              at_least = ground arith;
              below = ground arith;
            }
          ]
        ]
  ]

  -- Publishing an event succeeds exactly when it can be encoded, the address and the request can
  -- be made, and the answer has a status from 200 to 299.
  publish_event_exact : (e : E) → (publish_event transport client (some e) ≡ none) ↔ IsAccepted e
  unfolding publish_event event_request
  publish_event_exact e = (
    publish_event-IsAccepted e,
    λ a. ground (arith, a.encoded, a.joined, a.requested, a.sent, a.at_least, a.below),
  )
