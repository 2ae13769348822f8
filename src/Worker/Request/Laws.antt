-- ===== src/Worker/Request/Laws.antt =====
-- What the receiver of a webhook can rely on, from the row of the outbox to the request.
use mathlib.Core.List.{Memᴰ}
use mathlib.Core.List.Memᴰ.{head, tail}
use tenant_billing_service.Base.{
  select, any, inl, inr, Bool-cases, not, ◌&&◌, ==_iff, ℕ, ◌+◌, ◌≤◌, ◌≡◌, refl, ◌∙◌, String, Bool,
  true, false, Option, none, some, List, [], ◌∷◌, arith, find_row, length, leb, All,
}
use tenant_billing_service.Model.Webhook.{WebhookDelivery, WebhookDeliveryStatus, WebhookEndpoint}
use tenant_billing_service.Model.Db.{Db}
use tenant_billing_service.World.{World}
use tenant_billing_service.Signing.{sign_payload, verify_signature, verdict, distance}
use tenant_billing_service.Signing.Decimal.{pos}
use tenant_billing_service.Signing.Numerals.{has_code}
use tenant_billing_service.Signing.Headers.{is_ascii}
use tenant_billing_service.Signing.Laws.{sign_payload-verifies}
use tenant_billing_service.Worker.{poll_limit, claim, is_due, is_past}
use tenant_billing_service.Worker.Delivery.{has_endpoint_id}
use tenant_billing_service.Worker.Poll.{claim_lem, claim-All}
use tenant_billing_service.Worker.Request.{
  WebhookRequest, request_for, send_to, requests_of, poll_requests,
}

-- A row of the outbox that is due and not held by another worker.
abbrev pub IsOf : Db → ℕ → (WebhookDelivery → Bool) → WebhookDelivery → Type 0
IsOf db clock locked row =
    Memᴰ row db.webhook_deliveries
    × (row.status ≡ WebhookDeliveryStatus.pending)
    × (locked row ≡ false)
    × ((t : ℕ) × (row.next_attempt_at ≡ some t) × (t ≤ clock))

-- A request that carries a row to its endpoint, as the receiver sees it in the window of its clock.
abbrev pub IsSent : World → ℕ → ℕ → Db → WebhookDelivery → WebhookEndpoint × WebhookRequest → Type 0
IsSent w now max_age_seconds db row (endpoint, request) =
    Memᴰ endpoint db.webhook_endpoints
    × (endpoint.id ≡ row.webhook_endpoint_id)
    × (request.url ≡ endpoint.url)
    × (request.body ≡ w.json_object row.payload)
    × (request.x_webhook_event ≡ row.event_type)
    × (verify_signature w now endpoint.signing_secret request.body request.x_webhook_signature
          max_age_seconds
        ≡ verdict true)

-- One request for each row, in order.
abbrev pub EachSent :
    (WebhookDelivery → WebhookEndpoint × WebhookRequest → Type 0)
    → List WebhookDelivery
    → List (WebhookEndpoint × WebhookRequest)
    → Type 0
EachSent R [] [] = Unit
EachSent R [] (x ∷ requests) = ⊥
EachSent R (row ∷ rows) [] = ⊥
EachSent R (row ∷ rows) (x ∷ requests) = R row x × EachSent R rows requests

find_row-Mem :
    (p : WebhookEndpoint → Bool) (xs : List WebhookEndpoint) (e : WebhookEndpoint)
    → find_row p xs ≡ some e
    → Memᴰ e xs × (p e ≡ true)
find_row-Mem p [] e h = cc
find_row-Mem p (x ∷ xs) e h = elim (Bool-cases (p x)) [
  | inl yes_ ↦ (head (ground arith), ground arith)
  | inr no_ ↦ let (m, is) = find_row-Mem p xs e (rw no_ at h) in (tail m, is)
]

find_row-none :
    (p : WebhookEndpoint → Bool) (xs : List WebhookEndpoint)
    → find_row p xs ≡ none
    → any p xs ≡ false
find_row-none p [] h = refl
find_row-none p (x ∷ xs) h = ground (arith, find_row-none p xs)

find_row-some :
    (p : WebhookEndpoint → Bool) (xs : List WebhookEndpoint) (e : WebhookEndpoint)
    → find_row p xs ≡ some e
    → any p xs ≡ true
find_row-some p [] e h = cc
find_row-some p (x ∷ xs) e h = ground (arith, find_row-some p xs e)

all-Mem :
    (table rows : List WebhookDelivery)
    → ((x : WebhookDelivery) → Memᴰ x rows → Memᴰ x table)
    → All (λ x. Memᴰ x table) rows
all-Mem table [] f = tt
all-Mem table (x ∷ rows) f = (f x (head refl), all-Mem table rows (λ y m. f y (tail m)))

due-IsOf :
    (db : Db) (clock : ℕ) (locked : WebhookDelivery → Bool) (row : WebhookDelivery)
    → Memᴰ row db.webhook_deliveries
    → (is_due clock row && not (locked row)) ≡ true
    → IsOf db clock locked row
due-IsOf db clock locked row m h =
    (m, ground arith, ground arith, past row.next_attempt_at (ground arith))
  where
    past : (at : Option ℕ) → is_past clock at ≡ true → (t : ℕ) × (at ≡ some t) × (t ≤ clock)
    past none h = cc
    past (some t) h = (t, refl, ground arith)

rows-IsOf :
    (db : Db) (clock : ℕ) (locked : WebhookDelivery → Bool) (rows : List WebhookDelivery)
    → All (λ x. Memᴰ x db.webhook_deliveries × ((is_due clock x && not (locked x)) ≡ true)) rows
    → All (IsOf db clock locked) rows
rows-IsOf db clock locked [] h = tt
rows-IsOf db clock locked (row ∷ rows) ((m, due), h) =
    (due-IsOf db clock locked row m due, rows-IsOf db clock locked rows h)

taken :
    (clock : ℕ) (locked : WebhookDelivery → Bool) (db : Db)
    → All (IsOf db clock locked) (claim clock locked db)
taken clock locked db = rows-IsOf db clock locked (claim clock locked db) (
    claim-All clock locked db (λ x. Memᴰ x db.webhook_deliveries)
      (all-Mem db.webhook_deliveries db.webhook_deliveries (λ x m. m)))

module _ (w : World)
    (no_comma : (secret content : String) → has_code 44 (w.hmac_hex secret content) ≡ false)
    (ascii : (secret content : String) → is_ascii (w.hmac_hex secret content) ≡ true) where
  request-verifies :
      (now signed_at max_age_seconds : ℕ) (endpoint : WebhookEndpoint) (row : WebhookDelivery)
      → let request = request_for w signed_at endpoint row in
        verify_signature w now endpoint.signing_secret request.body request.x_webhook_signature
          max_age_seconds
        ≡ verdict (leb (distance now (pos signed_at)) max_age_seconds)
  unfolding request_for sign_payload
  request-verifies now signed_at max_age_seconds endpoint row =
      sign_payload-verifies w now (pos signed_at) endpoint.signing_secret
        (w.json_object row.payload) max_age_seconds (no_comma endpoint.signing_secret)
        (ascii endpoint.signing_secret)

  module _ (now max_age_seconds : ℕ) (signed_at : WebhookDelivery → ℕ)
      (fresh : (row : WebhookDelivery) → distance now (pos (signed_at row)) ≤ max_age_seconds) where
    module _ (db : Db) where
      abbrev reaches : WebhookDelivery → Bool
      reaches row = any (has_endpoint_id row.webhook_endpoint_id) db.webhook_endpoints

      one-IsSent :
          (row : WebhookDelivery) (endpoint : Option WebhookEndpoint) (rows : List WebhookDelivery)
          (rest : List (WebhookEndpoint × WebhookRequest))
          → find_row (has_endpoint_id row.webhook_endpoint_id) db.webhook_endpoints ≡ endpoint
          → EachSent (IsSent w now max_age_seconds db) (select reaches rows) rest
          → EachSent
              (IsSent w now max_age_seconds db)
              (select reaches (row ∷ rows))
              (send_to w (signed_at row) row endpoint rest)
      unfolding request_for
      one-IsSent row none rows rest e h =
          rw (find_row-none (has_endpoint_id row.webhook_endpoint_id) db.webhook_endpoints e) h
      one-IsSent row (some endpoint) rows rest e h =
          let is_row = has_endpoint_id row.webhook_endpoint_id in
          let (there, same) = find_row-Mem is_row db.webhook_endpoints endpoint e in
          rw (find_row-some is_row db.webhook_endpoints endpoint e) (
            (
              there,
              (==_iff endpoint.id row.webhook_endpoint_id).0 same,
              refl,
              refl,
              refl,
              request-verifies now (signed_at row) max_age_seconds endpoint row
                  ∙ ground (arith, fresh row),
            ),
            h,
          )

      each_sent :
          (rows : List WebhookDelivery)
          → EachSent
              (IsSent w now max_age_seconds db)
              (select reaches rows)
              (requests_of w signed_at db.webhook_endpoints rows)
      each_sent [] = tt
      each_sent (row ∷ rows) =
          one-IsSent row (find_row (has_endpoint_id row.webhook_endpoint_id) db.webhook_endpoints)
            rows (requests_of w signed_at db.webhook_endpoints rows) refl (each_sent rows)

    send_to-length :
        (row : WebhookDelivery) (endpoint : Option WebhookEndpoint)
        (rest : List (WebhookEndpoint × WebhookRequest))
        → length (send_to w (signed_at row) row endpoint rest) ≤ length rest + 1
    send_to-length row none rest = omega arith
    send_to-length row (some endpoint) rest = omega arith

    requests_of-length :
        (endpoints : List WebhookEndpoint) (rows : List WebhookDelivery)
        → length (requests_of w signed_at endpoints rows) ≤ length rows
    requests_of-length endpoints [] = omega arith
    requests_of-length endpoints (row ∷ rows) = omega (
      arith,
      send_to-length row (find_row (has_endpoint_id row.webhook_endpoint_id) endpoints)
          (requests_of w signed_at endpoints rows),
      requests_of-length endpoints rows,
    )

    -- If the macs are ASCII texts with no comma, and each row is signed at a time that differs from
    -- the receiver's by at most the maximal age, then a poll sends ten requests at most. The rows
    -- that it takes are pending rows of the outbox, due, and held by no other worker, and each of
    -- them whose endpoint stands in the table is sent, in their order and once: to the URL of the
    -- endpoint that the row names, with the row's payload and event, and with a signature that
    -- verifies under that endpoint's secret.
    pub poll_requests-verify :
        (clock : ℕ) (locked : WebhookDelivery → Bool) (db : Db)
        → let requests = poll_requests w signed_at clock locked db in
          let rows = claim clock locked db in
          EachSent
            (IsSent w now max_age_seconds db)
            (select
              (λ row. any (has_endpoint_id row.webhook_endpoint_id) db.webhook_endpoints)
              rows)
            requests
          × All (IsOf db clock locked) rows
          × (length requests ≤ poll_limit)
    unfolding poll_requests
    poll_requests-verify clock locked db =
        let rows = claim clock locked db in
        (
          each_sent db rows,
          taken clock locked db,
          omega
              (arith, requests_of-length db.webhook_endpoints rows, (claim_lem clock locked db).0),
        )
