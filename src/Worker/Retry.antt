-- ===== src/Worker/Retry.antt =====
-- The retry policy: how often a row is delivered, and after what delays.
use tenant_billing_service.Base.{
  ℕ, zero, suc, ◌+◌, ◌≤◌, ◌<◌, ◌^◌, ◌≡◌, ◌≢◌, refl, ◌∙◌, inl, inr, String, none, some, List, [],
  ◌∷◌, arith, find_row, length, ltb, Bool-cases, if◌then◌else◌,
}
use tenant_billing_service.Model.Webhook.{WebhookDelivery, WebhookDeliveryStatus, WebhookEndpoint}
use tenant_billing_service.Worker.Delivery.{
  PostOutcome, error_of, backoff, max_attempts, after_post, has_endpoint_id, deliver,
}

-- A row between two polls.
pub record IsSound (row : WebhookDelivery) : Type 0 where
  pub capped : row.attempts ≤ max_attempts
  pub waiting :
      row.status ≡ WebhookDeliveryStatus.pending
      → (row.attempts < max_attempts) × (row.next_attempt_at ≢ none)
  pub done :
      row.status ≡ WebhookDeliveryStatus.delivered → (0 < row.attempts) × (row.delivered_at ≢ none)
  pub given_up : row.status ≡ WebhookDeliveryStatus.exhausted → row.last_error ≢ none

-- One delivery of a pending row keeps it sound, whatever the endpoint answers, also where the
-- endpoint is gone: at most 5 attempts, a pending row has fewer and a next time, a delivered one
-- has its time, and an exhausted one an error.
pub deliver-IsSound :
    (answer : WebhookEndpoint → WebhookDelivery → PostOutcome) (now : ℕ)
    (endpoints : List WebhookEndpoint) (row : WebhookDelivery)
    → row.status ≡ WebhookDeliveryStatus.pending
    → IsSound row
    → IsSound (deliver answer now endpoints row)
unfolding deliver
deliver-IsSound answer now endpoints row waits sound = ground arith

-- For fewer than 5 attempts, the entry of the table of delays that the worker reads after so many
-- attempts is that power of 5, in seconds.
pub backoff-power : (n : ℕ) → n < max_attempts → backoff n ≡ 5 ^ n
unfolding backoff
backoff-power zero h = refl
backoff-power (suc zero) h = refl
backoff-power (suc (suc zero)) h = refl
backoff-power (suc (suc (suc zero))) h = refl
backoff-power (suc (suc (suc (suc zero)))) h = refl
backoff-power (suc (suc (suc (suc (suc n))))) h = absurd (omega arith)

-- If the endpoint exists and the delivery fails with a message, then the row has one attempt more
-- and the message; below 5 attempts it is due again 5 to the new number of attempts seconds later
-- (5, 25, 125 and 625), and at 5 it is exhausted.
pub deliver-failed :
    (answer : WebhookEndpoint → WebhookDelivery → PostOutcome) (now : ℕ)
    (endpoints : List WebhookEndpoint) (row : WebhookDelivery) (endpoint : WebhookEndpoint)
    (message : String)
    → find_row (has_endpoint_id row.webhook_endpoint_id) endpoints ≡ some endpoint
    → error_of (answer endpoint row) ≡ some message
    → deliver answer now endpoints row ≡ (
        if ltb (row.attempts + 1) max_attempts
        then record row {
          attempts = row.attempts + 1;
          last_error = some message;
          next_attempt_at = some (now + 5 ^ (row.attempts + 1));
        }
        else record row {
          attempts = row.attempts + 1;
          last_error = some message;
          status = WebhookDeliveryStatus.exhausted;
        })
unfolding deliver
deliver-failed answer now endpoints row endpoint message found failed =
    elim (Bool-cases (ltb (row.attempts + 1) max_attempts)) [
      | inl more ↦ ground (arith, backoff-power (row.attempts + 1) (ground arith))
      | inr last ↦ ground arith
    ]

-- Failed deliveries one after the other, each at its time, with its message.
abbrev fail_all : List (ℕ × String) → WebhookDelivery → WebhookDelivery
fail_all [] row = row
fail_all ((now, message) ∷ failures) row = fail_all failures (after_post now (some message) row)

after-few :
    (now : ℕ) (message : String) (row : WebhookDelivery)
    → row.attempts + 1 < max_attempts
    → let row' = after_post now (some message) row in
      (row'.attempts ≡ row.attempts + 1) × (row'.status ≡ row.status)
after-few now message row few = ground arith

after-last :
    (now : ℕ) (message : String) (row : WebhookDelivery)
    → max_attempts ≤ row.attempts + 1
    → let row' = after_post now (some message) row in
      (row'.attempts ≡ row.attempts + 1) × (row'.status ≡ WebhookDeliveryStatus.exhausted)
after-last now message row last = ground arith

-- If a pending row with fewer than 5 attempts fails so many deliveries one after the other that it
-- comes to 5 attempts at most, then all of them are counted, and the row is pending below 5 attempts
-- and exhausted at 5.
fail_all-exhausts :
    (failures : List (ℕ × String)) (row : WebhookDelivery)
    → row.status ≡ WebhookDeliveryStatus.pending
    → row.attempts < max_attempts
    → row.attempts + length failures ≤ max_attempts
    → ((fail_all failures row).attempts ≡ row.attempts + length failures)
      × ((fail_all failures row).status ≡ (
          if ltb (row.attempts + length failures) max_attempts
          then WebhookDeliveryStatus.pending
          else WebhookDeliveryStatus.exhausted))
fail_all-exhausts [] row waits few h = (omega arith, ground arith)
fail_all-exhausts ((now, message) ∷ []) row waits few h =
    elim (Bool-cases (ltb (row.attempts + 1) max_attempts)) [
      | inl more ↦ ground (arith, after-few now message row (ground arith))
      | inr last ↦ ground (arith, after-last now message row (ground arith))
    ]
fail_all-exhausts ((now, message) ∷ f ∷ failures) row waits few h =
    let (count, status) = after-few now message row (omega arith) in
    ground (
      arith,
      fail_all-exhausts (f ∷ failures) (after_post now (some message) row) (status ∙ waits)
          (omega arith) (omega arith),
    )
