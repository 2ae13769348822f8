-- ===== src/Worker/Policy.antt =====
-- The retry policy in the words of app/workers/webhook_worker.py, as an automaton for one row, and
-- that the worker's polls implement it.
use tenant_billing_service.Base.{
  ℕ, ◌+◌, ◌≤◌, ◌<◌, ◌≡◌, ap, inl, inr, true, Option, none, some, List, [], ◌∷◌, arith, String,
  find_row, Pointwise, Pointwise-refl, Pointwise-trans, Bool-cases, leb,
}
use tenant_billing_service.Model.Webhook.{WebhookDelivery, WebhookDeliveryStatus, WebhookEndpoint}
use tenant_billing_service.Model.Db.{Db}
use tenant_billing_service.Worker.Delivery.{
  PostOutcome, error_of, max_attempts, has_endpoint_id, after_failure, after_post, deliver_to,
  deliver,
}
use tenant_billing_service.Worker.Moves.{Distinct}
use tenant_billing_service.Worker.Runs.{
  Poll, takes, write_poll, write_polls, PollMoved, write_poll-Moved, write_poll-Distinct,
}

-- What the policy knows of a row: the number of its attempts, and whether it is done.
pub data Phase : Type 0 where
  waiting delivered exhausted : ℕ → Phase

-- An attempt succeeds, is to be repeated below the cap, or was the last; or there is nowhere to
-- deliver to, and no attempt.
pub data Step : Phase → Phase → Type 0 where
  succeeds : (n : ℕ) → Step (waiting n) (delivered (n + 1))
  retries : (n : ℕ) → n + 1 < max_attempts → Step (waiting n) (waiting (n + 1))
  gives_up : (n : ℕ) → max_attempts ≤ n + 1 → Step (waiting n) (exhausted (n + 1))
  finds_no_endpoint : (n : ℕ) → Step (waiting n) (exhausted n)

pub data Steps : Phase → Phase → Type 0 where
  stays : (x : Phase) → Steps x x
  goes : {x y z : Phase} → Step x y → Steps y z → Steps x z

abbrev phase_of : ℕ → WebhookDeliveryStatus → Phase
phase_of n WebhookDeliveryStatus.pending = waiting n
phase_of n WebhookDeliveryStatus.delivered = delivered n
phase_of n WebhookDeliveryStatus.exhausted = exhausted n

-- The policy's view of a row forgets the times and the message.
abbrev pub view : WebhookDelivery → Phase
view row = phase_of row.attempts row.status

failure-Step :
    (now : ℕ) (message : String) (row : WebhookDelivery)
    → row.status ≡ WebhookDeliveryStatus.pending
    → Step (waiting row.attempts) (view (after_failure now message (row.attempts + 1) row))
failure-Step now message row waits = elim (Bool-cases (leb max_attempts (row.attempts + 1))) [
  | inl last ↦ rw last (gives_up row.attempts (ground arith))
  | inr more ↦ rw (more, waits) (retries row.attempts (ground arith))
]

post-Step :
    (now : ℕ) (error_msg : Option String) (row : WebhookDelivery)
    → row.status ≡ WebhookDeliveryStatus.pending
    → Step (waiting row.attempts) (view (after_post now error_msg row))
post-Step now none row waits = succeeds row.attempts
post-Step now (some message) row waits = failure-Step now message row waits

deliver_to-Step :
    (answer : WebhookEndpoint → WebhookDelivery → PostOutcome) (now : ℕ)
    (endpoint : Option WebhookEndpoint) (row : WebhookDelivery)
    → row.status ≡ WebhookDeliveryStatus.pending
    → Step (waiting row.attempts) (view (deliver_to answer now endpoint row))
deliver_to-Step answer now none row waits = finds_no_endpoint row.attempts
deliver_to-Step answer now (some endpoint) row waits =
    post-Step now (error_of (answer endpoint row)) row waits

pub deliver-Step :
    (answer : WebhookEndpoint → WebhookDelivery → PostOutcome) (now : ℕ)
    (endpoints : List WebhookEndpoint) (row : WebhookDelivery)
    → row.status ≡ WebhookDeliveryStatus.pending
    → Step (view row) (view (deliver answer now endpoints row))
unfolding deliver
deliver-Step answer now endpoints row waits = rw (ap (λ s. phase_of row.attempts s) waits) (
    deliver_to-Step answer now (find_row (has_endpoint_id row.webhook_endpoint_id) endpoints) row
      waits)

pub due-pending :
    (p : Poll) (row : WebhookDelivery)
    → takes p row ≡ true
    → row.status ≡ WebhookDeliveryStatus.pending
due-pending p row h = ground arith

moved-Steps :
    (p : Poll) (db : Db) (x y : WebhookDelivery) → PollMoved p db x y → Steps (view x) (view y)
moved-Steps p db x y (inl (_, e)) = rw e (stays (view x))
moved-Steps p db x y (inr (n, _, due, e)) = rw e (
    goes (deliver-Step p.answer (p.clock n) db.webhook_endpoints x (due-pending p x due))
      (stays (view (deliver p.answer (p.clock n) db.webhook_endpoints x))))

Steps-trans : {x y z : Phase} → Steps x y → Steps y z → Steps x z
Steps-trans (stays x) k = k
Steps-trans (goes s h) k = goes s (Steps-trans h k)

-- If no two rows of the outbox have the same identifier, then over any sequence of polls, whatever
-- the endpoints answer and whatever rows other workers hold, the table keeps its rows in their
-- places, and each goes through steps of the retry policy only: from waiting after n attempts to
-- delivered, waiting (below 5) or exhausted (at 5) after n + 1, or to exhausted without an attempt.
pub write_polls-refines :
    (ps : List Poll) (db : Db)
    → Distinct db.webhook_deliveries
    → Pointwise
        (λ x y. Steps (view x) (view y))
        db.webhook_deliveries
        (write_polls ps db).webhook_deliveries
write_polls-refines [] db h =
    Pointwise-refl (λ x y. Steps (view x) (view y)) (λ x. stays (view x)) db.webhook_deliveries
write_polls-refines (p ∷ ps) db h =
    Pointwise-trans (PollMoved p db) (λ x y. Steps (view x) (view y))
      (λ x y. Steps (view x) (view y))
      (λ x y z moved steps. Steps-trans (moved-Steps p db x y moved) steps) db.webhook_deliveries
      (write_poll p db).webhook_deliveries (write_polls (p ∷ ps) db).webhook_deliveries
      (write_poll-Moved p db h)
      (write_polls-refines ps (write_poll p db) (write_poll-Distinct p db h))
