-- ===== src/Worker/Runs.antt =====
-- `_run` of app/workers/webhook_worker.py as a sequence of polls, each with its answers, its
-- readings of the clock, and the rows that other workers hold.
use tenant_billing_service.Base.{
  ℕ, ◌≡◌, refl, ◌⊎◌, Option, none, some, String, true, All, Bool-cases, find_row, if◌then◌else◌, ap,
  inl, inr, Bool, not, ◌&&◌, List, [], ◌∷◌, Pointwise, Pointwise-map,
}
use tenant_billing_service.Model.Webhook.{WebhookDelivery, WebhookEndpoint}
use tenant_billing_service.Model.Db.{Db}
use tenant_billing_service.Payment.Attempts.{fits_text}
use tenant_billing_service.Worker.{is_due, claim, poll}
use tenant_billing_service.Worker.Delivery.{PostOutcome, error_of, has_endpoint_id}
use tenant_billing_service.Worker.Poll.{deliver-id}
use tenant_billing_service.Worker.Moves.{Lacks, Distinct, Moved, poll-Moved}

pub record Poll : Type 0 where
  pub answer : WebhookEndpoint → WebhookDelivery → PostOutcome
  pub clock : ℕ → ℕ
  pub locked : WebhookDelivery → Bool

abbrev pub takes : Poll → WebhookDelivery → Bool
takes p row = is_due (p.clock 0) row && not (p.locked row)

abbrev pub batch : Poll → Db → List WebhookDelivery
batch p db = claim (p.clock 0) p.locked db

-- The outbox as a poll writes it, before the database has taken the writes.
abbrev pub write_poll : Poll → Db → Db
write_poll p db = poll p.answer p.clock p.locked db

abbrev pub write_polls : List Poll → Db → Db
write_polls [] db = db
write_polls (p ∷ ps) db = write_polls ps (write_poll p db)

-- The message that the delivery of a row writes, or none after a success.
abbrev pub message_to :
    (WebhookEndpoint → WebhookDelivery → PostOutcome)
    → Option WebhookEndpoint
    → WebhookDelivery
    → Option String
message_to answer none row = some "endpoint not found"
message_to answer (some endpoint) row = error_of (answer endpoint row)

-- The column `last_error` has 2000 characters; a longer message makes the UPDATE fail, at the next
-- query or at the end.
unfoldable pub messages_fit : Poll → List WebhookEndpoint → List WebhookDelivery → Bool
messages_fit p endpoints [] = true
messages_fit p endpoints (row ∷ rows) =
    fits_text 2000
      (message_to p.answer (find_row (has_endpoint_id row.webhook_endpoint_id) endpoints) row)
    && messages_fit p endpoints rows

-- `_poll` as a transaction, or none where it raises and is rolled back.
unfoldable pub poll_transaction : Poll → Db → Option Db
poll_transaction p db =
    if messages_fit p db.webhook_endpoints (batch p db) then some (write_poll p db) else none

abbrev pub or_before : Db → Option Db → Db
or_before db none = db
or_before db (some db') = db'

-- The tables after `_poll`, whether it commits or is rolled back.
abbrev pub run_poll : Poll → Db → Db
run_poll p db = or_before db (poll_transaction p db)

abbrev pub run_polls : List Poll → Db → Db
run_polls [] db = db
run_polls (p ∷ ps) db = run_polls ps (run_poll p db)

pub transaction-commits :
    (p : Poll) (db : Db)
    → (poll_transaction p db ≡ none) ⊎ (poll_transaction p db ≡ some (write_poll p db))
unfolding poll_transaction
transaction-commits p db = elim (Bool-cases (messages_fit p db.webhook_endpoints (batch p db))) [
  | inl fit ↦ rw fit (inr refl)
  | inr long ↦ rw long (inl refl)
]

-- No endpoint answers a poll with an exception whose text is wider than the column.
abbrev pub IsBrief : Poll → Type 0
IsBrief p =
    (endpoint : WebhookEndpoint) (row : WebhookDelivery)
    → fits_text 2000 (error_of (p.answer endpoint row)) ≡ true

message-fits :
    (p : Poll) (endpoint : Option WebhookEndpoint) (row : WebhookDelivery)
    → IsBrief p
    → fits_text 2000 (message_to p.answer endpoint row) ≡ true
message-fits p none row brief = refl
message-fits p (some endpoint) row brief = brief endpoint row

brief-fit :
    (p : Poll) (endpoints : List WebhookEndpoint) (rows : List WebhookDelivery)
    → IsBrief p
    → messages_fit p endpoints rows ≡ true
unfolding messages_fit
brief-fit p endpoints [] brief = refl
brief-fit p endpoints (row ∷ rows) brief =
    rw
      (
        message-fits p (find_row (has_endpoint_id row.webhook_endpoint_id) endpoints) row brief,
        brief-fit p endpoints rows brief,
      )
      refl

-- A poll with brief answers commits.
pub run_poll-writes : (p : Poll) (db : Db) → IsBrief p → run_poll p db ≡ write_poll p db
unfolding poll_transaction
run_poll-writes p db brief = rw (brief-fit p db.webhook_endpoints (batch p db) brief) refl

pub run_polls-writes :
    (ps : List Poll) (db : Db) → All IsBrief ps → run_polls ps db ≡ write_polls ps db
run_polls-writes [] db brief = refl
run_polls-writes (p ∷ ps) db (first, brief) =
    rw (run_poll-writes p db first) (run_polls-writes ps (write_poll p db) brief)

Lacks-Pointwise :
    (id id' : ℕ) (xs ys : List WebhookDelivery)
    → id' ≡ id
    → Pointwise (λ x y. y.id ≡ x.id) xs ys
    → Lacks id xs
    → Lacks id' ys
Lacks-Pointwise id id' [] [] e r h = tt
Lacks-Pointwise id id' [] (y ∷ ys) e r h = absurd r
Lacks-Pointwise id id' (x ∷ xs) [] e r h = absurd r
Lacks-Pointwise id id' (x ∷ xs) (y ∷ ys) e (same, r) (ne, h) =
    (rw (same, e) ne, Lacks-Pointwise id id' xs ys e r h)

Distinct-Pointwise :
    (xs ys : List WebhookDelivery)
    → Pointwise (λ x y. y.id ≡ x.id) xs ys
    → Distinct xs
    → Distinct ys
Distinct-Pointwise [] [] r h = tt
Distinct-Pointwise [] (y ∷ ys) r h = absurd r
Distinct-Pointwise (x ∷ xs) [] r h = absurd r
Distinct-Pointwise (x ∷ xs) (y ∷ ys) (same, r) (first, h) =
    (Lacks-Pointwise x.id y.id xs ys same r first, Distinct-Pointwise xs ys r h)

-- A row of the outbox and what a poll has made of it.
abbrev pub PollMoved : Poll → Db → WebhookDelivery → WebhookDelivery → Type 0
PollMoved p db = Moved p.answer p.clock db.webhook_endpoints (takes p) (batch p db)

pub write_poll-Moved :
    (p : Poll) (db : Db)
    → Distinct db.webhook_deliveries
    → Pointwise (PollMoved p db) db.webhook_deliveries (write_poll p db).webhook_deliveries
write_poll-Moved p db h = poll-Moved p.answer p.clock p.locked db h

moved-id : (p : Poll) (db : Db) (x y : WebhookDelivery) → PollMoved p db x y → y.id ≡ x.id
moved-id p db x y (inl (_, e)) = ap (λ r. r.id) e
moved-id p db x y (inr (n, _, _, e)) =
    rw e (deliver-id p.answer p.clock (p.clock n) db.webhook_endpoints x)

pub write_poll-Distinct :
    (p : Poll) (db : Db)
    → Distinct db.webhook_deliveries
    → Distinct (write_poll p db).webhook_deliveries
write_poll-Distinct p db h =
    Distinct-Pointwise db.webhook_deliveries (write_poll p db).webhook_deliveries
      (Pointwise-map (PollMoved p db) (λ x y. y.id ≡ x.id) (moved-id p db) db.webhook_deliveries
        (write_poll p db).webhook_deliveries (write_poll-Moved p db h))
      h

pub write_polls-Distinct :
    (ps : List Poll) (db : Db)
    → Distinct db.webhook_deliveries
    → Distinct (write_polls ps db).webhook_deliveries
write_polls-Distinct [] db h = h
write_polls-Distinct (p ∷ ps) db h =
    write_polls-Distinct ps (write_poll p db) (write_poll-Distinct p db h)
