-- ===== src/Worker/Delivers.antt =====
-- A working endpoint gets its rows.
use mathlib.Core.Path.{subst, sym}
use tenant_billing_service.Base.{
  ℕ, ◌≡◌, refl, ◌⊎◌, ◌≤◌, inl, inr, true, false, none, some, List, [], ◌∷◌, ◌∙◌, arith, find_row,
  length, All, Bool-cases, Pointwise, Pointwise-refl, Pointwise-trans,
}
use tenant_billing_service.Model.Webhook.{WebhookDelivery, WebhookDeliveryStatus, WebhookEndpoint}
use tenant_billing_service.Model.Db.{Db}
use tenant_billing_service.Worker.{is_waiting, claim, poll}
use tenant_billing_service.Worker.Delivery.{PostOutcome, error_of, has_endpoint_id, deliver}
use tenant_billing_service.Worker.Moves.{Distinct}
use tenant_billing_service.Worker.Overlap.{endpoints-same}
use tenant_billing_service.Worker.Runs.{
  Poll, IsBrief, takes, write_poll, write_polls, PollMoved, write_poll-Moved, write_poll-Distinct,
}
use tenant_billing_service.Worker.Measure.{remaining}
use tenant_billing_service.Worker.Drain.{any_pending, DueSoon}
use tenant_billing_service.Worker.Rounds.{
  Round, write_round, write_rounds, run_rounds, RoundIsBrief, run_rounds-writes, Timely,
  write_rounds-drains,
}

-- A poll in which every endpoint answers with a 2xx status.
abbrev pub Succeeds : Poll → Type 0
Succeeds p =
    (endpoint : WebhookEndpoint) (row : WebhookDelivery) → error_of (p.answer endpoint row) ≡ none

-- The endpoint of a pending row stands in the table.
abbrev pub HasEndpoint : List WebhookEndpoint → WebhookDelivery → Type 0
HasEndpoint endpoints row =
    is_waiting row.status ≡ true
    → (endpoint : WebhookEndpoint) × (find_row (has_endpoint_id row.webhook_endpoint_id) endpoints
        ≡ some endpoint)

abbrev Reached : WebhookDelivery → WebhookDelivery → Type 0
Reached x y = (y ≡ x) ⊎ (y.status ≡ WebhookDeliveryStatus.delivered)

deliver-delivered :
    (answer : WebhookEndpoint → WebhookDelivery → PostOutcome) (now : ℕ)
    (endpoints : List WebhookEndpoint) (row : WebhookDelivery) (endpoint : WebhookEndpoint)
    → find_row (has_endpoint_id row.webhook_endpoint_id) endpoints ≡ some endpoint
    → error_of (answer endpoint row) ≡ none
    → (deliver answer now endpoints row).status ≡ WebhookDeliveryStatus.delivered
unfolding deliver
deliver-delivered answer now endpoints row endpoint found fine = rw (found, fine) refl

takes-waiting : (p : Poll) (x : WebhookDelivery) → takes p x ≡ true → is_waiting x.status ≡ true
takes-waiting p x h = ground arith

module _ (p : Poll) (fine : Succeeds p) (db : Db) where
  moved-Reached :
      (x y : WebhookDelivery)
      → HasEndpoint db.webhook_endpoints x
      → PollMoved p db x y
      → Reached x y
  moved-Reached x y has_endpoint (inl (_, e)) = inl e
  moved-Reached x y has_endpoint (inr (n, _, taken, e)) =
      let (endpoint, found) = has_endpoint (takes-waiting p x taken) in
      inr (
        rw e (
          deliver-delivered p.answer (p.clock n) db.webhook_endpoints x endpoint found
            (fine endpoint x)))

  all-Reached :
      (xs ys : List WebhookDelivery)
      → All (HasEndpoint db.webhook_endpoints) xs
      → Pointwise (PollMoved p db) xs ys
      → Pointwise Reached xs ys
  all-Reached [] [] has moved = tt
  all-Reached [] (y ∷ ys) has moved = absurd moved
  all-Reached (x ∷ xs) [] has moved = absurd moved
  all-Reached (x ∷ xs) (y ∷ ys) (first, has) (m, moved) =
      (moved-Reached x y first m, all-Reached xs ys has moved)

Reached-HasEndpoint :
    (endpoints : List WebhookEndpoint) (xs ys : List WebhookDelivery)
    → Pointwise Reached xs ys
    → All (HasEndpoint endpoints) xs
    → All (HasEndpoint endpoints) ys
Reached-HasEndpoint endpoints [] [] r h = tt
Reached-HasEndpoint endpoints [] (y ∷ ys) r h = absurd r
Reached-HasEndpoint endpoints (x ∷ xs) [] r h = absurd r
Reached-HasEndpoint endpoints (x ∷ xs) (y ∷ ys) (inl e, r) (first, h) =
    (subst (HasEndpoint endpoints) (sym e) first, Reached-HasEndpoint endpoints xs ys r h)
Reached-HasEndpoint endpoints (x ∷ xs) (y ∷ ys) (inr done, r) (first, h) =
    ((λ waits. cc (rw done at waits)), Reached-HasEndpoint endpoints xs ys r h)

Reached-trans : (x y z : WebhookDelivery) → Reached x y → Reached y z → Reached x z
Reached-trans x y z (inl e) (inl f) = inl (f ∙ e)
Reached-trans x y z (inr done) (inl f) = inr (rw f done)
Reached-trans x y z r (inr done) = inr done

-- What stays as it is over a poll: distinct rows, endpoints for them, and each row or its delivery.
record Stays (db db' : Db) : Type 0 where
  distinct : Distinct db'.webhook_deliveries
  endpoints : db'.webhook_endpoints ≡ db.webhook_endpoints
  has_endpoint : All (HasEndpoint db'.webhook_endpoints) db'.webhook_deliveries
  reached : Pointwise Reached db.webhook_deliveries db'.webhook_deliveries

Stays-trans : (x y z : Db) → Stays x y → Stays y z → Stays x z
Stays-trans x y z a b = record {
  distinct = b.distinct;
  endpoints = b.endpoints ∙ a.endpoints;
  has_endpoint = b.has_endpoint;
  reached =
      Pointwise-trans Reached Reached Reached Reached-trans x.webhook_deliveries
        y.webhook_deliveries z.webhook_deliveries a.reached b.reached;
}

module _ (db : Db) (h : Distinct db.webhook_deliveries)
    (has : All (HasEndpoint db.webhook_endpoints) db.webhook_deliveries) where
  Stays-refl : Stays db db
  Stays-refl = record {
    distinct = h;
    endpoints = refl;
    has_endpoint = has;
    reached = Pointwise-refl Reached (λ x. inl refl) db.webhook_deliveries;
  }

  poll-Stays : (p : Poll) → Succeeds p → Stays db (write_poll p db)
  unfolding poll
  poll-Stays p fine =
      let db' = write_poll p db in
      let reached =
        all-Reached p fine db db.webhook_deliveries db'.webhook_deliveries has
          (write_poll-Moved p db h) in
      let same = endpoints-same p.answer p.clock 1 (claim (p.clock 0) p.locked db) db in
      record {
        distinct = write_poll-Distinct p db h;
        endpoints = same;
        has_endpoint =
            subst (λ endpoints. All (HasEndpoint endpoints) db'.webhook_deliveries) (sym same)
              (Reached-HasEndpoint db.webhook_endpoints db.webhook_deliveries db'.webhook_deliveries
                reached has);
        reached = reached;
      }

polls-Stays :
    (ps : List Poll) (db : Db)
    → Distinct db.webhook_deliveries
    → All (HasEndpoint db.webhook_endpoints) db.webhook_deliveries
    → All Succeeds ps
    → Stays db (write_polls ps db)
polls-Stays [] db h has fine = Stays-refl db h has
polls-Stays (p ∷ ps) db h has (first, fine) =
    let s = poll-Stays db h has p first in
    Stays-trans db (write_poll p db) (write_polls ps (write_poll p db)) s
      (polls-Stays ps (write_poll p db) s.distinct s.has_endpoint fine)

abbrev pub RoundSucceeds : Round → Type 0
RoundSucceeds r = All Succeeds r.polls × Succeeds r.last

rounds-Stays :
    (rs : List Round) (db : Db)
    → Distinct db.webhook_deliveries
    → All (HasEndpoint db.webhook_endpoints) db.webhook_deliveries
    → All RoundSucceeds rs
    → Stays db (write_rounds rs db)
rounds-Stays [] db h has fine = Stays-refl db h has
rounds-Stays (r ∷ rs) db h has ((polls, last), fine) =
    let db' = write_polls r.polls db in
    let s = polls-Stays r.polls db h has polls in
    let s' =
      Stays-trans db db' (write_poll r.last db') s
        (poll-Stays db' s.distinct s.has_endpoint r.last last) in
    Stays-trans db (write_round r db) (write_rounds rs (write_round r db)) s'
      (rounds-Stays rs (write_round r db) s'.distinct s'.has_endpoint fine)

-- A row that was pending is delivered.
abbrev pub GetsThere : WebhookDelivery → WebhookDelivery → Type 0
GetsThere x y = is_waiting x.status ≡ true → y.status ≡ WebhookDeliveryStatus.delivered

settled-GetsThere :
    (xs ys : List WebhookDelivery)
    → Pointwise Reached xs ys
    → any_pending ys ≡ false
    → Pointwise GetsThere xs ys
settled-GetsThere [] [] r h = tt
settled-GetsThere [] (y ∷ ys) r h = absurd r
settled-GetsThere (x ∷ xs) [] r h = absurd r
settled-GetsThere (x ∷ xs) (y ∷ ys) (r, rest) h = elim (Bool-cases (is_waiting y.status)) [
  | inl waits ↦ cc (rw waits at h)
  | inr idle ↦ (gets_there r idle, settled-GetsThere xs ys rest (rw idle at h))
]
  where
    gets_there : Reached x y → is_waiting y.status ≡ false → GetsThere x y
    gets_there (inl e) idle waits = cc (subst (λ z. is_waiting z.status ≡ false) e idle)
    gets_there (inr done) idle waits = done

Succeeds-IsBrief : (p : Poll) → Succeeds p → IsBrief p
Succeeds-IsBrief p fine endpoint row = rw (fine endpoint row) refl

succeed-IsBrief : (ps : List Poll) → All Succeeds ps → All IsBrief ps
succeed-IsBrief [] fine = tt
succeed-IsBrief (p ∷ ps) (first, fine) = (Succeeds-IsBrief p first, succeed-IsBrief ps fine)

rounds-IsBrief : (rs : List Round) → All RoundSucceeds rs → All RoundIsBrief rs
rounds-IsBrief [] fine = tt
rounds-IsBrief (r ∷ rs) ((polls, last), fine) =
    ((succeed-IsBrief r.polls polls, Succeeds-IsBrief r.last last), rounds-IsBrief rs fine)

-- If no two rows of the outbox have the same identifier, the endpoints of the pending rows stand in
-- the table and answer every request with a 2xx status, every pending row is due 625 s after the
-- time t at the latest, and the worker polls on in rounds of which each has a poll that begins
-- 625 s after the round before or later and finds no row held by another worker, at least as many
-- rounds as the pending rows have attempts left, then every row that was pending is delivered.
pub run_rounds-delivers :
    (rs : List Round) (t : ℕ) (db : Db)
    → Distinct db.webhook_deliveries
    → All (HasEndpoint db.webhook_endpoints) db.webhook_deliveries
    → All RoundSucceeds rs
    → All (DueSoon t) db.webhook_deliveries
    → Timely t rs
    → remaining db.webhook_deliveries ≤ length rs
    → Pointwise GetsThere db.webhook_deliveries (run_rounds rs db).webhook_deliveries
run_rounds-delivers rs t db h has fine soon timely few =
    rw (run_rounds-writes rs db (rounds-IsBrief rs fine)) (
      settled-GetsThere db.webhook_deliveries (write_rounds rs db).webhook_deliveries
        (rounds-Stays rs db h has fine).reached (write_rounds-drains rs t db h soon timely few))
