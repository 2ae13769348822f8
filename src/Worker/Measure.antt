-- ===== src/Worker/Measure.antt =====
-- How many attempts the rows of the outbox can still have, and that every poll which finds a row
-- to deliver uses up one at least.
use mathlib.Core.Path.{subst}
use tenant_billing_service.Base.{
  ℕ, suc, ◌+◌, ◌-◌, ◌≤◌, ◌<◌, ◌≡◌, refl, inl, inr, true, List, [], ◌∷◌, arith, ◌==◌, any, All,
  Bool-cases, Pointwise, ==_refl,
}
use tenant_billing_service.Model.Webhook.{WebhookDelivery}
use tenant_billing_service.Model.Db.{Db}
use tenant_billing_service.Worker.{has_delivery_id}
use tenant_billing_service.Worker.Delivery.{max_attempts, deliver}
use tenant_billing_service.Worker.Poll.{claim-All}
use tenant_billing_service.Worker.Moves.{Lacks, Distinct}
use tenant_billing_service.Worker.Runs.{
  Poll, takes, batch, write_poll, write_polls, PollMoved, write_poll-Moved, write_poll-Distinct,
}
use tenant_billing_service.Worker.Policy.{
  Phase, waiting, delivered, exhausted, Step, view, deliver-Step, due-pending,
}

-- The attempts that a row can still have; the last one is not taken away by the cap.
abbrev pub left : Phase → ℕ
left (waiting n) = suc (max_attempts - suc n)
left (delivered n) = 0
left (exhausted n) = 0

abbrev pub remaining : List WebhookDelivery → ℕ
remaining [] = 0
remaining (x ∷ xs) = left (view x) + remaining xs

Step-left : (x y : Phase) → Step x y → left y < left x
Step-left x y (Step.succeeds n) = omega arith
Step-left x y (Step.retries n few) = omega arith
Step-left x y (Step.gives_up n last) = omega arith
Step-left x y (Step.finds_no_endpoint n) = omega arith

module _ (p : Poll) (db : Db) where
  moved-left_lt :
      (x y : WebhookDelivery) (n : ℕ)
      → takes p x ≡ true
      → y ≡ deliver p.answer (p.clock n) db.webhook_endpoints x
      → left (view y) < left (view x)
  moved-left_lt x y n due e = rw e (
      Step-left (view x) (view (deliver p.answer (p.clock n) db.webhook_endpoints x))
        (deliver-Step p.answer (p.clock n) db.webhook_endpoints x (due-pending p x due)))

  moved-left_le : (x y : WebhookDelivery) → PollMoved p db x y → left (view y) ≤ left (view x)
  moved-left_le x y (inl (_, e)) = rw e (omega arith)
  moved-left_le x y (inr (n, _, due, e)) = omega (arith, moved-left_lt x y n due e)

  moved-remaining_le :
      (xs ys : List WebhookDelivery)
      → Pointwise (PollMoved p db) xs ys
      → remaining ys ≤ remaining xs
  moved-remaining_le [] [] h = omega arith
  moved-remaining_le [] (y ∷ ys) h = absurd h
  moved-remaining_le (x ∷ xs) [] h = absurd h
  moved-remaining_le (x ∷ xs) (y ∷ ys) (m, h) =
      omega (arith, moved-left_le x y m, moved-remaining_le xs ys h)

  batch-left_lt :
      (r : WebhookDelivery) (rest : List WebhookDelivery)
      → batch p db ≡ r ∷ rest
      → (x y : WebhookDelivery) → (x.id == r.id) ≡ true
      → PollMoved p db x y
      → left (view y) < left (view x)
  batch-left_lt r rest found x y same (inl (lacks, e)) =
      let lacks' = subst (λ rows. Lacks x.id rows) found lacks in ground (arith, lacks'.0)
  batch-left_lt r rest found x y same (inr (n, _, due, e)) = moved-left_lt x y n due e

  moved-remaining_lt :
      (r : WebhookDelivery) (rest : List WebhookDelivery)
      → batch p db ≡ r ∷ rest
      → (xs ys : List WebhookDelivery) → any (has_delivery_id r.id) xs ≡ true
      → Pointwise (PollMoved p db) xs ys
      → remaining ys < remaining xs
  moved-remaining_lt r rest found [] ys in_ h = cc
  moved-remaining_lt r rest found (x ∷ xs) [] in_ h = absurd h
  moved-remaining_lt r rest found (x ∷ xs) (y ∷ ys) in_ (m, h) = elim (Bool-cases (x.id == r.id)) [
    | inl same ↦ omega (arith, batch-left_lt r rest found x y same m, moved-remaining_le xs ys h)
    | inr other ↦
        omega
          (arith, moved-left_le x y m, moved-remaining_lt r rest found xs ys (rw other at in_) h)
  ]

any_self :
    (rows xs : List WebhookDelivery)
    → ((x : WebhookDelivery)
        → any (has_delivery_id x.id) xs ≡ true
        → any (has_delivery_id x.id) rows ≡ true)
    → All (λ x. any (has_delivery_id x.id) rows ≡ true) xs
any_self rows [] f = tt
any_self rows (x ∷ xs) f =
    (f x (rw (==_refl x.id) refl), any_self rows xs (λ y h. f y (ground arith)))

batch-in :
    (p : Poll) (db : Db) (r : WebhookDelivery) (rest : List WebhookDelivery)
    → batch p db ≡ r ∷ rest
    → any (has_delivery_id r.id) db.webhook_deliveries ≡ true
batch-in p db r rest found =
    let rows =
      claim-All (p.clock 0) p.locked db
        (λ x. any (has_delivery_id x.id) db.webhook_deliveries ≡ true)
        (any_self db.webhook_deliveries db.webhook_deliveries (λ x h. h)) in
    (subst
      (All (λ x. (any (has_delivery_id x.id) db.webhook_deliveries ≡ true) × (takes p x ≡ true)))
      found rows).0.0

-- If no two rows of the outbox have the same identifier, then no poll adds to the attempts left.
pub write_poll-remaining_le :
    (p : Poll) (db : Db)
    → Distinct db.webhook_deliveries
    → remaining (write_poll p db).webhook_deliveries ≤ remaining db.webhook_deliveries
write_poll-remaining_le p db h =
    moved-remaining_le p db db.webhook_deliveries (write_poll p db).webhook_deliveries
      (write_poll-Moved p db h)

pub write_poll-remaining_lt :
    (p : Poll) (db : Db) (r : WebhookDelivery) (rest : List WebhookDelivery)
    → Distinct db.webhook_deliveries
    → batch p db ≡ r ∷ rest
    → remaining (write_poll p db).webhook_deliveries < remaining db.webhook_deliveries
write_poll-remaining_lt p db r rest h found =
    moved-remaining_lt p db r rest found db.webhook_deliveries (write_poll p db).webhook_deliveries
      (batch-in p db r rest found) (write_poll-Moved p db h)

pub write_polls-remaining_le :
    (ps : List Poll) (db : Db)
    → Distinct db.webhook_deliveries
    → remaining (write_polls ps db).webhook_deliveries ≤ remaining db.webhook_deliveries
write_polls-remaining_le [] db h = omega arith
write_polls-remaining_le (p ∷ ps) db h = omega (
  arith,
  write_poll-remaining_le p db h,
  write_polls-remaining_le ps (write_poll p db) (write_poll-Distinct p db h),
)
