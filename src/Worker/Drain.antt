-- ===== src/Worker/Drain.antt =====
-- That the outbox drains: polls that go on long enough leave no row pending.
use mathlib.Core.Path.{subst, sym}
use Prim.Native.Nat.{min}
use tenant_billing_service.Base.{
  ℕ, zero, suc, ◌+◌, ◌≤◌, ◌<◌, ◌≡◌, refl, inl, inr, Bool, true, false, none, some, Option, List, [],
  ◌∷◌, arith, leb, select, any, length, take, sort_by, length-sort, All, Bool-cases, Pointwise,
  any-select, find_row, String, ◌⊎◌,
}
use tenant_billing_service.Model.Webhook.{WebhookDelivery, WebhookEndpoint}
use tenant_billing_service.Model.Db.{Db}
use tenant_billing_service.Worker.{poll_limit, is_waiting, is_earlier, claim, deliver_each, poll}
use tenant_billing_service.Worker.Delivery.{
  PostOutcome, error_of, backoff, max_attempts, has_endpoint_id, after_post, deliver_to, deliver,
}
use tenant_billing_service.Worker.Moves.{Distinct}
use tenant_billing_service.Worker.Runs.{Poll, takes, batch, write_poll, PollMoved, write_poll-Moved}
use tenant_billing_service.Worker.Policy.{view}
use tenant_billing_service.Worker.Measure.{left, remaining}

abbrev pub longest_backoff : ℕ
longest_backoff = 625

abbrev pub any_pending : List WebhookDelivery → Bool
any_pending rows = any (λ x. is_waiting x.status) rows

-- Every pending row is due so long after the time at most.
abbrev pub DueSoon : ℕ → WebhookDelivery → Type 0
DueSoon t x =
    is_waiting x.status ≡ true → (s : ℕ) × (x.next_attempt_at ≡ some s) × (s ≤ t + longest_backoff)

last_index : (n : ℕ) → min (suc (suc (suc (suc n)))) 4 ≡ 4
last_index n = omega arith

backoff_le : (n : ℕ) → backoff n ≤ longest_backoff
unfolding backoff
backoff_le zero = omega arith
backoff_le (suc zero) = omega arith
backoff_le (suc (suc zero)) = omega arith
backoff_le (suc (suc (suc zero))) = omega arith
backoff_le (suc (suc (suc (suc n)))) = rw (last_index n) (omega arith)

post-DueSoon :
    (t now : ℕ) (error_msg : Option String) (row : WebhookDelivery)
    → now ≤ t
    → DueSoon t (after_post now error_msg row)
post-DueSoon t now none row early waits = cc
post-DueSoon t now (some message) row early waits =
    elim (Bool-cases (leb max_attempts (row.attempts + 1))) [
      | inl last ↦ cc (rw last at waits)
      | inr more ↦
          rw more
            (now + backoff (row.attempts + 1), refl, omega (arith, backoff_le (row.attempts + 1)))
    ]

deliver_to-DueSoon :
    (answer : WebhookEndpoint → WebhookDelivery → PostOutcome) (t now : ℕ)
    (endpoint : Option WebhookEndpoint) (row : WebhookDelivery)
    → now ≤ t
    → DueSoon t (deliver_to answer now endpoint row)
deliver_to-DueSoon answer t now none row early waits = cc
deliver_to-DueSoon answer t now (some endpoint) row early waits =
    post-DueSoon t now (error_of (answer endpoint row)) row early waits

deliver-DueSoon :
    (answer : WebhookEndpoint → WebhookDelivery → PostOutcome) (t now : ℕ)
    (endpoints : List WebhookEndpoint) (row : WebhookDelivery)
    → now ≤ t
    → DueSoon t (deliver answer now endpoints row)
unfolding deliver
deliver-DueSoon answer t now endpoints row early =
    deliver_to-DueSoon answer t now (find_row (has_endpoint_id row.webhook_endpoint_id) endpoints)
      row early

module _ (p : Poll) (db : Db) (t t' : ℕ) (later : t ≤ t') (early : (n : ℕ) → p.clock n ≤ t') where
  moved-DueSoon : (x y : WebhookDelivery) → DueSoon t x → PollMoved p db x y → DueSoon t' y
  moved-DueSoon x y soon (inl (_, e)) =
      subst (DueSoon t') (sym e) (λ waits. let (s, at, le) = soon waits in (s, at, omega arith))
  moved-DueSoon x y soon (inr (n, _, _, e)) =
      subst (DueSoon t') (sym e)
        (deliver-DueSoon p.answer t' (p.clock n) db.webhook_endpoints x (early n))

  moved-All-DueSoon :
      (xs ys : List WebhookDelivery)
      → Pointwise (PollMoved p db) xs ys
      → All (DueSoon t) xs
      → All (DueSoon t') ys
  moved-All-DueSoon [] [] h soon = tt
  moved-All-DueSoon [] (y ∷ ys) h soon = absurd h
  moved-All-DueSoon (x ∷ xs) [] h soon = absurd h
  moved-All-DueSoon (x ∷ xs) (y ∷ ys) (m, h) (first, soon) =
      (moved-DueSoon x y first m, moved-All-DueSoon xs ys h soon)

  pub write_poll-DueSoon :
      Distinct db.webhook_deliveries
      → All (DueSoon t) db.webhook_deliveries
      → All (DueSoon t') (write_poll p db).webhook_deliveries
  write_poll-DueSoon h soon =
      moved-All-DueSoon db.webhook_deliveries (write_poll p db).webhook_deliveries
        (write_poll-Moved p db h) soon

module _ (p : Poll) (t : ℕ) (late : t + longest_backoff ≤ p.clock 0)
    (free : (row : WebhookDelivery) → p.locked row ≡ false) where
  late-takes : (x : WebhookDelivery) → DueSoon t x → is_waiting x.status ≡ true → takes p x ≡ true
  late-takes x soon waits = let (s, at, le) = soon waits in rw (free x, waits, at) (ground arith)

  pub any-takes :
      (rows : List WebhookDelivery)
      → All (DueSoon t) rows
      → any_pending rows ≡ true
      → any (takes p) rows ≡ true
  any-takes [] soon waits = waits
  any-takes (x ∷ xs) (first, soon) waits = elim (Bool-cases (is_waiting x.status)) [
    | inl yes_ ↦ rw (late-takes x first yes_) refl
    | inr no_ ↦ elim (Bool-cases (takes p x)) [
      | inl due ↦ rw due refl
      | inr idle ↦ rw idle (any-takes xs soon (rw no_ at waits))
    ]
  ]

pub List-cases :
    (rows : List WebhookDelivery)
    → (rows ≡ []) ⊎ ((r : WebhookDelivery) × (rest : List WebhookDelivery) × (rows ≡ r ∷ rest))
List-cases [] = inl refl
List-cases (x ∷ xs) = inr (x, xs, refl)

take-empty : (rows : List WebhookDelivery) → take poll_limit rows ≡ [] → length rows ≡ 0
take-empty [] h = refl
take-empty (x ∷ xs) h = cc

length-empty : (rows : List WebhookDelivery) → length rows ≡ 0 → rows ≡ []
length-empty [] h = refl
length-empty (x ∷ xs) h = absurd (omega arith)

-- A poll that takes no row had none to take.
pub batch-empty :
    (p : Poll) (db : Db) → batch p db ≡ [] → any (takes p) db.webhook_deliveries ≡ false
unfolding claim
batch-empty p db h =
    let due = select (takes p) db.webhook_deliveries in
    any-select (takes p) db.webhook_deliveries (
      length-empty due
        (omega (arith, take-empty (sort_by is_earlier due) h, length-sort is_earlier due)))

pub poll-idle : (p : Poll) (db : Db) → batch p db ≡ [] → write_poll p db ≡ db
unfolding poll deliver_each
poll-idle p db h = rw h refl

waits-left : (x : WebhookDelivery) → is_waiting x.status ≡ true → 0 < left (view x)
waits-left x h = ground arith

pub none_left : (rows : List WebhookDelivery) → remaining rows ≡ 0 → any_pending rows ≡ false
none_left [] h = refl
none_left (x ∷ xs) h = elim (Bool-cases (is_waiting x.status)) [
  | inl yes_ ↦ absurd (omega (arith, waits-left x yes_))
  | inr no_ ↦ rw no_ (none_left xs (omega arith))
]

settled-left : (x : WebhookDelivery) → is_waiting x.status ≡ false → left (view x) ≡ 0
settled-left x h = ground arith

pub all_settled : (rows : List WebhookDelivery) → any_pending rows ≡ false → remaining rows ≡ 0
all_settled [] h = refl
all_settled (x ∷ xs) h = elim (Bool-cases (is_waiting x.status)) [
  | inl yes_ ↦ cc (rw yes_ at h)
  | inr no_ ↦ omega (arith, settled-left x no_, all_settled xs (rw no_ at h))
]
