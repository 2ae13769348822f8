-- ===== src/Worker/Poll.antt =====
-- The poll: which rows it takes, and what it does to the table.
use tenant_billing_service.Base.{
  ℕ, suc, ◌≤◌, ◌≡◌, refl, ◌∙◌, inl, inr, Bool, true, false, not, ◌&&◌, List, [], ◌∷◌, arith, ◌==◌,
  length, select, update_where, All, Bool-cases, length-take_le, sort_by, InOrder, All-take,
  All-sort, All-select, InOrder-take, InOrder-sort,
}
use tenant_billing_service.Model.Webhook.{WebhookDelivery, WebhookDeliveryStatus, WebhookEndpoint}
use tenant_billing_service.Model.Db.{Db}
use tenant_billing_service.Worker.{
  poll_limit, is_due, is_earlier, claim, has_delivery_id, write_delivery, deliver_each, poll,
}
use tenant_billing_service.Worker.Delivery.{PostOutcome, deliver}
use tenant_billing_service.Worker.Retry.{IsSound, deliver-IsSound}

is_earlier_total : (x y : WebhookDelivery) → is_earlier x y ≡ false → is_earlier y x ≡ true
is_earlier_total x y h = ground arith

is_earlier_trans :
    (x y z : WebhookDelivery)
    → is_earlier x y ≡ true
    → is_earlier y z ≡ true
    → is_earlier x z ≡ true
is_earlier_trans x y z h k = ground arith

pub claim_lem :
    (now : ℕ) (locked : WebhookDelivery → Bool) (db : Db)
    → let rows = claim now locked db in
      (length rows ≤ poll_limit)
      × All (λ row. (is_due now row ≡ true) × (locked row ≡ false)) rows
      × InOrder is_earlier rows
unfolding claim
claim_lem now locked db =
    let due = select (λ row. is_due now row && not (locked row)) db.webhook_deliveries in
    (
      length-take_le poll_limit (sort_by is_earlier due),
      All-take (λ row. (is_due now row ≡ true) × (locked row ≡ false)) poll_limit
          (sort_by is_earlier due)
          (All-sort is_earlier (λ row. (is_due now row ≡ true) × (locked row ≡ false)) due
            (All-select (λ row. (is_due now row ≡ true) × (locked row ≡ false))
              (λ row. is_due now row && not (locked row)) (λ x h. ground arith)
              db.webhook_deliveries)),
      InOrder-take is_earlier poll_limit (sort_by is_earlier due)
          (InOrder-sort is_earlier is_earlier_total is_earlier_trans due),
    )

All-and_select :
    (p : WebhookDelivery → Bool) (Q : WebhookDelivery → Type 0) (rows : List WebhookDelivery)
    → All Q rows
    → All (λ x. Q x × (p x ≡ true)) (select p rows)
All-and_select p Q [] h = tt
All-and_select p Q (x ∷ rows) (q, h) = elim (Bool-cases (p x)) [
  | inl yes_ ↦ rw yes_ ((q, yes_), All-and_select p Q rows h)
  | inr no_ ↦ rw no_ (All-and_select p Q rows h)
]

-- What holds of every row of the table holds of the claimed ones, and they are due.
pub claim-All :
    (now : ℕ) (locked : WebhookDelivery → Bool) (db : Db) (Q : WebhookDelivery → Type 0)
    → All Q db.webhook_deliveries
    → All (λ x. Q x × ((is_due now x && not (locked x)) ≡ true)) (claim now locked db)
unfolding claim
claim-All now locked db Q h =
    let p = λ (row : WebhookDelivery). is_due now row && not (locked row) in
    let R = λ (x : WebhookDelivery). Q x × (p x ≡ true) in
    All-take R poll_limit (sort_by is_earlier (select p db.webhook_deliveries)) (
      All-sort is_earlier R (select p db.webhook_deliveries)
        (All-and_select p Q db.webhook_deliveries h))

All-replace :
    (P : WebhookDelivery → Type 0) (id : ℕ) (y : WebhookDelivery) (rows : List WebhookDelivery)
    → P y
    → All P rows
    → All P (update_where (has_delivery_id id) (λ _. y) rows)
All-replace P id y [] p h = tt
All-replace P id y (x ∷ rows) p (q, h) = elim (Bool-cases (x.id == id)) [
  | inl same ↦ rw same (p, All-replace P id y rows p h)
  | inr other ↦ rw other (q, All-replace P id y rows p h)
]

module _ (answer : WebhookEndpoint → WebhookDelivery → PostOutcome) (clock : ℕ → ℕ) where
  deliver_each-IsSound :
      (n : ℕ) (rows : List WebhookDelivery) (db : Db)
      → All (λ x. (x.status ≡ WebhookDeliveryStatus.pending) × IsSound x) rows
      → All IsSound db.webhook_deliveries
      → All IsSound (deliver_each answer clock n rows db).webhook_deliveries
  unfolding deliver_each
  deliver_each-IsSound n [] db h sound = sound
  deliver_each-IsSound n (x ∷ rows) db ((waits, ok_), h) sound =
      let y = deliver answer (clock n) db.webhook_endpoints x in
      deliver_each-IsSound (suc n) rows (write_delivery y db) h (
        All-replace IsSound y.id y db.webhook_deliveries
          (deliver-IsSound answer (clock n) db.webhook_endpoints x waits ok_) sound)

  All-map :
      (P Q : WebhookDelivery → Type 0) (rows : List WebhookDelivery)
      → ((x : WebhookDelivery) → P x → Q x)
      → All P rows
      → All Q rows
  All-map P Q [] f h = tt
  All-map P Q (x ∷ rows) f (p, h) = (f x p, All-map P Q rows f h)

  due-pending :
      (locked : WebhookDelivery → Bool) (x : WebhookDelivery)
      → (is_due (clock 0) x && not (locked x)) ≡ true
      → x.status ≡ WebhookDeliveryStatus.pending
  due-pending locked x h = ground arith

  -- If every row of the outbox is sound, then it is after a poll, whatever the endpoints answer.
  pub poll-IsSound :
      (locked : WebhookDelivery → Bool) (db : Db)
      → All IsSound db.webhook_deliveries
      → All IsSound (poll answer clock locked db).webhook_deliveries
  unfolding poll
  poll-IsSound locked db sound =
      deliver_each-IsSound 1 (claim (clock 0) locked db) db
        (All-map (λ x. IsSound x × ((is_due (clock 0) x && not (locked x)) ≡ true))
          (λ x. (x.status ≡ WebhookDeliveryStatus.pending) × IsSound x) (claim (clock 0) locked db)
          (λ x h. (due-pending locked x h.1, h.0)) (claim-All (clock 0) locked db IsSound sound))
        sound

  pub deliver-id :
      (now : ℕ) (endpoints : List WebhookEndpoint) (x : WebhookDelivery)
      → (deliver answer now endpoints x).id ≡ x.id
  unfolding deliver
  deliver-id now endpoints x = ground arith

  select-replace_ne :
      (k id : ℕ) (y : WebhookDelivery) (rows : List WebhookDelivery)
      → y.id ≡ id
      → (id == k) ≡ false
      → select (has_delivery_id k) (update_where (has_delivery_id id) (λ _. y) rows)
        ≡ select (has_delivery_id k) rows
  select-replace_ne k id y [] e ne = refl
  select-replace_ne k id y (x ∷ rows) e ne = ground (arith, select-replace_ne k id y rows e ne)

  deliver_each_ne :
      (k n : ℕ) (rows : List WebhookDelivery) (db : Db)
      → All (λ x. (x.id == k) ≡ false) rows
      → select (has_delivery_id k) (deliver_each answer clock n rows db).webhook_deliveries
        ≡ select (has_delivery_id k) db.webhook_deliveries
  unfolding deliver_each
  deliver_each_ne k n [] db h = refl
  deliver_each_ne k n (x ∷ rows) db (ne, h) =
      let y = deliver answer (clock n) db.webhook_endpoints x in
      deliver_each_ne k (suc n) rows (write_delivery y db) h
      ∙ select-replace_ne k y.id y db.webhook_deliveries refl
          (rw (deliver-id (clock n) db.webhook_endpoints x) ne)

  not_due-ne :
      (k : ℕ) (locked : WebhookDelivery → Bool) (x : WebhookDelivery)
      → ((x.id == k) ≡ true → (is_due (clock 0) x && not (locked x)) ≡ false)
      → (is_due (clock 0) x && not (locked x)) ≡ true
      → (x.id == k) ≡ false
  not_due-ne k locked x idle due = elim (Bool-cases (x.id == k)) [
    | inl same ↦ cc (idle same)
    | inr other ↦ other
  ]

  -- If the rows of an identifier are not due, or are held by another worker, then a poll leaves
  -- them as they are: a delivered or exhausted row is final.
  poll-leaves :
      (locked : WebhookDelivery → Bool) (db : Db) (k : ℕ)
      → All
          (λ x. (x.id == k) ≡ true → (is_due (clock 0) x && not (locked x)) ≡ false)
          db.webhook_deliveries
      → select (has_delivery_id k) (poll answer clock locked db).webhook_deliveries
        ≡ select (has_delivery_id k) db.webhook_deliveries
  unfolding poll
  poll-leaves locked db k idle = deliver_each_ne k 1 (claim (clock 0) locked db) db (
      All-map
        (λ x.
          ((x.id == k) ≡ true → (is_due (clock 0) x && not (locked x)) ≡ false)
          × ((is_due (clock 0) x && not (locked x)) ≡ true))
        (λ x. (x.id == k) ≡ false) (claim (clock 0) locked db)
        (λ x h. not_due-ne k locked x h.0 h.1)
        (claim-All (clock 0) locked db
          (λ x. (x.id == k) ≡ true → (is_due (clock 0) x && not (locked x)) ≡ false) idle))
