-- ===== src/Worker/Overlap.antt =====
-- Two workers at the same time: what SKIP LOCKED gives the second, and that the order of their
-- writes does not matter.
use mathlib.Core.Path.{subst, sym}
use tenant_billing_service.Base.{
  ℕ, suc, ◌≡◌, refl, ap, ◌∙◌, inl, inr, Bool, true, false, List, [], ◌∷◌, arith, ◌==◌, any,
  update_where, All, Bool-cases,
}
use tenant_billing_service.Model.Webhook.{WebhookDelivery, WebhookEndpoint}
use tenant_billing_service.Model.Db.{Db}
use tenant_billing_service.Worker.{is_due, claim, has_delivery_id, write_delivery, deliver_each}
use tenant_billing_service.Worker.Delivery.{PostOutcome, deliver}
use tenant_billing_service.Worker.Poll.{claim_lem, deliver-id}
use tenant_billing_service.Worker.Moves.{Lacks}

-- The rows that a worker holds after its SELECT ... FOR UPDATE.
abbrev pub held_by : List WebhookDelivery → WebhookDelivery → Bool
held_by batch row = any (has_delivery_id row.id) batch

not_held :
    (batch : List WebhookDelivery) (row : WebhookDelivery)
    → held_by batch row ≡ false
    → Lacks row.id batch
not_held [] row h = tt
not_held (x ∷ batch) row h = elim (Bool-cases (x.id == row.id)) [
  | inl same ↦ cc (rw same at h)
  | inr other ↦ (other, not_held batch row (rw other at h))
]

all_not_held :
    (now : ℕ) (batch rows : List WebhookDelivery)
    → All (λ row. (is_due now row ≡ true) × (held_by batch row ≡ false)) rows
    → All (λ row. Lacks row.id batch) rows
all_not_held now batch [] h = tt
all_not_held now batch (x ∷ rows) ((_, free), h) =
    (not_held batch x free, all_not_held now batch rows h)

writes-commute :
    (x y : WebhookDelivery) (rows : List WebhookDelivery)
    → (x.id == y.id) ≡ false
    → update_where
        (has_delivery_id x.id)
        (λ _. x)
        (update_where (has_delivery_id y.id) (λ _. y) rows)
      ≡ update_where
          (has_delivery_id y.id)
          (λ _. y)
          (update_where (has_delivery_id x.id) (λ _. x) rows)
writes-commute x y [] ne = refl
writes-commute x y (z ∷ rows) ne = elim (Bool-cases (z.id == y.id)) [
  | inl to_y ↦ ground (arith, writes-commute x y rows ne)
  | inr not_y ↦ elim (Bool-cases (z.id == x.id)) [
    | inl to_x ↦ ground (arith, writes-commute x y rows ne)
    | inr not_x ↦ ground (arith, writes-commute x y rows ne)
  ]
]

apart : (y x x' : WebhookDelivery) → x'.id ≡ x.id → (x.id == y.id) ≡ false → (y.id == x'.id) ≡ false
apart y x x' same ne = rw same (ground arith)

module _ (answer : WebhookEndpoint → WebhookDelivery → PostOutcome) (clock : ℕ → ℕ) where
  -- A row that is in no batch can be written before a batch or after it.
  write-deliver_each :
      (y : WebhookDelivery) (n : ℕ) (rows : List WebhookDelivery) (db : Db)
      → Lacks y.id rows
      → write_delivery y (deliver_each answer clock n rows db)
        ≡ deliver_each answer clock n rows (write_delivery y db)
  unfolding deliver_each
  write-deliver_each y n [] db h = refl
  write-deliver_each y n (x ∷ rows) db (ne, h) =
      let x' = deliver answer (clock n) db.webhook_endpoints x in
      write-deliver_each y (suc n) rows (write_delivery x' db) h
      ∙ ap (deliver_each answer clock (suc n) rows) (
          ap (λ (deliveries : List WebhookDelivery). record db { webhook_deliveries = deliveries })
            (writes-commute y x' db.webhook_deliveries
              (apart y x x' (deliver-id answer clock (clock n) db.webhook_endpoints x) ne)))

  pub endpoints-same :
      (n : ℕ) (rows : List WebhookDelivery) (db : Db)
      → (deliver_each answer clock n rows db).webhook_endpoints ≡ db.webhook_endpoints
  unfolding deliver_each
  endpoints-same n [] db = refl
  endpoints-same n (x ∷ rows) db =
      endpoints-same (suc n) rows
        (write_delivery (deliver answer (clock n) db.webhook_endpoints x) db)

module _ (answer answer' : WebhookEndpoint → WebhookDelivery → PostOutcome)
    (clock clock' : ℕ → ℕ) where
  batches-commute :
      (n m : ℕ) (rows rows' : List WebhookDelivery) (db : Db)
      → All (λ row. Lacks row.id rows) rows'
      → deliver_each answer' clock' m rows' (deliver_each answer clock n rows db)
        ≡ deliver_each answer clock n rows (deliver_each answer' clock' m rows' db)
  unfolding deliver_each
  batches-commute n m rows [] db h = refl
  batches-commute n m rows (x ∷ rows') db (free, h) =
      let x' = deliver answer' (clock' m) db.webhook_endpoints x in
      let lacks =
        subst (λ id. Lacks id rows)
          (sym (deliver-id answer' clock' (clock' m) db.webhook_endpoints x)) free in
      let db' = deliver_each answer clock n rows db in
      ap
        (λ endpoints.
          deliver_each answer' clock' (suc m) rows'
            (write_delivery (deliver answer' (clock' m) endpoints x) db'))
        (endpoints-same answer clock n rows db)
      ∙ (ap (deliver_each answer' clock' (suc m) rows')
            (write-deliver_each answer clock x' n rows db lacks)
          ∙ batches-commute n (suc m) rows rows' (write_delivery x' db) h)

  -- On any tables, if a second worker selects its batch while a first one holds the rows of its own,
  -- then no row is in both batches, and whichever of the two writes first, the tables are the same
  -- in the end.
  pub overlap-commutes :
      (db : Db)
      → let batch = claim (clock 0) (λ _. false) db in
        let batch' = claim (clock' 0) (held_by batch) db in
        All (λ row. Lacks row.id batch) batch'
        × (deliver_each answer' clock' 1 batch' (deliver_each answer clock 1 batch db)
            ≡ deliver_each answer clock 1 batch (deliver_each answer' clock' 1 batch' db))
  overlap-commutes db =
      let batch = claim (clock 0) (λ _. false) db in
      let batch' = claim (clock' 0) (held_by batch) db in
      let (_, taken, _) = claim_lem (clock' 0) (held_by batch) db in
      let disjoint = all_not_held (clock' 0) batch batch' taken in
      (disjoint, batches-commute 1 1 batch batch' db disjoint)
