-- ===== src/Worker/Moves.antt =====
-- What a poll makes of each row of the outbox.
use mathlib.Core.Path.{subst}
use tenant_billing_service.Base.{
  ℕ, zero, suc, ◌≡◌, refl, ◌∙◌, ◌⊎◌, inl, inr, Bool, true, false, not, ◌&&◌, List, [], ◌∷◌, arith,
  ◌==◌, select, update_where, All, Bool-cases, sort_by, insert_by, take, All-take, All-sort,
  Pointwise, Pointwise-refl, Pointwise-trans, ==_refl,
}
use tenant_billing_service.Model.Webhook.{WebhookDelivery, WebhookEndpoint}
use tenant_billing_service.Model.Db.{Db}
use tenant_billing_service.Worker.{
  poll_limit, is_due, is_earlier, claim, has_delivery_id, write_delivery, deliver_each, poll,
}
use tenant_billing_service.Worker.Delivery.{PostOutcome, deliver}
use tenant_billing_service.Worker.Poll.{claim-All, deliver-id}

-- No row of the list has the identifier, and no two rows have the same one.
abbrev pub Lacks : ℕ → List WebhookDelivery → Type 0
Lacks id rows = All (λ x. (x.id == id) ≡ false) rows

abbrev pub Distinct : List WebhookDelivery → Type 0
Distinct [] = Unit
Distinct (x ∷ xs) = Lacks x.id xs × Distinct xs

-- Whatever has the identifier of the row is that row.
abbrev pub Only : List WebhookDelivery → WebhookDelivery → Type 0
Only rows row = All (λ x. (x.id == row.id) ≡ true → x ≡ row) rows

Distinct-take : (n : ℕ) (rows : List WebhookDelivery) → Distinct rows → Distinct (take n rows)
Distinct-take zero rows h = tt
Distinct-take (suc n) [] h = tt
Distinct-take (suc n) (x ∷ xs) (first, h) =
    (All-take (λ y. (y.id == x.id) ≡ false) n xs first, Distinct-take n xs h)

Lacks-select :
    (id : ℕ) (p : WebhookDelivery → Bool) (rows : List WebhookDelivery)
    → Lacks id rows
    → Lacks id (select p rows)
Lacks-select id p [] h = tt
Lacks-select id p (x ∷ xs) (q, h) = elim (Bool-cases (p x)) [
  | inl yes_ ↦ rw yes_ (q, Lacks-select id p xs h)
  | inr no_ ↦ rw no_ (Lacks-select id p xs h)
]

Distinct-select :
    (p : WebhookDelivery → Bool) (rows : List WebhookDelivery)
    → Distinct rows
    → Distinct (select p rows)
Distinct-select p [] h = tt
Distinct-select p (x ∷ xs) (first, h) = elim (Bool-cases (p x)) [
  | inl yes_ ↦ rw yes_ (Lacks-select x.id p xs first, Distinct-select p xs h)
  | inr no_ ↦ rw no_ (Distinct-select p xs h)
]

other_way : (x y : WebhookDelivery) → (x.id == y.id) ≡ false → (y.id == x.id) ≡ false
other_way x y h = ground arith

Lacks-insert :
    (id : ℕ) (x : WebhookDelivery) (rows : List WebhookDelivery)
    → (x.id == id) ≡ false
    → Lacks id rows
    → Lacks id (insert_by is_earlier x rows)
unfolding insert_by
Lacks-insert id x [] p h = (p, tt)
Lacks-insert id x (y ∷ ys) p (q, h) = elim (Bool-cases (is_earlier x y)) [
  | inl first ↦ rw first (p, (q, h))
  | inr later ↦ rw later (q, Lacks-insert id x ys p h)
]

Distinct-insert :
    (x : WebhookDelivery) (rows : List WebhookDelivery)
    → Lacks x.id rows
    → Distinct rows
    → Distinct (insert_by is_earlier x rows)
unfolding insert_by
Distinct-insert x [] new_ h = (tt, tt)
Distinct-insert x (y ∷ ys) (ne, new_) (first, h) = elim (Bool-cases (is_earlier x y)) [
  | inl before ↦ rw before ((ne, new_), (first, h))
  | inr later ↦
      rw later (Lacks-insert y.id x ys (other_way y x ne) first, Distinct-insert x ys new_ h)
]

Distinct-sort : (rows : List WebhookDelivery) → Distinct rows → Distinct (sort_by is_earlier rows)
unfolding sort_by
Distinct-sort [] h = tt
Distinct-sort (x ∷ xs) (first, h) =
    Distinct-insert x (sort_by is_earlier xs)
      (All-sort is_earlier (λ y. (y.id == x.id) ≡ false) xs first) (Distinct-sort xs h)

claim-Distinct :
    (now : ℕ) (locked : WebhookDelivery → Bool) (db : Db)
    → Distinct db.webhook_deliveries
    → Distinct (claim now locked db)
unfolding claim
claim-Distinct now locked db h =
    let due = select (λ row. is_due now row && not (locked row)) db.webhook_deliveries in
    Distinct-take poll_limit (sort_by is_earlier due) (
      Distinct-sort due
        (Distinct-select (λ row. is_due now row && not (locked row)) db.webhook_deliveries h))

Only-rest :
    (x : WebhookDelivery) (xs rows : List WebhookDelivery)
    → Lacks x.id rows
    → All (Only xs) rows
    → All (Only (x ∷ xs)) rows
Only-rest x xs [] new_ h = tt
Only-rest x xs (y ∷ ys) (ne, new_) (only, h) =
    (((λ same. cc (other_way y x ne)), only), Only-rest x xs ys new_ h)

Only-missing : (x : WebhookDelivery) (xs : List WebhookDelivery) → Lacks x.id xs → Only xs x
Only-missing x [] h = tt
Only-missing x (y ∷ ys) (ne, h) = ((λ same. cc), Only-missing x ys h)

Distinct-Only : (rows : List WebhookDelivery) → Distinct rows → All (Only rows) rows
Distinct-Only [] h = tt
Distinct-Only (x ∷ xs) (first, h) =
    (((λ same. refl), Only-missing x xs first), Only-rest x xs xs first (Distinct-Only xs h))

module _ (r y : WebhookDelivery) (same_id : y.id ≡ r.id) where
  abbrev replace : List WebhookDelivery → List WebhookDelivery
  replace rows = update_where (has_delivery_id y.id) (λ _. y) rows

  Only-replace :
      (x : WebhookDelivery) (rows : List WebhookDelivery)
      → (x.id == r.id) ≡ false
      → Only rows x
      → Only (replace rows) x
  Only-replace x [] ne h = tt
  Only-replace x (z ∷ zs) ne (only, h) = elim (Bool-cases (z.id == y.id)) [
    | inl written ↦ rw written ((λ same. ground arith), Only-replace x zs ne h)
    | inr kept ↦ rw kept (only, Only-replace x zs ne h)
  ]

  All-Only-replace :
      (rows xs : List WebhookDelivery)
      → Lacks r.id xs
      → All (Only rows) xs
      → All (Only (replace rows)) xs
  All-Only-replace rows [] new_ h = tt
  All-Only-replace rows (x ∷ xs) (ne, new_) (only, h) =
      (Only-replace x rows ne only, All-Only-replace rows xs new_ h)

  -- A write replaces the row of that identifier, and leaves the others.
  abbrev Written : WebhookDelivery → WebhookDelivery → Type 0
  Written z z' = ((z ≡ r) × (z' ≡ y)) ⊎ (((z.id == r.id) ≡ false) × (z' ≡ z))

  replace-Written :
      (rows : List WebhookDelivery) → Only rows r → Pointwise Written rows (replace rows)
  replace-Written [] h = tt
  replace-Written (z ∷ zs) (only, h) = elim (Bool-cases (z.id == y.id)) [
    | inl written ↦ rw written (inl (only (rw (← same_id) written), refl), replace-Written zs h)
    | inr kept ↦ rw kept (inr (rw (← same_id) kept, refl), replace-Written zs h)
  ]

module _ (answer : WebhookEndpoint → WebhookDelivery → PostOutcome) (clock : ℕ → ℕ) where
  -- A row that is not in the batch stays; one that is, is due, and is delivered once.
  abbrev pub Moved :
      List WebhookEndpoint
      → (WebhookDelivery → Bool)
      → List WebhookDelivery
      → WebhookDelivery
      → WebhookDelivery
      → Type 0
  Moved endpoints takes rows z z' =
      (Lacks z.id rows × (z' ≡ z))
      ⊎ ((n : ℕ) × (¬ (Lacks z.id rows))
          × (takes z ≡ true)
          × (z' ≡ deliver answer (clock n) endpoints z))

  module _ (takes : WebhookDelivery → Bool) (endpoints : List WebhookEndpoint) where
    Moved-then :
        (n : ℕ) (r : WebhookDelivery) (rows : List WebhookDelivery) (x y z : WebhookDelivery)
        → takes r ≡ true
        → Lacks r.id rows
        → Written r
            (deliver answer (clock n) endpoints r)
            (deliver-id answer clock (clock n) endpoints r)
            x
            y
        → Moved endpoints takes rows y z
        → Moved endpoints takes (r ∷ rows) x z
    Moved-then n r rows x y z due new_ (inl (e, f)) (inl (_, g)) =
        inr (n, (λ lacks. cc (==_refl r.id, rw e at lacks.0)), rw e due, rw e (g ∙ f))
    Moved-then n r rows x y z due new_ (inl (e, f)) (inr (m, in_, _, _)) =
        absurd (in_ (rw f (rw (deliver-id answer clock (clock n) endpoints r) new_)))
    Moved-then n r rows x y z due new_ (inr (ne, f)) (inl (lacks, g)) =
        inl ((other_way x r ne, subst (λ q. Lacks q.id rows) f lacks), g ∙ f)
    Moved-then n r rows x y z due new_ (inr (ne, f)) (inr (m, in_, due', g)) =
        inr (m, (λ lacks. in_ (rw f lacks.1)), rw (← f) due', rw (← f) g)

    Moved-none : (x : WebhookDelivery) → Moved endpoints takes [] x x
    Moved-none x = inl (tt, refl)

  deliver_each-Moved :
      (takes : WebhookDelivery → Bool) (n : ℕ) (rows : List WebhookDelivery) (db : Db)
      → Distinct rows
      → All (λ x. takes x ≡ true) rows
      → All (Only db.webhook_deliveries) rows
      → Pointwise
          (Moved db.webhook_endpoints takes rows)
          db.webhook_deliveries
          (deliver_each answer clock n rows db).webhook_deliveries
  unfolding deliver_each
  deliver_each-Moved takes n [] db distinct due only =
      Pointwise-refl (Moved db.webhook_endpoints takes []) (Moved-none takes db.webhook_endpoints)
        db.webhook_deliveries
  deliver_each-Moved takes n (r ∷ rows) db (new_, distinct) (takes_r, due) (only_r, only) =
      let y = deliver answer (clock n) db.webhook_endpoints r in
      let same_id = deliver-id answer clock (clock n) db.webhook_endpoints r in
      Pointwise-trans (Written r y same_id) (Moved db.webhook_endpoints takes rows)
        (Moved db.webhook_endpoints takes (r ∷ rows))
        (λ a b c written moved.
          Moved-then takes db.webhook_endpoints n r rows a b c takes_r new_ written moved)
        db.webhook_deliveries (write_delivery y db).webhook_deliveries
        (deliver_each answer clock (suc n) rows (write_delivery y db)).webhook_deliveries
        (replace-Written r y same_id db.webhook_deliveries only_r)
        (deliver_each-Moved takes (suc n) rows (write_delivery y db) distinct due
          (All-Only-replace r y same_id db.webhook_deliveries rows new_ only))

  All-both :
      (P Q : WebhookDelivery → Type 0) (rows : List WebhookDelivery)
      → All (λ x. P x × Q x) rows
      → All P rows × All Q rows
  All-both P Q [] h = (tt, tt)
  All-both P Q (x ∷ xs) ((p, q), h) = let (ps, qs) = All-both P Q xs h in ((p, ps), (q, qs))

  -- If no two rows of the outbox have the same identifier, then a poll delivers each row of its
  -- batch once, all of them due and held by no other worker, and leaves the other rows.
  pub poll-Moved :
      (locked : WebhookDelivery → Bool) (db : Db)
      → Distinct db.webhook_deliveries
      → Pointwise
          (Moved db.webhook_endpoints
            (λ x. is_due (clock 0) x && not (locked x))
            (claim (clock 0) locked db))
          db.webhook_deliveries
          (poll answer clock locked db).webhook_deliveries
  unfolding poll
  poll-Moved locked db distinct =
      let batch = claim (clock 0) locked db in
      let (only, due) =
        All-both (Only db.webhook_deliveries) (λ x. (is_due (clock 0) x && not (locked x)) ≡ true)
          batch
          (claim-All (clock 0) locked db (Only db.webhook_deliveries)
            (Distinct-Only db.webhook_deliveries distinct)) in
      deliver_each-Moved (λ x. is_due (clock 0) x && not (locked x)) 1 batch db
        (claim-Distinct (clock 0) locked db distinct) due only
