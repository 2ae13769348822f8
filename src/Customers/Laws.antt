-- ===== src/Customers/Laws.antt =====
-- Customers belong to one tenant, and a tenant has no email twice.
use tenant_billing_service.Base.{
  ℕ, ◌≤◌, ◌≡◌, refl, ◌⊎◌, inl, inr, String, true, false, ◌&&◌, List, [], ◌∷◌, ◌++◌, arith, ◌==◌,
  ==_iff, eq_iff, length, any, count, select, All, Bool-cases, count-append, any-count, page,
  sort_by, All-take, All-drop, All-sort, All-select, InOrder, InOrder-sort, InOrder-take,
  InOrder-drop, length-take_le, select-head, count-length,
}
use tenant_billing_service.Errors.{ok, err, conflict}
use tenant_billing_service.Model.Tenant.{Business, Customer}
use tenant_billing_service.Model.Db.{Db}
use tenant_billing_service.Session.{Session, open_session, committed_by}
use tenant_billing_service.World.{Draws}
use tenant_billing_service.Invoices.{find_customers}
use tenant_billing_service.Customers.{
  of_business, has_email, has_customer_id, new_customer, insert_customer, create_customer,
  get_customer, is_newer, list_customers, email_taken,
}

-- What the UNIQUE constraint says of the table.
abbrev pub IsUnique : List Customer → Type 0
IsUnique rows = (b : ℕ) (email : String) → count (has_email b email) rows ≤ 1

module _ (d : Draws) (business : Business) (name email : String) (db : Db) where
  -- What a creation of a customer comes to, by whether its email is taken.
  pub create_customer-committed :
      any (has_customer_id (d.uuid 0)) db.customers ≡ false
      → let (r, s) = create_customer d business name email (open_session db) in
        ((any (has_email business.id email) db.customers ≡ true)
          × (r ≡ err (conflict (email_taken email)))
          × (s ≡ open_session db))
        ⊎ ((any (has_email business.id email) db.customers ≡ false)
            × (r ≡ ok (new_customer d business name email))
            × (s.working ≡ record db {
              customers = db.customers ++ new_customer d business name email ∷ [];
            }))
  unfolding create_customer insert_customer
  create_customer-committed new_id =
      elim (Bool-cases (any (has_email business.id email) db.customers)) [
        | inl taken ↦ inl (taken, (ground arith), ground arith)
        | inr free ↦ inr (free, (ground arith), ground arith)
      ]

  -- The row of an admitted INSERT is the only one with its email.
  append-IsUnique :
      (c : Customer) (rows : List Customer)
      → any (has_email c.business_id c.email) rows ≡ false
      → IsUnique rows
      → IsUnique (rows ++ c ∷ [])
  append-IsUnique c rows free unique b e = elim (Bool-cases (has_email b e c)) [
    | inl same ↦
        let same_b = (==_iff c.business_id b).0 (ground arith) in
        let same_e = (eq_iff c.email e).0 (ground arith) in
        rw (← same_b, ← same_e)
          (ground (
            arith,
            count-append (has_email c.business_id c.email) rows (c ∷ []),
            any-count (has_email c.business_id c.email) rows free,
          ))
    | inr other ↦ ground (arith, count-append (has_email b e) rows (c ∷ []), unique b e)
  ]

  committed-cases :
      let rows = (committed_by (create_customer d business name email) db).customers in
      (rows ≡ db.customers)
      ⊎ ((any (has_email business.id email) db.customers ≡ false)
          × (rows ≡ db.customers ++ new_customer d business name email ∷ []))
  unfolding create_customer insert_customer
  committed-cases = ground arith

  -- If no tenant has two customers with one email, then after whatever a creation of a customer
  -- commits no tenant has.
  pub create_customer-IsUnique :
      IsUnique db.customers
      → IsUnique (committed_by (create_customer d business name email) db).customers
  create_customer-IsUnique unique = elim committed-cases [
    | inl same ↦ rw same unique
    | inr (free, added) ↦
        rw added (append-IsUnique (new_customer d business name email) db.customers free unique)
  ]

is_newer_total : (x y : Customer) → is_newer x y ≡ false → is_newer y x ≡ true
is_newer_total x y h = ground arith

is_newer_trans :
    (x y z : Customer) → is_newer x y ≡ true → is_newer y z ≡ true → is_newer x z ≡ true
is_newer_trans x y z h k = ground arith

module _ (business : Business) (s : Session) where
  -- On any session, a listing of customers changes nothing, and returns a page of at most `limit`
  -- rows, all of the business and newest first, and as the total the number of all its customers.
  pub list_customers_lem :
      (skip limit : ℕ)
      → let (r, s') = list_customers business skip limit s in
        (s' ≡ s)
        × ((rows : List Customer) × (total : ℕ) × (r ≡ ok (rows, total))
            × (length rows ≤ limit)
            × All (λ c. c.business_id ≡ business.id) rows
            × InOrder is_newer rows
            × (total ≡ length (select (of_business business.id) s.working.customers)))
  unfolding list_customers
  list_customers_lem skip limit =
      let own = select (of_business business.id) s.working.customers in
      let sorted = sort_by is_newer own in
      let P = λ (c : Customer). c.business_id ≡ business.id in
      (
        refl,
        (
          page skip limit sorted,
          count (of_business business.id) s.working.customers,
          refl,
          length-take_le limit _,
          All-take P limit _ (
              All-drop P skip sorted (
                All-sort is_newer P own (
                  All-select P (of_business business.id)
                    (λ c h. (==_iff c.business_id business.id).0 h) s.working.customers))),
          InOrder-take is_newer limit _ (
              InOrder-drop is_newer skip sorted
                (InOrder-sort is_newer is_newer_total is_newer_trans own)),
          count-length (of_business business.id) s.working.customers,
        ),
      )

  found-own :
      (customer_id : ℕ) (c : Customer) (rest : List Customer)
      → find_customers business.id customer_id s.working ≡ c ∷ rest
      → (c.id ≡ customer_id) × (c.business_id ≡ business.id)
  unfolding find_customers
  found-own customer_id c rest e =
      let h =
        select-head (λ x. x.id == customer_id && x.business_id == business.id) s.working.customers c
          rest e in
      (
        (==_iff c.id customer_id).0 (ground arith),
        (==_iff c.business_id business.id).0 (ground arith),
      )

  get_of :
      (customer_id : ℕ) (c : Customer) (rows : List Customer)
      → find_customers business.id customer_id s.working ≡ rows
      → (get_customer business customer_id s).0 ≡ ok c
      → (c.id ≡ customer_id) × (c.business_id ≡ business.id)
  unfolding get_customer
  get_of customer_id c [] e h = ground arith
  get_of customer_id c (x ∷ []) e h = ground (arith, found-own customer_id x [] e)
  get_of customer_id c (x ∷ y ∷ rest) e h = ground arith

  -- A customer that is found has the identifier that was asked for and belongs to the business.
  pub get_customer-own :
      (customer_id : ℕ) (c : Customer)
      → (get_customer business customer_id s).0 ≡ ok c
      → (c.id ≡ customer_id) × (c.business_id ≡ business.id)
  get_customer-own customer_id c h =
      get_of customer_id c (find_customers business.id customer_id s.working) refl h
