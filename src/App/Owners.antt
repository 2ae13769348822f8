-- ===== src/App/Owners.antt =====
-- Rows with a primary key and an owner: what is written to a row of one owner leaves the others'.
use tenant_billing_service.Base.{
  ℕ, ◌≤◌, ◌≡◌, refl, inl, inr, Bool, true, false, ◌&&◌, List, [], ◌∷◌, ◌++◌, arith, ◌==◌, count,
  select, update_where, All, Bool-cases,
}
use tenant_billing_service.Model.Db.{Db}
use tenant_billing_service.Customers.{of_business}
use tenant_billing_service.Payment.Resolve.{has_invoice_id}
use tenant_billing_service.Endpoints.{has_endpoint_id}
use tenant_billing_service.Model.Invoice.{Invoice}
use tenant_billing_service.Model.Webhook.{WebhookEndpoint}

abbrev pub invoice_of_business : ℕ → Invoice → Bool
invoice_of_business o x = x.business_id == o

abbrev pub endpoint_of_business : ℕ → WebhookEndpoint → Bool
endpoint_of_business o x = x.business_id == o

-- The rows of a tenant, and the tables of tenants and keys.
pub record Untouched (o : ℕ) (db db' : Db) : Type 0 where
  pub businesses : db'.businesses ≡ db.businesses
  pub api_keys : db'.api_keys ≡ db.api_keys
  pub customers : select (of_business o) db'.customers ≡ select (of_business o) db.customers
  pub invoices :
      select (invoice_of_business o) db'.invoices ≡ select (invoice_of_business o) db.invoices
  pub webhook_endpoints :
      select (endpoint_of_business o) db'.webhook_endpoints
      ≡ select (endpoint_of_business o) db.webhook_endpoints

pub Untouched-refl : (o : ℕ) (db : Db) → Untouched o db db
Untouched-refl o db = record {
  businesses = refl;
  api_keys = refl;
  customers = refl;
  invoices = refl;
  webhook_endpoints = refl;
}

-- The primary keys of the tables whose rows handlers update.
pub record IsKeyed (db : Db) : Type 0 where
  pub of_invoices : (i : ℕ) → count (has_invoice_id i) db.invoices ≤ 1
  pub of_endpoints : (i : ℕ) → count (has_endpoint_id i) db.webhook_endpoints ≤ 1

module _ {A : Type 0} where
  pub select-added :
      (p : A → Bool) (rows : List A) (x : A)
      → p x ≡ false
      → select p (rows ++ x ∷ []) ≡ select p rows
  select-added p [] x h = rw h refl
  select-added p (y ∷ rows) x h = ground (arith, select-added p rows x h)

  pub select-kept :
      (p q : A → Bool) (f : A → A) (rows : List A)
      → ((x : A) → p (f x) ≡ p x)
      → All (λ x. q x ≡ true → p x ≡ false) rows
      → select p (update_where q f rows) ≡ select p rows
  select-kept p q f [] keeps h = refl
  select-kept p q f (x ∷ rows) keeps (first, h) = elim (Bool-cases (q x)) [
    | inl named ↦ rw (named, keeps x, first named) (select-kept p q f rows keeps h)
    | inr other ↦ rw other (ground (arith, select-kept p q f rows keeps h))
  ]

  none_named :
      (q r : A → Bool) (rows : List A) → count q rows ≡ 0 → All (λ x. q x ≡ true → r x ≡ true) rows
  none_named q r [] h = tt
  none_named q r (x ∷ rows) h = elim (Bool-cases (q x)) [
    | inl named ↦ absurd (omega (arith, rw named at h))
    | inr other ↦ ((λ named. cc), none_named q r rows (rw other at h))
  ]

  none_found :
      (q r : A → Bool) (rows : List A) → count q rows ≡ 0 → select (λ x. q x && r x) rows ≡ []
  none_found q r [] h = refl
  none_found q r (x ∷ rows) h = elim (Bool-cases (q x)) [
    | inl named ↦ absurd (omega (arith, rw named at h))
    | inr other ↦ rw other (none_found q r rows (rw other at h))
  ]

  -- Where a key names one row at most, and a row with the key is found for an owner, the key's
  -- rows are the owner's.
  pub found-owned :
      (q r : A → Bool) (rows : List A) (x : A)
      → count q rows ≤ 1
      → select (λ x. q x && r x) rows ≡ x ∷ []
      → All (λ x. q x ≡ true → r x ≡ true) rows
  found-owned q r [] x one found = cc
  found-owned q r (y ∷ rows) x one found = elim (Bool-cases (q y)) [
    | inl named ↦ elim (Bool-cases (r y)) [
      | inl mine ↦ ((λ _. mine), none_named q r rows (omega (arith, rw named at one)))
      | inr foreign ↦
          cc (none_found q r rows (omega (arith, rw named at one)), rw (named, foreign) at found)
    ]
    | inr other ↦ ((λ named. cc), found-owned q r rows x (rw other at one) (rw other at found))
  ]
