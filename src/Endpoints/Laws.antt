-- ===== src/Endpoints/Laws.antt =====
-- A deactivated endpoint gets no more events, and only its tenant can deactivate it.
use Prim.Native.String.{count as chars}
use tenant_billing_service.Base.{
  ℕ, ◌≡◌, refl, inl, inr, String, true, false, ◌&&◌, none, some, List, [], ◌∷◌, ◌++◌, arith, ◌==◌,
  ==_iff, ==_refl, any, select, update_where, All, Bool-cases, select-head, select-append, leb,
}
use tenant_billing_service.Errors.{ok}
use tenant_billing_service.Model.Webhook.{WebhookEndpoint}
use tenant_billing_service.Model.Tenant.{Business}
use tenant_billing_service.Model.Db.{Db}
use tenant_billing_service.Session.{open_session}
use tenant_billing_service.World.{Draws}
use tenant_billing_service.Outbox.{active_endpoints}
use tenant_billing_service.Endpoints.{
  has_endpoint_id, new_endpoint, insert_endpoint, create_endpoint, list_endpoints, find_endpoints,
  switched_off, deactivate_endpoint,
}

-- No row that is switched off is selected as active.
off-select :
    (b id : ℕ) (rows : List WebhookEndpoint)
    → All
        (λ e. (e.id == id) ≡ false)
        (select
          (λ e. e.business_id == b && e.is_active)
          (update_where (has_endpoint_id id) switched_off rows))
off-select b id [] = tt
off-select b id (x ∷ rows) = elim (Bool-cases (x.id == id)) [
  | inl same ↦ ground (arith, off-select b id rows)
  | inr other ↦ elim (Bool-cases (x.business_id == b && x.is_active)) [
    | inl listed ↦ rw (other, listed) (other, off-select b id rows)
    | inr unlisted ↦ rw (other, unlisted) (off-select b id rows)
  ]
]

module _ (business : Business) (endpoint_id : ℕ) (db : Db) where
  -- If the business has the endpoint, then its deactivation returns it as inactive, in the
  -- tables that it leaves no tenant's active endpoints contain it, so that an event on them is not
  -- written for it, and the rows that are already in the outbox stay.
  pub deactivate_endpoint-silences :
      (endpoint : WebhookEndpoint)
      → find_endpoints business.id endpoint_id db ≡ endpoint ∷ []
      → let (r, s) = deactivate_endpoint business endpoint_id (open_session db) in
        (r ≡ ok (some (record endpoint { is_active = false })))
        × ((b : ℕ) → All (λ e. (e.id == endpoint_id) ≡ false) (active_endpoints b s.working))
        × (s.working.webhook_deliveries ≡ db.webhook_deliveries)
  unfolding deactivate_endpoint active_endpoints find_endpoints
  deactivate_endpoint-silences endpoint found =
      let same = (==_iff endpoint.id endpoint_id).0 (
        ground (
          arith,
          select-head (λ e. e.id == endpoint_id && e.business_id == business.id)
              db.webhook_endpoints endpoint [] found,
        )) in
      (
        ground arith,
        (λ b. rw (found, same) (off-select b endpoint_id db.webhook_endpoints)),
        ground arith,
      )

  -- An endpoint that the business does not have is not deactivated: the result is None and the
  -- session is as it was.
  pub deactivate_endpoint-foreign :
      find_endpoints business.id endpoint_id db ≡ []
      → deactivate_endpoint business endpoint_id (open_session db) ≡ (ok none, open_session db)
  unfolding deactivate_endpoint
  deactivate_endpoint-foreign missing = ground arith

module _ (d : Draws) (business : Business) (url secret : String) (db : Db) where
  inserted :
      any (has_endpoint_id (d.uuid 0)) db.webhook_endpoints ≡ false
      → leb (chars url) 2000 ≡ true
      → insert_endpoint (new_endpoint d business url secret) (open_session db) ≡ (
        ok tt,
        record (open_session db) {
          working = record db {
            webhook_endpoints = db.webhook_endpoints ++ new_endpoint d business url secret ∷ [];
          };
        },
      )
  unfolding insert_endpoint
  inserted new_id fits = ground arith

  created :
      any (has_endpoint_id (d.uuid 0)) db.webhook_endpoints ≡ false
      → leb (chars url) 2000 ≡ true
      → create_endpoint d business url secret (open_session db) ≡ (
        ok (new_endpoint d business url secret, secret),
        record (open_session db) {
          working = record db {
            webhook_endpoints = db.webhook_endpoints ++ new_endpoint d business url secret ∷ [];
          };
        },
      )
  unfolding create_endpoint
  created new_id fits = ground (arith, inserted new_id fits)

  -- If the drawn identifier is free and the URL fits its column, then a registration returns the
  -- endpoint with its secret, and the listing of the business has it after those that it had.
  create_endpoint-listed :
      any (has_endpoint_id (d.uuid 0)) db.webhook_endpoints ≡ false
      → leb (chars url) 2000 ≡ true
      → let (r, s) = create_endpoint d business url secret (open_session db) in
        (r ≡ ok (new_endpoint d business url secret, secret))
        × ((list_endpoints business s).0
            ≡ ok (active_endpoints business.id db ++ new_endpoint d business url secret ∷ []))
  unfolding list_endpoints active_endpoints
  create_endpoint-listed new_id fits = rw (created new_id fits) (
    refl,
    rw
        (
          select-append (λ (e : WebhookEndpoint). e.business_id == business.id && e.is_active)
              db.webhook_endpoints (new_endpoint d business url secret ∷ []),
          ==_refl business.id,
        )
        refl,
  )
