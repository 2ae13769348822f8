-- ===== src/Outbox/Laws.antt =====
-- The fan-out of an event.
use tenant_billing_service.Base.{
  ℕ, suc, ◌≡◌, refl, ap, String, true, ◌&&◌, some, List, [], ◌∷◌, ◌++◌, map, arith, ◌==◌, ==_iff,
  All, All-select,
}
use tenant_billing_service.Errors.{ok}
use tenant_billing_service.Model.Webhook.{
  WebhookDelivery, WebhookDeliveryStatus, WebhookEndpoint, Json,
}
use tenant_billing_service.Session.{Session}
use tenant_billing_service.Outbox.{active_endpoints, new_deliveries, enqueue_event}

-- The endpoints that rows are for, in their order.
abbrev pub recipients : List WebhookDelivery → List ℕ
recipients rows = map (λ (row : WebhookDelivery). row.webhook_endpoint_id) rows

abbrev pub ids_of : List WebhookEndpoint → List ℕ
ids_of endpoints = map (λ (e : WebhookEndpoint). e.id) endpoints

-- A row as the worker finds it when it is new.
abbrev pub IsNew : ℕ → String → List (String × Json) → WebhookDelivery → Type 0
IsNew now event_type payload row =
    (row.status ≡ WebhookDeliveryStatus.pending)
    × (row.attempts ≡ 0)
    × (row.next_attempt_at ≡ some now)
    × (row.event_type ≡ event_type)
    × (row.payload ≡ payload)

module _ (ids : ℕ → ℕ) (now : ℕ) (event_type : String) (payload : List (String × Json)) where
  pub new_deliveries-recipients :
      (n : ℕ) (endpoints : List WebhookEndpoint)
      → recipients (new_deliveries ids n now event_type payload endpoints) ≡ ids_of endpoints
  unfolding new_deliveries
  new_deliveries-recipients n [] = refl
  new_deliveries-recipients n (e ∷ endpoints) =
      ap (λ r. e.id ∷ r) (new_deliveries-recipients (suc n) endpoints)

  pub new_deliveries-IsNew :
      (n : ℕ) (endpoints : List WebhookEndpoint)
      → All (IsNew now event_type payload) (new_deliveries ids n now event_type payload endpoints)
  unfolding new_deliveries
  new_deliveries-IsNew n [] = tt
  new_deliveries-IsNew n (e ∷ endpoints) =
      ((refl, refl, refl, refl, refl), new_deliveries-IsNew (suc n) endpoints)

  -- On any session, `enqueue_event` succeeds, commits nothing by itself, and adds exactly one new
  -- pending row with the event and no attempts for each active endpoint of the business, in their
  -- order, and no other row.
  pub enqueue_event-fans_out :
      (business_id : ℕ) (s : Session)
      → let (r, s') = enqueue_event ids now business_id event_type payload s in
        (r ≡ ok tt)
        × (s'.committed ≡ s.committed)
        × ((rows : List WebhookDelivery) × (s'.working
              ≡ record s.working { webhook_deliveries = s.working.webhook_deliveries ++ rows })
            × (recipients rows ≡ ids_of (active_endpoints business_id s.working))
            × All (IsNew now event_type payload) rows)
        × All
            (λ e. (e.business_id ≡ business_id) × (e.is_active ≡ true))
            (active_endpoints business_id s.working)
  unfolding enqueue_event active_endpoints
  enqueue_event-fans_out business_id s =
      let endpoints = active_endpoints business_id s.working in
      (
        refl,
        refl,
        (
          new_deliveries ids 0 now event_type payload endpoints,
          refl,
          new_deliveries-recipients 0 endpoints,
          new_deliveries-IsNew 0 endpoints,
        ),
        All-select (λ e. (e.business_id ≡ business_id) × (e.is_active ≡ true))
            (λ e. e.business_id == business_id && e.is_active)
            (λ e h. ((==_iff e.business_id business_id).0 (ground arith), ground arith))
            s.working.webhook_endpoints,
      )
