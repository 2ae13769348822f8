-- ===== src/Tests/System.antt =====
-- The service as a whole, on two tenants with an invoice of one of them.
use tenant_billing_service.Base.{ℕ, refl, none, some, List, [], ◌∷◌, arith}
use tenant_billing_service.Model.Db.{Db}
use tenant_billing_service.Outbox.{new_delivery}
use tenant_billing_service.Signing.Decimal.{pos}
use tenant_billing_service.App.{Request, of_tenant, invoice_pay, invoices_post, invoice_finalize}
use tenant_billing_service.App.Safety.{Incoming}
use tenant_billing_service.System.{Event, requested, polled, happen_all}
use tenant_billing_service.System.Stored.{IsStored}
use tenant_billing_service.System.Invariant.{happen_all-IsStored}
use tenant_billing_service.Tests.World.{small_world, draws_from, endpoint}
use tenant_billing_service.Tests.Requests.{two_tenants, two_tenants-IsKeyed}
use tenant_billing_service.Tests.Processes.{poll_at, refusing}

abbrev billed : Db
billed = record two_tenants {
  invoice_line_items =
      record {
        id = 31;
        invoice_id = 30;
        description = "seats";
        quantity = 5;
        unit_amount_cents = 31000;
        amount_cents = 155000;
        created_at = 0;
      }
      ∷ [];
  webhook_deliveries = new_delivery 1 0 "invoice.created" [] endpoint ∷ [];
}

billed-IsStored : IsStored billed
billed-IsStored = record {
  keys = record {
    of_invoices = two_tenants-IsKeyed.of_invoices;
    of_endpoints = two_tenants-IsKeyed.of_endpoints;
  };
  emails = λ b e. ground arith;
  line_items =
      (record { qty_positive = omega arith; amount_matches = refl; fits = omega arith }, tt);
  of_invoices = (refl, tt);
  totals = (refl, tt);
  outbox = (
    record {
      capped = omega arith;
      waiting = λ _. (omega arith, λ e. cc);
      done = λ e. cc;
      given_up = λ e. cc;
    },
    tt,
  );
}

abbrev by_acme : ℕ → Request → Incoming
by_acme n request = record {
  world = small_world;
  draws = draws_from n;
  secret = "s";
  credentials = some (record { scheme = "Bearer"; credentials = "Acme" });
  request = request;
}

abbrev events : List Event
events =
    requested (by_acme 100 (of_tenant (invoice_pay 30 "tok_success" (some "k1"))))
    ∷ polled (poll_at refusing 300)
    ∷ requested (
        by_acme 400 (
          of_tenant (
            invoices_post (record {
              customer_id = 10;
              due_date = none;
              line_items =
                  record { description = "seats"; quantity = pos 2; unit_amount_cents = pos 700 }
                  ∷ [];
            }))))
    ∷ requested (by_acme 500 (of_tenant (invoice_finalize 400)))
    ∷ polled (poll_at refusing 900)
    ∷ []

happen_all-IsStored_example : IsStored (happen_all "billing" events billed)
happen_all-IsStored_example = happen_all-IsStored "billing" events billed billed-IsStored
