-- ===== src/System.antt =====
-- The service as a whole: requests to the application and polls of the worker, in any order, on the
-- tables that they share.
pub mod Stored
pub mod Changes
pub mod Creation
pub mod Payments
pub mod Invariant
use tenant_billing_service.Base.{String, List, [], ◌∷◌}
use tenant_billing_service.Model.Db.{Db}
use tenant_billing_service.App.Safety.{Incoming, handle_one}
use tenant_billing_service.Worker.Runs.{Poll, run_poll}

pub data Event : Type 0 where
  requested : Incoming → Event
  polled : Poll → Event

abbrev pub happen : String → Event → Db → Db
happen app_name (requested r) db = handle_one app_name r db
happen app_name (polled p) db = run_poll p db

abbrev pub happen_all : String → List Event → Db → Db
happen_all app_name [] db = db
happen_all app_name (e ∷ es) db = happen_all app_name es (happen app_name e db)
