-- ===== src/Worker/Loop.antt =====
-- The life of the worker (`start`, `stop`, `_run` of app/workers/webhook_worker.py, and `lifespan`
-- of app/main.py) as events on the process: the flag, the asyncio tasks, and the tables.
pub mod Laws
pub mod Overlong
use tenant_billing_service.Base.{
  ℕ, zero, suc, Bool, true, false, ◌&&◌, Option, none, some, List, [], ◌∷◌, ◌++◌, length, String,
  if◌then◌else◌,
}
use tenant_billing_service.Model.Webhook.{WebhookDelivery, WebhookEndpoint}
use tenant_billing_service.Model.Db.{Db}
use tenant_billing_service.Payment.Attempts.{fits_text}
use tenant_billing_service.Worker.Delivery.{PostOutcome, deliver}
use tenant_billing_service.Worker.Runs.{Poll, poll_transaction}

-- Where a task of `_run` is: before the test of the flag, in the poll, in the sleep after it, or at
-- its end.
pub data TaskState : Type 0 where
  checking polling sleeping finished : TaskState

-- `_running`, `_task` by its place among the tasks that were created, those tasks, and the tables.
pub record Process : Type 0 where
  pub running : Bool
  pub task : Option ℕ
  pub tasks : List TaskState
  pub db : Db

-- A task goes on (to its poll, or to its end), its poll runs through, its poll raises (the database
-- is not reachable, for one), and its sleep is over. A poll is one event, at its commit: the rows
-- that it reads are locked until then.
pub data Event : Type 0 where
  start stop : Event
  goes_on wakes : ℕ → Event
  polls : ℕ → Poll → Event
  raises : ℕ → Event

abbrev pub state_of : ℕ → List TaskState → TaskState
state_of i [] = finished
state_of zero (t ∷ ts) = t
state_of (suc i) (t ∷ ts) = state_of i ts

abbrev pub set_state : ℕ → TaskState → List TaskState → List TaskState
set_state i s [] = []
set_state zero s (t ∷ ts) = s ∷ ts
set_state (suc i) s (t ∷ ts) = t ∷ set_state i s ts

abbrev pub move : ℕ → TaskState → Process → Process
move i s p = record p { tasks = set_state i s p.tasks }

-- `while self._running`
abbrev pub check_flag : ℕ → TaskState → Process → Process
check_flag i checking p = move i (if p.running then polling else finished) p
check_flag i _ p = p

abbrev pub wake_up : ℕ → TaskState → Process → Process
wake_up i sleeping p = move i checking p
wake_up i _ p = p

-- The exception is logged, and the tables are as before the transaction.
abbrev pub after_raise : ℕ → TaskState → Process → Process
after_raise i polling p = move i sleeping p
after_raise i _ p = p

abbrev pub commit_poll : Option Db → Process → Process
commit_poll none p = p
commit_poll (some db) p = record p { db = db }

abbrev pub after_poll : ℕ → Poll → TaskState → Process → Process
after_poll i poll polling p = move i sleeping (commit_poll (poll_transaction poll p.db) p)
after_poll i poll _ p = p

-- The cancelled task ends where it is; the transaction of its poll is rolled back.
abbrev pub cancel : Option ℕ → Process → Process
cancel none p = p
cancel (some i) p = move i finished p

unfoldable pub step : Event → Process → Process
step start p = record p {
  running = true;
  task = some (length p.tasks);
  tasks = p.tasks ++ checking ∷ [];
}
step stop p = cancel p.task (record p { running = false })
step (goes_on i) p = check_flag i (state_of i p.tasks) p
step (wakes i) p = wake_up i (state_of i p.tasks) p
step (polls i poll) p = after_poll i poll (state_of i p.tasks) p
step (raises i) p = after_raise i (state_of i p.tasks) p

abbrev pub run : List Event → Process → Process
run [] p = p
run (e ∷ es) p = run es (step e p)

abbrev pub new_process : Db → Process
new_process db = record { running = false; task = none; tasks = []; db = db }

-- `lifespan`: the worker is started before the application serves, and stopped after it.
abbrev pub lifespan : List Event → List Event
lifespan serving = start ∷ (serving ++ stop ∷ [])
