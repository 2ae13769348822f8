-- ===== src/Worker/Loop/Laws.antt =====
-- That the worker's process makes nothing of the outbox but polls, and stops when it is told to.
use mathlib.Core.Path.{sym}
use tenant_billing_service.Base.{
  ℕ, zero, suc, ◌≡◌, refl, ap, ◌∙◌, inl, inr, Bool, true, false, Option, none, some, List, [], ◌∷◌,
  ◌++◌, All, Pointwise, if◌then◌else◌,
}
use tenant_billing_service.Model.Db.{Db}
use tenant_billing_service.Worker.Moves.{Distinct}
use tenant_billing_service.Worker.Runs.{
  Poll, poll_transaction, transaction-commits, write_poll, write_polls,
}
use tenant_billing_service.Worker.Policy.{Steps, view, write_polls-refines}
use tenant_billing_service.Worker.Loop.{
  TaskState, checking, polling, sleeping, finished, Process, Event, start, stop, goes_on, wakes,
  polls, raises, state_of, move, check_flag, wake_up, after_raise, commit_poll, after_poll, cancel,
  step, run, new_process, lifespan,
}

-- The poll that an event commits, as a list of one or none.
abbrev committed : Option Db → Poll → List Poll
committed none poll = []
committed (some db) poll = poll ∷ []

abbrev poll_in : Poll → TaskState → Db → List Poll
poll_in poll polling db = committed (poll_transaction poll db) poll
poll_in poll _ db = []

abbrev polls_of_event : Event → Process → List Poll
polls_of_event (polls i poll) p = poll_in poll (state_of i p.tasks) p.db
polls_of_event _ p = []

abbrev pub polls_of : List Event → Process → List Poll
polls_of [] p = []
polls_of (e ∷ es) p = polls_of_event e p ++ polls_of es (step e p)

move-db : (i : ℕ) (s : TaskState) (p : Process) → (move i s p).db ≡ p.db
move-db i s p = refl

poll-step :
    (i : ℕ) (poll : Poll) (t : TaskState) (p : Process)
    → (after_poll i poll t p).db ≡ write_polls (poll_in poll t p.db) p.db
poll-step i poll polling p = elim (transaction-commits poll p.db) [
  | inl lost ↦ rw lost refl
  | inr kept ↦ rw kept refl
]
poll-step i poll checking p = refl
poll-step i poll sleeping p = refl
poll-step i poll finished p = refl

check_flag-db : (i : ℕ) (t : TaskState) (p : Process) → (check_flag i t p).db ≡ p.db
check_flag-db i checking p = refl
check_flag-db i polling p = refl
check_flag-db i sleeping p = refl
check_flag-db i finished p = refl

wake_up-db : (i : ℕ) (t : TaskState) (p : Process) → (wake_up i t p).db ≡ p.db
wake_up-db i checking p = refl
wake_up-db i polling p = refl
wake_up-db i sleeping p = refl
wake_up-db i finished p = refl

after_raise-db : (i : ℕ) (t : TaskState) (p : Process) → (after_raise i t p).db ≡ p.db
after_raise-db i checking p = refl
after_raise-db i polling p = refl
after_raise-db i sleeping p = refl
after_raise-db i finished p = refl

cancel-db : (i : Option ℕ) (p : Process) → (cancel i p).db ≡ p.db
cancel-db none p = refl
cancel-db (some i) p = refl

step-db : (e : Event) (p : Process) → (step e p).db ≡ write_polls (polls_of_event e p) p.db
unfolding step
step-db start p = refl
step-db stop p = cancel-db p.task (record p { running = false })
step-db (goes_on i) p = check_flag-db i (state_of i p.tasks) p
step-db (wakes i) p = wake_up-db i (state_of i p.tasks) p
step-db (polls i poll) p = poll-step i poll (state_of i p.tasks) p
step-db (raises i) p = after_raise-db i (state_of i p.tasks) p

write_polls-append :
    (xs ys : List Poll) (db : Db) → write_polls (xs ++ ys) db ≡ write_polls ys (write_polls xs db)
write_polls-append [] ys db = refl
write_polls-append (x ∷ xs) ys db = write_polls-append xs ys (write_poll x db)

-- Whatever happens to the process, its tables are what its committed polls make of them, in order.
pub run-db : (es : List Event) (p : Process) → (run es p).db ≡ write_polls (polls_of es p) p.db
run-db [] p = refl
run-db (e ∷ es) p =
    run-db es (step e p)
    ∙ (ap (write_polls (polls_of es (step e p))) (step-db e p)
        ∙ sym (write_polls-append (polls_of_event e p) (polls_of es (step e p)) p.db))

-- If no two rows of the outbox have the same identifier, then after any events of the worker's
-- process (starts, stops, several tasks, polls that raise and are rolled back), whatever the
-- endpoints answer and whatever rows other workers hold, the table has its rows in their places,
-- and each has gone through steps of the retry policy only: from waiting after n attempts to
-- delivered, to waiting below 5 attempts, or to exhausted at 5, with n + 1, or to exhausted with n.
pub run-refines :
    (es : List Event) (p : Process)
    → Distinct p.db.webhook_deliveries
    → Pointwise
        (λ x y. Steps (view x) (view y))
        p.db.webhook_deliveries
        (run es p).db.webhook_deliveries
run-refines es p h = rw (run-db es p) (write_polls-refines (polls_of es p) p.db h)

-- What the service does while it runs: nothing starts or stops the worker.
abbrev pub IsTaskEvent : Event → Type 0
IsTaskEvent start = ⊥
IsTaskEvent stop = ⊥
IsTaskEvent _ = Unit

abbrev only_task : TaskState → Bool → Db → Process
only_task t running db = record { running = running; task = some 0; tasks = t ∷ []; db = db }

still_finished :
    (e : Event) (running : Bool) (db : Db)
    → IsTaskEvent e
    → step e (only_task finished running db) ≡ only_task finished running db
unfolding step
still_finished start running db h = absurd h
still_finished stop running db h = absurd h
still_finished (goes_on zero) running db h = refl
still_finished (goes_on (suc i)) running db h = refl
still_finished (wakes zero) running db h = refl
still_finished (wakes (suc i)) running db h = refl
still_finished (polls zero poll) running db h = refl
still_finished (polls (suc i) poll) running db h = refl
still_finished (raises zero) running db h = refl
still_finished (raises (suc i)) running db h = refl

run-finished :
    (es : List Event) (running : Bool) (db : Db)
    → All IsTaskEvent es
    → run es (only_task finished running db) ≡ only_task finished running db
run-finished [] running db h = refl
run-finished (e ∷ es) running db (first, h) =
    rw (still_finished e running db first) (run-finished es running db h)

-- One task stays one task.
abbrev IsOneTask : Bool → Process → Type 0
IsOneTask running p = (t : TaskState) × (db : Db) × (p ≡ only_task t running db)

move-IsOneTask :
    (i : ℕ) (s t : TaskState) (running : Bool) (db : Db)
    → IsOneTask running (move i s (only_task t running db))
move-IsOneTask zero s t running db = (s, db, refl)
move-IsOneTask (suc i) s t running db = (t, db, refl)

commit-IsOneTask :
    (i : ℕ) (poll : Poll) (found : Option Db) (t : TaskState) (running : Bool) (db : Db)
    → IsOneTask running (move i sleeping (commit_poll found (only_task t running db)))
commit-IsOneTask i poll none t running db = move-IsOneTask i sleeping t running db
commit-IsOneTask i poll (some db') t running db = move-IsOneTask i sleeping t running db'

module _ (t : TaskState) (running : Bool) (db : Db) where
  abbrev process : Process
  process = only_task t running db

  unmoved : IsOneTask running process
  unmoved = (t, db, refl)

  check_flag-IsOneTask : (i : ℕ) (u : TaskState) → IsOneTask running (check_flag i u process)
  check_flag-IsOneTask i checking =
      move-IsOneTask i (if running then polling else finished) t running db
  check_flag-IsOneTask i polling = unmoved
  check_flag-IsOneTask i sleeping = unmoved
  check_flag-IsOneTask i finished = unmoved

  wake_up-IsOneTask : (i : ℕ) (u : TaskState) → IsOneTask running (wake_up i u process)
  wake_up-IsOneTask i sleeping = move-IsOneTask i checking t running db
  wake_up-IsOneTask i checking = unmoved
  wake_up-IsOneTask i polling = unmoved
  wake_up-IsOneTask i finished = unmoved

  after_raise-IsOneTask : (i : ℕ) (u : TaskState) → IsOneTask running (after_raise i u process)
  after_raise-IsOneTask i polling = move-IsOneTask i sleeping t running db
  after_raise-IsOneTask i checking = unmoved
  after_raise-IsOneTask i sleeping = unmoved
  after_raise-IsOneTask i finished = unmoved

  after_poll-IsOneTask :
      (i : ℕ) (poll : Poll) (u : TaskState) → IsOneTask running (after_poll i poll u process)
  after_poll-IsOneTask i poll polling =
      commit-IsOneTask i poll (poll_transaction poll db) t running db
  after_poll-IsOneTask i poll checking = unmoved
  after_poll-IsOneTask i poll sleeping = unmoved
  after_poll-IsOneTask i poll finished = unmoved

  step-IsOneTask : (e : Event) → IsTaskEvent e → IsOneTask running (step e process)
  unfolding step
  step-IsOneTask start h = absurd h
  step-IsOneTask stop h = absurd h
  step-IsOneTask (goes_on i) h = check_flag-IsOneTask i (state_of i process.tasks)
  step-IsOneTask (wakes i) h = wake_up-IsOneTask i (state_of i process.tasks)
  step-IsOneTask (polls i poll) h = after_poll-IsOneTask i poll (state_of i process.tasks)
  step-IsOneTask (raises i) h = after_raise-IsOneTask i (state_of i process.tasks)

run-IsOneTask :
    (es : List Event) (running : Bool) (p : Process)
    → IsOneTask running p
    → All IsTaskEvent es
    → IsOneTask running (run es p)
run-IsOneTask [] running p one h = one
run-IsOneTask (e ∷ es) running p (t, db, same) (first, h) =
    run-IsOneTask es running (step e p) (rw same (step-IsOneTask t running db e first)) h

run-append : (xs ys : List Event) (p : Process) → run (xs ++ ys) p ≡ run ys (run xs p)
run-append [] ys p = refl
run-append (x ∷ xs) ys p = run-append xs ys (step x p)

stop_one :
    (running : Bool) (p : Process)
    → IsOneTask running p
    → step stop p ≡ only_task finished false p.db
unfolding step
stop_one running p (t, db, same) = rw same refl

started : (db : Db) → IsOneTask true (step start (new_process db))
unfolding step
started db = (checking, db, refl)

-- If nothing but `lifespan` starts or stops the worker, then at its end the one task is finished,
-- and no later event of a task changes the process or its tables.
pub lifespan-silences :
    (serving later : List Event) (db : Db)
    → All IsTaskEvent serving
    → All IsTaskEvent later
    → let p = run (lifespan serving) (new_process db) in
      (p.tasks ≡ finished ∷ []) × (run later p ≡ p)
lifespan-silences serving later db h k =
    let q = run serving (step start (new_process db)) in
    let at_end =
      run-append serving (stop ∷ []) (step start (new_process db))
      ∙ stop_one true q (run-IsOneTask serving true (step start (new_process db)) (started db) h) in
    rw at_end (refl, run-finished later false q.db k)
