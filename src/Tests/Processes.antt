-- ===== src/Tests/Processes.antt =====
-- The worker's process on a small outbox: rounds of polls, a rollback, and its end.
use Prim.Native.String.{◌++◌}
use tenant_billing_service.Base.{
  select, any, zero, suc, ◌==◌, sort_by, insert_by, ℕ, ◌≤◌, ◌≡◌, refl, true, false, some, List, [],
  ◌∷◌, arith, All, length, Pointwise, String, if◌then◌else◌,
}
use tenant_billing_service.Model.Webhook.{WebhookDelivery, WebhookDeliveryStatus, WebhookEndpoint}
use tenant_billing_service.Model.Db.{Db}
use tenant_billing_service.World.{World}
use tenant_billing_service.Outbox.{new_delivery}
use tenant_billing_service.Signing.{verify_signature, sign_payload, Verdict, verdict}
use tenant_billing_service.Worker.{poll_limit, claim, poll, deliver_each}
use tenant_billing_service.Worker.Delivery.{PostOutcome, responded, excepted, error_of, deliver}
use tenant_billing_service.Worker.Request.{WebhookRequest, request_for, answer_by, poll_requests}
use tenant_billing_service.Worker.Delivery.{has_endpoint_id}
use tenant_billing_service.Worker.Request.Laws.{IsSent, IsOf, EachSent, poll_requests-verify}
use tenant_billing_service.Worker.Runs.{Poll, run_poll, poll_transaction, messages_fit, IsBrief}
use tenant_billing_service.Worker.Policy.{Steps, view}
use tenant_billing_service.Worker.Drain.{any_pending, DueSoon}
use tenant_billing_service.Worker.Delivers.{Succeeds, GetsThere, run_rounds-delivers}
use tenant_billing_service.Worker.Rounds.{
  Round, RoundIsBrief, Timely, run_rounds, run_rounds-drains,
}
use tenant_billing_service.Worker.Loop.{
  Event, goes_on, wakes, polls, raises, run, new_process, lifespan, finished,
}
use tenant_billing_service.Worker.Loop.Laws.{run-refines, lifespan-silences}
use tenant_billing_service.Worker.Moves.{Lacks, Distinct}
use tenant_billing_service.Worker.Overlap.{held_by, overlap-commutes}
use tenant_billing_service.Signing.Numerals.{parse_int, parse_digits, str_int, decimal}
use tenant_billing_service.Signing.Decimal.{digit_list}
use tenant_billing_service.Signing.Headers.{parse_header, pairs_of, split, split_first, lookup}
use tenant_billing_service.Auth.Texts.{strip, lstrip, rstrip}
use tenant_billing_service.Tests.World.{small_world, endpoint, start_db}

abbrev row : WebhookDelivery
row = new_delivery 1 0 "invoice.paid" [] endpoint

abbrev outbox : Db
outbox = record start_db {
  webhook_deliveries = row ∷ record row { id = 2; attempts = 3; next_attempt_at = some 60 } ∷ [];
}

abbrev hashing : World
hashing = record small_world { hmac_hex = λ secret content. "5f" }

-- A receiver that answers 200 to what it can verify at the time 100, and 400 to the rest.
abbrev answer_to : Verdict → PostOutcome
answer_to (verdict true) = responded 200 "200"
answer_to _ = responded 400 "400"

abbrev receiver : WebhookRequest → PostOutcome
receiver request =
    answer_to (verify_signature hashing 100 "s3cret" request.body request.x_webhook_signature 300)

abbrev pub poll_at : (WebhookEndpoint → WebhookDelivery → PostOutcome) → ℕ → Poll
poll_at answer t = record { answer = answer; clock = λ n. t; locked = λ _. false }

abbrev pub refusing : WebhookEndpoint → WebhookDelivery → PostOutcome
refusing e d = responded 500 "500"

poll_requests-verify_example :
    let requests = poll_requests hashing (λ _. 90) 100 (λ _. false) outbox in
    let rows = claim 100 (λ _. false) outbox in
    EachSent
      (IsSent hashing 100 300 outbox)
      (select (λ row. any (has_endpoint_id row.webhook_endpoint_id) outbox.webhook_endpoints) rows)
      requests
    × All (IsOf outbox 100 (λ _. false)) rows
    × (length requests ≤ poll_limit)
poll_requests-verify_example =
    poll_requests-verify hashing (λ s c. refl) (λ s c. refl) 100 300 (λ _. 90) (λ row. omega arith)
      100 (λ _. false) outbox

abbrev rounds : (WebhookEndpoint → WebhookDelivery → PostOutcome) → List Round
rounds answer =
    record { polls = []; last = poll_at answer 1000; ends = 1000 }
    ∷ record { polls = poll_at answer 1002 ∷ []; last = poll_at answer 2000; ends = 2000 }
    ∷ record { polls = []; last = poll_at answer 3000; ends = 3000 }
    ∷ record { polls = []; last = poll_at answer 4000; ends = 4000 }
    ∷ record { polls = []; last = poll_at answer 5000; ends = 5000 }
    ∷ record { polls = []; last = poll_at answer 6000; ends = 6000 }
    ∷ record { polls = []; last = poll_at answer 7000; ends = 7000 }
    ∷ []

timely : (answer : WebhookEndpoint → WebhookDelivery → PostOutcome) → Timely 0 (rounds answer)
timely answer = (
  tt,
  (λ n. omega arith),
  omega arith,
  (λ r. refl),
  (
    ((λ n. omega arith), tt),
    (λ n. omega arith),
    omega arith,
    (λ r. refl),
    (
      tt,
      (λ n. omega arith),
      omega arith,
      (λ r. refl),
      (
        tt,
        (λ n. omega arith),
        omega arith,
        (λ r. refl),
        (
          tt,
          (λ n. omega arith),
          omega arith,
          (λ r. refl),
          (
            tt,
            (λ n. omega arith),
            omega arith,
            (λ r. refl),
            (tt, (λ n. omega arith), omega arith, (λ r. refl), tt),
          ),
        ),
      ),
    ),
  ),
)

outbox-Distinct : Distinct outbox.webhook_deliveries
outbox-Distinct = ((refl, tt), (tt, tt))

outbox-DueSoon : All (DueSoon 0) outbox.webhook_deliveries
outbox-DueSoon = ((λ h. (0, refl, omega arith)), ((λ h. (60, refl, omega arith)), tt))

refusing-IsBrief : (t : ℕ) → IsBrief (poll_at refusing t)
unfolding error_of
refusing-IsBrief t e d = refl

refusing-brief : All RoundIsBrief (rounds refusing)
refusing-brief = (
  (tt, refusing-IsBrief 1000),
  (
    ((refusing-IsBrief 1002, tt), refusing-IsBrief 2000),
    (
      (tt, refusing-IsBrief 3000),
      (
        (tt, refusing-IsBrief 4000),
        (
          (tt, refusing-IsBrief 5000),
          ((tt, refusing-IsBrief 6000), ((tt, refusing-IsBrief 7000), tt)),
        ),
      ),
    ),
  ),
)

run_rounds-drains_example :
    any_pending (run_rounds (rounds refusing) outbox).webhook_deliveries ≡ false
run_rounds-drains_example =
    run_rounds-drains (rounds refusing) 0 outbox outbox-Distinct outbox-DueSoon (timely refusing)
      refusing-brief (omega arith)

abbrev agreeing : WebhookEndpoint → WebhookDelivery → PostOutcome
agreeing e d = responded 204 "204"

agreeing-fine : (t : ℕ) → Succeeds (poll_at agreeing t)
unfolding error_of
agreeing-fine t e d = refl

run_rounds-delivers_example :
    Pointwise GetsThere outbox.webhook_deliveries
      (run_rounds (rounds agreeing) outbox).webhook_deliveries
run_rounds-delivers_example =
    run_rounds-delivers (rounds agreeing) 0 outbox outbox-Distinct
      ((λ h. (endpoint, refl)), ((λ h. (endpoint, refl)), tt))
      (
        (tt, agreeing-fine 1000),
        (
          ((agreeing-fine 1002, tt), agreeing-fine 2000),
          (
            (tt, agreeing-fine 3000),
            (
              (tt, agreeing-fine 4000),
              (
                (tt, agreeing-fine 5000),
                ((tt, agreeing-fine 6000), ((tt, agreeing-fine 7000), tt)),
              ),
            ),
          ),
        ),
      )
      outbox-DueSoon (timely agreeing) (omega arith)

abbrev served : List Event
served = goes_on 0 ∷ polls 0 (poll_at refusing 100) ∷ wakes 0 ∷ goes_on 0 ∷ raises 0 ∷ []

run-refines_example :
    Pointwise
      (λ x y. Steps (view x) (view y))
      outbox.webhook_deliveries
      (run (lifespan served) (new_process outbox)).db.webhook_deliveries
run-refines_example = run-refines (lifespan served) (new_process outbox) ((refl, tt), (tt, tt))

lifespan-silences_example :
    let p = run (lifespan served) (new_process outbox) in
    (p.tasks ≡ finished ∷ []) × (run (goes_on 0 ∷ polls 0 (poll_at refusing 900) ∷ []) p ≡ p)
lifespan-silences_example =
    lifespan-silences served (goes_on 0 ∷ polls 0 (poll_at refusing 900) ∷ []) outbox
      (tt, (tt, (tt, (tt, (tt, tt))))) (tt, (tt, tt))

-- The receiver accepts what the worker signs.
abbrev accepting : Poll
accepting = poll_at (answer_by hashing receiver (λ _. 95)) 100

accepted :
    (run_poll accepting outbox).webhook_deliveries
    ≡ record row { attempts = 1; status = WebhookDeliveryStatus.delivered; delivered_at = some 100 }
      ∷ record row {
        id = 2;
        attempts = 4;
        next_attempt_at = some 60;
        status = WebhookDeliveryStatus.delivered;
        delivered_at = some 100;
      }
      ∷ []
unfolding poll deliver_each claim sort_by insert_by deliver request_for sign_payload error_of
    verify_signature parse_header pairs_of split split_first lookup parse_int parse_digits strip
    lstrip rstrip str_int decimal digit_list poll_transaction messages_fit
accepted = refl

abbrev doubled : ℕ → String
doubled zero = "x"
doubled (suc n) = let half = doubled n in half ++ half

-- A message of 2048 characters takes back the whole batch.
abbrev blocking : Poll
blocking = poll_at (λ e d. if d.id == 2 then excepted (doubled 11) else responded 200 "200") 100

overlap-commutes_example :
    let batch = claim 100 (λ _. false) outbox in
    let batch' = claim 101 (held_by batch) outbox in
    All (λ row. Lacks row.id batch) batch'
    × (deliver_each refusing (λ n. 101) 1 batch' (deliver_each refusing (λ n. 100) 1 batch outbox)
        ≡ deliver_each refusing
            (λ n. 100)
            1
            batch
            (deliver_each refusing (λ n. 101) 1 batch' outbox))
overlap-commutes_example = overlap-commutes refusing refusing (λ n. 100) (λ n. 101) outbox
