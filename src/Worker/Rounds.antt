-- ===== src/Worker/Rounds.antt =====
-- Rounds of polls: the outbox of a worker that goes on polling is done in the end.
use tenant_billing_service.Base.{
  ℕ, suc, refl, ◌+◌, ◌≤◌, ◌<◌, ◌≡◌, inl, inr, true, false, List, [], ◌∷◌, arith, length, All,
  Bool-cases,
}
use tenant_billing_service.Model.Webhook.{WebhookDelivery}
use tenant_billing_service.Model.Db.{Db}
use tenant_billing_service.Worker.Moves.{Distinct}
use tenant_billing_service.Worker.Runs.{
  Poll, IsBrief, run_poll, run_polls, run_poll-writes, run_polls-writes, batch, write_poll,
  write_polls, write_poll-Distinct, write_polls-Distinct,
}
use tenant_billing_service.Worker.Measure.{
  remaining, write_poll-remaining_le, write_poll-remaining_lt, write_polls-remaining_le,
}
use tenant_billing_service.Worker.Drain.{
  longest_backoff, any_pending, DueSoon, write_poll-DueSoon, any-takes, List-cases, batch-empty,
  poll-idle, none_left, all_settled,
}

-- Some polls, one more, and a time at which all of them have ended.
pub record Round : Type 0 where
  pub polls : List Poll
  pub last : Poll
  pub ends : ℕ

abbrev pub write_round : Round → Db → Db
write_round r db = write_poll r.last (write_polls r.polls db)

abbrev pub write_rounds : List Round → Db → Db
write_rounds [] db = db
write_rounds (r ∷ rs) db = write_rounds rs (write_round r db)

abbrev EndsBy : ℕ → Poll → Type 0
EndsBy t p = (n : ℕ) → p.clock n ≤ t

-- The last poll of a round begins the longest delay after the round before it has ended, or later,
-- and finds no row held by another worker; the other polls may be at any times.
abbrev pub Timely : ℕ → List Round → Type 0
Timely t [] = Unit
Timely t (r ∷ rs) =
    All (EndsBy r.ends) r.polls
    × EndsBy r.ends r.last
    × (t + longest_backoff ≤ r.last.clock 0)
    × ((row : WebhookDelivery) → r.last.locked row ≡ false)
    × Timely r.ends rs

module _ (t t' : ℕ) (later : t ≤ t') where
  write_polls-DueSoon :
      (ps : List Poll) (db : Db)
      → All (EndsBy t') ps
      → Distinct db.webhook_deliveries
      → All (DueSoon t') db.webhook_deliveries
      → All (DueSoon t') (write_polls ps db).webhook_deliveries
        × Distinct (write_polls ps db).webhook_deliveries
  write_polls-DueSoon [] db early h soon = (soon, h)
  write_polls-DueSoon (p ∷ ps) db (e, early) h soon =
      write_polls-DueSoon ps (write_poll p db) early (write_poll-Distinct p db h)
        (write_poll-DueSoon p db t' t' (omega arith) e h soon)

  soon-later : (rows : List WebhookDelivery) → All (DueSoon t) rows → All (DueSoon t') rows
  soon-later [] soon = tt
  soon-later (x ∷ xs) (first, soon) =
      ((λ waits. let (s, at, le) = first waits in (s, at, omega arith)), soon-later xs soon)

module _ (t : ℕ) (last : Poll) (late : t + longest_backoff ≤ last.clock 0)
    (free : (row : WebhookDelivery) → last.locked row ≡ false) where
  last-progress :
      (db : Db)
      → Distinct db.webhook_deliveries
      → All (DueSoon t) db.webhook_deliveries
      → any_pending db.webhook_deliveries ≡ true
      → remaining (write_poll last db).webhook_deliveries < remaining db.webhook_deliveries
  last-progress db h soon waits = elim (List-cases (batch last db)) [
    | inl idle ↦
        cc (batch-empty last db idle, any-takes last t late free db.webhook_deliveries soon waits)
    | inr (r, rest, found) ↦ write_poll-remaining_lt last db r rest h found
  ]

  -- An idle poll leaves the tables; the first one that is not idle makes progress.
  round-progress :
      (ps : List Poll) (db : Db)
      → Distinct db.webhook_deliveries
      → All (DueSoon t) db.webhook_deliveries
      → any_pending db.webhook_deliveries ≡ true
      → remaining (write_poll last (write_polls ps db)).webhook_deliveries
        < remaining db.webhook_deliveries
  round-progress [] db h soon waits = last-progress db h soon waits
  round-progress (p ∷ ps) db h soon waits = elim (List-cases (batch p db)) [
    | inl idle ↦ rw (poll-idle p db idle) (round-progress ps db h soon waits)
    | inr (r, rest, found) ↦
        let db' = write_poll p db in
        let h' = write_poll-Distinct p db h in
        omega (
          arith,
          write_poll-remaining_lt p db r rest h found,
          write_polls-remaining_le ps db' h',
          write_poll-remaining_le last (write_polls ps db') (write_polls-Distinct ps db' h'),
        )
  ]

module _ (t : ℕ) (r : Round) (db : Db) where
  round-DueSoon :
      t ≤ r.ends
      → All (EndsBy r.ends) r.polls
      → EndsBy r.ends r.last
      → Distinct db.webhook_deliveries
      → All (DueSoon t) db.webhook_deliveries
      → Distinct (write_round r db).webhook_deliveries
        × All (DueSoon r.ends) (write_round r db).webhook_deliveries
  round-DueSoon later early early_last h soon =
      let (soon', h') =
        write_polls-DueSoon t r.ends later r.polls db early h
          (soon-later t r.ends later db.webhook_deliveries soon) in
      (
        write_poll-Distinct r.last (write_polls r.polls db) h',
        write_poll-DueSoon r.last (write_polls r.polls db) r.ends r.ends (omega arith) early_last h'
            soon',
      )

  round-remaining :
      (k : ℕ)
      → t + longest_backoff ≤ r.last.clock 0
      → ((row : WebhookDelivery) → r.last.locked row ≡ false)
      → Distinct db.webhook_deliveries
      → All (DueSoon t) db.webhook_deliveries
      → remaining db.webhook_deliveries ≤ suc k
      → remaining (write_round r db).webhook_deliveries ≤ k
  round-remaining k late free h soon few = elim (Bool-cases (any_pending db.webhook_deliveries)) [
    | inl waits ↦ omega (arith, round-progress t r.last late free r.polls db h soon waits)
    | inr done ↦ omega (
      arith,
      all_settled db.webhook_deliveries done,
      write_polls-remaining_le r.polls db h,
      write_poll-remaining_le r.last (write_polls r.polls db) (write_polls-Distinct r.polls db h),
    )
  ]

-- The drain of rounds that commit.
pub write_rounds-drains :
    (rs : List Round) (t : ℕ) (db : Db)
    → Distinct db.webhook_deliveries
    → All (DueSoon t) db.webhook_deliveries
    → Timely t rs
    → remaining db.webhook_deliveries ≤ length rs
    → any_pending (write_rounds rs db).webhook_deliveries ≡ false
write_rounds-drains [] t db h soon timely few = none_left db.webhook_deliveries (omega arith)
write_rounds-drains (r ∷ rs) t db h soon (early, early_last, late, free, timely) few =
    let (h', soon') =
      round-DueSoon t r db (omega (arith, late, early_last 0)) early early_last h soon in
    write_rounds-drains rs r.ends (write_round r db) h' soon' timely
      (round-remaining t r db (length rs) late free h soon few)

abbrev pub run_round : Round → Db → Db
run_round r db = run_poll r.last (run_polls r.polls db)

abbrev pub run_rounds : List Round → Db → Db
run_rounds [] db = db
run_rounds (r ∷ rs) db = run_rounds rs (run_round r db)

abbrev pub RoundIsBrief : Round → Type 0
RoundIsBrief r = All IsBrief r.polls × IsBrief r.last

pub run_rounds-writes :
    (rs : List Round) (db : Db) → All RoundIsBrief rs → run_rounds rs db ≡ write_rounds rs db
run_rounds-writes [] db brief = refl
run_rounds-writes (r ∷ rs) db ((polls, last), brief) =
    rw (run_polls-writes r.polls db polls, run_poll-writes r.last (write_polls r.polls db) last)
      (run_rounds-writes rs (write_round r db) brief)

-- If no two rows of the outbox have the same identifier, every pending row is due 625 s after the
-- time t at the latest, and the worker polls on in rounds of which each has a poll that begins
-- 625 s after the round before or later and finds no row held by another worker, at least as many
-- rounds as the pending rows have attempts left (5 for a new row), then no row is pending at the
-- end, however many rows there are for the ten of a poll and whatever the endpoints answer, as long
-- as no delivery fails with a message of more than 2000 characters.
pub run_rounds-drains :
    (rs : List Round) (t : ℕ) (db : Db)
    → Distinct db.webhook_deliveries
    → All (DueSoon t) db.webhook_deliveries
    → Timely t rs
    → All RoundIsBrief rs
    → remaining db.webhook_deliveries ≤ length rs
    → any_pending (run_rounds rs db).webhook_deliveries ≡ false
run_rounds-drains rs t db h soon timely brief few =
    rw (run_rounds-writes rs db brief) (write_rounds-drains rs t db h soon timely few)
