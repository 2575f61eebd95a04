-- ===== src/Outbox/Turn.antt =====
-- One turn of the loop of `publishPendingEvents` (src/infrastructure/outbox/outbox.publisher.ts), and
-- what every turn keeps, a poll keeps.
use lior_paris_wallet.Prelude.{
  Bool, false, none, true, Bool-cases, Memᴰ, ℕ, suc, ◌+◌, ◌≡◌, ◌⊎◌, ◌==◌, inl, inr, refl, Option,
  some, Option-cases, List, [], ◌∷◌, ◌++◌, arith,
}
use lior_paris_wallet.Prelude.Rows.{set_where}
use lior_paris_wallet.Result.{Result, Exception, ok, err}
use lior_paris_wallet.Orm.{Orm}
use lior_paris_wallet.Entities.{OutboxEvent}
use lior_paris_wallet.Outbox.{
  DomainJob, job_of, Queue, Publisher, mark_processed, mark_failed_attempt, add_job, publish_event,
  publish_all, publish_pending_events, find_unprocessed, is_pending,
}

abbrev pub has_id : OutboxEvent → OutboxEvent → Bool
has_id event b = b.id == event.id

abbrev pub mark : ℕ → OutboxEvent → OutboxEvent
mark now b = record b { processed_at = some now }

abbrev pub count : OutboxEvent → OutboxEvent
count b = record b { retry_count = b.retry_count + 1 }

abbrev pub marked : ℕ → OutboxEvent → List OutboxEvent → List OutboxEvent
marked now event rows = set_where (has_id event) (mark now) rows

abbrev pub counted : OutboxEvent → List OutboxEvent → List OutboxEvent
counted event rows = set_where (has_id event) count rows

-- What a turn does to the rows and the jobs.
pub data Turn (event : OutboxEvent) (s s' : Publisher) : Type 0 where
  published :
      (now : ℕ)
      → s'.outbox ≡ marked now event s.outbox
      → s'.domain_events ≡ s.domain_events ++ job_of event ∷ []
      → Turn event s s'
  failed :
      (s'.outbox ≡ counted event s.outbox) ⊎ (s'.outbox ≡ s.outbox)
      → (s'.domain_events ≡ s.domain_events)
        ⊎ (s'.domain_events ≡ s.domain_events ++ job_of event ∷ [])
      → Turn event s s'

module _ (orm : Orm) (queue : Queue) (fault : ℕ → Option Exception) where
  module _ (event : OutboxEvent) (s : Publisher) where
    abbrev turn : Publisher
    turn = (publish_event orm queue fault event s).1

    -- The job may have been added; the failed attempt is counted, unless that fails too.
    failed_at :
        (jobs : List DomainJob) (now : ℕ)
        → (turn
            ≡ (mark_failed_attempt orm queue fault event.id
                (record s { clock = now; domain_events = jobs })).1)
        → (jobs ≡ s.domain_events) ⊎ (jobs ≡ s.domain_events ++ job_of event ∷ [])
        → Turn event s turn
    unfolding mark_failed_attempt
    failed_at jobs now same added = elim (Option-cases (fault now)) [
      | inl up ↦
          let after : turn ≡ record s {
            clock = suc now;
            outbox =
                orm.update (λ b. b.id == event.id)
                  (λ b. record b { retry_count = b.retry_count + 1 }) s.outbox;
            domain_events = jobs;
          } =
            rw same (ground arith) in
          rw after (failed (inl (orm.update_lem _ _ _)) added)
      | inr (x, down) ↦
          let after : turn ≡ record s { clock = suc now; domain_events = jobs } =
            rw same (ground arith) in
          rw after (failed (inr refl) added)
    ]

    turn_by :
        (r : Result Unit × List DomainJob)
        → queue.add s.clock (job_of event) s.domain_events ≡ r
        → Turn event s turn
    unfolding publish_event add_job mark_processed mark_failed_attempt
    turn_by (err x, jobs) q =
        failed_at jobs (suc s.clock) (ground arith) (queue.add-err _ _ _ _ _ q)
    turn_by (ok tt, jobs) q = elim (Option-cases (fault (suc s.clock))) [
      | inl up ↦
          let same : turn ≡ record s {
            clock = suc (suc s.clock);
            outbox =
                orm.update (λ b. b.id == event.id)
                  (λ b. record b { processed_at = some (suc s.clock) }) s.outbox;
            domain_events = jobs;
          } =
            ground arith in
          rw same (published (suc s.clock) (orm.update_lem _ _ _) (queue.add-ok _ _ _ _ q))
      | inr (x, down) ↦
          failed_at jobs (suc (suc s.clock)) (ground arith) (inr (queue.add-ok _ _ _ _ q))
    ]

    pub publish_event_outcome : Turn event s turn
    publish_event_outcome = turn_by _ refl

  -- A poll of an idle publisher: the batch, from a state that is marked busy.
  module _ (s : Publisher) where
    abbrev pub batch : List OutboxEvent
    batch = orm.find is_pending (λ e. e.created_at) 50 s.outbox

    abbrev pub polled : Result Unit × Publisher
    polled = publish_all orm queue fault batch (record s { processing = true; clock = suc s.clock })

    pub poll_idle :
        s.processing ≡ false
        → fault s.clock ≡ none
        → publish_pending_events orm queue fault s
          ≡ (polled.0, record polled.1 { processing = false })
    unfolding publish_pending_events find_unprocessed
    poll_idle idle up = rw idle (ground arith)

    pub poll_down :
        (x : Exception)
        → s.processing ≡ false
        → fault s.clock ≡ some x
        → publish_pending_events orm queue fault s
          ≡ (err x, record s { processing = false; clock = suc s.clock })
    unfolding publish_pending_events find_unprocessed
    poll_down x idle down = rw idle (ground arith)

    pub poll_busy : s.processing ≡ true → publish_pending_events orm queue fault s ≡ (ok tt, s)
    unfolding publish_pending_events
    poll_busy busy = rw busy refl

    -- A poll that finds another under way changes nothing; any other ends with the flag reset,
    -- whatever fails in it.
    publish_pending_events-processing :
        ((s.processing ≡ true) × (publish_pending_events orm queue fault s ≡ (ok tt, s)))
        ⊎ ((s.processing ≡ false)
            × ((publish_pending_events orm queue fault s).1.processing ≡ false))
    publish_pending_events-processing = elim (Bool-cases s.processing) [
      | inl busy ↦ inl (busy, poll_busy busy)
      | inr idle ↦ elim (Option-cases (fault s.clock)) [
        | inr (x, down) ↦ inr (idle, rw (poll_down x idle down) refl)
        | inl up ↦ inr (idle, rw (poll_idle idle up) refl)
      ]
    ]

  module _ {ℓ} (Keeps : List OutboxEvent → List DomainJob → Type ℓ) where
    abbrev Kept : Publisher → Type ℓ
    Kept s = Keeps s.outbox s.domain_events

    pub publish_rest :
        (event : OutboxEvent) (events : List OutboxEvent) (s : Publisher)
        (r : Result Unit × Publisher)
        → publish_event orm queue fault event s ≡ r
        → Kept r.1
        → Kept (publish_all orm queue fault events r.1).1
        → Kept (publish_all orm queue fault (event ∷ events) s).1
    unfolding publish_all
    publish_rest event events s (ok u, s') q done more =
        let same : publish_all orm queue fault (event ∷ events) s
            ≡ publish_all orm queue fault events s' =
          ground arith in
        rw same more
    publish_rest event events s (err x, s') q done more =
        let same : publish_all orm queue fault (event ∷ events) s ≡ (err x, s') = ground arith in
        rw same done

    publish_all-keeps :
        (events : List OutboxEvent)
        → ((event : OutboxEvent)
            → Memᴰ event events
            → (s s' : Publisher) → Turn event s s'
            → Kept s
            → Kept s')
        → (s : Publisher) → Kept s
        → Kept (publish_all orm queue fault events s).1
    unfolding publish_all
    publish_all-keeps [] step s kept = kept
    publish_all-keeps (event ∷ events) step s kept =
        let after = step event (Memᴰ.head refl) s _ (publish_event_outcome event s) kept in
        publish_rest event events s _ refl after
          (publish_all-keeps events (λ e m. step e (Memᴰ.tail m)) _ after)

    -- What holds of the rows and jobs, and what every turn on a pending row keeps, a poll keeps.
    pub publish_pending_events-keeps :
        (s : Publisher)
        → ((event : OutboxEvent)
            → Memᴰ event s.outbox
            → is_pending event ≡ true
            → (s' s'' : Publisher) → Turn event s' s''
            → Kept s'
            → Kept s'')
        → Kept s
        → Kept (publish_pending_events orm queue fault s).1
    publish_pending_events-keeps s step kept = elim (Bool-cases s.processing) [
      | inl busy ↦ rw (poll_busy s busy) kept
      | inr idle ↦ elim (Option-cases (fault s.clock)) [
        | inr (x, down) ↦ rw (poll_down s x idle down) kept
        | inl up ↦ rw (poll_idle s idle up) (
            publish_all-keeps (batch s)
              (λ e m.
                step e (orm.find-mem is_pending _ _ _ m).0 (orm.find-mem is_pending _ _ _ m).1)
              (record s { processing = true; clock = suc s.clock }) kept)
      ]
    ]
