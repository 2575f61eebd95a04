-- ===== src/Outbox/Progress.antt =====
-- What a poll of the outbox (src/infrastructure/outbox/outbox.publisher.ts) gets done while the
-- database and the queue answer.
use lior_paris_wallet.Prelude.{
  ℕ, suc, ◌≤◌, ◌≡◌, ◌⊎◌, ◌==◌, inl, inr, refl, true, false, Bool-cases, Option, none, List, [], ◌∷◌,
  ◌++◌, Memᴰ, arith, is_some, sym, ap, ◌∙◌,
}
use mathlib.Core.List.Memᴰ
use lior_paris_wallet.Prelude.Rows.{length, mem-set_where, HasUniqueKeys}
use lior_paris_wallet.Orm.{Orm}
use lior_paris_wallet.Entities.{OutboxEvent}
use lior_paris_wallet.Result.{Result, Exception, ok}
use lior_paris_wallet.Outbox.{
  DomainJob, job_of, Queue, Publisher, is_pending, publish_event, publish_all, add_job,
  mark_processed, publish_pending_events,
}
use lior_paris_wallet.Outbox.Delivery.{id_of}
use lior_paris_wallet.Outbox.Turn.{has_id, mark, marked, batch, polled, poll_idle}

-- The event's job has been added and its row is marked as processed.
abbrev pub IsPublished : OutboxEvent → Publisher → Type 0
IsPublished e s =
    Memᴰ (job_of e) s.domain_events
    × ((b : OutboxEvent) × Memᴰ b s.outbox × (b.id ≡ e.id) × (is_some b.processed_at ≡ true))

module _ (orm : Orm) (queue : Queue) (fault : ℕ → Option Exception)
    (answers : (now : ℕ) → fault now ≡ none)
    (accepts : (now : ℕ) (j : DomainJob) (jobs : List DomainJob)
      → (queue.add now j jobs).0 ≡ ok tt) where
  module _ (e : OutboxEvent) (s : Publisher) where
    abbrev after_turn : Publisher
    after_turn = record s {
      clock = suc (suc s.clock);
      outbox = marked (suc s.clock) e s.outbox;
      domain_events = s.domain_events ++ job_of e ∷ [];
    }

    turn_up :
        (r : Result Unit × List DomainJob)
        → queue.add s.clock (job_of e) s.domain_events ≡ r
        → r.0 ≡ ok tt
        → publish_event orm queue fault e s ≡ (ok tt, after_turn)
    unfolding publish_event add_job mark_processed
    turn_up (r, jobs) q done =
        let all : queue.add s.clock (job_of e) s.domain_events ≡ (ok tt, jobs) =
          q ∙ ap (λ (x : Result Unit). (x, jobs)) done in
        let added = queue.add-ok s.clock (job_of e) s.domain_events jobs all in
        let up = answers (suc s.clock) in
        let marks = orm.update_lem (has_id e) (mark (suc s.clock)) s.outbox in
        rw (sym added, sym marks) (ground arith)

    publish_event-up : publish_event orm queue fault e s ≡ (ok tt, after_turn)
    publish_event-up = turn_up _ refl (accepts s.clock (job_of e) s.domain_events)

    after_turn-IsPublished :
        (b : OutboxEvent) → Memᴰ b s.outbox → b.id ≡ e.id → IsPublished e after_turn
    after_turn-IsPublished b m same =
        let hit : (b.id == e.id) ≡ true = ground arith in
        let changed = mem-set_where (has_id e) (mark (suc s.clock)) s.outbox m in
        (Memᴰ.append_right s.domain_events (Memᴰ.head refl), (_, rw hit at changed, same, refl))

    -- What has been published stays so.
    IsPublished-after_turn : (b : OutboxEvent) → IsPublished b s → IsPublished b after_turn
    IsPublished-after_turn b (job, (c, m, same, done)) =
        let changed = mem-set_where (has_id e) (mark (suc s.clock)) s.outbox m in
        (
          Memᴰ.append_left _ job,
          elim (Bool-cases (c.id == e.id)) [
            | inl hit ↦ (_, rw hit at changed, same, refl)
            | inr miss ↦ (_, rw miss at changed, same, done)
          ],
        )

    -- A row keeps its id.
    after_turn-row :
        (b : OutboxEvent)
        → ((c : OutboxEvent) × Memᴰ c s.outbox × (c.id ≡ b.id))
        → (c : OutboxEvent) × Memᴰ c after_turn.outbox × (c.id ≡ b.id)
    after_turn-row b (c, m, same) =
        let changed = mem-set_where (has_id e) (mark (suc s.clock)) s.outbox m in
        elim (Bool-cases (c.id == e.id)) [
          | inl hit ↦ (_, rw hit at changed, same)
          | inr miss ↦ (_, rw miss at changed, same)
        ]

  publish_all-up :
      (e : OutboxEvent) (events : List OutboxEvent) (s : Publisher)
      → publish_all orm queue fault (e ∷ events) s
        ≡ publish_all orm queue fault events (after_turn e s)
  unfolding publish_all
  publish_all-up e events s =
      let up : publish_event orm queue fault e s ≡ (ok tt, after_turn e s) = publish_event-up e s in
      ground arith

  -- What has been published stays so to the end of the batch.
  publish_all-keeps_IsPublished :
      (events : List OutboxEvent) (s : Publisher) (b : OutboxEvent)
      → IsPublished b s
      → IsPublished b (publish_all orm queue fault events s).1
  unfolding publish_all
  publish_all-keeps_IsPublished [] s b done = done
  publish_all-keeps_IsPublished (e ∷ events) s b done =
      rw (publish_all-up e events s) (
        publish_all-keeps_IsPublished events (after_turn e s) b (IsPublished-after_turn e s b done))

  -- Every event of a batch, whose row is there, is published.
  publish_all-IsPublished :
      (events : List OutboxEvent) (s : Publisher) (b : OutboxEvent)
      → Memᴰ b events
      → ((c : OutboxEvent) × Memᴰ c s.outbox × (c.id ≡ b.id))
      → IsPublished b (publish_all orm queue fault events s).1
  publish_all-IsPublished [] s b m row = absurd (Memᴰ.not-nil m)
  publish_all-IsPublished (e ∷ events) s b m row =
      rw (publish_all-up e events s) (elim (Memᴰ.cases_cons m) [
        | inl first ↦ publish_all-keeps_IsPublished events (after_turn e s) b (
            rw first (
              after_turn-IsPublished e s row.0 row.1
                (row.2 ∙ ap (λ (x : OutboxEvent). x.id) first)))
        | inr later ↦
            publish_all-IsPublished events (after_turn e s) b later (after_turn-row e s b row)
      ])

  -- While the database and the queue answer and ids are unique, a poll of an idle publisher publishes
  -- a row that is not processed and has fewer than five failed attempts, or 50 rows that are no
  -- younger.
  pub publish_pending_events-IsPublished :
      (s : Publisher) (r : OutboxEvent)
      → s.processing ≡ false
      → HasUniqueKeys id_of s.outbox
      → Memᴰ r s.outbox
      → is_pending r ≡ true
      → let s' = (publish_pending_events orm queue fault s).1 in
        IsPublished r s'
        ⊎ ((events : List OutboxEvent) × (length events ≡ 50)
            × HasUniqueKeys id_of events
            × ((e : OutboxEvent)
                → Memᴰ e events
                → (e.created_at ≤ r.created_at) × IsPublished e s'))
  publish_pending_events-IsPublished s r idle unique m due =
      let busy : Publisher = record s { processing = true; clock = suc s.clock } in
      let each : (e : OutboxEvent)
          → Memᴰ e (batch orm queue fault s)
          → IsPublished e (polled orm queue fault s).1 =
        λ e n.
          publish_all-IsPublished (batch orm queue fault s) busy e n
            (e, (orm.find-mem is_pending _ _ _ n).0, refl) in
      rw (poll_idle orm queue fault s idle (answers s.clock))
        (elim (orm.find_complete is_pending (λ e. e.created_at) 50 s.outbox m due) [
          | inl early ↦ inl (each r early)
          | inr (full, older) ↦ inr (
            batch orm queue fault s,
            full,
            orm.find-keys is_pending (λ e. e.created_at) 50 s.outbox id_of unique,
            λ e n. (older e n, each e n),
          )
        ])
