-- ===== src/Outbox/Delivery.antt =====
-- The outbox's promise (src/infrastructure/outbox): an event that is marked as processed has been
-- added to the queue, whatever failed on the way.
use lior_paris_wallet.Prelude.{
  ℕ, ◌+◌, ◌≡◌, ◌⊎◌, ◌∙◌, ◌==◌, sym, inl, inr, refl, true, ap, Bool-cases, Option, some, List, [],
  ◌∷◌, ◌++◌, Memᴰ, arith, is_some,
}
use mathlib.Core.List.Memᴰ
use lior_paris_wallet.Prelude.Rows.{HasUniqueKeys, set_where-mem, mem-set_where}
use lior_paris_wallet.Prelude.Keys.{eq_of_key, HasUniqueKeys-set_where}
use lior_paris_wallet.Orm.{Orm}
use lior_paris_wallet.Entities.{OutboxEvent}
use lior_paris_wallet.Result.{Exception}
use lior_paris_wallet.Outbox.{DomainJob, job_of, Queue, Publisher, publish_pending_events}
use lior_paris_wallet.Outbox.Turn.{
  Turn, published, failed, has_id, mark, count, marked, counted, publish_pending_events-keeps,
}

abbrev pub id_of : OutboxEvent → ℕ
id_of e = e.id

-- Every row that is marked as processed has its job in the queue; the primary key is unique.
pub record IsDelivered (rows : List OutboxEvent) (jobs : List DomainJob) : Type 0 where
  pub ids : HasUniqueKeys id_of rows
  pub delivered :
      (b : OutboxEvent) → Memᴰ b rows → is_some b.processed_at ≡ true → Memᴰ (job_of b) jobs

-- The row is among the rows, as far as its job goes.
abbrev IsStored : OutboxEvent → List OutboxEvent → Type 0
IsStored e rows = (b : OutboxEvent) × Memᴰ b rows × (job_of b ≡ job_of e)

job_of-marked :
    (now : ℕ) (b : OutboxEvent) → job_of (record b { processed_at = some now }) ≡ job_of b
unfolding job_of
job_of-marked now b = refl

job_of-counted :
    (b : OutboxEvent) → job_of (record b { retry_count = b.retry_count + 1 }) ≡ job_of b
unfolding job_of
job_of-counted b = refl

module _ (e b : OutboxEvent) (rows : List OutboxEvent) where
  -- A row after an update has the job of one before it.
  marked-stored :
      (now : ℕ)
      → Memᴰ b (marked now e rows)
      → (a : OutboxEvent) × Memᴰ a rows × (job_of b ≡ job_of a) × (((a.id ≡ e.id)) ⊎ (b ≡ a))
  marked-stored now m =
      let (a, n, q) = set_where-mem (has_id e) (mark now) rows m in
      elim (Bool-cases (a.id == e.id)) [
        | inl hit ↦ (a, n, rw q (rw hit (job_of-marked now a)), inl (ground arith))
        | inr miss ↦ (a, n, rw q (rw miss refl), inr (q ∙ rw miss refl))
      ]

  counted-stored :
      Memᴰ b (counted e rows)
      → (a : OutboxEvent) × Memᴰ a rows × (job_of b ≡ job_of a) × (b.processed_at ≡ a.processed_at)
  counted-stored m =
      let (a, n, q) = set_where-mem (has_id e) count rows m in
      elim (Bool-cases (a.id == e.id)) [
        | inl hit ↦ (a, n, rw q (rw hit (job_of-counted a)), rw q (rw hit refl))
        | inr miss ↦ (a, n, rw q (rw miss refl), rw q (rw miss refl))
      ]

  IsStored-marked : (now : ℕ) → IsStored b rows → IsStored b (marked now e rows)
  IsStored-marked now (a, n, same) = elim (Bool-cases (a.id == e.id)) [
    | inl hit ↦ (_, mem-set_where (has_id e) (mark now) rows n, rw hit (job_of-marked now a ∙ same))
    | inr miss ↦ (_, mem-set_where (has_id e) (mark now) rows n, rw miss same)
  ]

  IsStored-counted : IsStored b rows → IsStored b (counted e rows)
  IsStored-counted (a, n, same) = elim (Bool-cases (a.id == e.id)) [
    | inl hit ↦ (_, mem-set_where (has_id e) count rows n, rw hit (job_of-counted a ∙ same))
    | inr miss ↦ (_, mem-set_where (has_id e) count rows n, rw miss same)
  ]

-- What a poll keeps: the promise, and that every row of the start is stored still.
abbrev Promise : List OutboxEvent → List OutboxEvent → List DomainJob → Type 0
Promise start rows jobs =
    IsDelivered rows jobs × ((b : OutboxEvent) → Memᴰ b start → IsStored b rows)

id_of-stored : (a b : OutboxEvent) → job_of a ≡ job_of b → a.id ≡ b.id
unfolding job_of
id_of-stored a b same = ap (λ (j : DomainJob). j.outbox_id) same

module _ (start : List OutboxEvent) (e : OutboxEvent) (from : Memᴰ e start)
    (rows : List OutboxEvent) (jobs : List DomainJob) (kept : Promise start rows jobs) where
  -- A row with the event's id has the event's job.
  own_job : (a : OutboxEvent) → Memᴰ a rows → a.id ≡ e.id → job_of a ≡ job_of e
  own_job a m same =
      let (b, n, stored) = kept.1 e from in
      let one : a ≡ b =
        eq_of_key id_of rows kept.0.ids m n (same ∙ sym (id_of-stored b e stored)) in
      rw one stored

  Promise-marked : (now : ℕ) → Promise start (marked now e rows) (jobs ++ job_of e ∷ [])
  Promise-marked now = (
    record {
      ids = HasUniqueKeys-set_where id_of (has_id e) (mark now) rows (λ a. refl) kept.0.ids;
      delivered = λ b m done.
          let (a, n, same, why) = marked-stored e b rows now m in
          elim why [
            | inl own ↦ rw (same, own_job a n own) (Memᴰ.append_right jobs (Memᴰ.head refl))
            | inr stays ↦ Memᴰ.append_left _ (kept.0.delivered b (rw stays n) done)
          ];
    },
    λ b m. IsStored-marked e b rows now (kept.1 b m),
  )

  Promise-counted : Promise start (counted e rows) jobs
  Promise-counted = (
    record {
      ids = HasUniqueKeys-set_where id_of (has_id e) count rows (λ a. refl) kept.0.ids;
      delivered = λ b m done.
          let (a, n, same, unmarked) = counted-stored e b rows m in
          rw same (kept.0.delivered a n (rw (sym unmarked) done));
    },
    λ b m. IsStored-counted e b rows (kept.1 b m),
  )

Promise-more :
    (start rows : List OutboxEvent) (jobs : List DomainJob) (j : DomainJob)
    → Promise start rows jobs
    → Promise start rows (jobs ++ j ∷ [])
Promise-more start rows jobs j kept = (
  record {
    ids = kept.0.ids;
    delivered = λ b m done. Memᴰ.append_left _ (kept.0.delivered b m done);
  },
  kept.1,
)

Turn-Promise :
    (start : List OutboxEvent) (e : OutboxEvent)
    → Memᴰ e start
    → (s s' : Publisher) → Turn e s s'
    → Promise start s.outbox s.domain_events
    → Promise start s'.outbox s'.domain_events
Turn-Promise start e from s s' (published now rows jobs) kept =
    rw (rows, jobs) (Promise-marked start e from s.outbox s.domain_events kept now)
Turn-Promise start e from s s' (failed (inl rows) (inl jobs)) kept =
    rw (rows, jobs) (Promise-counted start e from s.outbox s.domain_events kept)
Turn-Promise start e from s s' (failed (inl rows) (inr jobs)) kept =
    rw (rows, jobs)
      (Promise-more start (counted e s.outbox) s.domain_events (job_of e)
        (Promise-counted start e from s.outbox s.domain_events kept))
Turn-Promise start e from s s' (failed (inr rows) (inl jobs)) kept = rw (rows, jobs) kept
Turn-Promise start e from s s' (failed (inr rows) (inr jobs)) kept =
    rw (rows, jobs) (Promise-more start s.outbox s.domain_events (job_of e) kept)

module _ (orm : Orm) (queue : Queue) (fault : ℕ → Option Exception) (s : Publisher) where
  -- A poll keeps the outbox's promise, at whatever moments the database or the queue fail: every
  -- event that is marked as processed has been added to the queue, and ids stay unique.
  pub publish_pending_events-IsDelivered :
      IsDelivered s.outbox s.domain_events
      → let s' = (publish_pending_events orm queue fault s).1 in
        IsDelivered s'.outbox s'.domain_events
  publish_pending_events-IsDelivered kept =
      (publish_pending_events-keeps orm queue fault (Promise s.outbox) s
        (λ e m pending. Turn-Promise s.outbox e m) (kept, λ b m. (b, m, refl))).0
