-- ===== src/Outbox.antt =====
-- src/infrastructure/outbox: the service that reads and marks outbox rows, and the publisher that
-- copies them to the queue of domain events. Logging is left out. The queue is BullMQ's, which the
-- repository does not contain: an interface. A call of the database or of the queue may fail at any
-- moment; `clock` counts the moments, and is the time that `new Date()` reads.
pub mod Turn
pub mod Delivery
pub mod Retries
pub mod Progress
use lior_paris_wallet.Prelude.{
  ℕ, suc, ◌+◌, ◌&&◌, ◌≡◌, ◌⊎◌, Bool, true, false, Option, none, some, List, [], ◌∷◌, ◌++◌, ◌==◌,
  ltb, not, is_some, if◌then◌else◌,
}
use lior_paris_wallet.Result.{
  Action, Result, Exception, ok, err, pure, throw, gets, modify, ◌>>=◌, ◌>>◌,
}
use lior_paris_wallet.Orm.{Orm}
use lior_paris_wallet.Entities.{Db, OutboxEvent, DomainEventName, Payload}

-- The object that is added to the queue, under the event's name.
pub record DomainJob : Type 0 where
  pub name : DomainEventName
  pub outbox_id : ℕ
  pub aggregate_id : ℕ
  pub payload : Payload
  pub occurred_at : ℕ

unfoldable pub job_of : OutboxEvent → DomainJob
job_of event = record {
  name = event.event_name;
  outbox_id = event.id;
  aggregate_id = event.aggregate_id;
  payload = event.payload_json;
  occurred_at = event.occurred_at;
}

-- `add` of a BullMQ queue at a moment: a call that returns has appended the job, one that rejects
-- may have.
pub record Queue : Type 1 where
  pub add : {J : Type 0} → ℕ → J → Action (List J) Unit
  pub add-ok :
      {J : Type 0} (now : ℕ) (j : J) (jobs jobs' : List J)
      → add now j jobs ≡ (ok tt, jobs')
      → jobs' ≡ jobs ++ j ∷ []
  pub add-err :
      {J : Type 0} (now : ℕ) (j : J) (jobs jobs' : List J) (x : Exception)
      → add now j jobs ≡ (err x, jobs')
      → (jobs' ≡ jobs) ⊎ (jobs' ≡ jobs ++ j ∷ [])

pub record Publisher : Type 0 where
  pub processing : Bool
  pub clock : ℕ
  pub outbox : List OutboxEvent
  pub domain_events : List DomainJob

-- `try { m } catch (error) { h }`
abbrev pub try_catch : {S A : Type 0} → Action S A → Action S A → Action S A
try_catch m h s = let (r, s') = m s in elim r [ ok a ↦ (ok a, s') | err x ↦ h s' ]

abbrev pub max_retries : ℕ
max_retries = 5

abbrev pub is_pending : OutboxEvent → Bool
is_pending event = not (is_some event.processed_at) && ltb event.retry_count max_retries

-- `fault` says with what the database rejects a statement at a moment, if it does.
module _ (orm : Orm) (queue : Queue) (fault : ℕ → Option Exception) where
  -- A statement: it takes a moment, and is carried out or rejected.
  abbrev pub statement : {A : Type 0} → (ℕ → Action (List OutboxEvent) A) → Action Publisher A
  statement m s = elim (fault s.clock) [
    | none ↦
        let (r, rows) = m s.clock s.outbox in (r, record s { clock = suc s.clock; outbox = rows })
    | some x ↦ (err x, record s { clock = suc s.clock })
  ]

  unfoldable pub find_unprocessed : ℕ → Action Publisher (List OutboxEvent)
  find_unprocessed limit =
      statement (λ now. gets (orm.find is_pending (λ event. event.created_at) limit))

  unfoldable pub mark_processed : ℕ → Action Publisher Unit
  mark_processed id = statement (λ now.
      modify
        (orm.update (λ event. event.id == id) (λ event. record event { processed_at = some now })))

  unfoldable pub mark_failed_attempt : ℕ → Action Publisher Unit
  mark_failed_attempt id = statement (λ now. modify (
      orm.update (λ event. event.id == id)
        (λ event. record event { retry_count = event.retry_count + 1 })))

  unfoldable pub add_job : DomainJob → Action Publisher Unit
  add_job job s =
      let (r, jobs) = queue.add s.clock job s.domain_events in
      (r, record s { clock = suc s.clock; domain_events = jobs })

  -- One turn of the loop: a failure is counted, and if that fails too, it ends the loop.
  unfoldable pub publish_event : OutboxEvent → Action Publisher Unit
  publish_event event =
      try_catch (add_job (job_of event) >> mark_processed event.id) (mark_failed_attempt event.id)

  unfoldable pub publish_all : List OutboxEvent → Action Publisher Unit
  publish_all [] = pure tt
  publish_all (event ∷ events) = publish_event event >> publish_all events

  unfoldable pub publish_pending_events : Action Publisher Unit
  publish_pending_events s =
      if s.processing
      then (ok tt, s)
      else (let (r, s') = (find_unprocessed 50 >>= publish_all) (record s { processing = true }) in
          (r, record s' { processing = false }))
