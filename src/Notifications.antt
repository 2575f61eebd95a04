-- ===== src/Notifications.antt =====
-- The workers of the queues: src/features/notifications/domain-events.processor.ts and
-- notifications.processor.ts, and dead-letter.processor.ts and queue.module.ts of src/infrastructure/queue. Logging is left
-- out, and so are the fields of a dead letter that no worker reads. A job's name is its event's.
pub mod Rounds
pub mod Attempts
pub mod Currency
pub mod Cents
pub mod Service
pub mod Mails
pub mod Amounts
use lior_paris_wallet.Prelude.{
  ℕ, String, suc, ◌+◌, ◌≡◌, Bool, true, false, Option, none, some, List, leb, if◌then◌else◌,
}
use lior_paris_wallet.Result.{Action, ok, pure, ◌>>=◌, ◌>>◌}
use lior_paris_wallet.Entities.{
  DomainEventName, Payload, transfer_completed, transfer_sent, transfer_received, deposit_succeeded,
  user_registered,
}
use lior_paris_wallet.Outbox.{Queue, DomainJob}

-- `QUEUE_NAMES`
pub data QueueName : Type 0 where
  domain_events notifications dead_letter : QueueName

-- `{ type, delay }`, in milliseconds.
pub record Backoff : Type 0 where
  pub type : String
  pub delay : ℕ

-- `{ age, count }`: for how many seconds, and how many jobs are kept.
pub record KeepJobs : Type 0 where
  pub age : ℕ
  pub count : ℕ

pub record JobOptions : Type 0 where
  pub attempts : Option ℕ
  pub backoff : Option Backoff
  pub remove_on_complete : Option KeepJobs
  pub remove_on_fail : Option KeepJobs

abbrev tried_thrice : JobOptions
tried_thrice = record {
  attempts = some 3;
  backoff = some (record { type = "exponential"; delay = 1000 });
  remove_on_complete = some (record { age = 86400; count = 200 });
  remove_on_fail = some (record { age = 604800; count = 500 });
}

-- `defaultJobOptions` of a queue, which every job that is added to it has: no call of `add` gives any.
unfoldable pub default_job_options : QueueName → JobOptions
default_job_options QueueName.domain_events = tried_thrice
default_job_options QueueName.notifications = tried_thrice
default_job_options QueueName.dead_letter = record {
  attempts = none;
  backoff = none;
  remove_on_complete = some (record { age = 604800; count = 1000 });
  remove_on_fail = none;
}

-- The data of a job of the queue of notifications; `dlq_count` is `_dlqMeta?.dlqCount`.
pub record NotificationJob : Type 0 where
  pub event_name : DomainEventName
  pub payload : Payload
  pub enqueued_at : ℕ
  pub dlq_count : Option ℕ

pub record DeadLetter : Type 0 where
  pub original_queue : QueueName
  pub job : NotificationJob
  pub dlq_count : ℕ

-- The queues, and the moment. Of the queue of domain events, what the dead letters put into it.
pub record Workers : Type 0 where
  pub clock : ℕ
  pub domain_events : List NotificationJob
  pub notifications : List NotificationJob
  pub dead_letters : List DeadLetter

abbrev pub max_dlq_reprocess : ℕ
max_dlq_reprocess = 3

-- `count ?? 0`
abbrev pub or_zero : Option ℕ → ℕ
or_zero none = 0
or_zero (some n) = n

-- The letter of a job, as `onFailed` writes it.
abbrev pub letter_of : NotificationJob → DeadLetter
letter_of job = record {
  original_queue = QueueName.notifications;
  job = job;
  dlq_count = or_zero job.dlq_count;
}

module _ (queue : Queue) where
  pub add_notification : DomainEventName → Payload → Action Workers Unit
  add_notification event_name payload s =
      let (r, jobs) =
        queue.add s.clock
          (record {
            event_name = event_name;
            payload = payload;
            enqueued_at = s.clock;
            dlq_count = none;
          })
          s.notifications in
      (r, record s { clock = suc s.clock; notifications = jobs })

  -- `process` of the queue of domain events.
  unfoldable pub process_event : DomainEventName → Payload → Action Workers Unit
  unfolding add_notification
  process_event transfer_completed payload = do
    add_notification transfer_sent payload
    add_notification transfer_received payload
  process_event deposit_succeeded payload = add_notification deposit_succeeded payload
  process_event user_registered payload = pure tt
  process_event transfer_sent payload = pure tt
  process_event transfer_received payload = pure tt

  -- `onFailed`: a job that has used up its attempts goes to the dead letters.
  unfoldable pub on_failed :
      NotificationJob → (attempts_made : ℕ) → (attempts : Option ℕ) → Action Workers Unit
  on_failed job attempts_made attempts s =
      if leb (elim attempts [ none ↦ 1 | some n ↦ n ]) attempts_made
      then (let (r, letters) = queue.add s.clock (letter_of job) s.dead_letters in
          (r, record s { clock = suc s.clock; dead_letters = letters }))
      else (ok tt, s)

  -- `targetQueue.add`
  put_back : QueueName → NotificationJob → Action Workers Unit
  put_back QueueName.notifications job s =
      let (r, jobs) = queue.add s.clock job s.notifications in
      (r, record s { clock = suc s.clock; notifications = jobs })
  put_back QueueName.domain_events job s =
      let (r, jobs) = queue.add s.clock job s.domain_events in
      (r, record s { clock = suc s.clock; domain_events = jobs })
  put_back QueueName.dead_letter job s = (ok tt, s)

  -- `process` of the dead letters: back to the original queue, unless the letter has been back often
  -- enough. A letter that names no queue of the map is dropped.
  unfoldable pub process_letter : DeadLetter → Action Workers Unit
  unfolding put_back
  process_letter letter s =
      if leb max_dlq_reprocess letter.dlq_count
      then (ok tt, s)
      else put_back letter.original_queue
          (record letter.job { dlq_count = some (letter.dlq_count + 1) }) s
