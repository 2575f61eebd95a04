-- ===== src/Examples/Messages.antt =====
-- The outbox: a queue in memory, a row that is due, and one whose retries are used up.
use mathlib.Core.List.Memᴰ
use lior_paris_wallet.Prelude.{
  ℕ, ◌≡◌, ◌⊎◌, ◌≤◌, refl, sym, ap, inl, inr, Option, some, none, List, [], ◌∷◌, ◌++◌, Memᴰ, arith,
  false, ◌==◌, if◌then◌else◌,
}
use lior_paris_wallet.Prelude.Rows.{length, HasUniqueKeys}
use lior_paris_wallet.Result.{Exception, ok, err, query_failed}
use lior_paris_wallet.Orm.Memory.{memory}
use lior_paris_wallet.Entities.{OutboxEvent, deposit_succeeded}
use lior_paris_wallet.Outbox.{DomainJob, Queue, Publisher, publish_pending_events}
use lior_paris_wallet.Outbox.Delivery.{IsDelivered, id_of, publish_pending_events-IsDelivered}
use lior_paris_wallet.Outbox.Retries.{
  IsBounded, publish_pending_events-IsBounded, publish_pending_events-exhausted,
}
use lior_paris_wallet.Outbox.Progress.{IsPublished, publish_pending_events-IsPublished}
use lior_paris_wallet.Notifications.{NotificationJob}
use lior_paris_wallet.Examples.Data.{first_event}

pub ok_is_no_err : (x : Exception) → ok tt ≡ err x → ⊥
ok_is_no_err x h = cc

abbrev pub calm_queue : Queue
calm_queue = record {
  add = λ now j jobs. (ok tt, jobs ++ j ∷ []);
  add-ok = λ now j jobs jobs' h. sym (ap (λ x. x.1) h);
  add-err = λ now j jobs jobs' x h. absurd (ok_is_no_err x (ap (λ x. x.0) h));
}

-- The database rejects the second statement of a poll.
abbrev flaky : ℕ → Option Exception
flaky now = if now == 2 then some query_failed else none

abbrev spent_event : OutboxEvent
spent_event = record first_event { id = 42; retry_count = 5 }

abbrev publisher : Publisher
publisher = record {
  processing = false;
  clock = 0;
  outbox = first_event ∷ spent_event ∷ [];
  domain_events = [];
}

publisher-ids : HasUniqueKeys id_of publisher.outbox
publisher-ids = (
  λ b m. elim (Memᴰ.cases_cons m) [ inl e ↦ ground (arith, e) | inr t ↦ absurd (Memᴰ.not-nil t) ],
  (λ b m. absurd (Memᴰ.not-nil m), tt),
)

publisher-IsDelivered : IsDelivered publisher.outbox publisher.domain_events
publisher-IsDelivered = record {
  ids = publisher-ids;
  delivered = λ b m done. elim (Memᴰ.cases_cons m) [
    | inl e ↦ absurd (ground (arith, e, done))
    | inr t ↦ let e = Memᴰ.eq_of_singleton t in absurd (ground (arith, e, done))
  ];
}

publish_pending_events-IsDelivered_example :
    let s' = (publish_pending_events memory calm_queue flaky publisher).1 in
    IsDelivered s'.outbox s'.domain_events
publish_pending_events-IsDelivered_example =
    publish_pending_events-IsDelivered memory calm_queue flaky publisher publisher-IsDelivered

publish_pending_events-exhausted_example :
    let s' = (publish_pending_events memory calm_queue flaky publisher).1 in
    Memᴰ spent_event s'.outbox
    × ((j : DomainJob) → Memᴰ j s'.domain_events → j.outbox_id ≡ 42 → Memᴰ j [])
publish_pending_events-exhausted_example =
    publish_pending_events-exhausted memory calm_queue flaky publisher spent_event publisher-ids
      (Memᴰ.tail (Memᴰ.head refl)) (omega arith)

publisher-IsBounded : IsBounded publisher.outbox
publisher-IsBounded b m = elim (Memᴰ.cases_cons m) [
  | inl e ↦ rw e (omega arith)
  | inr t ↦ rw (Memᴰ.eq_of_singleton t) (omega arith)
]

publish_pending_events-IsBounded_example :
    IsBounded (publish_pending_events memory calm_queue flaky publisher).1.outbox
publish_pending_events-IsBounded_example =
    publish_pending_events-IsBounded memory calm_queue flaky publisher publisher-ids
      publisher-IsBounded

publish_pending_events-IsPublished_example :
    let s' = (publish_pending_events memory calm_queue (λ now. none) publisher).1 in
    IsPublished first_event s'
    ⊎ ((events : List OutboxEvent) × (length events ≡ 50)
        × HasUniqueKeys id_of events
        × ((e : OutboxEvent) → Memᴰ e events → (e.created_at ≤ 1000) × IsPublished e s'))
publish_pending_events-IsPublished_example =
    publish_pending_events-IsPublished memory calm_queue (λ now. none) (λ now. refl)
      (λ now j jobs. refl) publisher first_event refl publisher-ids (Memᴰ.head refl) refl

abbrev pub notification : NotificationJob
notification = record {
  event_name = deposit_succeeded;
  payload = first_event.payload_json;
  enqueued_at = 0;
  dlq_count = none;
}
