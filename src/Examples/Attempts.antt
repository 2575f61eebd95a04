-- ===== src/Examples/Attempts.antt =====
-- The mail of a deposit fails three times, comes back from the dead letters, and fails once more.
use lior_paris_wallet.Prelude.{◌≡◌, ◌≤◌, ◌+◌, ◌*◌, refl, some, [], arith}
use lior_paris_wallet.Entities.{deposit_succeeded}
use lior_paris_wallet.Notifications.{
  NotificationJob, Workers, or_zero, default_job_options, letter_of, on_failed, process_letter,
}
use lior_paris_wallet.Notifications.Attempts.{Attempts, fresh, fails, comes_back, Attempts-bounded}
use lior_paris_wallet.Examples.Data.{first_event}
use lior_paris_wallet.Examples.Messages.{calm_queue, notification}

abbrev workers : Workers
workers = record { clock = 0; domain_events = []; notifications = []; dead_letters = [] }

abbrev second : NotificationJob
second = record notification { dlq_count = some 1 }

four_failures : Attempts calm_queue notification 4 second 1
unfolding default_job_options on_failed process_letter
four_failures =
    let thrice = fails (fails (fails fresh (omega arith)) (omega arith)) (omega arith) in
    fails (comes_back (letter_of notification) workers workers thrice refl refl) (omega arith)

Attempts-bounded_example :
    (4 ≤ 12)
    × (4 ≡ 3 * or_zero second.dlq_count + 1)
    × (1 ≤ 3)
    × (or_zero second.dlq_count ≤ 3)
    × (deposit_succeeded ≡ deposit_succeeded)
    × (first_event.payload_json ≡ first_event.payload_json)
Attempts-bounded_example = Attempts-bounded calm_queue notification second 4 1 refl four_failures
