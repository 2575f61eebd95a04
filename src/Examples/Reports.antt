-- ===== src/Examples/Reports.antt =====
-- A transfer of Ada's, from the request to the mails.
use mathlib.Core.List.Memᴰ
use lior_paris_wallet.Prelude.{ℕ, ◌≡◌, ◌⊎◌, ◌++◌, ◌∷◌, refl, Option, none, [], false}
use lior_paris_wallet.Prelude.Rows.{HasUniqueKeys}
use lior_paris_wallet.Prelude.Int.{◌+ℤ◌, ◌-ℤ◌}
use lior_paris_wallet.Result.{Exception, ok}
use lior_paris_wallet.Orm.Memory.{memory}
use lior_paris_wallet.App.Memory.{memory_cache}
use lior_paris_wallet.Entities.{
  OutboxEvent, TransferPayload, ledger_clash, transfer_clash, outbox_clash,
}
use lior_paris_wallet.Outbox.{Publisher, job_of, publish_pending_events}
use lior_paris_wallet.Outbox.Delivery.{id_of}
use lior_paris_wallet.Outbox.Progress.{IsPublished}
use lior_paris_wallet.Notifications.{Workers, process_event}
use lior_paris_wallet.Users.Repository.{find_user_by_id}
use lior_paris_wallet.Wallet.Repository.{find_by_user_id_and_currency, find_by_wallet_tag}
use lior_paris_wallet.Wallet.Service.{invalidate_balance_cache}
use lior_paris_wallet.Transfers.Repository.{
  find_by_idempotency_key, create_transfer, execute_transfer, execute_body,
}
use lior_paris_wallet.Transfers.Service.{initiate_transfer, transfer_between, transfer_event}
use lior_paris_wallet.Transfers.Accepted.{IsEventOf}
use lior_paris_wallet.Pipeline.{IsAnnounced, IsCrowded, transfer_reported}
use lior_paris_wallet.Examples.Data.{app, transfer_ids, request}
use lior_paris_wallet.Examples.Messages.{calm_queue}
use lior_paris_wallet.Examples.Notices.{mailer, config, stringify}

abbrev due : Publisher
due = record {
  processing = false;
  clock = 0;
  outbox =
      (initiate_transfer memory memory_cache transfer_ids 1 "ada@x.io" request app).1.db.outbox;
  domain_events = [];
}

accepted : (initiate_transfer memory memory_cache transfer_ids 1 "ada@x.io" request app).0 ≡ ok tt
unfolding initiate_transfer find_by_wallet_tag find_by_idempotency_key transfer_between
    find_by_user_id_and_currency find_user_by_id create_transfer execute_transfer execute_body
    transfer_event invalidate_balance_cache transfer_clash ledger_clash outbox_clash ◌+ℤ◌ ◌-ℤ◌
accepted = refl

due-ids : HasUniqueKeys id_of due.outbox
unfolding initiate_transfer find_by_wallet_tag find_by_idempotency_key transfer_between
    find_by_user_id_and_currency find_user_by_id create_transfer execute_transfer execute_body
    transfer_event invalidate_balance_cache transfer_clash ledger_clash outbox_clash ◌+ℤ◌ ◌-ℤ◌
due-ids = (λ b m. absurd (Memᴰ.not-nil m), tt)

abbrev pub no_fault : ℕ → Option Exception
no_fault now = none

transfer_reported_example :
    (e : OutboxEvent) × (p : TransferPayload) × IsEventOf memory memory_cache transfer_ids 1
      "ada@x.io" request app e p
    × (due.outbox ≡ app.db.outbox ++ e ∷ [])
    × (IsPublished e (publish_pending_events memory calm_queue no_fault due).1
        ⊎ IsCrowded e (publish_pending_events memory calm_queue no_fault due).1)
    × ((w w' : Workers)
        → process_event calm_queue (job_of e).name (job_of e).payload w ≡ (ok tt, w')
        → IsAnnounced stringify mailer config p w w')
transfer_reported_example =
    transfer_reported memory memory_cache calm_queue no_fault (λ now. refl) (λ now j jobs. refl)
      stringify mailer config transfer_ids 1 "ada@x.io" request app due refl accepted refl refl refl
      due-ids
