-- ===== src/Examples/Receipts.antt =====
-- A deposit of Bob's is settled, and he gets the mail.
use mathlib.Core.List.Memᴰ
use lior_paris_wallet.Prelude.{
  ◌≡◌, ◌≢◌, ◌⊎◌, ◌++◌, ◌∷◌, [], List, refl, ap, some, ◌==◌, ◌&&◌, str_eq, false,
}
use lior_paris_wallet.Prelude.Rows.{HasUniqueKeys}
use lior_paris_wallet.Prelude.Int.{pos, ◌+ℤ◌}
use lior_paris_wallet.Result.{Result, ok}
use lior_paris_wallet.Orm.Memory.{memory}
use lior_paris_wallet.App.{App}
use lior_paris_wallet.App.Memory.{memory_cache}
use lior_paris_wallet.Entities.{OutboxEvent, ledger_clash, outbox_clash}
use lior_paris_wallet.Outbox.{Publisher, job_of, publish_pending_events}
use lior_paris_wallet.Outbox.Delivery.{id_of}
use lior_paris_wallet.Outbox.Progress.{IsPublished}
use lior_paris_wallet.Notifications.{Workers, process_event}
use lior_paris_wallet.Notifications.Service.{
  Mail, from_email, process_notification, send, get_recipient_email, build_subject, build_message,
}
use lior_paris_wallet.Notifications.Mails.{mails_to}
use lior_paris_wallet.Users.Repository.{find_user_by_id}
use lior_paris_wallet.Wallet.Repository.{
  find_by_user_id_and_currency, find_transaction_by_provider_ref, has_provider_ref,
  settle_transaction,
}
use lior_paris_wallet.Wallet.Service.{
  settle_by_provider_ref, settle_found, build_outbox_payload, invalidate_balance_cache,
}
use lior_paris_wallet.Pipeline.{IsCrowded}
use lior_paris_wallet.Pipeline.Deposits.{settled, event, notice_of, received_text, deposit_reported}
use lior_paris_wallet.Examples.Data.{app, bob_wallet, second_deposit, settle_ids}
use lior_paris_wallet.Examples.Messages.{calm_queue}
use lior_paris_wallet.Examples.Notices.{mailer, config, stringify}
use lior_paris_wallet.Examples.Reports.{no_fault}

found_row : memory.find_one (has_provider_ref "cs_2") app.db.transactions ≡ some second_deposit
unfolding has_provider_ref
found_row = refl

found_wallet :
    memory.find_one (λ v. v.user_id == 2 && str_eq v.currency "EUR") app.db.wallets
    ≡ some bob_wallet
found_wallet = refl

abbrev after : Result Unit × App
after =
    settled memory memory_cache settle_ids "cs_2" second_deposit bob_wallet app found_row
      found_wallet

abbrev news : OutboxEvent
news =
    event memory memory_cache settle_ids "cs_2" second_deposit bob_wallet app found_row found_wallet

has_settled : after.1 ≢ app
unfolding settle_by_provider_ref settle_found find_transaction_by_provider_ref has_provider_ref
    find_by_user_id_and_currency find_user_by_id settle_transaction build_outbox_payload
    invalidate_balance_cache ledger_clash outbox_clash ◌+ℤ◌
has_settled same = let c : news ∷ [] ≡ [] = ap (λ (a : App). a.db.outbox) same in cc

abbrev due : Publisher
due = record { processing = false; clock = 0; outbox = after.1.db.outbox; domain_events = [] }

due-ids : HasUniqueKeys id_of due.outbox
unfolding settle_by_provider_ref settle_found find_transaction_by_provider_ref has_provider_ref
    find_by_user_id_and_currency find_user_by_id settle_transaction build_outbox_payload
    invalidate_balance_cache ledger_clash outbox_clash ◌+ℤ◌
due-ids = (λ b m. absurd (Memᴰ.not-nil m), tt)

abbrev idle : Workers
idle = record { clock = 0; domain_events = []; notifications = []; dead_letters = [] }

abbrev busy : Workers
busy = record idle { clock = 1; notifications = notice_of news 0 ∷ [] }

ran : process_event calm_queue (job_of news).name (job_of news).payload idle ≡ (ok tt, busy)
unfolding process_event job_of build_outbox_payload
ran = refl

abbrev mail : List Mail
mail =
    mails_to (some "bob@x.io") (from_email config) "Deposit Received" (received_text (pos 70) "EUR")

sent : process_notification stringify mailer config (notice_of news 0) [] ≡ (ok tt, mail)
unfolding process_notification send get_recipient_email build_subject build_message
    build_outbox_payload
sent = refl

deposit_reported_example :
    (IsPublished news (publish_pending_events memory calm_queue no_fault due).1
      ⊎ IsCrowded news (publish_pending_events memory calm_queue no_fault due).1)
    × (busy.notifications ≡ [] ++ notice_of news 0 ∷ [])
    × (mail ≡ [] ++ mail)
deposit_reported_example =
    deposit_reported memory memory_cache settle_ids "cs_2" second_deposit bob_wallet app found_row
      found_wallet calm_queue no_fault (λ now. refl) (λ now j jobs. refl) stringify mailer config
      has_settled due refl refl due-ids idle busy ran refl [] mail sent
