-- ===== src/Pipeline/Deposits.antt =====
-- A deposit on its way from its settlement to the mail: src/features/wallet/wallet.service.ts,
-- src/infrastructure/outbox and src/features/notifications together.
use Prim.Native.String.{◌++◌ as ◌&◌}
use mathlib.Core.List.Memᴰ
use lior_paris_wallet.Prelude.{
  ℕ, String, ◌≡◌, ◌≢◌, ◌⊎◌, ◌∙◌, ◌==◌, ◌&&◌, ◌++◌, ◌∷◌, [], List, refl, ap, inl, inr, Option, none,
  some, true, false, Memᴰ, str_eq,
}
use lior_paris_wallet.Prelude.Int.{ℤ}
use lior_paris_wallet.Prelude.Rows.{HasUniqueKeys}
use lior_paris_wallet.Result.{Result, Exception, ok, err}
use lior_paris_wallet.Orm.{Orm}
use lior_paris_wallet.App.{App, Cache}
use lior_paris_wallet.Entities.{
  Db, OutboxEvent, Payload, Wallet, Transaction, LedgerEntry, LedgerEntryType, deposit_succeeded,
}
use lior_paris_wallet.Outbox.{Queue, Publisher, DomainJob, job_of, publish_pending_events}
use lior_paris_wallet.Outbox.Delivery.{id_of}
use lior_paris_wallet.Outbox.Progress.{IsPublished, publish_pending_events-IsPublished}
use lior_paris_wallet.Notifications.{NotificationJob, Workers, process_event}
use lior_paris_wallet.Notifications.Currency.{format_currency}
use lior_paris_wallet.Notifications.Service.{
  Mail, Mailer, MailConfig, is_configured, from_email, process_notification, send,
  get_recipient_email, build_subject, build_message,
}
use lior_paris_wallet.Notifications.Mails.{mails_to, add_notification_lem, send_to_lem}
use lior_paris_wallet.Wallet.Repository.{has_provider_ref, find_transaction_by_provider_ref}
use lior_paris_wallet.Wallet.Service.{
  SettleIds, build_outbox_payload, email_of, settle_found, settle_by_provider_ref,
}
use lior_paris_wallet.Wallet.Settlement.{SettleOutcome, settle_outcome}
use lior_paris_wallet.Wallet.Crediting.{
  credit_event, settlement, settle_found_commits, settle_found_throws, settle_found_skips,
  status_cases,
}
use lior_paris_wallet.Pipeline.{IsCrowded}

-- The notification of a deposit's event, added at a moment.
abbrev pub notice_of : OutboxEvent → ℕ → NotificationJob
notice_of event now = record {
  event_name = deposit_succeeded;
  payload = event.payload_json;
  enqueued_at = now;
  dlq_count = none;
}

abbrev pub received_text : ℤ → String → String
received_text amount currency =
    "Your deposit of " & format_currency amount currency & " has been received."

module _ (orm : Orm) (cache : Cache) (ids : SettleIds) (ref : String) (t : Transaction) (w : Wallet)
    (app : App) (row : orm.find_one (has_provider_ref ref) app.db.transactions ≡ some t)
    (read : orm.find_one
        (λ v. v.user_id == t.user_id && str_eq v.currency t.currency)
        app.db.wallets
      ≡ some w) where
  abbrev pub settled : Result Unit × App
  settled = settle_by_provider_ref orm cache ids ref app

  -- The event of the settlement, and the address of the deposit's owner.
  abbrev pub event : OutboxEvent
  event = credit_event orm cache ids t w app

  abbrev pub address : Option String
  address = email_of (orm.find_one (λ u. u.id == t.user_id) app.db.users)

  goes_by_row : settled ≡ settle_found orm cache ids (some t) app
  unfolding settle_by_provider_ref find_transaction_by_provider_ref
  goes_by_row = rw row refl

  -- A settlement that has changed anything has put its event into the outbox.
  left_by :
      (r : Result LedgerEntry × Db)
      → settlement orm cache ids t w app ≡ r
      → SettleOutcome ids.entry_id w.id t LedgerEntryType.deposit t.amount event app.db r
      → settled.1 ≢ app
      → Memᴰ event settled.1.db.outbox
  left_by (ok e, db') q done changed = elim (status_cases orm cache ids t t.status) [
    | inr over ↦ absurd (
        changed (
          ap (λ (r : Result Unit × App). r.1)
            (goes_by_row ∙ settle_found_skips orm cache ids t app over)))
    | inl pending ↦
        rw (goes_by_row ∙ settle_found_commits orm cache ids t w app pending read e db' q)
          (rw done.result (Memᴰ.append_right app.db.outbox (Memᴰ.head refl)))
  ]
  left_by (err x, db') q same changed = elim (status_cases orm cache ids t t.status) [
    | inr over ↦ absurd (
        changed (
          ap (λ (r : Result Unit × App). r.1)
            (goes_by_row ∙ settle_found_skips orm cache ids t app over)))
    | inl pending ↦
        let back : settled.1 ≡ record app { db = db' } =
          ap (λ (r : Result Unit × App). r.1)
            (goes_by_row ∙ settle_found_throws orm cache ids t w app pending read x db' q) in
        absurd (changed (back ∙ rw same refl))
  ]

  left_event : settled.1 ≢ app → Memᴰ event settled.1.db.outbox
  left_event =
      left_by _ refl
        (settle_outcome ids.entry_id w.id t LedgerEntryType.deposit t.amount orm event app.db)

  module _ (queue : Queue) (fault : ℕ → Option Exception) (answers : (now : ℕ) → fault now ≡ none)
      (accepts : (now : ℕ) (j : DomainJob) (jobs : List DomainJob)
        → (queue.add now j jobs).0 ≡ ok tt)
      (stringify : Payload → String) (mailer : Mailer) (config : MailConfig) where
    -- A settlement that has changed anything, by a reference, of the row and for the wallet that are found.
    -- While the database and the queue answer, a poll after it adds the job of its event and marks the event
    -- as processed, or has 50 rows that are no younger. A worker that processes the job and returns has added
    -- one notification; when SendGrid is configured and its job does not throw, it sends one mail with the
    -- amount and the currency to the owner of the deposit, or none if the owner's address is missing or empty.
    pub deposit_reported :
        settled.1 ≢ app
        → (s : Publisher) → s.outbox ≡ settled.1.db.outbox
        → s.processing ≡ false
        → HasUniqueKeys id_of s.outbox
        → (workers workers' : Workers)
        → process_event queue (job_of event).name (job_of event).payload workers ≡ (ok tt, workers')
        → is_configured config ≡ true
        → (mails mails' : List Mail)
        → process_notification stringify mailer config (notice_of event workers.clock) mails
          ≡ (ok tt, mails')
        → (IsPublished event (publish_pending_events orm queue fault s).1
            ⊎ IsCrowded event (publish_pending_events orm queue fault s).1)
          × (workers'.notifications ≡ workers.notifications ++ notice_of event workers.clock ∷ [])
          × (mails'
              ≡ mails
                ++ mails_to address
                    (from_email config)
                    "Deposit Received"
                    (received_text t.amount t.currency))
    unfolding job_of process_event process_notification send get_recipient_email build_subject
        build_message build_outbox_payload
    deposit_reported changed s outbox idle unique workers workers' ran configured mails mails'
          sent =
        (
          publish_pending_events-IsPublished orm queue fault answers accepts s event idle unique
              (rw outbox (left_event changed)) refl,
          add_notification_lem queue deposit_succeeded event.payload_json workers workers' ran,
          send_to_lem mailer config configured address "Deposit Received"
              (received_text t.amount t.currency) mails mails' sent,
        )
