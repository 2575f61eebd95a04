-- ===== src/Pipeline.antt =====
-- A transfer on its way from the request to the mails: src/features/transfers, src/infrastructure/outbox
-- and src/features/notifications together.
pub mod Deposits
use mathlib.Core.List.Memᴰ
use lior_paris_wallet.Prelude.{
  refl, ℕ, String, ◌≡◌, ◌⊎◌, ◌++◌, ◌∷◌, [], List, ◌≤◌, Option, none, some, true, false, Memᴰ,
  str_eq,
}
use lior_paris_wallet.Prelude.Rows.{length, HasUniqueKeys}
use lior_paris_wallet.Result.{Exception, ok}
use lior_paris_wallet.Orm.{Orm}
use lior_paris_wallet.App.{App, Cache}
use lior_paris_wallet.Entities.{OutboxEvent, Payload, TransferPayload}
use lior_paris_wallet.Outbox.{Queue, Publisher, DomainJob, job_of, publish_pending_events}
use lior_paris_wallet.Outbox.Delivery.{id_of}
use lior_paris_wallet.Outbox.Progress.{IsPublished, publish_pending_events-IsPublished}
use lior_paris_wallet.Notifications.{NotificationJob, Workers, process_event}
use lior_paris_wallet.Notifications.Service.{
  Mail, Mailer, MailConfig, is_configured, from_email, process_notification,
}
use lior_paris_wallet.Notifications.Mails.{mails_to, sent_text, received_text, transfer_mails}
use lior_paris_wallet.Transfers.Service.{InitiateTransferDto, TransferIds, initiate_transfer}
use lior_paris_wallet.Transfers.Accepted.{IsEventOf, initiate-IsEventOf}

-- The two notifications that the event's job has added, and the mail that each of them sends.
abbrev pub IsAnnounced :
    (stringify : Payload → String)
    → Mailer
    → MailConfig
    → TransferPayload
    → (w w' : Workers) → Type 0
IsAnnounced stringify mailer config p w w' =
    (sent received : NotificationJob) × (w'.notifications ≡ w.notifications ++ sent ∷ received ∷ [])
    × ((mails mails' : List Mail)
        → process_notification stringify mailer config sent mails ≡ (ok tt, mails')
        → mails'
          ≡ mails
            ++ mails_to (some p.from_user_email) (from_email config) "Transfer Sent" (sent_text p))
    × ((mails mails' : List Mail)
        → process_notification stringify mailer config received mails ≡ (ok tt, mails')
        → mails'
          ≡ mails
            ++ mails_to p.to_user_email (from_email config) "Transfer Received" (received_text p))

-- A poll had 50 rows that are no younger, and has published those.
abbrev pub IsCrowded : OutboxEvent → Publisher → Type 0
IsCrowded r s' =
    (events : List OutboxEvent) × (length events ≡ 50)
    × HasUniqueKeys id_of events
    × ((e : OutboxEvent) → Memᴰ e events → (e.created_at ≤ r.created_at) × IsPublished e s')

module _ (orm : Orm) (cache : Cache) (queue : Queue) (fault : ℕ → Option Exception)
    (answers : (now : ℕ) → fault now ≡ none)
    (accepts : (now : ℕ) (j : DomainJob) (jobs : List DomainJob) → (queue.add now j jobs).0 ≡ ok tt)
    (stringify : Payload → String) (mailer : Mailer) (config : MailConfig) where
  -- The worker of a transfer's event, by what the event tells.
  announced :
      (ids : TransferIds) (user_id : ℕ) (email : String) (input : InitiateTransferDto) (app : App)
      (e : OutboxEvent) (p : TransferPayload) (w w' : Workers)
      → is_configured config ≡ true
      → IsEventOf orm cache ids user_id email input app e p
      → process_event queue (job_of e).name (job_of e).payload w ≡ (ok tt, w')
      → IsAnnounced stringify mailer config p w w'
  unfolding job_of
  announced ids user_id email input app e p w w' configured tells ran =
      transfer_mails queue stringify mailer config p w w' configured
        (rw (tells.completed, tells.payload) at ran)

  -- A transfer that returns, with a new key, has added one event to the outbox, which tells the amount, the
  -- currency and whom to write to. A poll after it, while the database and the queue answer, adds the event's
  -- job and marks the row, or has 50 rows that are no younger. A worker that processes the job and returns has
  -- added two notifications. Each of them, when SendGrid is configured and its job does not throw, sends one
  -- mail, the one to the sender and the other to the receiver, or none if the address is missing or empty.
  pub transfer_reported :
      (ids : TransferIds) (user_id : ℕ) (email : String) (input : InitiateTransferDto) (app : App)
      (s : Publisher)
      → is_configured config ≡ true
      → (initiate_transfer orm cache ids user_id email input app).0 ≡ ok tt
      → orm.find_one (λ t. str_eq t.idempotency_key input.idempotency_key) app.db.transfers ≡ none
      → s.outbox ≡ (initiate_transfer orm cache ids user_id email input app).1.db.outbox
      → s.processing ≡ false
      → HasUniqueKeys id_of s.outbox
      → (e : OutboxEvent) × (p : TransferPayload) × IsEventOf orm cache ids user_id email input app
          e p
        × ((initiate_transfer orm cache ids user_id email input app).1.db.outbox
            ≡ app.db.outbox ++ e ∷ [])
        × (IsPublished e (publish_pending_events orm queue fault s).1
            ⊎ IsCrowded e (publish_pending_events orm queue fault s).1)
        × ((w w' : Workers)
            → process_event queue (job_of e).name (job_of e).payload w ≡ (ok tt, w')
            → IsAnnounced stringify mailer config p w w')
  transfer_reported ids user_id email input app s configured returned new_key outbox idle unique =
      let (e, p, tells, due, added) =
        initiate-IsEventOf orm cache ids user_id email input app returned new_key in
      (
        e,
        p,
        tells,
        added,
        publish_pending_events-IsPublished orm queue fault answers accepts s e idle unique
            (rw (outbox, added) (Memᴰ.append_right app.db.outbox (Memᴰ.head refl))) due,
        λ w w' ran. announced ids user_id email input app e p w w' configured tells ran,
      )
