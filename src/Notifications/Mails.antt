-- ===== src/Notifications/Mails.antt =====
-- The mails of a transfer, from the domain event to the two parties
-- (src/features/notifications/domain-events.processor.ts, notifications.service.ts).
use Prim.Native.String.{◌++◌ as ◌&◌}
use lior_paris_wallet.Prelude.{
  ℕ, String, ◌≡◌, refl, sym, ap, ◌∙◌, true, Bool-cases, inl, inr, Option, none, some, List, [], ◌∷◌,
  ◌++◌, str_eq, if◌then◌else◌, arith,
}
use lior_paris_wallet.Result.{Result, ok, err}
use lior_paris_wallet.Entities.{
  DomainEventName, Payload, TransferPayload, of_transfer, transfer_completed, transfer_sent,
  transfer_received,
}
use lior_paris_wallet.Outbox.{Queue}
use lior_paris_wallet.Notifications.{NotificationJob, Workers, process_event, add_notification}
use lior_paris_wallet.Notifications.Currency.{format_currency}
use lior_paris_wallet.Notifications.Service.{
  Mail, Mailer, MailConfig, is_configured, from_email, send_to, send, process_notification,
  get_recipient_email, build_subject, build_message,
}

-- A mail to an address, or none to an empty one or none.
abbrev pub mails_to : Option String → (from subject text : String) → List Mail
mails_to none from subject text = []
mails_to (some to) from subject text =
    if str_eq to ""
    then []
    else record { to = to; from = from; subject = subject; text = text } ∷ []

append_nil : {A : Type 0} (xs : List A) → xs ++ [] ≡ xs
append_nil [] = refl
append_nil (x ∷ xs) = ap (λ t. x ∷ t) (append_nil xs)

append_twice : {A : Type 0} (xs : List A) (a b : A) → (xs ++ a ∷ []) ++ b ∷ [] ≡ xs ++ a ∷ b ∷ []
append_twice [] a b = refl
append_twice (x ∷ xs) a b = ap (λ t. x ∷ t) (append_twice xs a b)

module _ (mailer : Mailer) (config : MailConfig) (configured : is_configured config ≡ true) where
  pub send_to_lem :
      (to : Option String) (subject text : String) (mails mails' : List Mail)
      → send_to mailer config to subject text mails ≡ (ok tt, mails')
      → mails' ≡ mails ++ mails_to to (from_email config) subject text
  send_to_lem none subject text mails mails' e =
      sym (ap (λ (r : Result Unit × List Mail). r.1) e) ∙ sym (append_nil mails)
  send_to_lem (some to) subject text mails mails' e = elim (Bool-cases (str_eq to "")) [
    | inl empty ↦ rw empty (
        let same : send_to mailer config (some to) subject text mails ≡ (ok tt, mails) =
          ground arith in
        sym (ap (λ (r : Result Unit × List Mail). r.1) (sym same ∙ e)) ∙ sym (append_nil mails))
    | inr given ↦ rw given (
        mailer.send_mail-ok _ mails mails' (
          let same : send_to mailer config (some to) subject text mails
              ≡ mailer.send_mail
                  (record { to = to; from = from_email config; subject = subject; text = text })
                  mails =
            ground arith in
          sym same ∙ e))
  ]

module _ (queue : Queue) where
  pub add_notification_lem :
      (event_name : DomainEventName) (payload : Payload) (w w' : Workers)
      → add_notification queue event_name payload w ≡ (ok tt, w')
      → w'.notifications
        ≡ w.notifications
          ++ record {
            event_name = event_name;
            payload = payload;
            enqueued_at = w.clock;
            dlq_count = none;
          }
            ∷ []
  unfolding add_notification
  add_notification_lem event_name payload w w' e =
      let job : NotificationJob = record {
        event_name = event_name;
        payload = payload;
        enqueued_at = w.clock;
        dlq_count = none;
      } in
      let r = queue.add w.clock job w.notifications in
      let done : r.0 ≡ ok tt = ap (λ (r : Result Unit × Workers). r.0) e in
      let same : r.1 ≡ w'.notifications = ap (λ (r : Result Unit × Workers). r.1.notifications) e in
      queue.add-ok w.clock job w.notifications w'.notifications (λ i. (done i, same i))

abbrev pub notification_of : DomainEventName → TransferPayload → ℕ → NotificationJob
notification_of event_name p now = record {
  event_name = event_name;
  payload = of_transfer p;
  enqueued_at = now;
  dlq_count = none;
}

-- The texts of the two mails.
abbrev pub sent_text : TransferPayload → String
sent_text p =
    "Your transfer of "
    & format_currency p.amount p.currency
    & " to "
    & p.to_user_name
    & " is complete."

abbrev pub received_text : TransferPayload → String
received_text p =
    "You received " & format_currency p.amount p.currency & " from " & p.from_user_name & "."

module _ (queue : Queue) (p : TransferPayload) where
  second_job :
      (w w' : Workers) (r : Result Unit × Workers)
      → add_notification queue transfer_sent (of_transfer p) w ≡ r
      → process_event queue transfer_completed (of_transfer p) w ≡ (ok tt, w')
      → (first second : ℕ) × (w'.notifications
          ≡ w.notifications
            ++ notification_of transfer_sent p first
              ∷ notification_of transfer_received p second
              ∷ [])
  unfolding process_event
  second_job w w' (err x, w1) a e =
      let same : process_event queue transfer_completed (of_transfer p) w ≡ (err x, w1) =
        ground arith in
      absurd (
        let c : err x ≡ ok tt = ap (λ (r : Result Unit × Workers). r.0) (sym same ∙ e) in
        ground arith)
  second_job w w' (ok u, w1) a e =
      let same : process_event queue transfer_completed (of_transfer p) w
          ≡ add_notification queue transfer_received (of_transfer p) w1 =
        ground arith in
      let one = add_notification_lem queue transfer_sent (of_transfer p) w w1 (a) in
      let two = add_notification_lem queue transfer_received (of_transfer p) w1 w' (sym same ∙ e) in
      (w.clock, w1.clock, two ∙ (rw one (append_twice w.notifications _ _)))

-- A transfer's event that has been processed has added two notifications. Each of them, when SendGrid is
-- configured and its job does not throw, has sent one mail: to the sender that the transfer is complete,
-- to the receiver that the money is there; and none to a party whose address is missing or empty.
pub transfer_mails :
    (queue : Queue) (stringify : Payload → String) (mailer : Mailer) (config : MailConfig)
    (p : TransferPayload) (w w' : Workers)
    → is_configured config ≡ true
    → process_event queue transfer_completed (of_transfer p) w ≡ (ok tt, w')
    → (sent received : NotificationJob) × (w'.notifications
        ≡ w.notifications ++ sent ∷ received ∷ [])
      × ((mails mails' : List Mail)
          → process_notification stringify mailer config sent mails ≡ (ok tt, mails')
          → mails'
            ≡ mails
              ++ mails_to
                  (some p.from_user_email)
                  (from_email config)
                  "Transfer Sent"
                  (sent_text p))
      × ((mails mails' : List Mail)
          → process_notification stringify mailer config received mails ≡ (ok tt, mails')
          → mails'
            ≡ mails
              ++ mails_to p.to_user_email (from_email config) "Transfer Received" (received_text p))
unfolding process_notification send get_recipient_email build_subject build_message
transfer_mails queue stringify mailer config p w w' configured e =
    let (first, second, added) = second_job queue p w w' _ refl e in
    (
      notification_of transfer_sent p first,
      notification_of transfer_received p second,
      added,
      send_to_lem mailer config configured (some p.from_user_email) "Transfer Sent" (sent_text p),
      send_to_lem mailer config configured p.to_user_email "Transfer Received" (received_text p),
    )
