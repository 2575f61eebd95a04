-- ===== src/Notifications/Service.antt =====
-- src/features/notifications/notifications.service.ts, over SendGrid, which the repository does not
-- contain. A field that the payload of an event does not have prints as `undefined`; how a payload
-- prints as JSON is a parameter.
use Prim.Native.String.{◌++◌ as ◌&◌}
use lior_paris_wallet.Prelude.{
  String, ◌≡◌, Bool, false, not, ◌&&◌, Option, none, some, List, [], ◌∷◌, ◌++◌, str_eq,
  if◌then◌else◌,
}
use lior_paris_wallet.Result.{Action, ok, pure}
use lior_paris_wallet.Entities.{
  DomainEventName, Payload, of_deposit, of_transfer, transfer_completed, transfer_sent,
  transfer_received, deposit_succeeded, user_registered,
}
use lior_paris_wallet.Notifications.{NotificationJob}
use lior_paris_wallet.Notifications.Currency.{format_currency}

-- What `sgMail.send` is given.
pub record Mail : Type 0 where
  pub to : String
  pub from : String
  pub subject : String
  pub text : String

-- `sgMail.send`, over the mails that have been sent: a call that resolves has sent the mail.
pub record Mailer : Type 0 where
  pub send_mail : Mail → Action (List Mail) Unit
  pub send_mail-ok :
      (mail : Mail) (mails mails' : List Mail)
      → send_mail mail mails ≡ (ok tt, mails')
      → mails' ≡ mails ++ mail ∷ []

-- The two values of the configuration that the service reads.
pub record MailConfig : Type 0 where
  pub api_key : Option String
  pub sendgrid_from : Option String

-- A text that is there and not empty.
abbrev pub is_given : Option String → Bool
is_given none = false
is_given (some s) = not (str_eq s "")

abbrev pub or_default : Option String → String → String
or_default none default = default
or_default (some s) default = if str_eq s "" then default else s

abbrev pub is_configured : MailConfig → Bool
is_configured config = is_given config.api_key

abbrev pub from_email : MailConfig → String
from_email config = or_default config.sendgrid_from "noreply@yourapp.com"

-- The values of `DomainEventName`.
abbrev pub event_text : DomainEventName → String
event_text user_registered = "UserRegistered"
event_text deposit_succeeded = "DepositSucceeded"
event_text transfer_completed = "TransferCompleted"
event_text transfer_sent = "TransferSent"
event_text transfer_received = "TransferReceived"

-- Fields of a payload, whichever event it is of.
abbrev user_email : Payload → Option String
user_email (of_deposit p) = p.user_email
user_email (of_transfer p) = none

abbrev from_user_email : Payload → Option String
from_user_email (of_deposit p) = none
from_user_email (of_transfer p) = some p.from_user_email

abbrev to_user_email : Payload → Option String
to_user_email (of_deposit p) = none
to_user_email (of_transfer p) = p.to_user_email

abbrev from_user_name : Payload → String
from_user_name (of_deposit p) = "undefined"
from_user_name (of_transfer p) = p.from_user_name

abbrev to_user_name : Payload → String
to_user_name (of_deposit p) = "undefined"
to_user_name (of_transfer p) = p.to_user_name

abbrev formatted_amount : Payload → String
formatted_amount (of_deposit p) = format_currency p.amount p.currency
formatted_amount (of_transfer p) = format_currency p.amount p.currency

unfoldable pub get_recipient_email : DomainEventName → Payload → Option String
get_recipient_email transfer_sent payload = from_user_email payload
get_recipient_email transfer_received payload = to_user_email payload
get_recipient_email user_registered payload = user_email payload
get_recipient_email deposit_succeeded payload = user_email payload
get_recipient_email transfer_completed payload = user_email payload

unfoldable pub build_subject : DomainEventName → String
build_subject deposit_succeeded = "Deposit Received"
build_subject transfer_sent = "Transfer Sent"
build_subject transfer_received = "Transfer Received"
build_subject user_registered = "Notification: " & event_text user_registered
build_subject transfer_completed = "Notification: " & event_text transfer_completed

module _ (mailer : Mailer) (config : MailConfig) where
  -- The mail, if the recipient's address is there and not empty.
  abbrev pub send_to : Option String → (subject message : String) → Action (List Mail) Unit
  send_to none subject message = pure tt
  send_to (some email) subject message =
      if is_configured config && not (str_eq email "")
      then mailer.send_mail
          (record { to = email; from = from_email config; subject = subject; text = message })
      else pure tt

module _ (stringify : Payload → String) where
  abbrev other_message : DomainEventName → Payload → String
  other_message event_name payload =
      "Notification for " & event_text event_name & ": " & stringify payload

  unfoldable pub build_message : DomainEventName → Payload → String
  build_message deposit_succeeded payload =
      "Your deposit of " & formatted_amount payload & " has been received."
  build_message transfer_sent payload =
      "Your transfer of "
      & formatted_amount payload
      & " to "
      & to_user_name payload
      & " is complete."
  build_message transfer_received payload =
      "You received " & formatted_amount payload & " from " & from_user_name payload & "."
  build_message user_registered payload = other_message user_registered payload
  build_message transfer_completed payload = other_message transfer_completed payload

  module _ (mailer : Mailer) (config : MailConfig) where
    unfoldable pub send : DomainEventName → Payload → Action (List Mail) Unit
    send event_name payload =
        send_to mailer config (get_recipient_email event_name payload) (build_subject event_name)
          (build_message event_name payload)

    -- `process` of the queue of notifications.
    unfoldable pub process_notification : NotificationJob → Action (List Mail) Unit
    process_notification job = send job.event_name job.payload
