-- ===== src/Examples/Notices.antt =====
-- Mails, and amounts as texts.
use lior_paris_wallet.Prelude.{String, ◌≡◌, refl, sym, ap, arith, some, none, [], ◌∷◌, ◌++◌}
use lior_paris_wallet.Prelude.Int.{pos, negsuc}
use lior_paris_wallet.Prelude.Texts.{to_upper_case, trim, decimal, digits_to}
use lior_paris_wallet.Result.{ok}
use lior_paris_wallet.Entities.{TransferPayload, Payload, of_transfer, transfer_completed}
use lior_paris_wallet.Notifications.{Workers, process_event}
use lior_paris_wallet.Notifications.Currency.{
  format_currency, major, to_fixed, hundredths, mantissa, places, places_from, power_of_two,
}
use lior_paris_wallet.Notifications.Amounts.{read_cents, read_cents-format_currency}
use lior_paris_wallet.Notifications.Service.{Mailer, MailConfig}
use lior_paris_wallet.Examples.Messages.{calm_queue}

shout : to_upper_case "eur 1" ≡ "EUR 1"
unfolding to_upper_case
shout = refl

trimmed : trim "  a b " ≡ "a b"
unfolding trim
trimmed = refl

formatted : format_currency (pos 120005) "eur" ≡ "1200.05 EUR"
unfolding format_currency major to_fixed hundredths mantissa places places_from power_of_two decimal
    digits_to to_upper_case trim
formatted = refl

formatted_debt : format_currency (negsuc 6) "" ≡ "-0.07"
unfolding format_currency major to_fixed hundredths mantissa places places_from power_of_two decimal
    digits_to to_upper_case trim
formatted_debt = refl

-- Beyond that, the double is too coarse, and a cent is lost.
lost_cent : hundredths 8472874614175271 ≡ 8472874614175270
unfolding hundredths mantissa places places_from power_of_two
lost_cent = refl

read_cents-format_currency_example : read_cents (format_currency (pos 120005) "eur") ≡ 120005
read_cents-format_currency_example = read_cents-format_currency 120005 "eur" (omega arith)

abbrev pub mailer : Mailer
mailer = record {
  send_mail = λ mail mails. (ok tt, mails ++ mail ∷ []);
  send_mail-ok = λ mail mails mails' h. sym (ap (λ x. x.1) h);
}

abbrev pub config : MailConfig
config = record { api_key = some "key"; sendgrid_from = none }

abbrev payload : TransferPayload
payload = record {
  transfer_id = 51;
  from_user_id = 1;
  to_user_id = 2;
  amount = pos 200;
  currency = "EUR";
  from_user_email = "ada@x.io";
  from_user_name = "Ada";
  to_user_email = some "bob@x.io";
  to_user_name = "Bob";
}

abbrev workers : Workers
workers = record { clock = 0; domain_events = []; notifications = []; dead_letters = [] }

abbrev pub stringify : Payload → String
stringify p = "{}"

abbrev after_event : Workers
after_event = (process_event calm_queue transfer_completed (of_transfer payload) workers).1

event_ok :
    process_event calm_queue transfer_completed (of_transfer payload) workers ≡ (ok tt, after_event)
unfolding process_event
event_ok = refl
