-- ===== src/Examples/Requests.antt =====
-- Registrations, logins and calls of the webhook.
use lior_paris_wallet.Prelude.{
  ◌==◌, if◌then◌else◌, ℕ, String, ◌≡◌, ◌⊎◌, refl, none, arith, eq_iff, some, [], str_eq,
  if◌then◌else◌,
}
use Prim.Native.String
use lior_paris_wallet.Result.{Exception, ok, err, unauthorized}
use lior_paris_wallet.Orm.Memory.{memory}
use lior_paris_wallet.App.Memory.{memory_cache}
use lior_paris_wallet.Entities.{Users, users_clash}
use lior_paris_wallet.Users.Repository.{find_user_by_email, create_user}
use lior_paris_wallet.Wallet.Webhook.{StripeWebhookEvent, ConstructEvent}
use lior_paris_wallet.Wallet.Service.{settle_by_provider_ref}
use lior_paris_wallet.Wallet.Webhooks.{IsAside, IsPaid, called, handle_webhook_outcome}
use lior_paris_wallet.Users.Service.{map_result}
use lior_paris_wallet.Auth.{
  ChangePasswordDto, Argon, RegisterDto, RegisterIds, Site, register, login, check_duplicate_email,
  create_login_token, invalid_credentials,
}
use lior_paris_wallet.Auth.Passwords.{answer, Changed, change_password_outcome}
use lior_paris_wallet.Auth.Registration.{signed, login-register}
use lior_paris_wallet.Examples.Data.{app, db, settle_ids}

abbrev pub plain_argon : Argon
plain_argon = record {
  hash = λ salt password. password;
  verify = λ hashed password. str_eq hashed password;
  verify-hash = λ salt password. let same = eq_iff password password in ground (arith, same);
}

abbrev pub signing : (now user_id : ℕ) → String → String
signing now user_id email = if now == 90 then "later" else email

abbrev register_ids : RegisterIds
register_ids = record { user_id = 3; salt = 7; now = 50; signed_at = 51 }

abbrev eve : RegisterDto
eve = record { name = "Eve"; email = "eve@x.io"; password = "secret" }

abbrev pub site : Site
site = record { db = db; emitted = [] }

register_runs :
    (register memory plain_argon signing register_ids eve site).0
    ≡ ok (signed memory plain_argon signing register_ids eve site 51)
unfolding register check_duplicate_email find_user_by_email create_user create_login_token
    users_clash
register_runs = refl

login-register_example :
    let x = signed memory plain_argon signing register_ids eve site 51 in
    let site' = (register memory plain_argon signing register_ids eve site).1 in
    (x ≡ x)
    × (login memory plain_argon signing 90
          (record { email = "eve@x.io"; password = "secret" })
          site'
        ≡ (ok (record x { access_token = some "later" }), site'))
    × (login memory plain_argon signing 90 (record { email = "eve@x.io"; password = "guess" }) site'
        ≡ (err (unauthorized invalid_credentials), site'))
unfolding map_result
login-register_example =
    login-register memory plain_argon signing register_ids eve site
      (signed memory plain_argon signing register_ids eve site 51) 90 "guess" register_runs refl

abbrev paid_event : StripeWebhookEvent
paid_event = record {
  id = "evt_1";
  type = "checkout.session.completed";
  object_id = "cs_2";
  payment_status = some "paid";
}

-- A body is signed by itself after the secret.
abbrev construct : ConstructEvent
construct body signature secret =
    if str_eq signature (String.◌++◌ secret body) then some paid_event else none

handle_webhook_outcome_example :
    IsAside memory memory_cache app
      (called memory memory_cache construct "s" settle_ids "{}" app (some "s{}")).1
    ⊎ ((p : IsPaid memory memory_cache construct "s" settle_ids "{}" app (some "s{}")) × (called
            memory memory_cache construct "s" settle_ids "{}" app
            (some "s{}")
          ≡ settle_by_provider_ref memory memory_cache settle_ids p.event.object_id app))
handle_webhook_outcome_example =
    handle_webhook_outcome memory memory_cache construct "s" settle_ids "{}" app (some "s{}")

abbrev new_password : ChangePasswordDto
new_password = record { old_password = "#1"; new_password = "#9" }

change_password_outcome_example :
    (((answer memory plain_argon signing 1 new_password 7 60 site).1 ≡ site)
      × ((x : Exception) × ((answer memory plain_argon signing 1 new_password 7 60 site).0
            ≡ err x)))
    ⊎ Changed memory plain_argon signing 1 new_password 7 60 site
change_password_outcome_example =
    change_password_outcome memory plain_argon signing 1 new_password 7 60 site
