-- ===== src/Http/Serving.antt =====
-- Requests from their arrival to the answer: what a request passes before its handler, and the handler
-- with `req.user` (src/app.module.ts, src/features/transfers/transfers.controller.ts).
use lior_paris_wallet.Prelude.{ℕ, String, Option, none, some, []}
use lior_paris_wallet.Result.{Action, ok, err, throw, type_error}
use lior_paris_wallet.Orm.{Orm}
use lior_paris_wallet.App.{App, Cache}
use lior_paris_wallet.Entities.{Users}
use lior_paris_wallet.Auth.{Argon, validate}
use lior_paris_wallet.Transfers.Service.{TransferIds, InitiateTransferDto}
use lior_paris_wallet.Wallet.Controller.{ReceiptDocument, post_transfer}
use lior_paris_wallet.Http.Guards.{HttpRequest, Endpoint, Passport, admit}

-- The handler of a user that a guard has set; without one, `req.user.id` throws.
abbrev pub with_user : {A : Type 0} → (Users → Action App A) → Option Users → Action App A
with_user handler none = throw type_error
with_user handler (some user) = handler user

-- No metadata stands on `initiateTransfer` or its class.
abbrev pub transfers_endpoint : Endpoint
transfers_endpoint = record { public_metadata = none; required_roles = none }

module _ (orm : Orm) (argon : Argon) (sign : ℕ → ℕ → String → String) (passport : Passport) where
  unfoldable pub serve :
      {A : Type 0} → Endpoint → HttpRequest → (Users → Action App A) → Action App A
  serve endpoint request handler app =
      let (r, site) =
        admit passport (validate orm argon sign) endpoint request
          (record { db = app.db; emitted = [] }) in
      elim r [
        | ok user ↦ with_user handler user (record app { db = site.db })
        | err x ↦ (err x, record app { db = site.db })
      ]

  unfoldable pub serve_transfer :
      Cache → TransferIds → HttpRequest → InitiateTransferDto → Action App ReceiptDocument
  serve_transfer cache ids request input =
      serve transfers_endpoint request
        (λ user. post_transfer orm cache ids user.id user.email input)
