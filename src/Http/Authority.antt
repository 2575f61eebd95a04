-- ===== src/Http/Authority.antt =====
-- Whose money a request for a transfer can take, from its arrival on (src/app.module.ts,
-- src/features/transfers/transfers.controller.ts).
use lior_paris_wallet.Prelude.{
  ℕ, String, ◌≡◌, ◌≢◌, ◌⊎◌, ◌==◌, ==_iff, refl, sym, ap, subst, ◌∙◌, true, false, inl, inr, Option,
  none, some, [], Memᴰ, Option-cases, Bool-cases, str_eq, arith,
}
use lior_paris_wallet.Prelude.Int.{pos, ◌≤ℤ◌}
use lior_paris_wallet.Result.{Result, ok, err, Result-cases}
use lior_paris_wallet.Orm.{Orm}
use lior_paris_wallet.App.{App, Cache}
use lior_paris_wallet.Entities.{Users, Wallet}
use lior_paris_wallet.Ledger.{IsAuditedDb}
use lior_paris_wallet.Users.Repository.{find_user_by_email}
use lior_paris_wallet.Auth.{Argon, Site, validate}
use lior_paris_wallet.Auth.RoleGuard.{can_activate}
use lior_paris_wallet.Transfers.Service.{TransferIds, InitiateTransferDto, initiate_transfer}
use lior_paris_wallet.Transfers.Ownership.{HasNotLost, kept_lem, initiate_transfer-HasNotLost}
use lior_paris_wallet.Wallet.Controller.{ReceiptDocument, post_transfer}
use lior_paris_wallet.Http.Guards.{
  HttpRequest, Endpoint, Passport, is_public, raw_role, intercept, jwt_can_activate, pass_on, admit,
}
use lior_paris_wallet.Http.Admission.{admit-IsAdmitted}
use lior_paris_wallet.Http.Serving.{transfers_endpoint, serve, serve_transfer}

-- The request has a token of the user, who is in the table.
abbrev pub IsFrom : Passport → HttpRequest → App → ℕ → Type 0
IsFrom passport request app user_id =
    (u : Users) × (u.id ≡ user_id)
    × Memᴰ u app.db.users
    × (passport.email_of_token request.authorization ≡ some u.email)

module _ (orm : Orm) (argon : Argon) (sign : ℕ → ℕ → String → String) (passport : Passport) where
  module _ (endpoint : Endpoint) (request : HttpRequest) (site : Site) where
    pass_on-site : (u : Option Users) → (pass_on endpoint request u site).1 ≡ site
    unfolding pass_on
    pass_on-site u = elim (Result-cases (can_activate endpoint.required_roles (raw_role u))) [
      | inr (x, c) ↦ ground arith
      | inl (allowed, c) ↦ elim (Result-cases (intercept endpoint request)) [
        | inr (x, t) ↦ ground arith
        | inl (header, t) ↦ ground arith
      ]
    ]

  validate-site : (email : String) (site : Site) → (validate orm argon sign email site).1 ≡ site
  unfolding validate find_user_by_email
  validate-site email site =
      elim (Option-cases (orm.find_one (λ u. str_eq u.email email) site.db.users)) [
        | inl missing ↦ ground arith
        | inr (u, found) ↦ ground arith
      ]

  -- Nobody's way to a handler changes the tables.
  admit_by :
      (endpoint : Endpoint) (request : HttpRequest) (site : Site) (r : Result Users × Site)
      → is_public endpoint ≡ false
      → passport.authenticate (validate orm argon sign) request site ≡ r
      → (admit passport (validate orm argon sign) endpoint request site).1 ≡ site
  unfolding admit jwt_can_activate
  admit_by endpoint request site (err x, site1) closed a =
      let on : admit passport (validate orm argon sign) endpoint request site ≡ (err x, site1) =
        ground arith in
      ap (λ (q : Result (Option Users) × Site). q.1) on
      ∙ elim (passport.authenticate-err (validate orm argon sign) request site site1 x a) [
        | inl same ↦ same
        | inr (email, y, ran) ↦
            sym (ap (λ (q : Result Users × Site). q.1) ran) ∙ validate-site email site
      ]
  admit_by endpoint request site (ok u, site1) closed a =
      let on : admit passport (validate orm argon sign) endpoint request site
          ≡ pass_on endpoint request (some u) site1 =
        ground arith in
      let (email, named, ran) =
        passport.authenticate-ok (validate orm argon sign) request site site1 u a in
      ap (λ (q : Result (Option Users) × Site). q.1) on
      ∙ pass_on-site endpoint request site1 (some u)
      ∙ sym (ap (λ (q : Result Users × Site). q.1) ran)
      ∙ validate-site email site

  pub admit-site :
      (endpoint : Endpoint) (request : HttpRequest) (site : Site)
      → (admit passport (validate orm argon sign) endpoint request site).1 ≡ site
  unfolding admit jwt_can_activate
  admit-site endpoint request site = elim (Bool-cases (is_public endpoint)) [
    | inr closed ↦
        admit_by endpoint request site
          (passport.authenticate (validate orm argon sign) request site) closed refl
    | inl open_to_all ↦
        let on : admit passport (validate orm argon sign) endpoint request site
            ≡ pass_on endpoint request none site =
          ground arith in
        ap (λ (q : Result (Option Users) × Site). q.1) on ∙ pass_on-site endpoint request site none
  ]

  -- The answer of a transfer does not change what the transfer has left.
  pub post_transfer-app :
      (cache : Cache) (ids : TransferIds) (user_id : ℕ) (email : String)
      (input : InitiateTransferDto) (app : App)
      → (post_transfer orm cache ids user_id email input app).1
        ≡ (initiate_transfer orm cache ids user_id email input app).1
  unfolding post_transfer
  post_transfer-app cache ids user_id email input app =
      elim (Result-cases (initiate_transfer orm cache ids user_id email input app).0) [
        | inl (done, e) ↦ ground arith
        | inr (x, e) ↦ ground arith
      ]

  module _ (cache : Cache) (ids : TransferIds) (request : HttpRequest) (input : InitiateTransferDto)
      (app : App) where
    abbrev arrival : Site
    arrival = record { db = app.db; emitted = [] }

    abbrev served_app : App
    served_app = (serve_transfer orm argon sign passport cache ids request input app).1

    -- The transfer of a user that has been let in takes nothing from another user's wallet.
    served_user :
        (w : Wallet) (u : Users)
        → admit passport (validate orm argon sign) transfers_endpoint request arrival
          ≡ (ok (some u), arrival)
        → w.user_id ≢ u.id
        → pos 1 ≤ℤ input.amount
        → IsAuditedDb app.db
        → Memᴰ w app.db.wallets
        → HasNotLost w served_app.db.wallets
    unfolding serve_transfer serve
    served_user w u a other valid books m =
        let on : serve_transfer orm argon sign passport cache ids request input app
            ≡ post_transfer orm cache ids u.id u.email input app =
          ground arith in
        let rows : served_app.db.wallets
            ≡ (initiate_transfer orm cache ids u.id u.email input app).1.db.wallets =
          ap (λ (q : Result ReceiptDocument × App). q.1.db.wallets) on
          ∙ ap (λ (b : App). b.db.wallets) (post_transfer-app cache ids u.id u.email input app) in
        subst (HasNotLost w) (sym rows)
          (initiate_transfer-HasNotLost orm cache ids u.id u.email input app w valid books m other)

    served_by :
        (w : Wallet) (r : Result (Option Users) × Site)
        → admit passport (validate orm argon sign) transfers_endpoint request arrival ≡ r
        → pos 1 ≤ℤ input.amount
        → IsAuditedDb app.db
        → Memᴰ w app.db.wallets
        → HasNotLost w served_app.db.wallets ⊎ IsFrom passport request app w.user_id
    unfolding serve_transfer serve is_public
    served_by w (err x, site) a valid books m =
        let same : site ≡ arrival =
          sym (ap (λ (q : Result (Option Users) × Site). q.1) a)
          ∙ admit-site transfers_endpoint request arrival in
        let on : serve_transfer orm argon sign passport cache ids request input app
            ≡ (err x, record app { db = site.db }) =
          ground arith in
        let rows : served_app.db.wallets ≡ app.db.wallets =
          ap (λ (q : Result ReceiptDocument × App). q.1.db.wallets) on
          ∙ ap (λ (s : Site). s.db.wallets) same in
        inl (subst (HasNotLost w) (sym rows) (kept_lem w app.db.wallets m))
    served_by w (ok user, site) a valid books m =
        let (same, let_in) =
          admit-IsAdmitted orm argon sign passport transfers_endpoint request arrival site user a in
        elim let_in [
          | inl open_to_all ↦
              let closed : is_public transfers_endpoint ≡ false = refl in
              absurd (let c : true ≡ false = sym open_to_all ∙ closed in ground arith)
          | inr (u, is_u, admitted) ↦ elim (Bool-cases (u.id == w.user_id)) [
            | inl own ↦ inr (u, (==_iff u.id w.user_id).0 own, admitted.stored, admitted.named)
            | inr other ↦
                inl
                  (served_user w u (a ∙ (λ i. (ok (is_u i), same i))) (ground arith) valid books m)
          ]
        ]

-- A request for a transfer of a validated amount, from its arrival to its answer, takes nothing from a
-- wallet, or it has the token of the wallet's owner.
pub serve_transfer-HasNotLost :
    (orm : Orm) (argon : Argon) (sign : ℕ → ℕ → String → String) (passport : Passport)
    (cache : Cache) (ids : TransferIds) (request : HttpRequest) (input : InitiateTransferDto)
    (app : App) (w : Wallet)
    → pos 1 ≤ℤ input.amount
    → IsAuditedDb app.db
    → Memᴰ w app.db.wallets
    → HasNotLost w (serve_transfer orm argon sign passport cache ids request input app).1.db.wallets
      ⊎ IsFrom passport request app w.user_id
serve_transfer-HasNotLost orm argon sign passport cache ids request input app w valid books m =
    served_by orm argon sign passport cache ids request input app w
      (admit passport (validate orm argon sign) transfers_endpoint request
        (record { db = app.db; emitted = [] }))
      refl valid books m
