-- ===== src/Http/Sessions.antt =====
-- What a login is good for (src/features/auth): the requests after it that bear its token.
use Prim.Native.String.{◌++◌ as ◌&◌}
use lior_paris_wallet.Prelude.{
  ℕ, String, ◌≡◌, ◌≢◌, ◌⊎◌, sym, ap, ◌∙◌, inl, inr, false, none, some, Memᴰ, Option-cases,
  Bool-cases, str_eq, eq_iff, arith,
}
use lior_paris_wallet.Prelude.Rows.{any-false}
use lior_paris_wallet.Result.{Result, Exception, Action, ok, err, unauthorized, ok_inj}
use lior_paris_wallet.Orm.{Orm}
use lior_paris_wallet.Entities.{Users}
use lior_paris_wallet.Config.{ConfigService}
use lior_paris_wallet.Users.Repository.{find_user_by_email}
use lior_paris_wallet.Users.Service.{UserResultDto, map_result, token_of}
use lior_paris_wallet.Auth.{Argon, Site, LoginDto, login, create_login_token, validate}
use lior_paris_wallet.Http.Guards.{
  HttpRequest, Endpoint, Passport, is_public, jwt_can_activate, pass_on, admit,
}
use lior_paris_wallet.Http.Tokens.{
  Jwt, IsPassportOf, module_secret, module_expires_in, strategy_secret,
}

-- The strategy has a secret exactly if the variable is set, and then it is the one of the module.
strategy_secret-module :
    (config : ConfigService) (secret : String)
    → strategy_secret config ≡ ok secret
    → (secret ≢ "") × (module_secret config ≡ secret)
unfolding strategy_secret module_secret
strategy_secret-module config secret e = elim (Option-cases (config "JWT_SECRET")) [
  | inl unset ↦ absurd (ground (arith, e, unset))
  | inr (s, set) ↦ elim (Bool-cases (str_eq s "")) [
    | inl empty ↦ absurd (ground (arith, e, set, empty))
    | inr full ↦
        let ran : strategy_secret config ≡ ok s = ground arith in
        let same : s ≡ secret = ok_inj (sym ran ∙ e) in
        let text = eq_iff s "" in (λ h. ground (arith, text, full, same, h), ground arith)
  ]
]

module _ (passport : Passport) (check : String → Action Site Users) (endpoint : Endpoint)
    (request : HttpRequest) (site : Site) (closed : is_public endpoint ≡ false) where
  admit_ok :
      (u : Users) (site1 : Site)
      → passport.authenticate check request site ≡ (ok u, site1)
      → admit passport check endpoint request site ≡ pass_on endpoint request (some u) site1
  unfolding admit jwt_can_activate
  admit_ok u site1 e = ground arith

  admit_err :
      (x : Exception) (site1 : Site)
      → passport.authenticate check request site ≡ (err x, site1)
      → admit passport check endpoint request site ≡ (err x, site1)
  unfolding admit jwt_can_activate
  admit_err x site1 e = ground arith

token_of-some : (t token : String) → token_of (some t) ≡ some token → token ≡ t
token_of-some t token h = elim (Bool-cases (str_eq t "")) [
  | inl empty ↦ absurd (ground arith)
  | inr full ↦ ground arith
]

module _ (orm : Orm) (argon : Argon) (jwt : Jwt) (config : ConfigService) (issued : ℕ) where
  -- `jwtService.sign`
  abbrev pub signer : (now user_id : ℕ) → String → String
  signer = jwt.sign (module_secret config) (module_expires_in config)

  -- What a login that returns has signed.
  login_token :
      (input : LoginDto) (site site' : Site) (x : UserResultDto) (token : String)
      → login orm argon signer issued input site ≡ (ok x, site')
      → x.access_token ≡ some token
      → (u : Users) × (u.email ≡ input.email) × (token ≡ signer issued u.id u.email)
  unfolding login find_user_by_email create_login_token map_result
  login_token input site site' x token e has =
      elim (Option-cases (orm.find_one (λ u. str_eq u.email input.email) site.db.users)) [
        | inl unknown ↦ absurd (ground (arith, e))
        | inr (u, found) ↦ elim (Bool-cases (argon.verify u.password input.password)) [
          | inr wrong ↦ absurd (ground (arith, e))
          | inl right ↦
              let answer = map_result u none (some (signer issued u.id u.email)) in
              let ran : login orm argon signer issued input site ≡ (ok answer, site) =
                ground arith in
              let same : answer ≡ x =
                ok_inj (ap (λ (r : Result UserResultDto × Site). r.0) (sym ran ∙ e)) in
              let given : answer.access_token ≡ some token =
                ap (λ (d : UserResultDto). d.access_token) same ∙ has in
              let (m, fits) = orm.find_one-some _ _ found in
              (u, (eq_iff u.email input.email).0 fits, token_of-some _ token given)
        ]
      ]

  -- By whom the tables name, at the time of a request, by an email.
  abbrev pub IsNamed : Passport → Endpoint → HttpRequest → Site → String → Type 0
  IsNamed passport endpoint request site email =
      ((u : Users) × Memᴰ u site.db.users
        × (u.email ≡ email)
        × (admit passport (validate orm argon signer) endpoint request site
            ≡ pass_on endpoint request (some u) site))
      ⊎ (((u : Users) → Memᴰ u site.db.users → u.email ≢ email)
          × (admit passport (validate orm argon signer) endpoint request site
              ≡ (err (unauthorized "Unauthorized"), site)))

  admitted_by :
      (passport : Passport) (endpoint : Endpoint) (request : HttpRequest) (site : Site)
      (email : String)
      → is_public endpoint ≡ false
      → passport.authenticate (validate orm argon signer) request ≡ validate orm argon signer email
      → IsNamed passport endpoint request site email
  unfolding validate find_user_by_email
  admitted_by passport endpoint request site email closed calls =
      elim (Option-cases (orm.find_one (λ u. str_eq u.email email) site.db.users)) [
        | inl unknown ↦
            let refused : validate orm argon signer email site
                ≡ (err (unauthorized "Unauthorized"), site) =
              ground arith in
            inr (
              λ u m same.
                  let unfit =
                    any-false (λ (v : Users). str_eq v.email email) site.db.users
                      (orm.find_one-none _ _ unknown) m in
                  let text = eq_iff u.email email in absurd (ground (arith, unfit, text, same)),
              admit_err passport (validate orm argon signer) endpoint request site closed _ site
                  (ap (λ (f : Action Site Users). f site) calls ∙ refused),
            )
        | inr (u, found) ↦
            let (m, fits) = orm.find_one-some _ _ found in
            let found_by : validate orm argon signer email site ≡ (ok u, site) = ground arith in
            inl (
              u,
              m,
              (eq_iff u.email email).0 fits,
              admit_ok passport (validate orm argon signer) endpoint request site closed u site
                  (ap (λ (f : Action Site Users). f site) calls ∙ found_by),
            )
      ]

  -- The token that a login answers, in the header of a later request to a handler that is not public and
  -- while its lifetime lasts, if the strategy has a secret: the guard of tokens lets in a user whom the
  -- tables have then under the email of the login, and what is left are the role and the content type; if
  -- they have none, the request is refused.
  pub login-admit :
      (secret token : String) (now : ℕ) (passport : Passport) (input : LoginDto)
      (site site' later : Site) (x : UserResultDto) (endpoint : Endpoint) (request : HttpRequest)
      → strategy_secret config ≡ ok secret
      → IsPassportOf jwt secret now passport
      → login orm argon signer issued input site ≡ (ok x, site')
      → x.access_token ≡ some token
      → jwt.IsFresh (module_expires_in config) issued now
      → request.authorization ≡ some ("Bearer " & token)
      → is_public endpoint ≡ false
      → IsNamed passport endpoint request later input.email
  login-admit secret token now passport input site site' later x endpoint request configured passes
        returned has fresh sent closed =
      let (given, same) = strategy_secret-module config secret configured in
      let (u, named, signed) = login_token input site site' x token returned has in
      let read : passport.email_of_token request.authorization ≡ some input.email =
        ap passport.email_of_token sent
        ∙ passes.bearer token
        ∙ ap (jwt.verify secret now) signed
        ∙ ap
            (λ s. jwt.verify secret now (jwt.sign s (module_expires_in config) issued u.id u.email))
            same
        ∙ jwt.verify-sign secret (module_expires_in config) issued now u.id u.email given fresh
        ∙ ap some named in
      admitted_by passport endpoint request later input.email closed
        (passes.calls (validate orm argon signer) request input.email read)
