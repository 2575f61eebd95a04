-- ===== src/Http/Admission.antt =====
-- Who comes to a handler (src/app.module.ts with its guards and its interceptor).
use text.Mathlib.Text.{starts_with}
use mathlib.Core.List.Memᴰ
use lior_paris_wallet.Prelude.{
  ℕ, String, ◌≡◌, ◌⊎◌, refl, sym, ap, subst, ◌∙◌, Bool, true, false, inl, inr, Option, none, some,
  List, Memᴰ, Option-cases, Bool-cases, str_eq, eq_iff, arith,
}
use lior_paris_wallet.Prelude.Texts.{to_upper_case}
use lior_paris_wallet.Result.{Result, ok, err, Result-cases, ok_inj}
use lior_paris_wallet.Orm.{Orm}
use lior_paris_wallet.Entities.{Users}
use lior_paris_wallet.Users.Repository.{find_user_by_email}
use lior_paris_wallet.Auth.{Argon, Site, validate}
use lior_paris_wallet.Auth.RoleGuard.{can_activate, can_activate_lem, normalize_user_roles}
use lior_paris_wallet.Http.Guards.{
  HttpRequest, Endpoint, Passport, is_public, role_text, raw_role, has_body, or_empty,
  json_api_type, intercept, jwt_can_activate, pass_on, admit,
}

-- The user of a request that has been let in: a row of the table, by the email of the token.
pub record IsAdmitted (passport : Passport) (endpoint : Endpoint) (request : HttpRequest)
    (site : Site) (user : Users) : Type 0 where
  pub stored : Memᴰ user site.db.users
  pub named : passport.email_of_token request.authorization ≡ some user.email
  pub role :
      (roles : List String)
      → endpoint.required_roles ≡ some roles
      → Memᴰ (role_text user.role) roles
  pub typed :
      has_body (to_upper_case (or_empty request.method)) ≡ true
      → starts_with (or_empty request.content_type) json_api_type ≡ true

module _ (orm : Orm) (argon : Argon) (sign : ℕ → ℕ → String → String) (passport : Passport)
    (endpoint : Endpoint) (request : HttpRequest) where
  pub validate_outcome :
      (email : String) (site site' : Site) (user : Users)
      → validate orm argon sign email site ≡ (ok user, site')
      → Memᴰ user site.db.users × (user.email ≡ email) × (site' ≡ site)
  unfolding validate find_user_by_email
  validate_outcome email site site' user e =
      elim (Option-cases (orm.find_one (λ u. str_eq u.email email) site.db.users)) [
        | inl f ↦ absurd (ground arith)
        | inr (u, f) ↦
            let (m, fits) =
              orm.find_one-some (λ (v : Users). str_eq v.email email) site.db.users f in
            let ran : validate orm argon sign email site ≡ (ok u, site) = ground arith in
            let same : (ok u, site) ≡ (ok user, site') = sym ran ∙ e in
            let mine : u ≡ user = ok_inj (ap (λ (r : Result Users × Site). r.0) same) in
            (
              subst (λ v. Memᴰ v site.db.users) mine m,
              subst (λ (v : Users). v.email ≡ email) mine ((eq_iff u.email email).0 fits),
              sym (ap (λ (r : Result Users × Site). r.1) same),
            )
      ]

  -- What the guard of roles and the interceptor let pass, they have not changed.
  pass_on_outcome :
      (u user : Option Users) (site site' : Site)
      → pass_on endpoint request u site ≡ (ok user, site')
      → (user ≡ u)
        × (site' ≡ site)
        × ((allowed : Bool) × (can_activate endpoint.required_roles (raw_role u) ≡ ok allowed))
        × ((header : Option String) × (intercept endpoint request ≡ ok header))
  unfolding pass_on
  pass_on_outcome u user site site' e =
      elim (Result-cases (can_activate endpoint.required_roles (raw_role u))) [
        | inr (x, c) ↦ absurd (ground arith)
        | inl (allowed, c) ↦ elim (Result-cases (intercept endpoint request)) [
          | inr (x, t) ↦ absurd (ground arith)
          | inl (header, t) ↦
              let ran : pass_on endpoint request u site ≡ (ok u, site) = ground arith in
              let same : (ok u, site) ≡ (ok user, site') = sym ran ∙ e in
              (
                sym (ok_inj (ap (λ (r : Result (Option Users) × Site). r.0) same)),
                sym (ap (λ (r : Result (Option Users) × Site). r.1) same),
                (allowed, c),
                (header, t),
              )
        ]
      ]

  -- A user that the guard of roles lets in has one of the roles.
  role_outcome :
      (u : Users) (roles : List String) (allowed : Bool)
      → can_activate (some roles) (raw_role (some u)) ≡ ok allowed
      → Memᴰ (role_text u.role) roles
  unfolding normalize_user_roles
  role_outcome u roles allowed e = elim (can_activate_lem roles (raw_role (some u))) [
    | inl (passed, (role, m, n)) ↦ subst (λ r. Memᴰ r roles) (Memᴰ.eq_of_singleton n) m
    | inr (refused, nobody) ↦ absurd (ground arith)
  ]

  typed_outcome :
      (header : Option String)
      → is_public endpoint ≡ false
      → intercept endpoint request ≡ ok header
      → has_body (to_upper_case (or_empty request.method)) ≡ true
      → starts_with (or_empty request.content_type) json_api_type ≡ true
  unfolding intercept
  typed_outcome header closed e writes =
      elim (Bool-cases (starts_with (or_empty request.content_type) json_api_type)) [
        | inl typed ↦ typed
        | inr wrong ↦ absurd (ground arith)
      ]

  -- Where the handler is not public, the guard of tokens has let in the user of the token.
  authenticated :
      (r : Result Users × Site) (site site' : Site) (user : Option Users)
      → is_public endpoint ≡ false
      → passport.authenticate (validate orm argon sign) request site ≡ r
      → admit passport (validate orm argon sign) endpoint request site ≡ (ok user, site')
      → (site' ≡ site)
        × ((u : Users) × (user ≡ some u) × IsAdmitted passport endpoint request site u)
  unfolding admit jwt_can_activate
  authenticated (err x, site1) site site' user closed a e = absurd (
      let on : admit passport (validate orm argon sign) endpoint request site ≡ (err x, site1) =
        ground arith in
      let c : err x ≡ ok user = ap (λ (r : Result (Option Users) × Site). r.0) (sym on ∙ e) in
      ground arith)
  authenticated (ok u, site1) site site' user closed a e =
      let (email, named, ran) =
        passport.authenticate-ok (validate orm argon sign) request site site1 u a in
      let (stored, mine, same1) = validate_outcome email site site1 u ran in
      let on : admit passport (validate orm argon sign) endpoint request site
          ≡ pass_on endpoint request (some u) site1 =
        ground arith in
      let (is_u, same2, (allowed, c), (header, t)) =
        pass_on_outcome (some u) user site1 site' (sym on ∙ e) in
      (
        same2 ∙ same1,
        (
          u,
          is_u,
          record {
            stored = stored;
            named = named ∙ ap some (sym mine);
            role = λ roles has.
                role_outcome u roles allowed
                  (subst (λ q. can_activate q (raw_role (some u)) ≡ ok allowed) has c);
            typed = λ writes. typed_outcome header closed t writes;
          },
        ),
      )

  -- A request that comes to a handler changes nothing on its way. The handler is public, or the request
  -- has a token of a user of the table, who has one of the handler's roles if it has any, and, if its
  -- method has a body, the content type of JSON:API.
  pub admit-IsAdmitted :
      (site site' : Site) (user : Option Users)
      → admit passport (validate orm argon sign) endpoint request site ≡ (ok user, site')
      → (site' ≡ site)
        × ((is_public endpoint ≡ true)
            ⊎ ((u : Users) × (user ≡ some u) × IsAdmitted passport endpoint request site u))
  unfolding admit jwt_can_activate
  admit-IsAdmitted site site' user e = elim (Bool-cases (is_public endpoint)) [
    | inr closed ↦
        let (same, admitted) =
          authenticated (passport.authenticate (validate orm argon sign) request site) site site'
            user closed refl e in
        (same, inr admitted)
    | inl open_to_all ↦
        let on : admit passport (validate orm argon sign) endpoint request site
            ≡ pass_on endpoint request none site =
          ground arith in
        let (is_none, same, role, header) = pass_on_outcome none user site site' (sym on ∙ e) in
        (same, inl open_to_all)
  ]
