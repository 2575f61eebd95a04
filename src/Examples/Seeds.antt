-- ===== src/Examples/Seeds.antt =====
-- Runs of the seeding script.
use mathlib.Core.List.Memᴰ
use lior_paris_wallet.Prelude.{
  String, ◌≡◌, ◌⊎◌, sym, ap, ◌∙◌, inl, inr, true, false, some, str_eq, eq_iff, if◌then◌else◌, arith,
}
use lior_paris_wallet.Prelude.Rows.{HasUniqueKeys}
use lior_paris_wallet.Result.{Exception, ok, err}
use lior_paris_wallet.Orm.Memory.{memory}
use lior_paris_wallet.Entities.{Users}
use lior_paris_wallet.Scripts.SeedAdmin.{Env, SeedIds, get_required_env, main}
use lior_paris_wallet.Scripts.Admins.{HasAdmin}
use lior_paris_wallet.Scripts.Seeding.{main_outcome}
use lior_paris_wallet.Examples.Data.{db}
use lior_paris_wallet.Examples.Requests.{plain_argon}

abbrev env : Env
env name = if str_eq name "ADMIN_EMAIL" then some "root@x.io" else some "x"

abbrev seed_ids : SeedIds
seed_ids = record { user_id = 9; wallet_id = 19; salt = 3; now = 60; wallet_tag = "x-00ff" }

-- The tag of a wallet that is there.
db_emails : HasUniqueKeys (λ (u : Users). u.email) db.users
db_emails = (
  λ b m. elim (Memᴰ.cases_cons m) [
    | inl e ↦ λ h.
        let same : "bob@x.io" ≡ "ada@x.io" = sym (ap (λ (u : Users). u.email) e) ∙ h in
        let c : false ≡ true = (eq_iff "bob@x.io" "ada@x.io").1 same in absurd (ground arith)
    | inr t ↦ absurd (Memᴰ.not-nil t)
  ],
  (λ b m. absurd (Memᴰ.not-nil m), tt),
)

main_outcome_example :
    ((x : Exception) × (main memory plain_argon seed_ids env db ≡ (err x, db)))
    ⊎ ((email : String) × (get_required_env env "ADMIN_EMAIL" ≡ ok email)
        × HasAdmin email (main memory plain_argon seed_ids env db).1
        × (main memory plain_argon seed_ids env (main memory plain_argon seed_ids env db).1
            ≡ (ok tt, (main memory plain_argon seed_ids env db).1)))
main_outcome_example = main_outcome memory plain_argon seed_ids env db db_emails
