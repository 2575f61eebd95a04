-- ===== src/Wallet/Turns.antt =====
-- The requests as turns (src/features/wallet/wallet.service.ts,
-- src/features/transfers/transfers.service.ts): what each does when no other one comes between.
use lior_paris_wallet.Prelude.{
  ℕ, String, ◌≡◌, ◌≢◌, refl, subst, inl, inr, ◌==◌, ◌&&◌, some, [], ◌∷◌, ◌++◌, Option-cases, str_eq,
  arith,
}
use lior_paris_wallet.Prelude.Int.{pos, ◌≤ℤ◌}
use lior_paris_wallet.Result.{Result, ok, err}
use lior_paris_wallet.Orm.{Orm}
use lior_paris_wallet.Orm.Laws.{insert_cases}
use lior_paris_wallet.App.{App, Cache}
use lior_paris_wallet.Entities.{
  Db, Wallet, LedgerEntry, Transaction, TransactionStatus, transfer_clash,
}
use lior_paris_wallet.Ledger.{IsAuditedDb}
use lior_paris_wallet.Wallet.Repository.{find_by_user_id_and_currency}
use lior_paris_wallet.Wallet.Service.{
  SettleIds, balance_key, get_balance, settle_found, invalidate_balance_cache,
}
use lior_paris_wallet.Wallet.Crediting.{
  settlement, credit_event, status_cases, settle_found_commits, settle_found_throws,
  settle_found_skips, settle_found_no_wallet,
}
use lior_paris_wallet.Transfers.Service.{
  InitiateTransferDto, TransferIds, initiate_transfer, transfer_between,
}
use lior_paris_wallet.Transfers.Between.{
  new_transfer, created_db, between_event, movement, between_refused, between_commits,
  between_throws,
}
use lior_paris_wallet.Transfers.Safety.{initiate_cases, Initiated-apart}
use lior_paris_wallet.Interleaving.{Step, settle, execute, elsewhere}
use lior_paris_wallet.Wallet.Overlaps.{Server, Turns, start, later, found, stored, wrote, evicted}

module _ (orm : Orm) (cache : Cache) where
  -- Turns after turns.
  pub and_then : {s t u : Server} → Turns orm cache s t → Turns orm cache t u → Turns orm cache s u
  and_then before start = before
  and_then before (later between turn) = later (and_then before between) turn

  -- A read that nothing overlaps is two of these turns, or one that hits the cache or finds no row is none.
  read-Turns :
      (s : Server) (user_id : ℕ) (currency : String)
      → Turns orm cache s (record s { app = (get_balance orm cache user_id currency s.app).1 })
  unfolding get_balance find_by_user_id_and_currency
  read-Turns s user_id currency =
      let key = balance_key user_id currency in
      elim (Option-cases (cache.get key s.app.cache)) [
        | inr (v, hit) ↦
            let same : (get_balance orm cache user_id currency s.app).1 ≡ s.app = ground arith in
            rw same start
        | inl miss ↦
            elim (Option-cases (
              orm.find_one (λ w. w.user_id == user_id && str_eq w.currency currency)
                s.app.db.wallets)) [
                  | inl gone ↦
                      let same : (get_balance orm cache user_id currency s.app).1 ≡ s.app =
                        ground arith in
                      rw same start
                  | inr (v, h) ↦
                      let same : (get_balance orm cache user_id currency s.app).1
                          ≡ record s.app { cache = cache.set key v s.app.cache } =
                        ground arith in
                      rw same (
                        later (later start (found user_id currency v (rw h refl)))
                          (stored [] s.reading _ refl))
                ]
      ]

  settled_by :
      (ids : SettleIds) (t : Transaction) (w : Wallet) (s : Server)
      → t.status ≡ TransactionStatus.pending
      → orm.find_one (λ v. v.user_id == t.user_id && str_eq v.currency t.currency) s.app.db.wallets
        ≡ some w
      → (r : Result LedgerEntry × Db) → settlement orm cache ids t w s.app ≡ r
      → Turns orm cache s (record s { app = (settle_found orm cache ids (some t) s.app).1 })
  unfolding invalidate_balance_cache
  settled_by ids t w s pending read (ok e, db) q =
      let step : Step orm s.app.db db =
        subst (λ (r : Result LedgerEntry × Db). Step orm s.app.db r.1) q
          (settle ids.entry_id w.id t (credit_event orm cache ids t w s.app)) in
      rw (settle_found_commits orm cache ids t w s.app pending read e db q)
        (later (later start (wrote step)) (evicted t.user_id t.currency))
  settled_by ids t w s pending read (err x, db) q =
      let step : Step orm s.app.db db =
        subst (λ (r : Result LedgerEntry × Db). Step orm s.app.db r.1) q
          (settle ids.entry_id w.id t (credit_event orm cache ids t w s.app)) in
      rw (settle_found_throws orm cache ids t w s.app pending read x db q)
        (later start (wrote step))

  settled-Turns :
      (ids : SettleIds) (t : Transaction) (s : Server)
      → Turns orm cache s (record s { app = (settle_found orm cache ids (some t) s.app).1 })
  settled-Turns ids t s = elim (status_cases orm cache ids t t.status) [
    | inr over ↦ rw (settle_found_skips orm cache ids t s.app over) start
    | inl pending ↦
        elim (Option-cases (
          orm.find_one (λ v. v.user_id == t.user_id && str_eq v.currency t.currency)
            s.app.db.wallets)) [
              | inl missing ↦
                  rw (settle_found_no_wallet orm cache ids t s.app pending missing) start
              | inr (w, read) ↦ settled_by ids t w s pending read _ refl
            ]
  ]

  module _ (ids : TransferIds) (user_id : ℕ) (email : String) (input : InitiateTransferDto)
      (from to : Wallet) (s : Server) (apart : from.id ≢ to.id) (valid : pos 1 ≤ℤ input.amount)
      (created : orm.insert transfer_clash
          (new_transfer orm cache ids user_id email input from to)
          s.app.db.transfers
        ≡ some (
            s.app.db.transfers
            ++ new_transfer orm cache ids user_id email input from to ∷ [])) where
    Executed : Result Unit × Db → Type 0
    Executed r = Step orm (created_db orm cache ids user_id email input from to s.app.db) r.1

    transferred_by :
        (r : Result Unit × Db)
        → movement orm cache ids user_id email input from to s.app ≡ r
        → Turns orm cache s (record s {
          app = (transfer_between orm cache ids user_id email input from to s.app).1;
        })
    unfolding invalidate_balance_cache Executed
    transferred_by (ok u, db) q =
        let step = subst Executed q (
          execute ids.debit_id ids.credit_id _ from.id to.id
            (between_event orm cache ids user_id email input from to s.app.db) apart valid) in
        rw (between_commits orm cache ids user_id email input from to s.app created db q) (
          later
            (later (later (later start (wrote (elsewhere refl refl))) (wrote step))
              (evicted user_id input.currency))
            (evicted to.user_id input.currency))
    transferred_by (err x, db) q =
        let step = subst Executed q (
          execute ids.debit_id ids.credit_id _ from.id to.id
            (between_event orm cache ids user_id email input from to s.app.db) apart valid) in
        rw (between_throws orm cache ids user_id email input from to s.app created x db q)
          (later (later start (wrote (elsewhere refl refl))) (wrote step))

  transferred-Turns :
      (ids : TransferIds) (user_id : ℕ) (email : String) (input : InitiateTransferDto) (s : Server)
      → pos 1 ≤ℤ input.amount
      → IsAuditedDb s.app.db
      → Turns orm cache s
          (record s { app = (initiate_transfer orm cache ids user_id email input s.app).1 })
  transferred-Turns ids user_id email input s valid books =
      elim (initiate_cases orm cache ids user_id email input s.app) [
        | inl same ↦ rw same start
        | inr r ↦
            let from = r.from_wallet in
            let to = r.to_wallet in
            let row = new_transfer orm cache ids user_id email input from to in
            elim (insert_cases orm transfer_clash row s.app.db.transfers) [
              | inl taken ↦
                  rw (r.runs, between_refused orm cache ids user_id email input from to s.app taken)
                    start
              | inr (free, created) ↦
                  let apart = Initiated-apart orm cache ids user_id email input r books in
                  rw r.runs
                    (transferred_by ids user_id email input from to s apart valid created _ refl)
            ]
      ]

  -- From audited books, a read, a settlement and a transfer of a validated amount that nothing overlaps
  -- are turns each, whatever they come to.
  pub request-Turns :
      (s : Server)
      → IsAuditedDb s.app.db
      → let after = λ (app : App). record s { app = app } in
        ((user_id : ℕ) (currency : String)
          → Turns orm cache s (after (get_balance orm cache user_id currency s.app).1))
        × ((ids : SettleIds) (t : Transaction)
            → Turns orm cache s (after (settle_found orm cache ids (some t) s.app).1))
        × ((ids : TransferIds) (user_id : ℕ) (email : String) (input : InitiateTransferDto)
            → pos 1 ≤ℤ input.amount
            → Turns orm cache s
                (after (initiate_transfer orm cache ids user_id email input s.app).1))
  request-Turns s books = (
    λ user_id currency. read-Turns s user_id currency,
    λ ids t. settled-Turns ids t s,
    λ ids user_id email input valid. transferred-Turns ids user_id email input s valid books,
  )
