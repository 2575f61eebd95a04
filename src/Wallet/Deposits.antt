-- ===== src/Wallet/Deposits.antt =====
-- Deposits settled by webhooks (`settleByProviderRef` of src/features/wallet/wallet.service.ts): the
-- books stay audited, a deposit is credited once, and the money that enters is the deposit's.
use lior_paris_wallet.Prelude.{String, ◌≡◌, ◌⊎◌, refl, none, some, Memᴰ, inl, inr, Option-cases}
use lior_paris_wallet.Prelude.Int.{◌+ℤ◌}
use lior_paris_wallet.Result.{ok}
use lior_paris_wallet.Orm.{Orm}
use lior_paris_wallet.App.{App, Cache}
use lior_paris_wallet.Entities.{LedgerEntry, Transaction}
use lior_paris_wallet.Ledger.{IsAuditedDb, total_balance}
use lior_paris_wallet.Wallet.Repository.{find_transaction_by_provider_ref, has_provider_ref}
use lior_paris_wallet.Wallet.Crediting.{Credited, credit_outcome}
use lior_paris_wallet.Wallet.Booking.{
  Settled-IsAudited, total-Settled, booked-Settled, not-booked-Settled,
}
use lior_paris_wallet.Wallet.Service.{SettleIds, settle_found, settle_by_provider_ref}

module _ (orm : Orm) (cache : Cache) where
  module _ (ids : SettleIds) (t : Transaction) {app app' : App}
      (c : Credited orm cache ids t app app') where
    Credited-IsAudited : IsAuditedDb app.db → IsAuditedDb app'.db
    Credited-IsAudited books = Settled-IsAudited ids.entry_id c.target.id t c.settled books

    total-Credited :
        IsAuditedDb app.db
        → total_balance app'.db.wallets ≡ total_balance app.db.wallets +ℤ t.amount
    total-Credited books = total-Settled ids.entry_id c.target.id t c.settled books

    booked-Credited :
        (e : LedgerEntry) × Memᴰ e app'.db.ledger × (e.idempotency_key ≡ t.idempotency_key)
    booked-Credited = booked-Settled ids.entry_id c.target.id t c.settled

    not-booked-Credited :
        (e : LedgerEntry) → Memᴰ e app.db.ledger → e.idempotency_key ≡ t.idempotency_key → ⊥
    not-booked-Credited e m same = not-booked-Settled ids.entry_id c.target.id t c.settled e m same

  module _ (ids : SettleIds) (t : Transaction) (app : App) where
    -- From any row, stale or not, the books stay audited.
    pub settle_found-IsAudited :
        IsAuditedDb app.db → IsAuditedDb (settle_found orm cache ids (some t) app).1.db
    settle_found-IsAudited books = elim (credit_outcome orm cache ids t app) [
      | inl same ↦ rw same books
      | inr (done, c) ↦ Credited-IsAudited ids t c books
    ]

    -- The money in all wallets stays, or grows by the amount of the deposit.
    pub total-settle_found :
        IsAuditedDb app.db
        → let app' = (settle_found orm cache ids (some t) app).1 in
          (app' ≡ app) ⊎ (total_balance app'.db.wallets ≡ total_balance app.db.wallets +ℤ t.amount)
    total-settle_found books = elim (credit_outcome orm cache ids t app) [
      | inl same ↦ inl same
      | inr (done, c) ↦ inr (total-Credited ids t c books)
    ]

    -- If the ledger has the deposit's key, a settlement changes nothing, however stale its row.
    pub settle_found_booked :
        (e : LedgerEntry)
        → Memᴰ e app.db.ledger
        → e.idempotency_key ≡ t.idempotency_key
        → (settle_found orm cache ids (some t) app).1 ≡ app
    settle_found_booked e m same = elim (credit_outcome orm cache ids t app) [
      | inl stays ↦ stays
      | inr (done, c) ↦ absurd (not-booked-Credited ids t c e m same)
    ]

  -- A deposit settled twice, as by two deliveries of one webhook that read the same row, is
  -- credited at most once: the money in all wallets stays, or grows by its amount once.
  pub settle_found_twice :
      (ids ids' : SettleIds) (t : Transaction) (app : App)
      → IsAuditedDb app.db
      → let app' = (settle_found orm cache ids (some t) app).1 in
        let app'' = (settle_found orm cache ids' (some t) app').1 in
        (total_balance app''.db.wallets ≡ total_balance app.db.wallets)
        ⊎ (total_balance app''.db.wallets ≡ total_balance app.db.wallets +ℤ t.amount)
  settle_found_twice ids ids' t app books = elim (credit_outcome orm cache ids t app) [
    | inl same ↦ rw same (elim (total-settle_found ids' t app books) [
      | inl stays ↦ inl (rw stays refl)
      | inr grown ↦ inr grown
    ])
    | inr (done, c) ↦
        let (e, m, key) = booked-Credited ids t c in
        rw (settle_found_booked ids' t (settle_found orm cache ids (some t) app).1 e m key)
          (inr (total-Credited ids t c books))
  ]

  settle_by_provider_ref_lem :
      (ids : SettleIds) (ref : String) (app : App)
      → settle_by_provider_ref orm cache ids ref app
        ≡ settle_found orm cache ids (orm.find_one (has_provider_ref ref) app.db.transactions) app
  unfolding settle_by_provider_ref find_transaction_by_provider_ref
  settle_by_provider_ref_lem ids ref app = refl

  settle_found-none :
      (ids : SettleIds) (app : App) → settle_found orm cache ids none app ≡ (ok tt, app)
  unfolding settle_found
  settle_found-none ids app = refl

  -- Settling by any provider reference, known or not, keeps the books audited.
  pub settle_by_provider_ref-IsAudited :
      (ids : SettleIds) (ref : String) (app : App)
      → IsAuditedDb app.db
      → IsAuditedDb (settle_by_provider_ref orm cache ids ref app).1.db
  settle_by_provider_ref-IsAudited ids ref app books =
      rw settle_by_provider_ref_lem
        (elim (Option-cases (orm.find_one (has_provider_ref ref) app.db.transactions)) [
          | inl missing ↦ rw (missing, settle_found-none ids app) books
          | inr (t, read) ↦ rw read (settle_found-IsAudited ids t app books)
        ])
