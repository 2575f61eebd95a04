-- ===== src/Transfers/Ownership.antt =====
-- Whose money a transfer request takes (src/features/transfers/transfers.service.ts).
use lior_paris_wallet.Prelude.{
  ℕ, String, ◌≡◌, ◌≢◌, ◌∙◌, refl, sym, ap, subst, true, false, ◌==◌, ==_iff, Memᴰ, List, arith, inl,
  inr, Bool-cases,
}
use lior_paris_wallet.Prelude.Int.{ℤ, pos, ◌≤ℤ◌, ◌+ℤ◌, ◌-ℤ◌, int_laws}
use lior_paris_wallet.Prelude.Rows.{mem-set_where}
use lior_paris_wallet.Prelude.Keys.{eq_of_key}
use lior_paris_wallet.Orm.{Orm}
use lior_paris_wallet.App.{App, Cache}
use lior_paris_wallet.Entities.{Db, Wallet}
use lior_paris_wallet.Ledger.{IsAuditedDb, wallet_id_of}
use lior_paris_wallet.Ledger.Posting.{set_balance}
use lior_paris_wallet.Transfers.Between.{between_outcome}
use lior_paris_wallet.Transfers.Safety.{initiate_cases}
use lior_paris_wallet.Transfers.Service.{InitiateTransferDto, TransferIds, initiate_transfer}

-- The wallet is among the rows, of the same user, and has lost nothing.
abbrev pub HasNotLost : Wallet → List Wallet → Type 0
HasNotLost w rows =
    (w' : Wallet) × Memᴰ w' rows
    × (w'.id ≡ w.id)
    × (w'.user_id ≡ w.user_id)
    × (w.balance ≤ℤ w'.balance)

pub kept_lem : (w : Wallet) (rows : List Wallet) → Memᴰ w rows → HasNotLost w rows
kept_lem w rows m = (w, m, refl, refl, omega arith)

-- A row with another id is left by a new balance.
pub untouched :
    (k : ℕ) (b : ℤ) (w : Wallet) (rows : List Wallet)
    → w.id ≢ k
    → Memᴰ w rows
    → Memᴰ w (set_balance k b rows)
untouched k b w rows apart m =
    let out : (w.id == k) ≡ false = ground arith in
    let t = mem-set_where (λ (v : Wallet). v.id == k) (λ v. record v { balance = b }) rows m in
    rw out at t

-- A row with the id has the new balance.
touched :
    (k : ℕ) (b : ℤ) (w : Wallet) (rows : List Wallet)
    → w.id ≡ k
    → Memᴰ w rows
    → Memᴰ (record w { balance = b }) (set_balance k b rows)
touched k b w rows same m =
    let hit : (w.id == k) ≡ true = ground arith in
    let t = mem-set_where (λ (v : Wallet). v.id == k) (λ v. record v { balance = b }) rows m in
    rw hit at t

-- Of two new balances, the first is of a wallet with another id, and the second is no less than the old.
moved-HasNotLost :
    (s r w : Wallet) (b amount : ℤ) (rows : List Wallet)
    → Memᴰ w rows
    → w.id ≢ s.id
    → (w.id ≡ r.id → w ≡ r)
    → pos 0 ≤ℤ amount
    → HasNotLost w (set_balance r.id (r.balance +ℤ amount) (set_balance s.id b rows))
moved-HasNotLost s r w b amount rows m apart one positive = elim (Bool-cases (w.id == r.id)) [
  | inl hit ↦
      let same : w ≡ r = one ((==_iff w.id r.id).0 hit) in
      let balance : w.balance ≡ r.balance = ap (λ (v : Wallet). v.balance) same in
      (
        record w { balance = r.balance +ℤ amount },
        touched r.id (r.balance +ℤ amount) w (set_balance s.id b rows) ((==_iff w.id r.id).0 hit)
            (untouched s.id b w rows apart m),
        refl,
        refl,
        subst (λ c. c ≤ℤ r.balance +ℤ amount) (sym balance) (omega int_laws),
      )
  | inr miss ↦ (
    w,
    untouched r.id (r.balance +ℤ amount) w (set_balance s.id b rows) (ground arith)
        (untouched s.id b w rows apart m),
    refl,
    refl,
    omega arith,
  )
]

-- A transfer request of a validated amount takes no money from the wallets of other users than its
-- sender.
pub initiate_transfer-HasNotLost :
    (orm : Orm) (cache : Cache) (ids : TransferIds) (from_user_id : ℕ) (email : String)
    (input : InitiateTransferDto) (app : App) (w : Wallet)
    → pos 1 ≤ℤ input.amount
    → IsAuditedDb app.db
    → Memᴰ w app.db.wallets
    → w.user_id ≢ from_user_id
    → HasNotLost w (initiate_transfer orm cache ids from_user_id email input app).1.db.wallets
initiate_transfer-HasNotLost orm cache ids from_user_id email input app w valid books m other =
    elim (initiate_cases orm cache ids from_user_id email input app) [
      | inl same ↦ rw same (kept_lem w app.db.wallets m)
      | inr r ↦
          elim (between_outcome orm cache ids from_user_id email input r.from_wallet r.to_wallet
            app) [
              | inl (x, thrown, left) ↦ elim left [
                | inl same ↦ rw (r.runs, same) (kept_lem w app.db.wallets m)
                | inr created ↦ rw (r.runs, created) (kept_lem w app.db.wallets m)
              ]
              | inr (done, moved) ↦
                  let move = moved.moved in
                  let apart : w.id ≢ move.sender.id = λ same.
                    let one =
                      eq_of_key wallet_id_of app.db.wallets books.wallet_ids m r.from_found
                        (same ∙ move.sender_named) in
                    other (ap (λ (v : Wallet). v.user_id) one ∙ r.from_owner) in
                  let one : w.id ≡ move.receiver.id → w ≡ move.receiver = λ same.
                    eq_of_key wallet_id_of app.db.wallets books.wallet_ids m move.receiver_found
                      same in
                  let there =
                    moved-HasNotLost move.sender move.receiver w
                      (move.sender.balance -ℤ input.amount) input.amount app.db.wallets m apart one
                      (omega arith) in
                  let rows = ap (λ (db : Db). db.wallets) move.result in rw (r.runs, rows) there
            ]
    ]
