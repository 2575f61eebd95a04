-- ===== src/Interleaving/Departures.antt =====
-- Deletions of users among the other requests (src/features/users/users.service.ts): a deletion takes the
-- user's wallets with it, whatever they hold, and leaves the ledger.
use lior_paris_wallet.Prelude.{
  ℕ, ◌≡◌, ◌≢◌, ◌∙◌, ◌++◌, ◌∷◌, ◌==◌, [], List, Bool, refl, ap, Memᴰ, inl, inr, Bool-cases, arith,
}
use lior_paris_wallet.Prelude.Int.{pos, ◌+ℤ◌, ◌≤ℤ◌, int_laws}
use lior_paris_wallet.Prelude.Rows.{HasUniqueKeys, filter_out, filter_out-mem, sum_of-snoc}
use lior_paris_wallet.Result.{Result, ok, err}
use lior_paris_wallet.Orm.{Orm}
use lior_paris_wallet.Orm.Laws.{insert_cases}
use lior_paris_wallet.Store.{save_wallet}
use lior_paris_wallet.Entities.{
  Db, Wallet, LedgerEntry, LedgerEntryType, Transaction, Transfer, OutboxEvent, UserRole,
  wallet_clash,
}
use lior_paris_wallet.Ledger.{
  IsAuditedDb, total_balance, deposited, deposit_amount, wallet_id_of, wallet_balance,
}
use lior_paris_wallet.Ledger.Opening.{open-IsAudited}
use lior_paris_wallet.Users.Service.{remove_user}
use lior_paris_wallet.Users.Permissions.{remove_user_outcome}
use lior_paris_wallet.Wallet.Settlement.{SettleOutcome, Settled, settle_outcome}
use lior_paris_wallet.Wallet.Booking.{Settled-IsAudited, total-Settled, deposit_entry}
use lior_paris_wallet.Transfers.Movement.{Moved, MoveOutcome, execute_outcome, debit, credit}
use lior_paris_wallet.Transfers.Conservation.{Moved-IsAudited, total-Moved}
use lior_paris_wallet.Interleaving.{Step, settle, execute, open_wallet, elsewhere}

-- The books are audited, and the wallets hold no more than was deposited.
abbrev pub IsBacked : Db → Type 0
IsBacked db = IsAuditedDb db × (total_balance db.wallets ≤ℤ deposited db.ledger)

filter_out-keys :
    {A K : Type 0} (key : A → K) (p : A → Bool) (xs : List A)
    → HasUniqueKeys key xs
    → HasUniqueKeys key (filter_out p xs)
filter_out-keys key p [] u = tt
filter_out-keys key p (x ∷ xs) u = elim (Bool-cases (p x)) [
  | inl out ↦ rw out (filter_out-keys key p xs u.1)
  | inr stays ↦ rw stays (λ b m. u.0 b (filter_out-mem p xs m).0, filter_out-keys key p xs u.1)
]

-- Wallets that are not overdrawn hold no less without some of them gone.
total-filter_out :
    (p : Wallet → Bool) (wallets : List Wallet)
    → ((w : Wallet) → Memᴰ w wallets → pos 0 ≤ℤ w.balance)
    → total_balance (filter_out p wallets) ≤ℤ total_balance wallets
total-filter_out p [] covered = omega arith
total-filter_out p (w ∷ wallets) covered =
    let rest = total-filter_out p wallets (λ v m. covered v (Memᴰ.tail m)) in
    let here = covered w (Memᴰ.head refl) in
    elim (Bool-cases (p w)) [
      | inl out ↦ rw out (omega (int_laws, rest, here))
      | inr stays ↦ rw stays (omega (int_laws, rest))
    ]

deleted-IsBacked :
    (p : Wallet → Bool) (db db' : Db)
    → db'.wallets ≡ filter_out p db.wallets
    → db'.ledger ≡ db.ledger
    → IsBacked db
    → IsBacked db'
deleted-IsBacked p db db' wallets ledger (books, backed) =
    let fewer = total-filter_out p db.wallets books.covered in
    rw (wallets, ledger)
      (
        record {
          wallet_ids = filter_out-keys wallet_id_of p db.wallets books.wallet_ids;
          balanced = λ w m. books.balanced w (filter_out-mem p db.wallets m).0;
          covered = λ w m. books.covered w (filter_out-mem p db.wallets m).0;
          keys = books.keys;
        },
        omega (int_laws, fewer, backed),
      )

Settled-IsBacked :
    (entry_id wallet_id : ℕ) (t : Transaction) {event : OutboxEvent} {db db' : Db}
    → Settled entry_id wallet_id t LedgerEntryType.deposit t.amount event db db'
    → IsBacked db
    → IsBacked db'
Settled-IsBacked entry_id wallet_id t {db} {db'} c (books, backed) =
    let total = total-Settled entry_id wallet_id t c books in
    let entry = deposit_entry entry_id wallet_id t c in
    let booked : deposited db'.ledger ≡ deposited db.ledger +ℤ t.amount =
      rw c.result (sum_of-snoc deposit_amount db.ledger entry) in
    (Settled-IsAudited entry_id wallet_id t c books, rw (total, booked) (omega (int_laws, backed)))

Moved-IsBacked :
    (debit_id credit_id : ℕ) (t : Transfer) (from_id to_id : ℕ) {event : OutboxEvent} {db db' : Db}
    → from_id ≢ to_id
    → pos 1 ≤ℤ t.amount
    → Moved debit_id credit_id t from_id to_id event db db'
    → IsBacked db
    → IsBacked db'
Moved-IsBacked debit_id credit_id t from_id to_id {db} {db'} apart valid m (books, backed) =
    let total = total-Moved debit_id credit_id t apart m books in
    let out = debit debit_id credit_id t from_id to_id m.sender in
    let back = credit debit_id credit_id t from_id to_id m.receiver in
    let booked : deposited db'.ledger ≡ deposited db.ledger = rw m.result (
      sum_of-snoc deposit_amount (db.ledger ++ out ∷ []) back
      ∙ rw (sum_of-snoc deposit_amount db.ledger out) (omega int_laws)) in
    (
      Moved-IsAudited debit_id credit_id t apart m books (omega arith),
      rw (total, booked) (omega (int_laws, backed)),
    )

settle-IsBacked :
    (entry_id wallet_id : ℕ) (t : Transaction) (event : OutboxEvent) (db : Db)
    (r : Result LedgerEntry × Db)
    → SettleOutcome entry_id wallet_id t LedgerEntryType.deposit t.amount event db r
    → IsBacked db
    → IsBacked r.1
settle-IsBacked entry_id wallet_id t event db (ok e, db') done backed =
    Settled-IsBacked entry_id wallet_id t done backed
settle-IsBacked entry_id wallet_id t event db (err x, db') same backed = rw same backed

execute-IsBacked :
    (debit_id credit_id : ℕ) (t : Transfer) (from_id to_id : ℕ) (event : OutboxEvent) (db : Db)
    (r : Result Unit × Db)
    → from_id ≢ to_id
    → pos 1 ≤ℤ t.amount
    → MoveOutcome debit_id credit_id t from_id to_id event db r
    → IsBacked db
    → IsBacked r.1
execute-IsBacked debit_id credit_id t from_id to_id event db (ok u, db') apart valid m backed =
    Moved-IsBacked debit_id credit_id t from_id to_id apart valid m backed
execute-IsBacked debit_id credit_id t from_id to_id event db (err x, db') apart valid same backed =
    rw same backed

module _ (orm : Orm) where
  open-IsBacked :
      (w : Wallet) (db : Db)
      → w.balance ≡ pos 0
      → ((e : LedgerEntry) → Memᴰ e db.ledger → e.wallet_id ≢ w.id)
      → IsBacked db
      → IsBacked (save_wallet orm w db).1
  open-IsBacked w db empty unnamed (books, backed) =
      elim (insert_cases orm wallet_clash w db.wallets) [
        | inl taken ↦ rw taken (books, backed)
        | inr (free, saved) ↦ rw saved (
          open-IsAudited w db.wallets db.ledger empty unnamed free books,
          rw (sum_of-snoc wallet_balance db.wallets w, empty) (omega (int_laws, backed)),
        )
      ]

  Step-IsBacked : {db db' : Db} → Step orm db db' → IsBacked db → IsBacked db'
  Step-IsBacked {db} (settle entry_id wallet_id t event) backed =
      settle-IsBacked entry_id wallet_id t event db _
        (settle_outcome entry_id wallet_id t LedgerEntryType.deposit t.amount orm event db) backed
  Step-IsBacked {db} (execute debit_id credit_id t from_id to_id event apart valid) backed =
      execute-IsBacked debit_id credit_id t from_id to_id event db _ apart valid
        (execute_outcome debit_id credit_id t from_id to_id orm event db) backed
  Step-IsBacked {db} (open_wallet w empty unnamed) backed = open-IsBacked w db empty unnamed backed
  Step-IsBacked (elsewhere wallets ledger) (books, backed) =
      (rw (wallets, ledger) books, rw (wallets, ledger) backed)

  remove_user-IsBacked :
      (requester target : ℕ) (role : UserRole) (db : Db)
      → IsBacked db
      → IsBacked (remove_user orm requester target role db).1
  remove_user-IsBacked requester target role db backed =
      elim (remove_user_outcome orm requester target role db) [
        | inl (same, refused) ↦ rw same backed
        | inr (admin, other, done) ↦
            let after = ap (λ (r : Result Unit × Db). r.1) done in
            rw after (
              deleted-IsBacked (λ w. w.user_id == target) db
                (record db {
                  users = filter_out (λ u. u.id == target) db.users;
                  wallets = filter_out (λ w. w.user_id == target) db.wallets;
                })
                refl refl backed)
      ]

  -- Steps and deletions, of any requests, in any order.
  pub data History (db : Db) : Db → Type 0 where
    start : History db db
    then_step : {db' db'' : Db} → History db db' → Step orm db' db'' → History db db''
    then_deletion :
        {db' : Db} (requester target : ℕ) (role : UserRole)
        → History db db'
        → History db (remove_user orm requester target role db').1

  -- However the writes of requests and the deletions of users interleave: the balance of every wallet that
  -- is left is what the ledger says and not negative, no key is booked twice, and the wallets hold no more
  -- than what was deposited.
  pub History-IsBacked :
      {db db' : Db}
      → History db db'
      → IsAuditedDb db
      → total_balance db.wallets ≤ℤ deposited db.ledger
      → IsAuditedDb db' × (total_balance db'.wallets ≤ℤ deposited db'.ledger)
  History-IsBacked start books backed = (books, backed)
  History-IsBacked (then_step before step) books backed =
      Step-IsBacked step (History-IsBacked before books backed)
  History-IsBacked (then_deletion {db'} requester target role before) books backed =
      remove_user-IsBacked requester target role db' (History-IsBacked before books backed)
