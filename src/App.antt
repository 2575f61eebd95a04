-- ===== src/App.antt =====
-- The state that the services share: the database and the balance cache. The cache is that of
-- cache-manager, which the repository does not contain: an interface with its documented behaviour.
pub mod Memory
use lior_paris_wallet.Prelude.{ℕ, String, ◌≡◌, ◌≢◌, ◌⊎◌, Option, some, List, Memᴰ}
use lior_paris_wallet.Result.{Action, ok}
use lior_paris_wallet.Entities.{Db, Wallet}

-- The key `wallet:balance:${userId}:${currency}`; a uuid holds no colon, so the text says both.
pub record BalanceKey : Type 0 where
  pub user_id : ℕ
  pub currency : String

pub record CacheEntry : Type 0 where
  pub key : BalanceKey
  pub wallet : Wallet

-- `get` may miss at any time, since entries expire.
pub record Cache : Type 0 where
  pub get : BalanceKey → List CacheEntry → Option Wallet
  pub get_lem :
      (k : BalanceKey) (c : List CacheEntry) {w : Wallet}
      → get k c ≡ some w
      → Memᴰ (record { key = k; wallet = w }) c
  pub set : BalanceKey → Wallet → List CacheEntry → List CacheEntry
  pub set_lem :
      (k : BalanceKey) (w : Wallet) (c : List CacheEntry) {e : CacheEntry}
      → Memᴰ e (set k w c)
      → (e ≡ record { key = k; wallet = w }) ⊎ Memᴰ e c
  pub del : BalanceKey → List CacheEntry → List CacheEntry
  pub del_lem :
      (k : BalanceKey) (c : List CacheEntry) {e : CacheEntry}
      → Memᴰ e (del k c)
      → Memᴰ e c × (e.key ≢ k)

pub record App : Type 0 where
  pub db : Db
  pub cache : List CacheEntry

abbrev pub on_db : {A : Type 0} → Action Db A → Action App A
on_db m app = let (r, db') = m app.db in (r, record app { db = db' })

abbrev pub on_cache : (List CacheEntry → List CacheEntry) → Action App Unit
on_cache f app = (ok tt, record app { cache = f app.cache })
