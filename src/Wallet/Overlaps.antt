-- ===== src/Wallet/Overlaps.antt =====
-- Reads of balances that overlap with other requests (src/features/wallet/wallet.service.ts). A read
-- that misses the cache awaits the row and then puts it there; between the three, and between a write of
-- another request and its eviction, anything else may happen. What the cache has when the row is found is
-- left open, since the miss may lie back.
use lior_paris_wallet.Prelude.{ℕ, String, ◌≡◌, ◌⊎◌, some, Memᴰ, List, ◌∷◌, ◌++◌}
use mathlib.Core.List.Memᴰ
use lior_paris_wallet.Result.{Result, ok}
use lior_paris_wallet.Orm.{Orm}
use lior_paris_wallet.App.{App, Cache, CacheEntry, BalanceKey}
use lior_paris_wallet.Entities.{Db, Wallet}
use lior_paris_wallet.Wallet.Repository.{find_by_user_id_and_currency}
use lior_paris_wallet.Wallet.Service.{balance_key, get_balance, invalidate_balance_cache}
use lior_paris_wallet.Interleaving.{Step, Reach}

-- The tables and the cache, and what reads that have missed have found and not yet put there.
pub record Server : Type 0 where
  pub app : App
  pub reading : List CacheEntry

module _ (orm : Orm) (cache : Cache) where
  pub data Turn (s : Server) : Server → Type 0 where
    -- `findByUserIdAndCurrency` of a `getBalance` that has missed the cache, then or earlier
    found :
        (user_id : ℕ) (currency : String) (w : Wallet)
        → find_by_user_id_and_currency orm user_id currency s.app.db ≡ (ok (some w), s.app.db)
        → Turn s (record s {
          reading = record { key = balance_key user_id currency; wallet = w } ∷ s.reading;
        })
    -- `getBalance` from there on
    stored :
        (before after : List CacheEntry) (e : CacheEntry)
        → s.reading ≡ before ++ e ∷ after
        → Turn s (record {
          app = record s.app { cache = cache.set e.key e.wallet s.app.cache };
          reading = before ++ after;
        })
    -- a write to the tables, as of a settlement or a transfer
    wrote : {db : Db} → Step orm s.app.db db → Turn s (record s { app = record s.app { db = db } })
    -- the eviction after it
    evicted :
        (user_id : ℕ) (currency : String)
        → Turn s (record s { app = (invalidate_balance_cache orm cache user_id currency s.app).1 })

  pub data Turns (s : Server) : Server → Type 0 where
    start : Turns s s
    later : {t u : Server} → Turns s t → Turn t u → Turns s u

  -- A row of the tables of the one that the key asks for.
  abbrev pub IsRow : Db → BalanceKey → Wallet → Type 0
  IsRow db key w = Memᴰ w db.wallets × (w.user_id ≡ key.user_id) × (w.currency ≡ key.currency)

  -- The tables have had the row since they were `first`, though they may have changed since.
  abbrev pub WasRow : (first now : Db) → BalanceKey → Wallet → Type 0
  WasRow first now key w = (db : Db) × Reach orm first db × Reach orm db now × IsRow db key w

  abbrev AllWere : (first now : Db) → List CacheEntry → Type 0
  AllWere first now entries = (e : CacheEntry) → Memᴰ e entries → WasRow first now e.key e.wallet

  abbrev HasBeen : Db → Server → Type 0
  HasBeen first s =
      Reach orm first s.app.db
      × AllWere first s.app.db s.app.cache
      × AllWere first s.app.db s.reading

  -- What a read answers: one that runs now, or one that has found its row earlier.
  abbrev pub IsAnswer : Server → ℕ → String → Wallet → Type 0
  IsAnswer s user_id currency w =
      ((get_balance orm cache user_id currency s.app).0 ≡ ok w)
      ⊎ Memᴰ (record { key = balance_key user_id currency; wallet = w }) s.reading
