-- ===== src/Examples/Overlaps.antt =====
-- A read that a transfer overtakes (src/features/wallet/wallet.service.ts).
use lior_paris_wallet.Prelude.{refl, [], ◌∷◌, Memᴰ}
use lior_paris_wallet.Prelude.Int.{pos, ◌+ℤ◌, ◌-ℤ◌}
use lior_paris_wallet.Orm.Memory.{memory}
use lior_paris_wallet.App.Memory.{memory_cache}
use lior_paris_wallet.Entities.{ledger_clash, transfer_clash, outbox_clash}
use lior_paris_wallet.Users.Repository.{find_user_by_id}
use lior_paris_wallet.Wallet.Repository.{find_by_user_id_and_currency, find_by_wallet_tag}
use lior_paris_wallet.Wallet.Service.{balance_key, invalidate_balance_cache}
use lior_paris_wallet.Wallet.Overlaps.{Server, Turns}
use lior_paris_wallet.Transfers.Repository.{
  find_by_idempotency_key, create_transfer, execute_transfer, execute_body,
}
use lior_paris_wallet.Transfers.Service.{initiate_transfer, transfer_between, transfer_event}
use lior_paris_wallet.Examples.Data.{ada_wallet, app, db, transfer_ids, request}

abbrev idle : Server
idle = record { app = app; reading = [] }

abbrev reading : Server
reading = record {
  app = app;
  reading = record { key = balance_key 1 "EUR"; wallet = ada_wallet } ∷ [];
}

abbrev overtaken : Server
overtaken = record reading {
  app = (initiate_transfer memory memory_cache transfer_ids 1 "ada@x.io" request app).1;
}

abbrev late : Server
late = record {
  app = record overtaken.app {
    cache = memory_cache.set (balance_key 1 "EUR") ada_wallet overtaken.app.cache;
  };
  reading = [];
}

new_balance : Memᴰ (record ada_wallet { balance = pos 300 }) late.app.db.wallets
unfolding initiate_transfer find_by_wallet_tag find_by_idempotency_key transfer_between
    find_by_user_id_and_currency find_user_by_id create_transfer execute_transfer execute_body
    transfer_event invalidate_balance_cache transfer_clash ledger_clash outbox_clash ◌+ℤ◌ ◌-ℤ◌
new_balance = Memᴰ.head refl
