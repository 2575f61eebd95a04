-- ===== src/Examples/Data.antt =====
-- A small state: two users with a wallet each, a deposit that has been credited and one that is
-- pending.
use lior_paris_wallet.Prelude.{none, some, [], ◌∷◌}
use lior_paris_wallet.Prelude.Int.{pos}
use lior_paris_wallet.Entities.{
  OutboxEvent, deposit_succeeded, of_deposit, Db, Users, UserRole, Wallet, LedgerEntry,
  LedgerEntryType, Transaction, TransactionStatus,
}
use lior_paris_wallet.App.{App}
use lior_paris_wallet.Wallet.Service.{SettleIds}
use lior_paris_wallet.Transfers.Service.{TransferIds, InitiateTransferDto}

abbrev pub ada : Users
ada = record {
  id = 1;
  name = "Ada";
  email = "ada@x.io";
  password = "#1";
  role = UserRole.user;
  created_at = 0;
  updated_at = 0;
}

abbrev pub bob : Users
bob = record {
  id = 2;
  name = "Bob";
  email = "bob@x.io";
  password = "#2";
  role = UserRole.admin;
  created_at = 0;
  updated_at = 0;
}

abbrev pub ada_wallet : Wallet
ada_wallet = record {
  id = 11;
  user_id = 1;
  balance = pos 500;
  currency = "EUR";
  wallet_tag = "ada-0001";
}

abbrev pub bob_wallet : Wallet
bob_wallet = record {
  id = 12;
  user_id = 2;
  balance = pos 0;
  currency = "EUR";
  wallet_tag = "bob-0002";
}

abbrev pub first_deposit : Transaction
first_deposit = record {
  id = 21;
  user_id = 1;
  amount = pos 500;
  currency = "EUR";
  payment_method = "stripe";
  status = TransactionStatus.completed;
  idempotency_key = "d1";
  provider_ref = some "cs_1";
  failure_reason = none;
}

abbrev pub second_deposit : Transaction
second_deposit = record {
  id = 22;
  user_id = 2;
  amount = pos 70;
  currency = "EUR";
  payment_method = "stripe";
  status = TransactionStatus.pending;
  idempotency_key = "d2";
  provider_ref = some "cs_2";
  failure_reason = none;
}

abbrev pub first_entry : LedgerEntry
first_entry = record {
  id = 31;
  wallet_id = 11;
  type = LedgerEntryType.deposit;
  amount = pos 500;
  currency = "EUR";
  balance_after = pos 500;
  idempotency_key = "d1";
}

abbrev pub first_event : OutboxEvent
first_event = record {
  id = 41;
  created_at = 1000;
  event_name = deposit_succeeded;
  aggregate_id = 11;
  payload_json = of_deposit (record {
    user_id = 1;
    wallet_id = 11;
    amount = pos 500;
    currency = "EUR";
    user_email = some "ada@x.io";
  });
  occurred_at = 1000;
  processed_at = none;
  retry_count = 0;
}

abbrev pub db : Db
db = record {
  users = ada ∷ bob ∷ [];
  wallets = ada_wallet ∷ bob_wallet ∷ [];
  transactions = first_deposit ∷ second_deposit ∷ [];
  transfers = [];
  ledger = first_entry ∷ [];
  outbox = [];
}

abbrev pub app : App
app = record { db = db; cache = [] }

abbrev pub settle_ids : SettleIds
settle_ids = record { entry_id = 32; event_id = 41; now = 1000 }

abbrev pub later_ids : SettleIds
later_ids = record { entry_id = 33; event_id = 42; now = 2000 }

abbrev pub transfer_ids : TransferIds
transfer_ids = record { transfer_id = 51; debit_id = 34; credit_id = 35; event_id = 43; now = 3000 }

abbrev pub request : InitiateTransferDto
request = record {
  to_wallet_tag = "bob-0002";
  amount = pos 200;
  currency = "EUR";
  idempotency_key = "t1";
}
