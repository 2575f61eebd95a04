-- ===== src/Wallet/Controller.antt =====
-- src/features/wallet/wallet.controller.ts and src/features/transfers/transfers.controller.ts. What the
-- guard of tokens has set of the requester is an argument; so are the suffix of a new wallet's tag and
-- the new rows' uuids.
use lior_paris_wallet.Prelude.{ℕ, String, Option, none, some}
use lior_paris_wallet.Prelude.Int.{ℤ}
use lior_paris_wallet.Prelude.Texts.{to_upper_case}
use lior_paris_wallet.Result.{Action, pure, ◌>>=◌, ◌>>◌}
use lior_paris_wallet.Orm.{Orm}
use lior_paris_wallet.App.{App, Cache}
use lior_paris_wallet.Entities.{Wallet}
use lior_paris_wallet.Payments.{Registry}
use lior_paris_wallet.Http.JsonApi.{JsonApiResource, JsonApiDocument, json_api_data, json_api_meta}
use lior_paris_wallet.Wallet.Tag.{generate_wallet_tag}
use lior_paris_wallet.Wallet.Service.{DepositDto, truthy, create_wallet, get_balance, deposit}
use lior_paris_wallet.Transfers.Service.{TransferIds, InitiateTransferDto, initiate_transfer}

pub record WalletAttributes : Type 0 where
  pub balance : ℤ
  pub currency : String
  pub wallet_tag : String

abbrev pub wallet_resource : Wallet → JsonApiResource WalletAttributes
wallet_resource wallet = record {
  type = "wallets";
  id = wallet.id;
  attributes = record {
    balance = wallet.balance;
    currency = wallet.currency;
    wallet_tag = wallet.wallet_tag;
  };
}

abbrev pub WalletDocument : Type 0
WalletDocument = JsonApiDocument (JsonApiResource WalletAttributes) Unit Unit

-- `meta` of an answer without data.
pub record Receipt : Type 0 where
  pub message : String
  pub checkout_url : Option String

abbrev pub ReceiptDocument : Type 0
ReceiptDocument = JsonApiDocument Unit Receipt Unit

abbrev pub deposit_receipt : Option String → Receipt
deposit_receipt none = record { message = "Deposit accepted"; checkout_url = none }
deposit_receipt (some url) = record {
  message = "Deposit initiated — complete payment via checkout URL";
  checkout_url = some url;
}

module _ (orm : Orm) (cache : Cache) where
  unfoldable pub post_wallet :
      (id user_id : ℕ) → (user_name suffix currency : String) → Action App WalletDocument
  post_wallet id user_id user_name suffix currency = do
    wallet ← create_wallet orm cache id user_id currency (generate_wallet_tag user_name suffix)
    pure (json_api_data (wallet_resource wallet) none none)

  unfoldable pub get_wallet_balance :
      (user_id : ℕ) → (currency : String) → Action App WalletDocument
  get_wallet_balance user_id currency = do
    wallet ← get_balance orm cache user_id (to_upper_case currency)
    pure (json_api_data (wallet_resource wallet) none none)

  unfoldable pub post_deposit :
      Registry → (id user_id : ℕ) → DepositDto → Action App ReceiptDocument
  post_deposit registry id user_id input = do
    checkout_url ← deposit orm cache registry id user_id input
    pure (json_api_meta (deposit_receipt (truthy checkout_url)))

  unfoldable pub post_transfer :
      TransferIds
      → (user_id : ℕ) → (email : String) → InitiateTransferDto
      → Action App ReceiptDocument
  post_transfer ids user_id email input = do
    initiate_transfer orm cache ids user_id email input
    pure (json_api_meta (record { message = "Transfer accepted"; checkout_url = none }))
