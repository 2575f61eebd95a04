-- ===== src/Examples/Served.antt =====
-- A request for a transfer, from its arrival to its answer, and a read after a transfer.
use mathlib.Core.List.Memᴰ
use lior_paris_wallet.Prelude.{◌≡◌, ◌⊎◌, refl, some, arith}
use lior_paris_wallet.Orm.Memory.{memory}
use lior_paris_wallet.App.Memory.{memory_cache}
use lior_paris_wallet.Entities.{Wallet, ledger_clash, transfer_clash, outbox_clash}
use lior_paris_wallet.Users.Repository.{find_user_by_id}
use lior_paris_wallet.Wallet.Repository.{find_by_user_id_and_currency, find_by_wallet_tag}
use lior_paris_wallet.Wallet.Service.{balance_key, get_balance, invalidate_balance_cache}
use lior_paris_wallet.Wallet.Coherence.{IsCurrent}
use lior_paris_wallet.Wallet.Reads.{start, then_transfer, get_balance-IsCurrent}
use lior_paris_wallet.Transfers.Repository.{
  find_by_idempotency_key, create_transfer, execute_transfer, execute_body,
}
use lior_paris_wallet.Transfers.Service.{initiate_transfer, transfer_between, transfer_event}
use lior_paris_wallet.App.{App}
use lior_paris_wallet.Prelude.Int.{pos, ◌+ℤ◌, ◌-ℤ◌}
use lior_paris_wallet.Result.{ok}
use lior_paris_wallet.Transfers.Ownership.{HasNotLost}
use lior_paris_wallet.Http.Guards.{HttpRequest}
use lior_paris_wallet.Http.Serving.{serve_transfer}
use lior_paris_wallet.Http.Authority.{IsFrom, serve_transfer-HasNotLost}
use lior_paris_wallet.Examples.Data.{ada_wallet, app, bob_wallet, transfer_ids, request}
use lior_paris_wallet.Examples.Money.{db-IsAudited}
use lior_paris_wallet.Examples.Requests.{plain_argon, signing}
use lior_paris_wallet.Examples.Http.{passport_of}

abbrev post_request : HttpRequest
post_request = record {
  method = some "post";
  content_type = some "application/vnd.api+json; charset=utf-8";
  authorization = some "Bearer t";
}

-- Ada sends money to Bob.
serve_transfer-HasNotLost_example :
    HasNotLost bob_wallet
      (serve_transfer memory plain_argon signing
        (passport_of "ada@x.io")
        memory_cache
        transfer_ids
        post_request
        request
        app).1.db.wallets
    ⊎ IsFrom (passport_of "ada@x.io") post_request app 2
serve_transfer-HasNotLost_example =
    serve_transfer-HasNotLost memory plain_argon signing (passport_of "ada@x.io") memory_cache
      transfer_ids post_request request app bob_wallet (omega arith) db-IsAudited
      (Memᴰ.tail (Memᴰ.head refl))

abbrev after : App
after = (initiate_transfer memory memory_cache transfer_ids 1 "ada@x.io" request app).1

abbrev poorer : Wallet
poorer = record ada_wallet { balance = pos 300 }

ada_reads : (get_balance memory memory_cache 1 "EUR" after).0 ≡ ok poorer
unfolding initiate_transfer find_by_wallet_tag find_by_idempotency_key transfer_between
    find_by_user_id_and_currency find_user_by_id create_transfer execute_transfer execute_body
    transfer_event invalidate_balance_cache transfer_clash ledger_clash outbox_clash ◌+ℤ◌ ◌-ℤ◌
    get_balance
ada_reads = refl

get_balance-IsCurrent_example : IsCurrent after (balance_key 1 "EUR") poorer
get_balance-IsCurrent_example =
    get_balance-IsCurrent memory memory_cache 1 "EUR" poorer
      (then_transfer transfer_ids 1 "ada@x.io" request (omega arith) start) db-IsAudited
      (λ e m. absurd (Memᴰ.not-nil m)) ada_reads
