-- ===== src/Examples/Pages.antt =====
-- Requests that read users.
use lior_paris_wallet.Prelude.{◌≡◌, ◌⊎◌, ◌<◌, ◌≤◌, refl, none, some, [], ◌∷◌, arith}
use lior_paris_wallet.Prelude.Int.{pos, ◌+ℤ◌, ◌-ℤ◌}
use lior_paris_wallet.Result.{ok}
use lior_paris_wallet.Orm.Memory.{memory}
use lior_paris_wallet.Users.Repository.{find_user_by_id_with_wallets}
use lior_paris_wallet.Users.Service.{find_user, map_result}
use lior_paris_wallet.Users.Controller.{PageLink, page_links, total_pages}
use lior_paris_wallet.Users.Pages.{Follows, Shows, pages_reached}
use lior_paris_wallet.Examples.Data.{ada_wallet, ada, db}

-- The second page of one user each has a link back, and no further.
second_page_links :
    page_links (pos 2) (pos 1) (total_pages 2 (pos 1))
    ≡ record { prev = some (record { page = pos 1; limit = pos 1 }); next = none }
unfolding page_links total_pages ◌+ℤ◌ ◌-ℤ◌
second_page_links = refl

pages_reached_example :
    let link : PageLink = record { page = pos 2; limit = pos 1 } in
    Follows memory db (record { page = pos 1; limit = pos 1 }) link
    × (((2 < 2) × Shows memory db link 1 (some (record { page = pos 3; limit = pos 1 })))
        ⊎ ((2 ≤ 2) × Shows memory db link 1 none))
pages_reached_example = pages_reached memory db 1 1 (omega arith) (omega arith) (omega arith)

ada_has_a_wallet : find_user memory 1 db ≡ (ok (map_result ada (some (ada_wallet ∷ [])) none), db)
unfolding find_user find_user_by_id_with_wallets
ada_has_a_wallet = refl
