-- ===== src/Users/Pages.antt =====
-- The pages of all users (src/features/users/users.controller.ts): what the links lead to.
use Prim.Native.Nat.{◌/◌, ◌*◌, ◌-◌}
use native.Mathlib.Nat.{le-div_iff_mul-le, div-lt_iff_lt-mul}
use lior_paris_wallet.Prelude.{
  ℕ, zero, suc, ◌+◌, ◌≤◌, ◌<◌, ◌≡◌, refl, ap, inl, inr, none, some, ltb, Bool-cases, ◌⊎◌, ◌∙◌,
  Option, List, [], ◌∷◌, map, Memᴰ, arith,
}
use mathlib.Core.List.Memᴰ
use lior_paris_wallet.Prelude.Rows.{length}
use lior_paris_wallet.Prelude.Int.{ℤ, pos, ◌+ℤ◌}
use lior_paris_wallet.Result.{ok}
use lior_paris_wallet.Orm.{Orm}
use lior_paris_wallet.Http.JsonApi.{JsonApiResource, json_api_data}
use lior_paris_wallet.Entities.{Db, Users}
use lior_paris_wallet.Users.Repository.{summary, find_all}
use lior_paris_wallet.Users.Service.{all_users}
use lior_paris_wallet.Users.Controller.{
  UsersDocument, PageLink, get_users, summary_resource, UserAttributes, PageLinks, pagination_query,
  total_pages, page_links,
}

length-map : {A B : Type 0} (f : A → B) (xs : List A) → length (map f xs) ≡ length xs
length-map f [] = refl
length-map f (x ∷ xs) = ap suc (length-map f xs)

mem-map :
    {A B : Type 0} (f : A → B) (xs : List A) {b : B}
    → Memᴰ b (map f xs)
    → (a : A) × Memᴰ a xs × (b ≡ f a)
mem-map f [] m = absurd (Memᴰ.not-nil m)
mem-map f (x ∷ xs) m = elim (Memᴰ.cases_cons m) [
  | inl e ↦ (x, Memᴰ.head refl, e)
  | inr t ↦ let (a, n, same) = mem-map f xs t in (a, Memᴰ.tail n, same)
]

-- The document of a page: its rows, and where its links lead.
abbrev pub document : Orm → Db → PageLink → UsersDocument
document orm db link =
    let query = pagination_query link.page link.limit in
    let rows = (orm.find_and_count ((query.page - 1) * query.limit) query.limit db.users).0 in
    let total = length db.users in
    let pages = total_pages total link.limit in
    json_api_data (map summary_resource (map summary rows))
      (some (record { total = total; pages = pages }))
      (some (page_links link.page link.limit pages))

module _ (orm : Orm) (db : Db) where
  get_users_lem :
      (page limit : ℤ)
      → get_users orm (some page) (some limit) db
        ≡ (ok (document orm db (record { page = page; limit = limit })), db)
  unfolding get_users all_users find_all
  get_users_lem page limit =
      let query = pagination_query page limit in
      rw (orm.find_and_count-total ((query.page - 1) * query.limit) query.limit db.users) refl

  -- The page of the link answers with the document.
  abbrev pub Answers : PageLink → UsersDocument → Type 0
  Answers link doc = get_users orm (some link.page) (some link.limit) db ≡ (ok doc, db)

  -- The page of the link shows a number of rows, each of a user of the table, and links to a next page or none.
  abbrev pub Shows : PageLink → ℕ → Option PageLink → Type 0
  Shows link count next =
      (doc : UsersDocument) × Answers link doc
      × (rows : List (JsonApiResource UserAttributes)) × (doc.content ≡ some rows)
      × (length rows ≡ count)
      × ((row : JsonApiResource UserAttributes)
          → Memᴰ row rows
          → (u : Users) × Memᴰ u db.users × (row ≡ summary_resource (summary u)))
      × (links : PageLinks) × (doc.links ≡ some links)
      × (links.next ≡ next)

  -- The second link is what one comes to from the first by links `next`.
  pub data Follows (first : PageLink) : PageLink → Type 0 where
    here : Follows first first
    onward :
        {link next : PageLink} {doc : UsersDocument} {links : PageLinks}
        → Follows first link
        → Answers link doc
        → doc.links ≡ some links
        → links.next ≡ some next
        → Follows first next

-- A page that starts before the end is one of the pages that are counted.
page_before_end : (total q n : ℕ) → q * suc n < total → suc q ≤ (total + n) / suc n
page_before_end total q n h =
    (le-div_iff_mul-le {k = suc n} {x = suc q} {y = total + n} (omega arith)).1 (omega arith)

-- One that ends at the end or after it is the last.
page_at_end : (total q n : ℕ) → total ≤ suc q * suc n → (total + n) / suc n < suc (suc q)
page_at_end total q n h =
    (div-lt_iff_lt-mul {k = suc n} {x = total + n} {y = suc (suc q)} (omega arith)).1 (omega arith)

module _ (orm : Orm) (db : Db) (n : ℕ) (small : suc n ≤ 100) where
  abbrev link_of : ℕ → PageLink
  link_of q = record { page = pos (suc q); limit = pos (suc n) }

  -- A page that another row follows leads to the next page.
  next_lem :
      (q : ℕ)
      → suc q * suc n < length db.users
      → (page_links (pos (suc q)) (pos (suc n)) (total_pages (length db.users) (pos (suc n)))).next
        ≡ some (link_of (suc q))
  unfolding page_links total_pages ◌+ℤ◌
  next_lem q h = let late = page_before_end (length db.users) (suc q) n h in ground arith

  last_lem :
      (q : ℕ)
      → length db.users ≤ suc q * suc n
      → (page_links (pos (suc q)) (pos (suc n)) (total_pages (length db.users) (pos (suc n)))).next
        ≡ none
  unfolding page_links total_pages ◌+ℤ◌
  last_lem q h = let last = page_at_end (length db.users) q n h in ground arith

  -- Every page that starts before the end is come to from the first.
  follow : (q : ℕ) → q * suc n < length db.users → Follows orm db (link_of 0) (link_of q)
  unfolding page_links total_pages
  follow zero h = here
  follow (suc q) h =
      onward (follow q (omega arith)) (get_users_lem orm db (pos (suc q)) (pos (suc n))) refl
        (next_lem q h)

  query_lem :
      (q : ℕ)
      → pagination_query (pos (suc q)) (pos (suc n)) ≡ record { page = suc q; limit = suc n }
  unfolding pagination_query
  query_lem q = ground arith

  abbrev rows_of : ℕ → List Users
  rows_of q = (orm.find_and_count (q * suc n) (suc n) db.users).0

  shows_lem :
      (q : ℕ) (next : Option PageLink)
      → (page_links (pos (suc q)) (pos (suc n)) (total_pages (length db.users) (pos (suc n)))).next
        ≡ next
      → Shows orm db (link_of q) (length (rows_of q)) next
  shows_lem q next to = (
    document orm db (link_of q),
    get_users_lem orm db (pos (suc q)) (pos (suc n)),
    map summary_resource (map summary (rows_of q)),
    rw (query_lem q) (let back : suc q - 1 ≡ q = omega arith in rw back refl),
    length-map summary_resource (map summary (rows_of q)) ∙ length-map summary (rows_of q),
    λ row m.
        let (s, k, is) = mem-map summary_resource (map summary (rows_of q)) m in
        let (u, j, was) = mem-map summary (rows_of q) k in
        (u, orm.find_and_count-mem (q * suc n) (suc n) db.users j, is ∙ ap summary_resource was),
    _,
    refl,
    to,
  )

-- With a limit from 1 to 100, whoever starts at page 1 and goes on by the links `next` comes to every page
-- that starts before the end of the table, if the table does not change. Every row that such a page shows is
-- of a user of the table. A page before the last shows as many rows as the limit and leads to the next one;
-- the last shows those that the table has beyond the pages before it, and leads nowhere. Which users a page
-- shows is not said: the query gives no order.
pub pages_reached :
    (orm : Orm) (db : Db) (limit q : ℕ)
    → 1 ≤ limit
    → limit ≤ 100
    → q * limit < length db.users
    → let link : PageLink = record { page = pos (suc q); limit = pos limit } in
      let total = length db.users in
      Follows orm db (record { page = pos 1; limit = pos limit }) link
      × (((suc q * limit < total)
            × Shows orm db link limit
                (some (record { page = pos (suc (suc q)); limit = pos limit })))
          ⊎ ((total ≤ suc q * limit) × Shows orm db link (total - q * limit) none))
pages_reached orm db zero q low high before = absurd (omega arith)
pages_reached orm db (suc n) q low high before =
    let size = orm.find_and_count-length (q * suc n) (suc n) db.users in
    (
      follow orm db n high q before,
      elim (Bool-cases (ltb (suc q * suc n) (length db.users))) [
        | inl more ↦
            let on : suc q * suc n < length db.users = ground (arith, more) in
            let full : length (rows_of orm db n high q) ≡ suc n = ground (arith, size, on) in
            inl (on, rw full at (shows_lem orm db n high q _ (next_lem orm db n high q on)))
        | inr no_more ↦
            let end : length db.users ≤ suc q * suc n = ground (arith, no_more) in
            let rest : length (rows_of orm db n high q) ≡ length db.users - q * suc n =
              ground (arith, size, end) in
            inr (end, rw rest at (shows_lem orm db n high q _ (last_lem orm db n high q end)))
      ],
    )

-- What a page with a limit over 100 shows, if the table is not longer than the limit: at most 100
-- rows, and no link to the others.
first_page_hides :
    (orm : Orm) (db : Db) (limit : ℕ)
    → 100 ≤ limit
    → length db.users ≤ limit
    → let link : PageLink = record { page = pos 1; limit = pos limit } in
      (doc : UsersDocument) × Answers orm db link doc
      × (rows : List (JsonApiResource UserAttributes)) × (doc.content ≡ some rows)
      × (length rows ≤ 100)
      × (links : PageLinks) × (doc.links ≡ some links)
      × (links.next ≡ none)
unfolding page_links total_pages pagination_query
first_page_hides orm db zero big short = absurd (omega arith)
first_page_hides orm db (suc n) big short =
    let link : PageLink = record { page = pos 1; limit = pos (suc n) } in
    let query = pagination_query link.page link.limit in
    let users = (orm.find_and_count ((query.page - 1) * query.limit) query.limit db.users).0 in
    let once =
      (div-lt_iff_lt-mul {k = suc n} {x = length db.users + n} {y = 2} (omega arith)).1
        (omega arith) in
    let few = orm.find_and_count-length ((query.page - 1) * query.limit) query.limit db.users in
    (
      document orm db link,
      get_users_lem orm db (pos 1) (pos (suc n)),
      _,
      refl,
      (let a = length-map summary_resource (map summary users) in
          let b = length-map summary users in ground arith),
      _,
      refl,
      ground arith,
    )
