-- ===== src/Users/Controller.antt =====
-- src/features/users/users.controller.ts and dto/paginationQuery.input.ts. What the guards have let in
-- is the requester's id and role. A number of a query is an integer; `none` is a number that is left
-- out or not a number. Links are given by the two numbers that they print.
use Prim.Native.Nat.{◌/◌, max, min}
use lior_paris_wallet.Prelude.{
  ℕ, zero, suc, ◌+◌, String, Bool, true, false, ◌==◌, Option, none, some, List, map, if◌then◌else◌,
}
use lior_paris_wallet.Prelude.Int.{ℤ, pos, negsuc, pos_part, ltb_ℤ, ◌+ℤ◌, ◌-ℤ◌}
use lior_paris_wallet.Result.{Action, pure, ◌>>=◌}
use lior_paris_wallet.Orm.{Orm}
use lior_paris_wallet.Entities.{Db, UserRole, Wallet}
use lior_paris_wallet.Http.JsonApi.{JsonApiResource, JsonApiDocument, json_api_data}
use lior_paris_wallet.Users.Repository.{UserPatch, UserSummary, PaginationQueryDto}
use lior_paris_wallet.Users.Service.{
  UserResultDto, all_users, user_me, find_user, update_user, remove_user,
}

-- `Math.max(page, 1)` and `Math.min(Math.max(limit, 1), 100)`.
unfoldable pub pagination_query : (page limit : ℤ) → PaginationQueryDto
pagination_query page limit = record {
  page = max (pos_part page) 1;
  limit = min (max (pos_part limit) 1) 100;
}

-- What `Math.ceil(total / limit)` may be.
pub data Quotient : Type 0 where
  finite : ℤ → Quotient
  infinite not_a_number : Quotient

unfoldable pub total_pages : (total : ℕ) → (limit : ℤ) → Quotient
total_pages total (pos zero) = if total == 0 then not_a_number else infinite
total_pages total (pos (suc n)) = finite (pos ((total + n) / suc n))
total_pages total (negsuc n) = finite (pos 0 -ℤ pos (total / suc n))

-- `pageNumber < totalPages`
abbrev pub is_before : ℤ → Quotient → Bool
is_before page (finite n) = ltb_ℤ page n
is_before page infinite = true
is_before page not_a_number = false

-- `Number.isNaN(Number(value)) ? default : Number(value)`
abbrev pub number_or : Option ℤ → ℕ → ℤ
number_or none default = pos default
number_or (some n) default = n

pub record PageMeta : Type 0 where
  pub total : ℕ
  pub pages : Quotient

-- `/users?page=${page}&limit=${limit}`
pub record PageLink : Type 0 where
  pub page : ℤ
  pub limit : ℤ

pub record PageLinks : Type 0 where
  pub prev : Option PageLink
  pub next : Option PageLink

pub record UserAttributes : Type 0 where
  pub name : String
  pub email : String
  pub role : UserRole
  pub access_token : Option String
  pub wallets : Option (List Wallet)
  pub created_at : ℕ
  pub updated_at : ℕ

abbrev pub summary_resource : UserSummary → JsonApiResource UserAttributes
summary_resource user = record {
  type = "users";
  id = user.id;
  attributes = record {
    name = user.name;
    email = user.email;
    role = user.role;
    access_token = none;
    wallets = none;
    created_at = user.created_at;
    updated_at = user.updated_at;
  };
}

-- The resource of one user, with the wallets and the token that the handler puts in.
abbrev pub user_resource :
    UserResultDto → Option (List Wallet) → Option String → JsonApiResource UserAttributes
user_resource user wallets access_token = record {
  type = "users";
  id = user.id;
  attributes = record {
    name = user.name;
    email = user.email;
    role = user.role;
    access_token = access_token;
    wallets = wallets;
    created_at = user.created_at;
    updated_at = user.updated_at;
  };
}

-- The links of a page, from the numbers of the query as they came.
unfoldable pub page_links : (page limit : ℤ) → Quotient → PageLinks
page_links page limit pages = record {
  prev = if ltb_ℤ (pos 1) page then some (record { page = page -ℤ pos 1; limit = limit }) else none;
  next =
      if is_before page pages then some (record { page = page +ℤ pos 1; limit = limit }) else none;
}

abbrev pub UserDocument : Type 0
UserDocument = JsonApiDocument (JsonApiResource UserAttributes) Unit Unit

abbrev pub UsersDocument : Type 0
UsersDocument = JsonApiDocument (List (JsonApiResource UserAttributes)) PageMeta PageLinks

module _ (orm : Orm) where
  unfoldable pub get_me : (user_id : ℕ) → Action Db UserDocument
  get_me user_id = do
    user ← user_me orm user_id
    pure (json_api_data (user_resource user user.wallets none) none none)

  unfoldable pub get_users : (page limit : Option ℤ) → Action Db UsersDocument
  get_users page limit = do
    let page_number = number_or page 1
    let limit_number = number_or limit 10
    (rows, total) ← all_users orm (pagination_query page_number limit_number)
    let pages = total_pages total limit_number
    pure (
        json_api_data (map summary_resource rows) (some (record { total = total; pages = pages }))
          (some (page_links page_number limit_number pages)))

  unfoldable pub get_user : (id : ℕ) → Action Db UserDocument
  get_user id = do
    user ← find_user orm id
    pure (json_api_data (user_resource user user.wallets none) none none)

  unfoldable pub patch_user :
      (requesting_user_id id : ℕ) → UserPatch → UserRole → (now : ℕ) → Action Db UserDocument
  patch_user requesting_user_id id body role now = do
    user ← update_user orm requesting_user_id id body role now
    pure (json_api_data (user_resource user none none) none none)

  unfoldable pub delete_user_by_id : (requesting_user_id id : ℕ) → UserRole → Action Db Unit
  delete_user_by_id requesting_user_id id role = remove_user orm requesting_user_id id role
