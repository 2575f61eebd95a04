-- ===== src/Orm.antt =====
-- TypeORM over MySQL, which the repositories call and the repository does not contain: an
-- interface with the documented behaviour of each operation. A table is the list of its rows.
-- The tables' unique indexes are passed to `insert` as the test `clash`, as the entities declare
-- them. Texts are compared exactly, as under a binary collation.
pub mod Memory
pub mod Laws
use lior_paris_wallet.Prelude.{
  not, ◌&&◌, ◌==◌, ◌-◌, leb, ℕ, ◌≤◌, ◌⊎◌, ◌≡◌, Bool, true, false, Option, none, some, List, [], ◌∷◌,
  ◌++◌, Memᴰ, if◌then◌else◌,
}
use lior_paris_wallet.Prelude.Rows.{length, take, drop, HasUniqueKeys, any, set_where, filter_out}
use lior_paris_wallet.Result.{Action, atomically}

pub record Orm : Type 1 where
  -- `findOne({ where })`: a row that fits, if there is one.
  pub find_one : {R : Type 0} → (R → Bool) → List R → Option R
  pub find_one-some :
      {R : Type 0} (p : R → Bool) (rows : List R) {r : R}
      → find_one p rows ≡ some r
      → Memᴰ r rows × (p r ≡ true)
  pub find_one-none :
      {R : Type 0} (p : R → Bool) (rows : List R) → find_one p rows ≡ none → any p rows ≡ false
  -- `find({ where, order: { key: 'ASC' }, take })`: rows that fit, none twice, at most `take`, and
  -- all that fit if there are fewer; a row that is left out is no older than those returned.
  pub find : {R : Type 0} → (R → Bool) → (R → ℕ) → ℕ → List R → List R
  pub find-mem :
      {R : Type 0} (p : R → Bool) (age : R → ℕ) (n : ℕ) (rows : List R) {r : R}
      → Memᴰ r (find p age n rows)
      → Memᴰ r rows × (p r ≡ true)
  pub find-keys :
      {R : Type 0} (p : R → Bool) (age : R → ℕ) (n : ℕ) (rows : List R) (key : R → ℕ)
      → HasUniqueKeys key rows
      → HasUniqueKeys key (find p age n rows)
  pub find-length :
      {R : Type 0} (p : R → Bool) (age : R → ℕ) (n : ℕ) (rows : List R)
      → length (find p age n rows) ≤ n
  pub find_complete :
      {R : Type 0} (p : R → Bool) (age : R → ℕ) (n : ℕ) (rows : List R) {r : R}
      → Memᴰ r rows
      → p r ≡ true
      → Memᴰ r (find p age n rows)
        ⊎ ((length (find p age n rows) ≡ n)
            × ((s : R) → Memᴰ s (find p age n rows) → age s ≤ age r))
  -- The rows in the order in which a statement without `order` returns them, which nothing fixes but
  -- the rows.
  pub listed : {R : Type 0} → List R → List R
  pub listed-mem : {R : Type 0} (rows : List R) {r : R} → Memᴰ r (listed rows) → Memᴰ r rows
  pub mem-listed : {R : Type 0} (rows : List R) {r : R} → Memᴰ r rows → Memᴰ r (listed rows)
  -- `findAndCount({ skip, take })` without `order`: rows of the table, as many as a window of that size and
  -- place has, and the number of all rows. Which rows they are is not said, and two calls may go by different
  -- orders.
  pub find_and_count : {R : Type 0} → (skip limit : ℕ) → List R → List R × ℕ
  pub find_and_count-mem :
      {R : Type 0} (skip limit : ℕ) (rows : List R) {r : R}
      → Memᴰ r (find_and_count skip limit rows).0
      → Memᴰ r rows
  pub find_and_count-length :
      {R : Type 0} (skip limit : ℕ) (rows : List R)
      → length (find_and_count skip limit rows).0
        ≡ (if leb limit (length rows - skip) then limit else length rows - skip)
  pub find_and_count-total :
      {R : Type 0} (skip limit : ℕ) (rows : List R)
      → (find_and_count skip limit rows).1 ≡ length rows
  -- `save` of a new row: refused if a unique index has its values already.
  pub insert : {R : Type 0} → (R → R → Bool) → R → List R → Option (List R)
  pub insert_lem :
      {R : Type 0} (clash : R → R → Bool) (r : R) (rows : List R)
      → insert clash r rows ≡ (if any (clash r) rows then none else some (rows ++ r ∷ []))
  -- `update(where, values)`, of columns that stand in no unique index.
  pub update : {R : Type 0} → (R → Bool) → (R → R) → List R → List R
  pub update_lem :
      {R : Type 0} (p : R → Bool) (f : R → R) (rows : List R) → update p f rows ≡ set_where p f rows
  -- `save` of a row that is there: refused if a unique index has its values in another row.
  pub save : {R : Type 0} → (R → ℕ) → (R → R → Bool) → R → List R → Option (List R)
  pub save_lem :
      {R : Type 0} (id : R → ℕ) (clash : R → R → Bool) (r : R) (rows : List R)
      → save id clash r rows ≡ (
          if any (λ b. not (id b == id r) && clash r b) rows
          then none
          else some (set_where (λ b. id b == id r) (λ b. r) rows))
  -- `delete(where)`.
  pub delete : {R : Type 0} → (R → Bool) → List R → List R
  pub delete_lem : {R : Type 0} (p : R → Bool) (rows : List R) → delete p rows ≡ filter_out p rows
  -- `dataSource.transaction(body)`.
  pub transaction : {S A : Type 0} → Action S A → Action S A
  pub transaction_lem :
      {S A : Type 0} (body : Action S A) (s : S) → transaction body s ≡ atomically (body s) s
