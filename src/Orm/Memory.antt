-- ===== src/Orm/Memory.antt =====
-- A database in memory, which shows that the assumed behaviour can be met and runs the tests.
use lior_paris_wallet.Prelude.{
  ℕ, zero, suc, ◌-◌, leb, not, ◌&&◌, ◌==◌, ◌≡◌, refl, Bool, true, false, Option, none, some, List,
  [], ◌∷◌, ◌++◌, Memᴰ, arith, if◌then◌else◌, Bool-cases, inl, inr,
}
use lior_paris_wallet.Prelude.Rows.{
  length, take, drop, sort_by, filter_in, any, set_where, filter_out,
}
use lior_paris_wallet.Prelude.Sorted.{
  first_by, first_by-mem, first_by-keys, first_by_complete, length-take-le, mem-take,
}
use lior_paris_wallet.Result.{atomically}
use lior_paris_wallet.Orm.{Orm}

abbrev pub first : {R : Type 0} → (R → Bool) → List R → Option R
first p [] = none
first p (r ∷ rows) = if p r then some r else first p rows

pub first-some :
    {R : Type 0} (p : R → Bool) (rows : List R) {r : R}
    → first p rows ≡ some r
    → Memᴰ r rows × (p r ≡ true)
first-some p [] h = cc
first-some p (x ∷ rows) {r} h = elim (Bool-cases (p x)) [
  | inl fits ↦
      let e : some r ≡ some x = ground (arith, fits, h) in
      let same : r ≡ x = cc in (Memᴰ.head same, ground (arith, fits, same))
  | inr other ↦ let (m, fits) = first-some p rows (ground (arith, other, h)) in (Memᴰ.tail m, fits)
]

pub first-none :
    {R : Type 0} (p : R → Bool) (rows : List R) → first p rows ≡ none → any p rows ≡ false
first-none p [] h = refl
first-none p (x ∷ rows) h = ground (arith, first-none p rows)

module _ {R : Type 0} where
  pub mem-drop : {r : R} (n : ℕ) (rows : List R) → Memᴰ r (drop n rows) → Memᴰ r rows
  mem-drop zero rows m = m
  mem-drop (suc n) [] m = m
  mem-drop (suc n) (x ∷ rows) m = Memᴰ.tail (mem-drop n rows m)

  length-drop : (n : ℕ) (rows : List R) → length (drop n rows) ≡ length rows - n
  length-drop zero rows = omega arith
  length-drop (suc n) [] = omega arith
  length-drop (suc n) (x ∷ rows) = let h = length-drop n rows in omega arith

  length-take :
      (n : ℕ) (rows : List R)
      → length (take n rows) ≡ (if leb n (length rows) then n else length rows)
  length-take zero rows = ground arith
  length-take (suc n) [] = ground arith
  length-take (suc n) (x ∷ rows) = let h = length-take n rows in ground arith

  pub length-window :
      (skip limit : ℕ) (rows : List R)
      → length (take limit (drop skip rows))
        ≡ (if leb limit (length rows - skip) then limit else length rows - skip)
  length-window skip limit rows =
      let h = length-take limit (drop skip rows) in rw (length-drop skip rows) at h

abbrev pub memory : Orm
memory = record {
  find_one = λ p rows. first p rows;
  find_one-some = λ p rows h. first-some p rows h;
  find_one-none = λ p rows h. first-none p rows h;
  find = λ p age n rows. first_by p age n rows;
  find-mem = λ p age n rows m. first_by-mem p age n rows m;
  find-keys = λ p age n rows key u. first_by-keys p age n rows key u;
  find-length = λ p age n rows. length-take-le n (sort_by age (filter_in p rows));
  find_complete = λ p age n rows m fits. first_by_complete p age n rows m fits;
  listed = λ rows. rows;
  listed-mem = λ rows m. m;
  mem-listed = λ rows m. m;
  find_and_count = λ skip limit rows. (take limit (drop skip rows), length rows);
  find_and_count-mem = λ skip limit rows m. mem-drop skip rows (mem-take limit (drop skip rows) m);
  find_and_count-length = λ skip limit rows. length-window skip limit rows;
  find_and_count-total = λ skip limit rows. refl;
  insert = λ clash r rows. if any (clash r) rows then none else some (rows ++ r ∷ []);
  insert_lem = λ clash r rows. refl;
  update = λ p f rows. set_where p f rows;
  update_lem = λ p f rows. refl;
  save = λ id clash r rows.
      if any (λ b. not (id b == id r) && clash r b) rows
      then none
      else some (set_where (λ b. id b == id r) (λ b. r) rows);
  save_lem = λ id clash r rows. refl;
  delete = λ p rows. filter_out p rows;
  delete_lem = λ p rows. refl;
  transaction = λ body s. atomically (body s) s;
  transaction_lem = λ body s. refl;
}
