-- ===== src/Common/Listing.antt =====
-- One page of a table: `findMany` with `where`, `skip`, `take` and `orderBy`, beside `count`, as
-- the services that list rows build it.
pub mod Laws
use backend_task_management.Base.{
  ℕ, Bool, ◌≡◌, ◌≤◌, String, Option, none, some, List, All, length, keep, take, drop,
}
use backend_task_management.Common.Errors.{Result, ok, err, error}
use backend_task_management.Automation.World.{World, Env, Exec, pure, throw, call, lift, ◌>>=◌}
use backend_task_management.Common.Pagination.{
  SortOrder, OffsetPagination, OffsetMeta, Skip, rows, before, uneven, not_a_number, Amount, whole,
  fraction, build_offset_meta,
}

-- `ORDER BY` of the database: it loses no row and adds none.
pub record Ordering (A : Type 0) : Type 1 where
  pub sorted : String → SortOrder → List A → List A
  pub sorted-All :
      (P : A → Type 0) (s : String) (o : SortOrder) (xs : List A) → All P xs → All P (sorted s o xs)
  pub sorted-length :
      (s : String) (o : SortOrder) (xs : List A) → length (sorted s o xs) ≡ length xs

pub record Page (A : Type 0) : Type 0 where
  pub meta : OffsetMeta
  pub items : List A

-- Every query schema gives a page and a limit; a model without one stops here, where the code
-- would print NaN.
abbrev pub page_of : {A : Type 0} → Option Amount → Option Amount → ℕ → List A → Result (Page A)
page_of (some page) (some limit) total items =
    ok (record { meta = build_offset_meta total page limit; items = items })
page_of (some _) none total items = err (error "TypeError" "limit is undefined")
page_of none limit total items = err (error "TypeError" "page is undefined")

module _ {A : Type 0} (db : Ordering A) where
  abbrev ordered : Option String → Option SortOrder → List A → List A
  ordered none o xs = xs
  ordered (some s) none xs = xs
  ordered (some s) (some o) xs = db.sorted s o xs

  -- A `take` that is not whole is refused.
  abbrev taken : Option Amount → List A → Result (List A)
  taken none xs = ok xs
  taken (some (whole n)) xs = ok (take n xs)
  taken (some (fraction n d)) xs =
      err (error "PrismaClientValidationError" "Invalid value for take")

  -- A `skip` that is below zero, not whole or undefined is refused.
  abbrev skipped : Skip → List A → Result (List A)
  skipped (rows n) xs = ok (drop n xs)
  skipped (before n) xs = err (error "PrismaClientValidationError" "Invalid value for skip")
  skipped uneven xs = err (error "PrismaClientValidationError" "Invalid value for skip")
  skipped not_a_number xs = err (error "PrismaClientValidationError" "Invalid value for skip")

  abbrev mapped_take : Option Amount → Result (List A) → Result (List A)
  mapped_take limit (ok xs) = taken limit xs
  mapped_take limit (err e) = err e

  -- `findMany`
  unfoldable pub find_many : (A → Bool) → OffsetPagination → List A → Result (List A)
  find_many matches p table =
      mapped_take p.limit (skipped p.skip (ordered p.sort_by p.sort_order (keep matches table)))

  -- `count`
  unfoldable pub count : (A → Bool) → List A → ℕ
  count matches table = length (keep matches table)

  module _ {N : Type 0} (env : Env) (table : World N → List A) where
    -- `Promise.all([findMany, count])` and `buildOffsetMeta`.
    unfoldable pub list_page : (A → Bool) → OffsetPagination → Exec N (Page A)
    unfolding find_many count
    list_page matches p = do
      found ← call env (λ now w. (find_many matches p (table w), w))
      items ← lift found
      total ← call env (λ now w. (count matches (table w), w))
      lift (page_of p.page p.limit total items)

    -- `$transaction([count, findMany])` and `buildOffsetMeta`.
    unfoldable pub list_at_once : (A → Bool) → OffsetPagination → Exec N (Page A)
    unfolding find_many count
    list_at_once matches p = do
      both ←
          call {A = ℕ × Result (List A)} env
            (λ now w. ((count matches (table w), find_many matches p (table w)), w))
      items ← lift both.1
      lift (page_of p.page p.limit both.0 items)
