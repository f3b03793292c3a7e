-- ===== src/Common/Listing/Laws.antt =====
-- What a page of a table shows.
use backend_task_management.Base.{
  ℕ, ◌+◌, ◌≤◌, ◌<◌, ◌≡◌, refl, sym, ap, ◌∙◌, subst, Bool, true, String, Option, none, some, List,
  ◌∷◌, All, includes, All-take, All-drop, length, length-take-le, slice_lem, keep, take, drop, ltb,
  Bool-cases, inl, inr, arith,
}
use backend_task_management.Common.Errors.{Result, ok, ok-injective}
use backend_task_management.Automation.World.{World, Env, lift}
use backend_task_management.Automation.World.Keeps.{counted}
use backend_task_management.Automation.World.Inversion.{read_ok, lift_ok}
use backend_task_management.Rule.Repository.Laws.{All-keep}
use backend_task_management.Common.Pagination.{
  SortOrder, OffsetQuery, OffsetPagination, Amount, whole, rows, build_offset_pagination,
  build_offset_meta,
}
use backend_task_management.Common.Pagination.Laws.{IsPaged}
use backend_task_management.Common.Listing.{
  Ordering, Page, find_many, count, list_page, list_at_once, ordered, page_of,
}

-- A full slice or the last one.
same_next :
    (skip limit total found size : ℕ)
    → found ≡ total
    → (skip + limit < found → size ≡ limit)
    → (found ≤ skip + limit → found ≤ skip + size)
    → size ≤ limit
    → ltb (skip + limit) total ≡ ltb (skip + size) total
same_next skip limit total found size same full last short =
    elim (Bool-cases (ltb (skip + limit) total)) [
      | inl more ↦ let all : size ≡ limit = full (ground arith) in ground arith
      | inr none_left ↦ let reached : found ≤ skip + size = last (ground arith) in ground arith
    ]

abbrev built : {A : Type 0} (page limit total : ℕ) (items : List A) → Page A
built page limit total items = record {
  meta = build_offset_meta total (whole page) (whole limit);
  items = items;
}

page_of-built :
    {A : Type 0} {o l : Option Amount} {page limit : ℕ} (total : ℕ) (items : List A)
    → o ≡ some (whole page)
    → l ≡ some (whole limit)
    → page_of o l total items ≡ ok (built page limit total items)
page_of-built total items a b = rw (a, b)

module _ {A : Type 0} (db : Ordering A) where
  -- What the database gives for an ordered list of matching rows.
  ordered-All :
      (P : A → Type 0) (s : String) (o : Option SortOrder) (xs : List A)
      → All P xs
      → All P (ordered db (some s) o xs)
  ordered-All P s none xs h = h
  ordered-All P s (some o) xs h = db.sorted-All P s o xs h

  length-ordered :
      (s : String) (o : Option SortOrder) (xs : List A)
      → length (ordered db (some s) o xs) ≡ length xs
  length-ordered s none xs = refl
  length-ordered s (some o) xs = db.sorted-length s o xs

  module _ (matches : A → Bool) where
    abbrev pub slice : List A → String → Option SortOrder → ℕ → ℕ → List A
    slice table s o skip limit = take limit (drop skip (ordered db (some s) o (keep matches table)))

    find_many-slice :
        (p : OffsetPagination) (s : String) (skip limit : ℕ) (table : List A)
        → p.sort_by ≡ some s
        → p.skip ≡ rows skip
        → p.limit ≡ some (whole limit)
        → find_many db matches p table ≡ ok (slice table s p.sort_order skip limit)
    unfolding find_many slice
    find_many-slice p s skip limit table a b c = rw (a, b, c)

    slice-All :
        (table : List A) (s : String) (o : Option SortOrder) (skip limit : ℕ)
        → All (λ a. matches a ≡ true) (slice table s o skip limit)
    slice-All table s o skip limit =
        All-take _ limit _
          (All-drop _ skip _ (ordered-All _ s o (keep matches table) (All-keep matches table)))

    slice-next :
        (table : List A) (s : String) (o : Option SortOrder) (skip limit : ℕ)
        → ltb (skip + limit) (length (keep matches table))
          ≡ ltb (skip + length (slice table s o skip limit)) (length (keep matches table))
    slice-next table s o skip limit =
        let (full, last) = slice_lem skip limit (ordered db (some s) o (keep matches table)) in
        same_next skip limit (length (keep matches table)) _ _
          (length-ordered s o (keep matches table)) full last (length-take-le limit _)

    -- A page of the rows that match: a slice of them in some order, sorted by an allowed field,
    -- with a limit of at most 100, beside their number and whether there are more.
    abbrev pub IsPageOf : List A → List String → Page A → Type 0
    IsPageOf table fields page =
        (skip : ℕ) × (limit : ℕ) × (s : String) × (o : Option SortOrder) × (page.items
          ≡ slice table s o skip limit)
        × (includes fields s ≡ true)
        × (All (λ a. matches a ≡ true) page.items)
        × ((length page.items ≤ limit) × (limit ≤ 100))
        × (page.meta.total ≡ length (keep matches table))
        × (page.meta.has_next ≡ ltb (skip + length page.items) (length (keep matches table)))
        × (page.meta.has_prev ≡ ltb 0 skip)

    page_at :
        (table : List A) (fields : List String) (page limit skip : ℕ) (s : String)
        (o : Option SortOrder)
        → includes fields s ≡ true
        → limit ≤ 100
        → (build_offset_meta (length (keep matches table)) (whole page) (whole limit)).has_next
          ≡ ltb (skip + limit) (length (keep matches table))
        → (build_offset_meta (length (keep matches table)) (whole page) (whole limit)).has_prev
          ≡ ltb 0 skip
        → IsPageOf table fields
            (built page limit (length (keep matches table)) (slice table s o skip limit))
    unfolding slice build_offset_meta
    page_at table fields page limit skip s o known short next prev = (
      skip,
      limit,
      s,
      o,
      refl,
      known,
      slice-All table s o skip limit,
      (length-take-le limit _, short),
      refl,
      next ∙ slice-next table s o skip limit,
      prev,
    )

    -- What the two queries answer for a paged query.
    answered :
        (table : List A) (query : OffsetQuery) (field : String) (fields : List String)
        (items : List A) (page : Page A)
        → ((total : ℕ) → IsPaged field fields total query)
        → find_many db matches (build_offset_pagination query (field ∷ fields)) table ≡ ok items
        → page_of
            (build_offset_pagination query (field ∷ fields)).page
            (build_offset_pagination query (field ∷ fields)).limit
            (count db matches table)
            items
          ≡ ok page
        → IsPageOf table (field ∷ fields) page
    unfolding count
    answered table query field fields items page paged found shown =
        let (number, limit, skip, s, p, l, k, b, known, (_, short), next, prev) =
          paged (length (keep matches table)) in
        let pagination = build_offset_pagination query (field ∷ fields) in
        let same : slice table s pagination.sort_order skip limit ≡ items =
          ok-injective _ items
            (sym (find_many-slice pagination s skip limit table b k l) ∙ found) in
        let whole : built number limit (length (keep matches table))
              (slice table s pagination.sort_order skip limit)
            ≡ page =
          ap (λ xs. built number limit (length (keep matches table)) xs) same
          ∙ ok-injective _ page (sym (page_of-built _ items p l) ∙ shown) in
        subst (IsPageOf table (field ∷ fields)) whole (
          page_at table (field ∷ fields) number limit skip s pagination.sort_order known short next
            prev)

    module _ {N : Type 0} (env : Env) (rows_of : World N → List A)
        (steady : (w : World N) → rows_of (counted w) ≡ rows_of w) where
      pub list_page-IsPageOf :
          (query : OffsetQuery) (field : String) (fields : List String) (w : World N)
          (page : Page A)
          → ((total : ℕ) → IsPaged field fields total query)
          → (list_page db env rows_of matches (build_offset_pagination query (field ∷ fields)) w).0
            ≡ ok page
          → IsPageOf (rows_of w) (field ∷ fields) page
      unfolding list_page lift
      list_page-IsPageOf query field fields w page paged h =
          let ask = build_offset_pagination query (field ∷ fields) in
          let found = read_ok env (λ u. find_many db matches ask (rows_of u)) _ w h in
          let (items, read, counting) = lift_ok _ _ (counted w) found in
          let shown = read_ok env (λ u. count db matches (rows_of u)) _ (counted w) counting in
          let same : rows_of (counted (counted w)) ≡ rows_of w = steady _ ∙ steady w in
          answered (rows_of w) query field fields items page paged
            (ap (find_many db matches ask) (sym (steady w)) ∙ read)
            (ap (λ t. page_of ask.page ask.limit (count db matches t) items) (sym same) ∙ shown)

      pub list_at_once-IsPageOf :
          (query : OffsetQuery) (field : String) (fields : List String) (w : World N)
          (page : Page A)
          → ((total : ℕ) → IsPaged field fields total query)
          → (list_at_once db env rows_of matches
              (build_offset_pagination query (field ∷ fields))
              w).0
            ≡ ok page
          → IsPageOf (rows_of w) (field ∷ fields) page
      unfolding list_at_once lift
      list_at_once-IsPageOf query field fields w page paged h =
          let ask = build_offset_pagination query (field ∷ fields) in
          let both =
            read_ok {C = ℕ × Result (List A)} env
              (λ u. (count db matches (rows_of u), find_many db matches ask (rows_of u))) _ w h in
          let (items, read, shown) = lift_ok _ _ (counted w) both in
          answered (rows_of w) query field fields items page paged
            (ap (find_many db matches ask) (sym (steady w)) ∙ read)
            (ap (λ t. page_of ask.page ask.limit (count db matches t) items) (sym (steady w))
              ∙ shown)
