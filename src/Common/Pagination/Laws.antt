-- ===== src/Common/Pagination/Laws.antt =====
-- The pages that a parsed query asks for, and what the metadata says of the rest.
use backend_task_management.Base.{
  ℕ, zero, suc, ◌+◌, ◌*◌, ◌/◌, ◌≤◌, ◌<◌, ◌≡◌, refl, Option, some, none, Bool, true, false, ltb,
  arith, List, ◌∷◌, String, includes, subst, ap, ◌∙◌, eq_refl, Bool-cases, inl, inr, sym,
}
use native.Mathlib.Nat.{le-div_iff_mul-le}
use backend_task_management.Common.Pagination.{
  Amount, whole, fraction, Coerced, amount, negative, infinite_or_nan, text_or, total_pages,
  is_before, build_offset_meta, build_offset_pagination, parse_query, RawQuery, OffsetQuery, rows,
  given, assemble, at_least, between, SortOrder, allowed_field, spread, or_text, Key,
}

ltb_same : (a b c d : ℕ) → (a < b → c < d) → (c < d → a < b) → ltb a b ≡ ltb c d
ltb_same a b c d f g = elim (Bool-cases (ltb a b)) [
  | inl h ↦ let less : c < d = f (ground arith) in ground arith
  | inr h ↦ elim (Bool-cases (ltb c d)) [
    | inl k ↦ let less : a < b = g (ground arith) in ground arith
    | inr k ↦ ground arith
  ]
]

ceiling : (total page k : ℕ) → ltb page ((total + k) / suc k) ≡ ltb (page * suc k) total
ceiling total page k =
    let (up, down) = le-div_iff_mul-le {k = suc k} {x = suc page} {y = total + k} (omega arith) in
    let there : suc page ≤ (total + k) / suc k → page * suc k < total = λ h. omega (arith, up h) in
    let back : page * suc k < total → suc page ≤ (total + k) / suc k = λ h. down (omega arith) in
    ltb_same _ _ _ _ there back

-- A page has one after it exactly when its end is before the end of the rows.
is_before-total_pages :
    (total page k : ℕ)
    → is_before (whole page) (total_pages total (whole (suc k))) ≡ ltb (page * suc k) total
unfolding total_pages
is_before-total_pages zero page k = ceiling zero page k
is_before-total_pages (suc t) page k = ceiling (suc t) page k

-- A number of the query string that is missing or whole.
abbrev pub is_whole : Option Coerced → Bool
is_whole none = true
is_whole (some (amount (whole n))) = true
is_whole (some (amount (fraction n d))) = false
is_whole (some negative) = false
is_whole (some infinite_or_nan) = false

pub at_least_ok :
    (o : Option Coerced) (a : Amount)
    → is_whole o ≡ true
    → at_least 1 1 o ≡ some a
    → (n : ℕ) × (a ≡ whole n) × (1 ≤ n)
at_least_ok none a w h = (1, cc, ground arith)
at_least_ok (some (amount (whole n))) a w h = (n, ground arith, ground arith)
at_least_ok (some (amount (fraction n d))) a w h = cc
at_least_ok (some negative) a w h = cc
at_least_ok (some infinite_or_nan) a w h = cc

pub between_ok :
    (o : Option Coerced) (a : Amount)
    → is_whole o ≡ true
    → between 1 100 20 o ≡ some a
    → (n : ℕ) × (a ≡ whole n) × (1 ≤ n) × (n ≤ 100)
between_ok none a w h = (20, cc, ground arith, ground arith)
between_ok (some (amount (whole n))) a w h = (n, ground arith, ground arith, ground arith)
between_ok (some (amount (fraction n d))) a w h = cc
between_ok (some negative) a w h = cc
between_ok (some infinite_or_nan) a w h = cc

injected : (a b : OffsetQuery) → some a ≡ some b → b ≡ a
injected a b h = cc

abbrev pub query_at : Amount → Amount → Key String → SortOrder → OffsetQuery
query_at page limit sort_by order = record {
  page = given page;
  limit = given limit;
  sort_by = sort_by;
  sort_order = given order;
}

assemble_ok :
    (p l : Option Amount) (s : String) (o : Option SortOrder) (query : OffsetQuery)
    → assemble p l s o ≡ some query
    → (page : Amount) × (limit : Amount) × (order : SortOrder) × (p ≡ some page)
      × (l ≡ some limit)
      × (query ≡ query_at page limit (given s) order)
assemble_ok (some page) (some limit) s (some order) query h =
    (page, limit, order, refl, refl, (injected _ _ h))
assemble_ok (some _) (some _) s none query h = ground arith
assemble_ok (some _) none s o query h = ground arith
assemble_ok none l s o query h = ground arith

-- A sort field is one of the allowed fields, when there are any.
allowed_field-included :
    (field : String) (fields : List String) (o : Option String)
    → (s : String) × (allowed_field (field ∷ fields) o ≡ some s)
      × (includes (field ∷ fields) s ≡ true)
allowed_field-included field fields none = (field, refl, ground (arith, eq_refl field))
allowed_field-included field fields (some s) = elim (Bool-cases (includes (field ∷ fields) s)) [
  | inl h ↦ (s, ground arith, h)
  | inr h ↦ (field, ground arith, ground (arith, eq_refl field))
]

parse_query_ok :
    (raw : RawQuery) (query : OffsetQuery)
    → is_whole raw.page ≡ true
    → is_whole raw.limit ≡ true
    → parse_query raw ≡ some query
    → (page : ℕ) × (limit : ℕ) × (s : Key String) × (order : SortOrder) × (1 ≤ page)
      × (1 ≤ limit)
      × (limit ≤ 100)
      × (query ≡ query_at (whole page) (whole limit) s order)
unfolding parse_query
parse_query_ok raw query whole_page whole_limit h =
    let (page, limit, order, p, l, same) = assemble_ok _ _ _ _ query h in
    let (m, at, positive) = at_least_ok raw.page page whole_page p in
    let (n, at', low, high) = between_ok raw.limit limit whole_limit l in
    let key : Key String = given (text_or "createdAt" raw.sort_by) in
    (
      m,
      n,
      key,
      order,
      positive,
      low,
      high,
      same ∙ ap (λ a. query_at a limit key order) at ∙ ap (λ a. query_at (whole m) a key order) at',
    )

-- What a service that allows `field ∷ fields` answers to a query, at `total` rows.
abbrev pub IsPaged : (field : String) (fields : List String) (total : ℕ) → OffsetQuery → Type 0
IsPaged field fields total query =
    (page : ℕ) × (limit : ℕ) × (skip : ℕ) × (s : String) × ((build_offset_pagination query
        (field ∷ fields)).page
      ≡ some (whole page))
    × ((build_offset_pagination query (field ∷ fields)).limit ≡ some (whole limit))
    × ((build_offset_pagination query (field ∷ fields)).skip ≡ rows skip)
    × ((build_offset_pagination query (field ∷ fields)).sort_by ≡ some s)
    × (includes (field ∷ fields) s ≡ true)
    × ((1 ≤ limit) × (limit ≤ 100))
    × ((build_offset_meta total (whole page) (whole limit)).has_next ≡ ltb (skip + limit) total)
    × ((build_offset_meta total (whole page) (whole limit)).has_prev ≡ ltb 0 skip)

skip_next : (page k : ℕ) → page * suc k + suc k ≡ suc page * suc k
skip_next page k = omega arith

has_prev_at : (page k : ℕ) → ltb 1 (suc page) ≡ ltb 0 (page * suc k)
has_prev_at zero k = ground arith
has_prev_at (suc page) k = ground arith

pub IsPaged-query_at :
    (field : String) (fields : List String) (total page limit : ℕ) (s : Key String)
    (order : SortOrder)
    → 1 ≤ page
    → 1 ≤ limit
    → limit ≤ 100
    → IsPaged field fields total (query_at (whole page) (whole limit) s order)
unfolding build_offset_pagination build_offset_meta
IsPaged-query_at field fields total zero limit s order p l m = ground arith
IsPaged-query_at field fields total (suc page) zero s order p l m = ground arith
IsPaged-query_at field fields total (suc page) (suc k) s order p l m =
    let (chosen, at, included) =
      allowed_field-included field fields (spread (or_text s "createdAt") s) in
    let next : is_before (whole (suc page)) (total_pages total (whole (suc k)))
        ≡ ltb (page * suc k + suc k) total =
      is_before-total_pages total (suc page) k ∙ ap (λ n. ltb n total) (sym (skip_next page k)) in
    (
      suc page,
      suc k,
      page * suc k,
      chosen,
      refl,
      refl,
      refl,
      at,
      included,
      (l, m),
      next,
      has_prev_at page k,
    )

-- Let a query give its page and its limit as whole numbers, if at all, and let the schema accept
-- it, of a service that allows some sort field. The page built from
-- it has a limit from 1 to 100, skips a whole number of rows and sorts by an allowed field; the
-- metadata says that a page follows exactly when the skip and the limit together are less than
-- the total, and that a page precedes exactly when the skip is not 0.
pub build_offset_meta_lem :
    (raw : RawQuery) (query : OffsetQuery) (field : String) (fields : List String) (total : ℕ)
    → is_whole raw.page ≡ true
    → is_whole raw.limit ≡ true
    → parse_query raw ≡ some query
    → IsPaged field fields total query
build_offset_meta_lem raw query field fields total whole_page whole_limit h =
    let (page, limit, s, order, p, l, m, same) =
      parse_query_ok raw query whole_page whole_limit h in
    subst (IsPaged field fields total) (sym same)
      (IsPaged-query_at field fields total page limit s order p l m)
