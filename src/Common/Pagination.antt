-- ===== src/Common/Pagination.antt =====
-- Offset pagination: common/pagination/pagination.schema.ts and offset-pagination.ts. The schemas
-- accept fractions of rows and pages; products and quotients are those of exact arithmetic.
pub mod Laws
mod Tests
use backend_task_management.Base.{
  ℕ, zero, suc, ◌+◌, ◌-◌, ◌*◌, ◌/◌, ◌%◌, eqb, String, ◌==◌, Bool, true, false, ◌&&◌, Option, none,
  some, List, [], ◌∷◌, ltb, leb, non_empty, includes, if◌then◌else◌, get_elem?,
}

pub data SortOrder : Type 0 where
  asc desc : SortOrder

-- A key of an object that may be missing, or present with the value `undefined`.
pub data Key (A : Type 0) : Type 0 where
  missing unset : Key A
  given : A → Key A

-- A number that is not negative: `fraction n d` is `n / (d + 1)`, which is not whole.
pub data Amount : Type 0 where
  whole : ℕ → Amount
  fraction : ℕ → ℕ → Amount

abbrev numerator : Amount → ℕ
numerator (whole n) = n
numerator (fraction n d) = n

abbrev denominator : Amount → ℕ
denominator (whole n) = 1
denominator (fraction n d) = suc d

pub record OffsetQuery : Type 0 where
  pub page : Key Amount
  pub limit : Key Amount
  pub sort_by : Key String
  pub sort_order : Key SortOrder

-- `(page - 1) * limit`, which is below zero for page 0; `uneven` is below zero or not whole.
pub data Skip : Type 0 where
  rows before : ℕ → Skip
  uneven not_a_number : Skip

pub record OffsetPagination : Type 0 where
  pub page : Option Amount
  pub limit : Option Amount
  pub skip : Skip
  pub sort_by : Option String
  pub sort_order : Option SortOrder

-- `query.key ?? value`
abbrev or_default : {A : Type 0} → Key A → A → A
or_default (given a) d = a
or_default missing d = d
or_default unset d = d

-- `query.key || value`, at a string.
abbrev pub or_text : Key String → String → String
or_text (given s) d = if non_empty s then s else d
or_text missing d = d
or_text unset d = d

-- `{ key: value, ...query }.key`
abbrev pub spread : {A : Type 0} → A → Key A → Option A
spread value missing = some value
spread value unset = none
spread value (given a) = some a

-- `(a / b - 1) * (c / d)`
abbrev skip_ratio : ℕ → ℕ → ℕ → ℕ → Skip
skip_ratio a b c d =
    if leb b a && eqb (((a - b) * c) % (b * d)) 0 then rows (((a - b) * c) / (b * d)) else uneven

abbrev skip_at : Amount → Amount → Skip
skip_at (whole zero) (whole limit) = before limit
skip_at (whole (suc page)) (whole limit) = rows (page * limit)
skip_at page limit =
    skip_ratio (numerator page) (denominator page) (numerator limit) (denominator limit)

abbrev skip_of : Option Amount → Option Amount → Skip
skip_of (some page) (some limit) = skip_at page limit
skip_of (some page) none = not_a_number
skip_of none limit = not_a_number

-- `allowed.includes(sortBy) ? sortBy : allowed[0]`; a missing name is not among them.
abbrev allowed_field : List String → Option String → Option String
allowed_field allowed none = get_elem? allowed 0
allowed_field allowed (some s) = if includes allowed s then some s else get_elem? allowed 0

unfoldable pub build_offset_pagination : OffsetQuery → List String → OffsetPagination
build_offset_pagination query allowed =
    let page : Option Amount = spread (or_default query.page (whole 1)) query.page in
    let limit : Option Amount = spread (or_default query.limit (whole 20)) query.limit in
    let sort_by : Option String = spread (or_text query.sort_by "createdAt") query.sort_by in
    record {
      page = page;
      limit = limit;
      skip = skip_of page limit;
      sort_by = allowed_field allowed sort_by;
      sort_order = spread (or_default query.sort_order desc) query.sort_order;
    }

-- `Math.ceil(total / limit)`
pub data Pages : Type 0 where
  finite : ℕ → Pages
  infinite undefined_ratio : Pages

-- The same, where `total` is `t / b` and `limit` is `n / b`.
abbrev pages_of : ℕ → ℕ → Pages
pages_of zero zero = undefined_ratio
pages_of (suc _) zero = infinite
pages_of t (suc k) = finite ((t + k) / suc k)

unfoldable pub total_pages : ℕ → Amount → Pages
total_pages total (whole n) = pages_of total n
total_pages total (fraction n d) = pages_of (total * suc d) n

-- `page < totalPages`
abbrev pub is_before : Amount → Pages → Bool
is_before (whole page) (finite n) = ltb page n
is_before (fraction a d) (finite n) = ltb a (n * suc d)
is_before page infinite = true
is_before page undefined_ratio = false

-- `page > 1`
abbrev is_above_one : Amount → Bool
is_above_one (whole page) = ltb 1 page
is_above_one (fraction a d) = ltb (suc d) a

pub record OffsetMeta : Type 0 where
  pub page : Amount
  pub limit : Amount
  pub total : ℕ
  pub pages : Pages
  pub has_next : Bool
  pub has_prev : Bool

unfoldable pub build_offset_meta : ℕ → Amount → Amount → OffsetMeta
unfolding total_pages
build_offset_meta total page limit = record {
  page = page;
  limit = limit;
  total = total;
  pages = total_pages total limit;
  has_next = is_before page (total_pages total limit);
  has_prev = is_above_one page;
}

-- What `Number` makes of a text of the query string.
pub data Coerced : Type 0 where
  amount : Amount → Coerced
  negative infinite_or_nan : Coerced

-- A query string after coercion; a missing key is `none`.
pub record RawQuery : Type 0 where
  pub page : Option Coerced
  pub limit : Option Coerced
  pub sort_by : Option String
  pub sort_order : Option String

-- `z.coerce.number().min(low).default(value)`, and the same with `.max(high)`.
abbrev is_at_least : ℕ → Amount → Bool
is_at_least low (whole n) = leb low n
is_at_least low (fraction n d) = leb (low * suc d) n

abbrev is_at_most : ℕ → Amount → Bool
is_at_most high (whole n) = leb n high
is_at_most high (fraction n d) = leb n (high * suc d)

abbrev pub at_least : ℕ → ℕ → Option Coerced → Option Amount
at_least low value none = some (whole value)
at_least low value (some (amount a)) = if is_at_least low a then some a else none
at_least low value (some negative) = none
at_least low value (some infinite_or_nan) = none

abbrev pub between : ℕ → ℕ → ℕ → Option Coerced → Option Amount
between low high value none = some (whole value)
between low high value (some (amount a)) =
    if is_at_least low a && is_at_most high a then some a else none
between low high value (some negative) = none
between low high value (some infinite_or_nan) = none

abbrev pub order_of : Option String → Option SortOrder
order_of none = some desc
order_of (some s) = if s == "asc" then some asc else if s == "desc" then some desc else none

abbrev pub text_or : String → Option String → String
text_or d none = d
text_or d (some s) = s

abbrev assemble : Option Amount → Option Amount → String → Option SortOrder → Option OffsetQuery
assemble (some page) (some limit) sort_by (some order) = some (record {
  page = given page;
  limit = given limit;
  sort_by = given sort_by;
  sort_order = given order;
})
assemble (some _) (some _) sort_by none = none
assemble (some _) none sort_by order = none
assemble none limit sort_by order = none

-- `OffsetPaginationSchema`
unfoldable pub parse_query : RawQuery → Option OffsetQuery
parse_query raw =
    assemble (at_least 1 1 raw.page) (between 1 100 20 raw.limit) (text_or "createdAt" raw.sort_by)
      (order_of raw.sort_order)
