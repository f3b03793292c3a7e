-- ===== src/Common/Pagination/Tests.antt =====
-- A listing of administrators, page 3 of 5.
use backend_task_management.Base.{◌≡◌, refl, true, some, none, [], ◌∷◌}
use backend_task_management.Common.Pagination.{
  whole, fraction, amount, RawQuery, OffsetQuery, given, asc, parse_query, build_offset_pagination,
  unset, not_a_number, rows, build_offset_meta,
}
use backend_task_management.Common.Pagination.Laws.{build_offset_meta_lem, IsPaged}

abbrev asked : RawQuery
asked = record {
  page = some (amount (whole 3));
  limit = some (amount (whole 10));
  sort_by = some "password";
  sort_order = some "asc";
}

abbrev parsed : OffsetQuery
parsed = record {
  page = given (whole 3);
  limit = given (whole 10);
  sort_by = given "password";
  sort_order = given asc;
}

parsing : parse_query asked ≡ some parsed
unfolding parse_query
parsing = refl

limit_refused : parse_query (record asked { limit = some (amount (whole 101)) }) ≡ none
unfolding parse_query
limit_refused = refl

default_sort :
    (build_offset_pagination parsed ("createdAt" ∷ "firstName" ∷ [])).sort_by ≡ some "createdAt"
unfolding build_offset_pagination
default_sort = refl

-- A page may be a fraction. Page 1.5 with 2 on each of 3 rows skips 1 row and shows the last two,
-- yet it has a next page.
abbrev halfway : OffsetQuery
halfway = record parsed { page = given (fraction 3 1); limit = given (whole 2) }

fraction_accepted :
    parse_query
      (record asked { page = some (amount (fraction 3 1)); limit = some (amount (whole 2)) })
    ≡ some halfway
unfolding parse_query
fraction_accepted = refl

fraction_has_next :
    ((build_offset_pagination halfway []).skip ≡ rows 1)
    × ((build_offset_meta 3 (fraction 3 1) (whole 2)).has_next ≡ true)
unfolding build_offset_pagination build_offset_meta
fraction_has_next = (refl, refl)

-- Without the schema, the key `page` with the value `undefined` overwrites its default.
unset_page : (build_offset_pagination (record parsed { page = unset }) []).skip ≡ not_a_number
unfolding build_offset_pagination
unset_page = refl

build_offset_meta_lem_example : IsPaged "createdAt" ("firstName" ∷ []) 45 parsed
build_offset_meta_lem_example =
    build_offset_meta_lem asked parsed "createdAt" ("firstName" ∷ []) 45 refl refl parsing
