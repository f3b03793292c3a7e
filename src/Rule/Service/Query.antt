-- ===== src/Rule/Service/Query.antt =====
-- `findAll`, `findOne` and `findById` of modules/rule/services/rule.service.ts, and their query
-- schema, modules/rule/schemas/rule.filter.schema.ts. The database's `contains` is a parameter.
pub mod Laws
use backend_task_management.Base.{
  ℕ, String, ◌==◌, ◌&&◌, ◌||◌, Bool, true, false, not, eqb, Option, none, some, List, [], ◌∷◌, map,
  non_empty, includes, is_some, if◌then◌else◌,
}
use backend_task_management.Common.Errors.{Result}
use backend_task_management.Common.Errors.AppException
use backend_task_management.Common.Pagination.{
  OffsetQuery, OffsetPagination, Amount, whole, RawQuery, Key, missing, given, SortOrder, desc,
  rows, at_least, between, order_of, build_offset_pagination,
}
use backend_task_management.Common.Listing.{Ordering, Page, find_many, list_page}
use backend_task_management.Automation.Constants.{service_names}
use backend_task_management.Automation.Event.Schema.{event_types}
use backend_task_management.Automation.World.{
  World, Env, Exec, pure, throw, lift, call, ◌>>=◌, ◌>>◌,
}
use backend_task_management.Rule.Types.{RuntimeRule}
use backend_task_management.Rule.Rows.{RuleRow}
use backend_task_management.Rule.Mapper.{row_to_rule}
use backend_task_management.Rule.Repository.{is_null, include_relations}
use backend_task_management.Rule.Service.{Tools, find_by_id}

-- `RuleQueryFilter` beside its offset query.
pub record RuleFilter : Type 0 where
  pub search : Option String
  pub is_active : Option Bool
  pub event_type : Option String
  pub priority : Option ℕ
  pub service_name : Option String

-- `RULE_SORTABLE_FIELDS`, after its first field.
abbrev pub other_fields : List String
other_fields = "createdAt" ∷ "updatedAt" ∷ "name" ∷ []

abbrev pub rule_sortable_fields : List String
rule_sortable_fields = "priority" ∷ other_fields

-- `z.enum(RULE_SORTABLE_FIELDS).optional()`
abbrev sort_key : Option String → Option (Key String)
sort_key none = some missing
sort_key (some s) = if includes rule_sortable_fields s then some (given s) else none

abbrev assemble_rule_query :
    Option Amount → Option Amount → Option (Key String) → Option SortOrder → Option OffsetQuery
assemble_rule_query (some page) (some limit) (some key) (some order) =
    some
      (record { page = given page; limit = given limit; sort_by = key; sort_order = given order })
assemble_rule_query (some _) (some _) (some _) none = none
assemble_rule_query (some _) (some _) none order = none
assemble_rule_query (some _) none key order = none
assemble_rule_query none limit key order = none

-- The pagination of `RuleQueryFilterSchema`.
unfoldable pub parse_rule_query : RawQuery → Option OffsetQuery
parse_rule_query raw =
    assemble_rule_query (at_least 1 1 raw.page) (between 1 100 20 raw.limit) (sort_key raw.sort_by)
      (order_of raw.sort_order)

-- `z.coerce.boolean()` is `Boolean(input)`.
abbrev coerce_boolean : String → Bool
coerce_boolean = non_empty

abbrev one_of : List String → Option String → Bool
one_of known none = true
one_of known (some s) = includes known s

-- The filters of `RuleQueryFilterSchema`, at the texts of a query string.
unfoldable pub parse_rule_filter :
    Option String → Option String → Option String → Option ℕ → Option String → Option RuleFilter
parse_rule_filter search active event_type priority service_name =
    if one_of event_types event_type && one_of service_names service_name
    then some (record {
      search = search;
      is_active = elim active [ none ↦ none | some s ↦ some (coerce_boolean s) ];
      event_type = event_type;
      priority = priority;
      service_name = service_name;
    })
    else none

-- `...(wanted ? { key: wanted } : {})`, and the same behind `!== undefined`.
abbrev text_fits : Option String → Option String → Bool
text_fits none actual = true
text_fits (some wanted) none = not (non_empty wanted)
text_fits (some wanted) (some actual) = if non_empty wanted then actual == wanted else true

abbrev bool_fits : Option Bool → Bool → Bool
bool_fits none actual = true
bool_fits (some true) actual = actual
bool_fits (some false) actual = not actual

abbrev nat_fits : Option ℕ → ℕ → Bool
nat_fits none actual = true
nat_fits (some wanted) actual = eqb actual wanted

module _ {N : Type 0} (contains : String → String → Bool) where
  abbrev search_fits : Option String → RuleRow N → Bool
  search_fits none r = true
  search_fits (some s) r =
      if non_empty s then contains r.name s || contains r.event_type s else true

  -- `buildWhereFilter`, and the `deletedAt: null` that the repository adds.
  unfoldable pub matches_filter : RuleFilter → RuleRow N → Bool
  matches_filter filter r =
      is_null r.deleted_at
      && (search_fits filter.search r
          && (text_fits filter.service_name r.service_name
              && (text_fits filter.event_type (some r.event_type)
                  && (bool_fits filter.is_active r.is_active
                      && nat_fits filter.priority r.priority))))

  abbrev pub shown : RuleRow N → RuntimeRule N
  shown r = row_to_rule (include_relations r)

  abbrev pub shown_page : Page (RuleRow N) → Page (RuntimeRule N)
  shown_page page = record { meta = page.meta; items = map shown page.items }

  module _ (tools : Tools N) (db : Ordering (RuleRow N)) where
    -- `findAll`
    unfoldable pub find_all : RuleFilter → OffsetQuery → Exec N (Page (RuntimeRule N))
    unfolding matches_filter
    find_all filter query = do
      page ←
          list_page db tools.env (λ w. w.rules) (matches_filter filter)
            (build_offset_pagination query rule_sortable_fields)
      pure (shown_page page)

    abbrev newest_first : OffsetPagination
    newest_first = record {
      page = some (whole 1);
      limit = some (whole 1);
      skip = rows 0;
      sort_by = some "createdAt";
      sort_order = some desc;
    }

    abbrev first_shown : List (RuleRow N) → Exec N (RuntimeRule N)
    first_shown [] = throw (AppException.not_found "Rule not found")
    first_shown (r ∷ _) = pure (shown r)

    -- `findOne`
    unfoldable pub find_one : RuleFilter → Exec N (RuntimeRule N)
    unfolding matches_filter find_many
    find_one filter = do
      found ←
          call tools.env (λ now w. (find_many db (matches_filter filter) newest_first w.rules, w))
      rules ← lift found
      first_shown rules

    abbrev found_rule : Option (RuleRow N) → Exec N (RuntimeRule N)
    found_rule none = throw (AppException.not_found "Rule not found")
    found_rule (some r) = pure (row_to_rule r)

    -- `findById`
    unfoldable pub find_rule : String → Exec N (RuntimeRule N)
    unfolding find_by_id
    find_rule id = do rule ← find_by_id tools id; found_rule rule
