-- ===== src/Rule/Service/Laws.antt =====
-- What a created rule is compared with, and what is stored of it.
use backend_task_management.Base.{String, ◌==◌, ◌≡◌, refl, false, none, List, [], ◌∷◌, any, keep}
use backend_task_management.Common.Errors.{ok}
use backend_task_management.Js.Value.{arr, obj, Items, end}
use backend_task_management.Automation.World.{World, done, pure, call, ◌>>=◌}
use backend_task_management.Rule.Rows.{RuleRow}
use backend_task_management.Rule.Service.{
  Tools, DuplicateQuery, is_candidate, normalize, normal_form_of, candidates, check_duplicate,
}

module _ {N : Type 0} (tools : Tools N) where
  never_alike :
      (target : String) (rules : List (RuleRow N))
      → ((r : RuleRow N) → (normal_form_of tools r == target) ≡ false)
      → any (λ r. normal_form_of tools r == target) rules ≡ false
  never_alike target [] h = refl
  never_alike target (r ∷ rules) h = rw (h r) (never_alike target rules h)

  -- A rule without the conditions key is never refused as a duplicate: if the stringifier prints
  -- no array as it prints the empty object, the check returns on every table.
  pub check_duplicate-none :
      ((xs : Items N)
        → (tools.stable_stringify (arr xs) == tools.stable_stringify (obj end)) ≡ false)
      → (query : DuplicateQuery) (w : World N) → tools.env.fate w.calls ≡ done
      → (check_duplicate tools query none w).0 ≡ ok tt
  unfolding check_duplicate candidates normalize call ◌>>=◌ pure
  check_duplicate-none apart query w passes =
      rw
        (
          passes,
          never_alike (tools.stable_stringify (obj end)) (keep (is_candidate query) w.rules)
              (λ r. apart _),
        )
        refl
