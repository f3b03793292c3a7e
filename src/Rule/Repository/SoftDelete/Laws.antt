-- ===== src/Rule/Repository/SoftDelete/Laws.antt =====
-- A removed rule is out of the engine's reach, and no other rule is touched.
use backend_task_management.Base.{
  ℕ, suc, zero, String, ◌==◌, ◌≡◌, refl, sym, ap, ◌∙◌, true, false, not, Option, none, some, List,
  [], ◌∷◌, keep, All, arith, Bool-cases, inl, inr, ◌<|>◌,
}
use backend_task_management.Common.Errors.{ok}
use backend_task_management.Automation.World.{World, Env, pure, throw}
use backend_task_management.Automation.World.Inversion.{bind_ok, call_ok}
use backend_task_management.Rule.Rows.{RuleRow}
use backend_task_management.Rule.Repository.{is_null, is_active_for, include_relations, find_active}
use backend_task_management.Rule.Repository.Laws.{All-sort_by, All-mapped}
use backend_task_management.Rule.Repository.SoftDelete.{
  delete_row, delete_rule, read_ids, delete_all, soft_delete, counted_removal, remove,
}

pub deleted_at_set : (o : Option ℕ) (now : ℕ) → is_null (o <|> some now) ≡ false
deleted_at_set none now = refl
deleted_at_set (some t) now = refl

module _ {N : Type 0} (id : String) where
  -- A row of the rule is deleted.
  abbrev pub IsGone : RuleRow N → Type 0
  IsGone r = (r.id == id) ≡ true → is_null r.deleted_at ≡ false

  delete_rule-IsGone :
      (now : ℕ) (ids : List String) (rules : List (RuleRow N))
      → All IsGone (delete_rule id now ids rules).1
  unfolding delete_rule delete_row
  delete_rule-IsGone now ids [] = tt
  delete_rule-IsGone now ids (r ∷ rules) = elim (Bool-cases (r.id == id)) [
    | inr other ↦ rw other ((λ h. cc), delete_rule-IsGone now ids rules)
    | inl same ↦ elim (Bool-cases (is_null r.deleted_at)) [
      | inl live ↦
          rw (same, live) ((λ _. deleted_at_set r.deleted_at now), delete_rule-IsGone now ids rules)
      | inr dead ↦
          rw (same, dead) ((λ _. deleted_at_set r.deleted_at now), delete_rule-IsGone now ids rules)
    ]
  ]

  delete_rule-others :
      (now : ℕ) (ids : List String) (rules : List (RuleRow N))
      → keep (λ r. not (r.id == id)) (delete_rule id now ids rules).1
        ≡ keep (λ r. not (r.id == id)) rules
  unfolding delete_rule delete_row
  delete_rule-others now ids [] = refl
  delete_rule-others now ids (r ∷ rules) = ground (arith, delete_rule-others now ids rules)

  -- What is active for an event is none of the deleted rule's rows.
  kept_apart :
      (event_type service_name : String) (rules : List (RuleRow N))
      → All IsGone rules
      → All (λ r. (r.id == id) ≡ false) (keep (is_active_for event_type service_name) rules)
  unfolding is_active_for
  kept_apart event_type service_name [] h = tt
  kept_apart event_type service_name (r ∷ rules) (gone, h) =
      elim (Bool-cases (is_active_for event_type service_name r)) [
        | inr off ↦ rw off (kept_apart event_type service_name rules h)
        | inl on ↦ rw on (not_this r gone on, kept_apart event_type service_name rules h)
      ]
    where
      not_this :
          (r : RuleRow N)
          → IsGone r
          → is_active_for event_type service_name r ≡ true
          → (r.id == id) ≡ false
      not_this r gone on = elim (Bool-cases (r.id == id)) [
        | inl same ↦ absurd (let dead = gone same in ground arith)
        | inr apart ↦ apart
      ]

module _ {N : Type 0} (env : Env) (id : String) where
  counted_removal_ok :
      (count : ℕ) (w : World N)
      → (counted_removal count w).0 ≡ ok tt
      → counted_removal count w ≡ (ok tt, w)
  unfolding throw pure
  counted_removal_ok zero w h = cc
  counted_removal_ok (suc count) w h = refl

  delete_all_ok :
      (ids : List String) (w : World N) {count : ℕ}
      → (delete_all env id ids w).0 ≡ ok count
      → (delete_all env id ids w).1.rules ≡ (delete_rule id (env.now w.calls) ids w.rules).1
  unfolding delete_all
  delete_all_ok ids w h = let (_, after) = call_ok env _ w h in rw after refl

  read_ids_ok :
      (w : World N) {ids : List String}
      → (read_ids env id w).0 ≡ ok ids
      → (read_ids env id w).1.rules ≡ w.rules
  unfolding read_ids
  read_ids_ok w h = let (_, after) = call_ok env _ w h in rw after refl

  -- The table after a soft delete that returned.
  soft_delete_ok :
      (w : World N) {count : ℕ}
      → (soft_delete env id w).0 ≡ ok count
      → (now : ℕ) × (ids : List String) × ((soft_delete env id w).1.rules
          ≡ (delete_rule id now ids w.rules).1)
  unfolding soft_delete
  soft_delete_ok w h =
      let (ids, read, same) = bind_ok (read_ids env id) (delete_all env id) w h in
      let v : World N = (read_ids env id w).1 in
      (
        env.now v.calls,
        ids,
        ap (λ p. p.1.rules) same
            ∙ delete_all_ok ids v (sym (ap (λ p. p.0) same) ∙ h)
            ∙ ap (λ rules. (delete_rule id (env.now v.calls) ids rules).1) (read_ids_ok w read),
      )

  remove_ok :
      (w : World N)
      → (remove env id w).0 ≡ ok tt
      → (now : ℕ) × (ids : List String) × ((remove env id w).1.rules
          ≡ (delete_rule id now ids w.rules).1)
  unfolding remove
  remove_ok w h =
      let (count, deleted, same) = bind_ok (soft_delete env id) counted_removal w h in
      let (now, ids, table) = soft_delete_ok w deleted in
      (
        now,
        ids,
        ap (λ p. p.1.rules)
              (same
                ∙ counted_removal_ok count (soft_delete env id w).1 (sym (ap (λ p. p.0) same) ∙ h))
            ∙ table,
      )

-- A rule that was removed is never returned to the engine again, for any event and service; every
-- row of another rule is what it was. This holds whenever `remove` returns.
pub remove_lem :
    {N : Type 0} (env : Env) (id event_type service_name : String) (w : World N)
    → (remove env id w).0 ≡ ok tt
    → All
        (λ r. (r.id == id) ≡ false)
        (find_active event_type service_name (remove env id w).1.rules)
      × (keep (λ r. not (r.id == id)) (remove env id w).1.rules
          ≡ keep (λ r. not (r.id == id)) w.rules)
unfolding find_active include_relations
remove_lem env id event_type service_name w h =
    let (now, ids, table) = remove_ok env id w h in
    rw table (
      All-mapped include_relations (λ r. (r.id == id) ≡ false) _
          (All-sort_by (λ r. r.priority) _ _
            (kept_apart id event_type service_name _ (delete_rule-IsGone id now ids w.rules))),
      delete_rule-others id now ids w.rules,
    )
