-- ===== src/Rule/Service/Update/Laws.antt =====
-- Which ids the final conditions of an update have.
use backend_task_management.Base.{
  ℕ, ◌+◌, ◌-◌, ◌≤◌, String, ◌==◌, ◌≡◌, refl, ap, ◌&&◌, Bool, true, false, Option, none, some, List,
  [], ◌∷◌, ◌++◌, non_empty, if◌then◌else◌, ◌<|>◌, any, Bool-cases, inl, inr, arith, eq_iff, subst,
}
use backend_task_management.Rule.Types.{RuntimeCondition}
use backend_task_management.Rule.Rows.{ConditionRow}
use backend_task_management.Rule.Mapper.Conditions.{is_delete_condition, rows_to_conditions}
use backend_task_management.Rule.Service.Update.{
  same_id, has_text, remove_first, merge_first, apply_operation, apply_operations,
  compute_final_conditions,
}

same_id_trans :
    (a b : Option String) (s : String)
    → same_id a b ≡ true
    → same_id a (some s) ≡ same_id b (some s)
same_id_trans none none s h = refl
same_id_trans none (some b) s h = ground arith
same_id_trans (some a) none s h = ground arith
same_id_trans (some a) (some b) s h = ap (λ x. x == s) ((eq_iff a b).0 h)

same_id-some : (o : Option String) (s : String) → same_id o (some s) ≡ true → o ≡ some s
same_id-some none s h = ground arith
same_id-some (some a) s h = ap some ((eq_iff a s).0 h)

kept_id : (o p : Option String) → has_text o ≡ true → (o <|> p) ≡ o
kept_id none p h = ground arith
kept_id (some a) p h = refl

no_text-same_id :
    (o : Option String) (s : String)
    → has_text o ≡ false
    → non_empty s ≡ true
    → same_id o (some s) ≡ false
no_text-same_id none s h n = refl
no_text-same_id (some a) s h n = elim (Bool-cases (a == s)) [
  | inl e ↦
      let absurd : non_empty s ≡ false = subst (λ x. non_empty x ≡ false) ((eq_iff a s).0 e) h in
      ground arith
  | inr e ↦ e
]

module _ {N : Type 0} where
  -- How often an id occurs.
  abbrev pub count : String → List (RuntimeCondition N) → ℕ
  count s [] = 0
  count s (c ∷ cs) = (if same_id c.id (some s) then 1 else 0) + count s cs

  -- An operation that deletes the id.
  abbrev pub deletes : String → RuntimeCondition N → Bool
  deletes s op = is_delete_condition op && same_id op.id (some s)

  count-append :
      (s : String) (xs ys : List (RuntimeCondition N))
      → count s (xs ++ ys) ≡ count s xs + count s ys
  count-append s [] ys = omega arith
  count-append s (c ∷ xs) ys = omega (arith, count-append s xs ys)

  count_single :
      (s : String) (op : RuntimeCondition N)
      → same_id op.id (some s) ≡ false
      → count s (op ∷ []) ≡ 0
  count_single s op h = ground arith

  count-remove_first :
      (s : String) (id : Option String) (cs : List (RuntimeCondition N))
      → count s (remove_first id cs) ≡ (if same_id id (some s) then count s cs - 1 else count s cs)
  count-remove_first s id [] = ground arith
  count-remove_first s id (c ∷ cs) = elim (Bool-cases (same_id c.id id)) [
    | inl h ↦
        let same : same_id c.id (some s) ≡ same_id id (some s) = same_id_trans c.id id s h in
        ground (arith, same)
    | inr h ↦
        let rest = count-remove_first s id cs in
        elim (Bool-cases (same_id id (some s))) [
          | inl k ↦
              let other : same_id c.id (some s) ≡ false =
                subst (λ i. same_id c.id i ≡ false) (same_id-some id s k) h in
              ground (arith, rest)
          | inr k ↦ ground (arith, rest)
        ]
  ]

  count-merge_first :
      (s : String) (op : RuntimeCondition N) (cs : List (RuntimeCondition N))
      → has_text op.id ≡ true
      → count s (merge_first op cs) ≡ count s cs
  count-merge_first s op [] t = refl
  count-merge_first s op (c ∷ cs) t = elim (Bool-cases (same_id c.id op.id)) [
    | inl h ↦
        let same : same_id c.id (some s) ≡ same_id op.id (some s) = same_id_trans c.id op.id s h in
        let kept = kept_id op.id c.id t in ground (arith, same, kept)
    | inr h ↦ let rest = count-merge_first s op cs t in ground (arith, rest)
  ]

  -- One operation changes how often an id occurs only when it deletes the id.
  count-apply_operation :
      (s : String) (op : RuntimeCondition N) (cs : List (RuntimeCondition N))
      → non_empty s ≡ true
      → count s (apply_operation op cs) ≡ (if deletes s op then count s cs - 1 else count s cs)
  unfolding apply_operation
  count-apply_operation s op cs n = elim (Bool-cases (is_delete_condition op)) [
    | inl d ↦ rw d (count-remove_first s op.id cs)
    | inr d ↦ elim (Bool-cases (has_text op.id)) [
      | inl t ↦ rw (d, t) (count-merge_first s op cs t)
      | inr t ↦
          let other = no_text-same_id op.id s t n in
          rw (d, t) (omega (arith, count-append s cs (op ∷ []), count_single s op other))
    ]
  ]

  count-apply_operations :
      (s : String) (ops cs : List (RuntimeCondition N))
      → non_empty s ≡ true
      → count s cs ≤ 1
      → count s (apply_operations ops cs) ≡ (if any (deletes s) ops then 0 else count s cs)
  unfolding apply_operations
  count-apply_operations s [] cs n h = refl
  count-apply_operations s (op ∷ ops) cs n h =
      let step = count-apply_operation s op cs n in
      elim (Bool-cases (deletes s op)) [
        | inl d ↦
            let none_left : count s (apply_operation op cs) ≡ 0 = omega (arith, rw d at step) in
            let rest =
              count-apply_operations s ops (apply_operation op cs) n (omega (arith, none_left)) in
            rw d (ground (arith, none_left, rest))
        | inr d ↦
            let same : count s (apply_operation op cs) ≡ count s cs = rw d at step in
            let rest =
              count-apply_operations s ops (apply_operation op cs) n (omega (arith, same)) in
            rw d (ground (arith, same, rest))
      ]

  -- Let an id that is not empty occur at most once among the stored conditions of a rule. Among
  -- the final conditions that an update predicts, it does not occur when one of the operations
  -- deletes it, and occurs as often as before when none does.
  pub compute_final_conditions_lem :
      (s : String) (stored : List (ConditionRow N)) (ops : List (RuntimeCondition N))
      → non_empty s ≡ true
      → count s (rows_to_conditions stored) ≤ 1
      → count s (compute_final_conditions stored (some ops))
        ≡ (if any (deletes s) ops then 0 else count s (rows_to_conditions stored))
  unfolding compute_final_conditions
  compute_final_conditions_lem s stored ops n h =
      count-apply_operations s ops (rows_to_conditions stored) n h
