-- ===== src/Automation/Engine/Redelivery.antt =====
-- A job that is delivered again: what was completed is not done twice.
use backend_task_management.Base.{
  ℕ, String, ◌==◌, ◌≡◌, ◌≢◌, refl, sym, subst, ap, ◌∙◌, inl, inr, some, List, [], ◌∷◌, All, All-map,
  Bool-cases, eq_iff,
}
use backend_task_management.Common.Errors.{ok, ok-injective}
use backend_task_management.Js.Value.{Numbers}
use backend_task_management.Automation.Constants.{processing, completed}
use backend_task_management.Automation.Event.{Event}
use backend_task_management.Automation.World.{World, Env, Exec, pure, call}
use backend_task_management.Automation.World.Keeps.{Keeps, counted, Keeps-call}
use backend_task_management.Automation.World.Inversion.{
  then_ok, then_cases, bind_ok, bind_cases, call_ok,
}
use backend_task_management.Automation.Idempotency.{acquire}
use backend_task_management.Automation.Idempotency.Table.{AcquireInput, find, status_of}
use backend_task_management.Automation.Idempotency.Laws.{IsCompleted}
use backend_task_management.Automation.Template.{resolve_action}
use backend_task_management.Automation.Engine.{
  Wiring, build_idempotency_key, acquire_input, perform, run_action, run_actions, execute_rule,
  execute_rules, matched_rules, process,
}
use backend_task_management.Automation.Engine.Attempt.Laws.{
  attempt_ok, attempt_idle, attempt-HasRow, attempt-IsCompleted,
}
use backend_task_management.Automation.Engine.Effects.{
  perform_spares, run_actions-Keeps, execute_rules-Keeps, process-rules,
}
use backend_task_management.Rule.Types.{ActionConfig, RuntimeRule}

-- Nothing was sent and nothing was logged as sent between two worlds.
abbrev pub Quiet : {N : Type 0} → World N → World N → Type 0
Quiet w v =
    (v.sent ≡ w.sent) × (v.email_logs ≡ w.email_logs) × (v.notification_logs ≡ w.notification_logs)

-- No worker holds the key.
abbrev pub IsFree : {N : Type 0} → String → World N → Type 0
IsFree key w = status_of (find key w.keys) ≢ some processing

acquire-Quiet :
    {N : Type 0} (env : Env) (ttl : ℕ) (input : AcquireInput) (u : World N)
    → Keeps (Quiet u) (acquire env ttl input)
unfolding acquire
acquire-Quiet env ttl input u = Keeps-call env _ (λ w h. h) (λ t w h. h)

module _ (js : Numbers) (sys : Wiring js.Num) (event : Event js.Num) where
  -- The key under which an action of a rule is done for the event.
  abbrev pub action_key : RuntimeRule js.Num → ActionConfig js.Num → String
  action_key rule action = (acquire_input js sys rule event (resolve_action js event action)).key

  -- Every key of the actions of some rules.
  abbrev pub EveryKey : (String → Type 0) → List (RuntimeRule js.Num) → Type 0
  EveryKey P rules = All (λ rule. All (λ action. P (action_key rule action)) rule.actions) rules

  run_action-IsCompleted :
      (key : String) (rule : RuntimeRule js.Num) (action : ActionConfig js.Num)
      → Keeps (IsCompleted key) (run_action js sys rule event action)
  unfolding run_action
  run_action-IsCompleted key rule action =
      attempt-IsCompleted sys.env sys.lock_ttl _ _ key (perform_spares js sys rule event _)

  run_action-Quiet :
      (rule : RuntimeRule js.Num) (action : ActionConfig js.Num) (u w : World js.Num)
      → IsCompleted (action_key rule action) w
      → Quiet u w
      → Quiet u (run_action js sys rule event action w).1
  unfolding run_action
  run_action-Quiet rule action u w h q =
      rw
        (attempt_idle sys.env sys.lock_ttl
          (acquire_input js sys rule event (resolve_action js event action))
          (perform js sys rule event (resolve_action js event action)) w h)
        ((acquire-Quiet sys.env sys.lock_ttl _ u).at w q)

  run_actions-Quiet :
      (rule : RuntimeRule js.Num) (actions : List (ActionConfig js.Num)) (u w : World js.Num)
      → All (λ action. IsCompleted (action_key rule action) w) actions
      → Quiet u w
      → Quiet u (run_actions js sys rule event actions w).1
  unfolding run_actions pure
  run_actions-Quiet rule [] u w h q = q
  run_actions-Quiet rule (a ∷ actions) u w (h, hs) q =
      elim (then_cases (run_action js sys rule event a) (run_actions js sys rule event actions) w) [
        | inl same ↦ rw same (
            run_actions-Quiet rule actions u _
              (All-map (λ b. (run_action-IsCompleted (action_key rule b) rule a).at w) actions hs)
              (run_action-Quiet rule a u w h q))
        | inr (e, same) ↦ rw same (run_action-Quiet rule a u w h q)
      ]

  execute_rules-Quiet :
      (rules : List (RuntimeRule js.Num)) (u w : World js.Num)
      → EveryKey (λ key. IsCompleted key w) rules
      → Quiet u w
      → Quiet u (execute_rules js sys rules event w).1
  unfolding execute_rules execute_rule pure
  execute_rules-Quiet [] u w h q = q
  execute_rules-Quiet (r ∷ rules) u w (h, hs) q =
      elim (then_cases (run_actions js sys r event r.actions) (execute_rules js sys rules event)
        w) [
          | inl same ↦ rw same (
              execute_rules-Quiet rules u _
                (All-map
                  (λ t.
                    All-map
                      (λ b.
                        (run_actions-Keeps js sys (IsCompleted (action_key t b)) event
                            (run_action-IsCompleted (action_key t b)) r r.actions).at
                          w)
                      t.actions)
                  rules hs)
                (run_actions-Quiet r r.actions u w h q))
          | inr (e, same) ↦ rw same (run_actions-Quiet r r.actions u w h q)
        ]

  -- When every action that the event calls for has been completed, processing the event again
  -- sends nothing and logs nothing, whatever the environment does to the calls.
  pub process-Quiet :
      (w : World js.Num)
      → EveryKey (λ key. IsCompleted key w) (matched_rules js sys event w)
      → Quiet w (process js sys event w).1
  unfolding process matched_rules
  process-Quiet w h =
      let read : Exec js.Num (List (RuntimeRule js.Num)) =
        call sys.env (λ now v. (matched_rules js sys event v, v)) in
      elim (bind_cases read (λ rules. execute_rules js sys rules event) w) [
        | inl (rules, e, same) ↦
            let (_, found) = call_ok sys.env _ w e in
            let is_matched : rules ≡ matched_rules js sys event w =
              ok-injective rules _ (sym e ∙ ap (λ p. p.0) found) in
            rw (same, found, is_matched) (execute_rules-Quiet _ w _ h (refl, refl, refl))
        | inr (_, _, same) ↦
            let unread : Quiet w w = (refl, refl, refl) in
            rw same (
              (Keeps-call {P = Quiet w} sys.env (λ now v. (matched_rules js sys event v, v))
                  (λ v q. q) (λ t v q. q)).at
                w unread)
      ]

  run_action_ok :
      (rule : RuntimeRule js.Num) (action : ActionConfig js.Num) (w : World js.Num)
      → IsFree (action_key rule action) w
      → (run_action js sys rule event action w).0 ≡ ok tt
      → IsCompleted (action_key rule action) (run_action js sys rule event action w).1
  unfolding run_action
  run_action_ok rule action w free h =
      attempt_ok sys.env sys.lock_ttl _ _ w (perform_spares js sys rule event _) free h

  run_action-IsFree :
      (key : String) (rule : RuntimeRule js.Num) (action : ActionConfig js.Num) (w : World js.Num)
      → (run_action js sys rule event action w).0 ≡ ok tt
      → IsFree key w
      → IsFree key (run_action js sys rule event action w).1
  unfolding run_action
  run_action-IsFree key rule action w h free = elim (Bool-cases (action_key rule action == key)) [
    | inl same ↦
        let e : action_key rule action ≡ key = (eq_iff _ key).0 same in
        let c = run_action_ok rule action w (subst (λ k. IsFree k w) (sym e) free) h in
        λ p.
          (let q =
              subst
                (λ k.
                  status_of (find k (run_action js sys rule event action w).1.keys)
                  ≡ some completed)
                e c in
            cc)
    | inr apart ↦
        rw
          ((attempt-HasRow sys.env key (find key w.keys) sys.lock_ttl
              (acquire_input js sys rule event (resolve_action js event action))
              (perform js sys rule event (resolve_action js event action)) apart
              (record {
                at = λ v r.
                    ap (find key)
                      (perform_spares js sys rule event (resolve_action js event action) v)
                    ∙ r;
              })).at
            w refl)
          free
  ]

  run_actions_ok :
      (rule : RuntimeRule js.Num) (actions : List (ActionConfig js.Num)) (w : World js.Num)
      → All (λ action. IsFree (action_key rule action) w) actions
      → (run_actions js sys rule event actions w).0 ≡ ok tt
      → All
          (λ action.
            IsCompleted (action_key rule action) (run_actions js sys rule event actions w).1)
          actions
  unfolding run_actions
  run_actions_ok rule [] w free h = tt
  run_actions_ok rule (a ∷ actions) w (free, rest) h =
      let (_, e, same) =
        then_ok (run_action js sys rule event a) (run_actions js sys rule event actions) w h in
      subst (λ p. All (λ b. IsCompleted (action_key rule b) p.1) (a ∷ actions)) (sym same)
        (
          (run_actions-Keeps js sys (IsCompleted (action_key rule a)) event
                (run_action-IsCompleted (action_key rule a)) rule actions).at
              _ (run_action_ok rule a w free e),
          run_actions_ok rule actions (run_action js sys rule event a w).1
              (All-map (λ b. run_action-IsFree (action_key rule b) rule a w e) actions rest)
              (sym (ap (λ p. p.0) same) ∙ h),
        )

  run_actions-IsFree :
      (key : String) (rule : RuntimeRule js.Num) (actions : List (ActionConfig js.Num))
      (w : World js.Num)
      → (run_actions js sys rule event actions w).0 ≡ ok tt
      → IsFree key w
      → IsFree key (run_actions js sys rule event actions w).1
  unfolding run_actions pure
  run_actions-IsFree key rule [] w h free = free
  run_actions-IsFree key rule (a ∷ actions) w h free =
      let (_, e, same) =
        then_ok (run_action js sys rule event a) (run_actions js sys rule event actions) w h in
      rw same (
        run_actions-IsFree key rule actions (run_action js sys rule event a w).1
          (sym (ap (λ p. p.0) same) ∙ h) (run_action-IsFree key rule a w e free))

  execute_rules_ok :
      (rules : List (RuntimeRule js.Num)) (w : World js.Num)
      → EveryKey (λ key. IsFree key w) rules
      → (execute_rules js sys rules event w).0 ≡ ok tt
      → EveryKey (λ key. IsCompleted key (execute_rules js sys rules event w).1) rules
  unfolding execute_rules execute_rule
  execute_rules_ok [] w free h = tt
  execute_rules_ok (r ∷ rules) w (free, rest) h =
      let (_, e, same) =
        then_ok (run_actions js sys r event r.actions) (execute_rules js sys rules event) w h in
      subst (λ p. EveryKey (λ key. IsCompleted key p.1) (r ∷ rules)) (sym same)
        (
          All-map
              (λ a.
                (execute_rules-Keeps js sys (IsCompleted (action_key r a)) event
                    (run_action-IsCompleted (action_key r a)) rules).at
                  _)
              r.actions (run_actions_ok r r.actions w free e),
          execute_rules_ok rules (run_actions js sys r event r.actions w).1
              (All-map
                (λ t. All-map (λ b. run_actions-IsFree (action_key t b) r r.actions w e) t.actions)
                rules rest)
              (sym (ap (λ p. p.0) same) ∙ h),
        )

  -- A run that returned, when no other worker held a key of its actions, completed every key.
  pub process_completes :
      (w : World js.Num)
      → EveryKey (λ key. IsFree key w) (matched_rules js sys event w)
      → (process js sys event w).0 ≡ ok tt
      → EveryKey (λ key. IsCompleted key (process js sys event w).1) (matched_rules js sys event w)
  unfolding process matched_rules
  process_completes w free h =
      let (rules, e, same) =
        bind_ok (call sys.env (λ now v. (matched_rules js sys event v, v)))
          (λ rules. execute_rules js sys rules event) w h in
      let (_, found) = call_ok sys.env _ w e in
      let is_matched : rules ≡ matched_rules js sys event w =
        ok-injective rules _ (sym e ∙ ap (λ p. p.0) found) in
      let after : (process js sys event w)
          ≡ execute_rules js sys (matched_rules js sys event w) event (counted w) =
        same
        ∙ ap (λ p. execute_rules js sys rules event p.1) found
        ∙ ap (λ rs. execute_rules js sys rs event (counted w)) is_matched in
      subst (λ p. EveryKey (λ key. IsCompleted key p.1) (matched_rules js sys event w)) (sym after)
        (execute_rules_ok (matched_rules js sys event w) (counted w) free
          (sym (ap (λ p. p.0) after) ∙ h))

-- A job that is delivered again after a run that returned sends nothing and logs nothing again:
-- when no other worker held a key of the actions that the event calls for, and the first run
-- returned, then a second run leaves the mails, pushes, requests and logs as they are, whatever
-- the environment does to its calls.
pub redelivery :
    (js : Numbers) (sys : Wiring js.Num) (later : Env) (event : Event js.Num) (w : World js.Num)
    → EveryKey js sys event (λ key. IsFree key w) (matched_rules js sys event w)
    → (process js sys event w).0 ≡ ok tt
    → Quiet
        (process js sys event w).1
        (process js (record sys { env = later }) event (process js sys event w).1).1
unfolding matched_rules acquire_input build_idempotency_key
redelivery js sys later event w free h =
    let unchanged : (process js sys event w).1.rules ≡ w.rules =
      (process-rules js sys event w.rules).at w refl in
    process-Quiet js (record sys { env = later }) event (process js sys event w).1
      (subst
        (λ rs.
          EveryKey js sys event (λ key. IsCompleted key (process js sys event w).1)
            (matched_rules js sys event (record w { rules = rs })))
        (sym unchanged) (process_completes js sys event w free h))
