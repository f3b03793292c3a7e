-- ===== src/Rule/Repository/Laws.antt =====
-- What the engine's read returns, and in which order.
use backend_task_management.Base.{
  ℕ, suc, String, ◌&&◌, ◌==◌, ◌≡◌, ◌≢◌, Option, none, some, eq_iff, eq_refl, ◌≤◌, refl, ◌∙◌, Bool,
  true, List, [], ◌∷◌, map, keep, leb, length, All, All-map, arith, Bool-cases, inl, inr,
}
use backend_task_management.Rule.Rows.{ActionRow, RuleRow}
use backend_task_management.Rule.Repository.{
  insert_by, sort_by, is_null, service_fits, with_live_configs, include_relations, is_active_for,
  find_active,
}

module _ {A : Type 0} (key : A → ℕ) where
  -- Each key is at most the next one.
  pub data IsSorted : List A → Type 0 where
    none_left : IsSorted []
    one_left : (a : A) → IsSorted (a ∷ [])
    next : (a b : A) (rows : List A) → key a ≤ key b → IsSorted (b ∷ rows) → IsSorted (a ∷ b ∷ rows)

  insert_by-IsSorted_after :
      (b a : A) (rows : List A)
      → key b ≤ key a
      → IsSorted (b ∷ rows)
      → IsSorted (b ∷ insert_by key a rows)
  unfolding insert_by
  insert_by-IsSorted_after b a [] h s = next b a [] h (one_left a)
  insert_by-IsSorted_after b a (c ∷ rows) h (next _ _ _ k s) =
      elim (Bool-cases (leb (key a) (key c))) [
        | inl before ↦ rw before (next b a (c ∷ rows) h (next a c rows (ground arith) s))
        | inr after ↦ rw after (next b c _ k (insert_by-IsSorted_after c a rows (ground arith) s))
      ]

  insert_by-IsSorted : (a : A) (rows : List A) → IsSorted rows → IsSorted (insert_by key a rows)
  unfolding insert_by
  insert_by-IsSorted a [] s = one_left a
  insert_by-IsSorted a (b ∷ rows) s = elim (Bool-cases (leb (key a) (key b))) [
    | inl before ↦ rw before (next a b rows (ground arith) s)
    | inr after ↦ rw after (insert_by-IsSorted_after b a rows (ground arith) s)
  ]

  pub sort_by-IsSorted : (rows : List A) → IsSorted (sort_by key rows)
  unfolding sort_by
  sort_by-IsSorted [] = none_left
  sort_by-IsSorted (a ∷ rows) = insert_by-IsSorted a (sort_by key rows) (sort_by-IsSorted rows)

  All-insert_by :
      (P : A → Type 0) (a : A) (rows : List A) → P a → All P rows → All P (insert_by key a rows)
  unfolding insert_by
  All-insert_by P a [] p h = (p, tt)
  All-insert_by P a (b ∷ rows) p (q, h) = elim (Bool-cases (leb (key a) (key b))) [
    | inl before ↦ rw before (p, (q, h))
    | inr after ↦ rw after (q, All-insert_by P a rows p h)
  ]

  pub All-sort_by : (P : A → Type 0) (rows : List A) → All P rows → All P (sort_by key rows)
  unfolding sort_by
  All-sort_by P [] h = tt
  All-sort_by P (a ∷ rows) (p, h) = All-insert_by P a (sort_by key rows) p (All-sort_by P rows h)

  length-insert_by : (a : A) (rows : List A) → length (insert_by key a rows) ≡ suc (length rows)
  unfolding insert_by
  length-insert_by a [] = refl
  length-insert_by a (b ∷ rows) = ground (arith, length-insert_by a rows)

  length-sort_by : (rows : List A) → length (sort_by key rows) ≡ length rows
  unfolding sort_by
  length-sort_by [] = refl
  length-sort_by (a ∷ rows) =
      omega (arith, length-insert_by a (sort_by key rows), length-sort_by rows)

module _ {A : Type 0} (p : A → Bool) where
  pub All-keep : (rows : List A) → All (λ a. p a ≡ true) (keep p rows)
  All-keep [] = tt
  All-keep (a ∷ rows) = elim (Bool-cases (p a)) [
    | inl y ↦ rw y (y, All-keep rows)
    | inr n ↦ rw n (All-keep rows)
  ]

module _ {A B : Type 0} (f : A → B) where
  pub All-mapped : (P : B → Type 0) (rows : List A) → All (λ a. P (f a)) rows → All P (map f rows)
  All-mapped P [] h = tt
  All-mapped P (a ∷ rows) (p, h) = (p, All-mapped P rows h)

  length-map : (rows : List A) → length (map f rows) ≡ length rows
  length-map [] = refl
  length-map (a ∷ rows) = omega (arith, length-map rows)

  map-IsSorted :
      (key : A → ℕ) (key' : B → ℕ)
      → ((a : A) → key' (f a) ≡ key a)
      → {rows : List A} → IsSorted key rows
      → IsSorted key' (map f rows)
  map-IsSorted key key' same none_left = none_left
  map-IsSorted key key' same (one_left a) = one_left (f a)
  map-IsSorted key key' same (next a b rows h s) =
      next (f a) (f b) (map f rows) (rw (same a, same b) h) (map-IsSorted key key' same s)

is_null-none : {A : Type 0} (o : Option A) → is_null o ≡ true → o ≡ none
is_null-none none h = refl
is_null-none (some a) h = cc

service_fits-some :
    (wanted : String) (actual : Option String)
    → service_fits wanted actual ≡ true
    → wanted ≢ ""
    → actual ≡ some wanted
service_fits-some wanted none h k = ground (arith, eq_iff wanted "")
service_fits-some wanted (some s) h k = ground (arith, eq_iff wanted "", eq_iff s wanted)

service_fits-true :
    (wanted : String) (actual : Option String)
    → (wanted ≢ "" → actual ≡ some wanted)
    → service_fits wanted actual ≡ true
service_fits-true wanted actual h = elim (Bool-cases (wanted == "")) [
  | inl y ↦ rw y refl
  | inr n ↦
      let same : actual ≡ some wanted = h (λ e. ground (arith, eq_iff wanted "")) in
      rw (n, same) (eq_refl wanted)
]

module _ {N : Type 0} where
  -- A rule for the event that is switched on and not deleted, and that is the named service's when
  -- the event names one.
  abbrev pub IsFor : String → String → RuleRow N → Type 0
  IsFor event_type service_name r =
      (r.event_type ≡ event_type)
      × (r.is_active ≡ true)
      × (r.deleted_at ≡ none)
      × (service_name ≢ "" → r.service_name ≡ some service_name)

  is_active_for-IsFor :
      (event_type service_name : String) (r : RuleRow N)
      → is_active_for event_type service_name r ≡ true
      → IsFor event_type service_name r
  unfolding is_active_for
  is_active_for-IsFor event_type service_name r h =
      let live : is_null r.deleted_at ≡ true = ground arith in
      let fits : service_fits service_name r.service_name ≡ true = ground arith in
      (
        ground (arith, eq_iff r.event_type event_type),
        ground arith,
        is_null-none r.deleted_at live,
        service_fits-some service_name r.service_name fits,
      )

  IsFor-is_active_for :
      (event_type service_name : String) (r : RuleRow N)
      → IsFor event_type service_name r
      → is_active_for event_type service_name r ≡ true
  unfolding is_active_for
  IsFor-is_active_for event_type service_name r (same, active, live, named) =
      rw
        (
          same,
          active,
          live,
          eq_refl event_type,
          service_fits-true service_name r.service_name named,
        )
        refl

  -- A rule row as the engine reads it: one for the event, with live conditions in order, and
  -- active live actions in order.
  abbrev pub IsServed : String → String → RuleRow N → Type 0
  IsServed event_type service_name r =
      IsFor event_type service_name r
      × All (λ c. c.deleted_at ≡ none) r.conditions
      × All (λ a. (a.is_active ≡ true) × (a.deleted_at ≡ none)) r.actions
      × IsSorted (λ c. c.sort_order) r.conditions
      × IsSorted (λ a. a.sort_order) r.actions

  live_action :
      (a : ActionRow N)
      → (a.is_active && is_null a.deleted_at) ≡ true
      → (a.is_active ≡ true) × (a.deleted_at ≡ none)
  live_action a h =
      let live : is_null a.deleted_at ≡ true = ground arith in
      (ground arith, is_null-none a.deleted_at live)

  include_relations-IsServed :
      (event_type service_name : String) (r : RuleRow N)
      → is_active_for event_type service_name r ≡ true
      → IsServed event_type service_name (include_relations r)
  unfolding include_relations
  include_relations-IsServed event_type service_name r h = (
    is_active_for-IsFor event_type service_name r h,
    All-sort_by (λ c. c.sort_order) _ _
        (All-map (λ c k. is_null-none c.deleted_at k) _
          (All-keep (λ c. is_null c.deleted_at) r.conditions)),
    All-mapped with_live_configs _ _ (
        All-sort_by (λ a. a.sort_order) _ _
          (All-map {P = λ (a : ActionRow N). (a.is_active && is_null a.deleted_at) ≡ true}
            live_action _ (All-keep (λ a. a.is_active && is_null a.deleted_at) r.actions))),
    sort_by-IsSorted (λ c. c.sort_order) (keep (λ c. is_null c.deleted_at) r.conditions),
    map-IsSorted with_live_configs (λ a. a.sort_order) (λ a. a.sort_order) (λ a. refl)
        (sort_by-IsSorted (λ a. a.sort_order)
          (keep (λ a. a.is_active && is_null a.deleted_at) r.actions)),
  )

  -- Each rule of the engine's read has the event's type, is active, not deleted, and of the event's
  -- service unless that is empty; its conditions are not deleted, its actions active and not
  -- deleted, both in the order of their columns. The rules come by ascending priority, as many as
  -- the table has rows that the `where` lets through, which are all rows that are such.
  pub find_active_lem :
      (event_type service_name : String) (rules : List (RuleRow N))
      → All (IsServed event_type service_name) (find_active event_type service_name rules)
        × IsSorted (λ r. r.priority) (find_active event_type service_name rules)
        × (length (find_active event_type service_name rules)
            ≡ length (keep (is_active_for event_type service_name) rules))
        × ((r : RuleRow N)
            → IsFor event_type service_name r
            → is_active_for event_type service_name r ≡ true)
  unfolding find_active include_relations
  find_active_lem event_type service_name rules = (
    All-mapped include_relations (IsServed event_type service_name) _ (
        All-map (include_relations-IsServed event_type service_name) _ (
          All-sort_by (λ r. r.priority) _ _
            (All-keep (is_active_for event_type service_name) rules))),
    map-IsSorted include_relations (λ r. r.priority) (λ r. r.priority) (λ r. refl)
        (sort_by-IsSorted (λ r. r.priority) (keep (is_active_for event_type service_name) rules)),
    length-map include_relations _
        ∙ length-sort_by (λ r. r.priority) (keep (is_active_for event_type service_name) rules),
    IsFor-is_active_for event_type service_name,
  )
