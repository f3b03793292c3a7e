-- ===== src/Files/Laws.antt =====
-- What a confirmed upload leaves behind.
use backend_task_management.Base.{
  ◌≡◌, refl, sym, ap, ◌∙◌, subst, String, ◌==◌, ◌&&◌, Bool, true, false, Option, none, some, List,
  [], keep, any, Bool-cases, inl, inr, non_empty, get_or, eq_iff,
}
use backend_task_management.Automation.World.{World, Exec, pure, lift, call, ◌>>=◌, ◌>>◌}
use backend_task_management.Automation.World.Keeps.{
  counted, Keeps, Keeps-call, Keeps-pure, Keeps-throw, Keeps-lift, Keeps-bind, Keeps-then, call_at,
  bind_at,
}
use backend_task_management.Automation.World.Inversion.{bind_cases, call_ok}
use backend_task_management.Files.Rows.{File, FileJob, process_uploaded}
use backend_task_management.Files.Service.{
  Tools, ConfirmUpload, confirm_upload, find_by_file_key, insert_file, new_file, unset_primary,
  is_primary_of, is_text, has_key, demote_others, demoting, refuse_existing, refuse_missing, truthy,
  add_job,
}
use backend_task_management.Files.Primary.{
  OnePrimary, unset_primary-keep, unset_primary-OnePrimary, cons-OnePrimary,
}

truthy-none :
    (id : String) (o : Option String) → truthy o ≡ none → non_empty id ≡ true → is_text id o ≡ false
truthy-none id none h filled = refl
truthy-none id (some s) h filled = elim (Bool-cases (non_empty s)) [
  | inl y ↦ let some_text : some s ≡ none = sym (rw y) ∙ h in cc
  | inr n ↦ elim (Bool-cases (s == id)) [
    | inl y ↦ let (same, _) = eq_iff s id in let both = sym n ∙ ap non_empty (same y) ∙ filled in cc
    | inr m ↦ m
  ]
]

truthy-some : (id i : String) (o : Option String) → truthy o ≡ some i → is_text id o ≡ true → i ≡ id
truthy-some id i none h t = cc
truthy-some id i (some s) h t = elim (Bool-cases (non_empty s)) [
  | inl y ↦
      let (same, _) = eq_iff s id in
      let here : some s ≡ some i = sym (rw y) ∙ h in let there : s ≡ i = cc in sym there ∙ same t
  | inr n ↦ let nothing : none ≡ some i = sym (rw n) ∙ h in cc
]

and_parts : (a b c : Bool) → a && (b && c) ≡ true → (a ≡ true) × (b ≡ true) × (c ≡ true)
and_parts true true true h = (refl, refl, refl)
and_parts true true false h = cc
and_parts true false c h = cc
and_parts false b c h = cc

needs :
    (dto : ConfirmUpload) (id type : String)
    → (is_text id dto.entity_id && (is_text type dto.entity_type && get_or dto.is_primary false))
      ≡ true
    → (is_text id dto.entity_id ≡ true)
      × (is_text type dto.entity_type ≡ true)
      × (get_or dto.is_primary false ≡ true)
needs dto id type h =
    and_parts (is_text id dto.entity_id) (is_text type dto.entity_type)
      (get_or dto.is_primary false) h

demoted_alone :
    (i t id type : String) (files : List File)
    → i ≡ id
    → t ≡ type
    → keep (is_primary_of id type) (unset_primary i t files) ≡ []
demoted_alone i t id type files a b =
    subst (λ s. keep (is_primary_of s type) (unset_primary i t files) ≡ []) a
      (subst (λ s. keep (is_primary_of i s) (unset_primary i t files) ≡ []) b
        (unset_primary-keep i t files))

abbrev HasOnePrimary : {N : Type 0} → World N → Type 0
HasOnePrimary w = OnePrimary w.files

module _ {N : Type 0} (tools : Tools) (dto : ConfirmUpload) where
  -- No other file stands in the way of a new primary one.
  abbrev IsReady : World N → Type 0
  IsReady w =
      OnePrimary w.files
      × ((id type : String)
          → non_empty id ≡ true
          → non_empty type ≡ true
          → (is_text id dto.entity_id
              && (is_text type dto.entity_type && get_or dto.is_primary false))
            ≡ true
          → keep (is_primary_of id type) w.files ≡ [])

  insert_file-OnePrimary : (w : World N) → IsReady w → HasOnePrimary (insert_file tools dto w).1
  unfolding insert_file new_file
  insert_file-OnePrimary w (one, alone) = elim (Bool-cases (any (has_key dto.file_key) w.files)) [
    | inl y ↦ rw y one
    | inr n ↦ rw n (cons-OnePrimary (new_file tools (tools.file_id w.files) dto) w.files one alone)
  ]

  -- The insertion and what follows it.
  abbrev insertion : Exec N File
  insertion = do
    answer ← call tools.env (λ now w. insert_file tools dto w)
    file ← lift answer
    add_job tools (process_uploaded file.id file.path file.mimetype)
    pure file

  add_job-Keeps : (job : FileJob) → Keeps {N = N} HasOnePrimary (add_job tools job)
  add_job-Keeps job = Keeps-call tools.env _ (λ w h. h) (λ t w h. h)

  insertion-OnePrimary : (w : World N) → IsReady w → HasOnePrimary (insertion w).1
  insertion-OnePrimary w ready =
      bind_at HasOnePrimary _ _ w
        (call_at HasOnePrimary tools.env (λ now u. insert_file tools dto u) w ready.0
          (insert_file-OnePrimary (counted w) ready))
        (λ answer.
          Keeps-bind _ _ (Keeps-lift answer)
            λ file. Keeps-then _ _ (add_job-Keeps _) (Keeps-pure file))

  demoting-OnePrimary : (id type : String) → Keeps {N = N} HasOnePrimary (demoting tools id type)
  demoting-OnePrimary id type =
      Keeps-call tools.env _ (λ w h. h) (λ t w h. unset_primary-OnePrimary id type w.files h)

  -- The primary file of the entity, and what follows.
  abbrev placing : Exec N File
  placing =
      demote_others tools (get_or dto.is_primary false) (truthy dto.entity_id)
        (truthy dto.entity_type)
      >> insertion

  placing_with :
      (p : Bool) (i t : Option String)
      → get_or dto.is_primary false ≡ p
      → truthy dto.entity_id ≡ i
      → truthy dto.entity_type ≡ t
      → (w : World N) → HasOnePrimary w
      → HasOnePrimary ((demote_others tools p i t >> insertion) w).1
  unfolding pure ◌>>=◌ ◌>>◌
  placing_with false i t p e f w one = insertion-OnePrimary w (
    one,
    λ id type a b h.
        let (_, _, primary) = needs dto id type h in
        let never : true ≡ false = sym primary ∙ p in cc,
  )
  placing_with true none t p e f w one = insertion-OnePrimary w (
    one,
    λ id type a b h.
        let (here, _, _) = needs dto id type h in
        let never : true ≡ false = sym here ∙ truthy-none id dto.entity_id e a in cc,
  )
  placing_with true (some i) none p e f w one = insertion-OnePrimary w (
    one,
    λ id type a b h.
        let (_, here, _) = needs dto id type h in
        let never : true ≡ false = sym here ∙ truthy-none type dto.entity_type f b in cc,
  )
  placing_with true (some i) (some t) p e f w one =
      elim (bind_cases (demoting tools i t) (λ _. insertion) w) [
        | inl (a, answered, there) ↦
            let (_, found) =
              call_ok tools.env (λ now u. (tt, record u { files = unset_primary i t u.files })) w
                answered in
            let files = ap (λ r. r.1.files) found in
            subst HasOnePrimary (sym (ap (λ r. r.1) there)) (
              insertion-OnePrimary (demoting tools i t w).1 (
                (demoting-OnePrimary i t).at w one,
                λ id type a b h.
                    let (here, there, _) = needs dto id type h in
                    ap (keep (is_primary_of id type)) files
                    ∙ demoted_alone i t id type w.files (truthy-some id i dto.entity_id e here)
                        (truthy-some type t dto.entity_type f there),
              ))
        | inr (_, _, there) ↦
            subst HasOnePrimary (sym (ap (λ r. r.1) there)) ((demoting-OnePrimary i t).at w one)
      ]

  placing-Keeps : Keeps HasOnePrimary placing
  placing-Keeps = record { at = placing_with _ _ _ refl refl refl }

  refuse_existing-Keeps : (o : Option File) → Keeps {N = N} HasOnePrimary (refuse_existing tools o)
  refuse_existing-Keeps none = Keeps-pure _
  refuse_existing-Keeps (some _) = Keeps-throw _

  refuse_missing-Keeps : (b : Bool) → Keeps {N = N} HasOnePrimary (refuse_missing tools b)
  refuse_missing-Keeps true = Keeps-pure _
  refuse_missing-Keeps false = Keeps-throw _

  query-Keeps :
      {A : Type 0} (g : World N → A) → Keeps HasOnePrimary (call tools.env (λ now w. (g w, w)))
  query-Keeps g = Keeps-call tools.env _ (λ w h. h) (λ t w h. h)

  -- In any environment, whether it returns or throws, the confirmation of an upload leaves every
  -- entity with at most one primary file, if every entity had at most one before.
  pub confirm_upload-OnePrimary :
      (w : World N) → OnePrimary w.files → OnePrimary (confirm_upload tools dto w).1.files
  unfolding confirm_upload find_by_file_key
  confirm_upload-OnePrimary w one =
      let keeps : Keeps HasOnePrimary (confirm_upload tools dto) =
        Keeps-bind _ _ (query-Keeps _) λ existing. Keeps-then _ _ (refuse_existing-Keeps existing) (
          Keeps-bind _ _ (query-Keeps _) λ uploaded.
            Keeps-then _ _ (refuse_missing-Keeps uploaded)
              (Keeps-then _ _ (Keeps-lift _) placing-Keeps)) in
      keeps.at w one
