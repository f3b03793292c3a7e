-- ===== src/Common/SoftDelete.antt =====
-- database/extensions/soft-delete.extension.ts: the reads of the soft-deleted models.
use backend_task_management.Base.{
  ℕ, Bool, true, false, ◌&&◌, Option, none, some, List, [], ◌∷◌, keep, length, if◌then◌else◌,
}
use backend_task_management.Rule.Repository.{is_null}

pub data Model : Type 0 where
  user_model admin_model file_model other_model : Model

-- `SOFT_DELETE_MODELS.has(model)`
abbrev soft_deletes : Model → Bool
soft_deletes user_model = true
soft_deletes admin_model = true
soft_deletes file_model = true
soft_deletes other_model = false

-- A `where`: its own condition on `deletedAt`, when it has one, and the rest.
pub record Where (A : Type 0) : Type 0 where
  pub on_deleted : Option (Option ℕ → Bool)
  pub rest : A → Bool

-- `{ deletedAt: null, ...where }.deletedAt`
abbrev with_default : Option (Option ℕ → Bool) → Option (Option ℕ → Bool)
with_default none = some is_null
with_default (some p) = some p

abbrev deleted_fits : Option (Option ℕ → Bool) → Option ℕ → Bool
deleted_fits none at = true
deleted_fits (some p) at = p at

module _ {A : Type 0} where
  -- A `where` that does not name `deletedAt`.
  abbrev pub only : (A → Bool) → Where A
  only p = record { on_deleted = none; rest = p }

  unfoldable pub scoped : Where A → Where A
  scoped wanted = record wanted { on_deleted = with_default wanted.on_deleted }

  abbrev pub first_match : (A → Bool) → List A → Option A
  first_match p [] = none
  first_match p (a ∷ rows) = let rest = first_match p rows in if p a then some a else rest

  module _ (model : Model) (deleted_at : A → Option ℕ) where
    abbrev pub fits : Where A → A → Bool
    fits wanted a = deleted_fits wanted.on_deleted (deleted_at a) && wanted.rest a

    abbrev pub read_with : Where A → Where A
    read_with wanted = if soft_deletes model then scoped wanted else wanted

    -- `findMany`, whose caller may pass `withDeleted`.
    unfoldable pub find_many : Bool → Where A → List A → List A
    unfolding scoped
    find_many with_deleted wanted rows =
        if with_deleted && soft_deletes model
        then keep (fits wanted) rows
        else keep (fits (read_with wanted)) rows

    -- `findFirst`
    unfoldable pub find_first : Where A → List A → Option A
    unfolding scoped
    find_first wanted rows = first_match (fits (read_with wanted)) rows

    -- `count`
    unfoldable pub count : Where A → List A → ℕ
    unfolding scoped
    count wanted rows = length (keep (fits (read_with wanted)) rows)
