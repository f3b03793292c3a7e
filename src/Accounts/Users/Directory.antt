-- ===== src/Accounts/Users/Directory.antt =====
-- What modules/user promises: a directory of the users that are not removed, by their ids.
pub mod Rows
pub mod Refinement
pub mod Operations
pub mod Laws
use backend_task_management.Base.{
  ◌≡◌, String, ◌==◌, Bool, true, false, Option, none, some, List, if◌then◌else◌, ◌⊎◌,
}
use backend_task_management.Common.Errors.{Result, ok}
use backend_task_management.Automation.World.{World, Exec}
use backend_task_management.Accounts.Rows.{User}
use backend_task_management.Accounts.Users.{Tools, CreateUser, UpdateUser, UserView, given_text}
use backend_task_management.Accounts.Users.Store.{
  first_user, has_id, new_user, changed_user, clashes, clashes_update,
}
use backend_task_management.Accounts.Users.Service.{create, update, remove, find_one}

abbrev pub Directory : Type 0
Directory = String → Option User

-- The directory that a table shows, which forgets the rows of removed users and the order.
unfoldable pub directory : List User → Directory
unfolding first_user
directory users id = first_user (has_id id) users

abbrev pub put : Directory → String → Option User → Directory
put d id entry i = if id == i then entry else d i

-- No user of the directory has a property.
abbrev pub NoUser : Directory → (User → Bool) → Type 0
NoUser d p = (i : String) (u : User) → d i ≡ some u → p u ≡ false

pub data Operation : Type 0 where
  creating : CreateUser → Operation
  updating : String → UpdateUser → Operation
  removing reading : String → Operation

-- The steps of the directory.
pub data Step (before after : Directory) : Operation → Type 0 where
  added :
      (dto : CreateUser) (id hashed : String)
      → NoUser before (clashes id dto.email dto.username)
      → ((i : String) → after i ≡ put before id (some (new_user id dto hashed)) i)
      → Step before after (creating dto)
  changed :
      (id : String) (dto : UpdateUser) (hashed : Option String) (u : User)
      → before id ≡ some u
      → NoUser before (clashes_update id dto)
      → ((i : String) → after i ≡ put before id (some (changed_user dto hashed u)) i)
      → Step before after (updating id dto)
  dropped :
      (id : String) (u : User)
      → before id ≡ some u
      → ((i : String) → after i ≡ put before id none i)
      → Step before after (removing id)
  looked :
      (id : String) (u : User)
      → before id ≡ some u
      → ((i : String) → after i ≡ before i)
      → Step before after (reading id)

module _ {N : Type 0} (tools : Tools) where
  unfoldable pub perform : Operation → Exec N UserView
  unfolding create update remove find_one
  perform (creating dto) = create tools dto
  perform (updating id dto) = update tools id dto
  perform (removing id) = remove tools id
  perform (reading id) = find_one tools id

-- How an operation ended: as a step of the directory, or with an error before or after it.
abbrev pub Refines : {N A : Type 0} → Operation → List User → Result A × World N → Type 0
Refines {N} {A} operation users end =
    (((i : String) → directory end.1.users i ≡ directory users i)
      ⊎ Step (directory users) (directory end.1.users) operation)
    × ((a : A) → end.0 ≡ ok a → Step (directory users) (directory end.1.users) operation)
