-- ===== src/Accounts/Users/Directory/Laws.antt =====
-- The user service implements the directory.
use backend_task_management.Base.{◌≡◌, refl, sym, ◌∙◌, ap, String, none, some, List, inl}
use backend_task_management.Common.Errors.{ok}
use backend_task_management.Automation.World.{World}
use backend_task_management.Accounts.Rows.{User}
use backend_task_management.Accounts.Users.{Tools, CreateUser, UpdateUser, given_text}
use backend_task_management.Accounts.Users.Service.{create, update, remove, find_one}
use backend_task_management.Accounts.Users.Directory.{
  Operation, creating, updating, removing, reading, looked, Refines, directory, perform,
}
use backend_task_management.Accounts.Users.Directory.Refinement.{
  write-Refines, bind-Refines, then-Refines, insert_user-Refines, update_user-Refines,
  delete_user-Refines,
}
use backend_task_management.Accounts.Users.Directory.Operations.{
  query-Keeps, ensure_unique_email-Keeps, ensure_unique_username-Keeps, check_email-Keeps,
  check_username-Keeps, hashed_change-Keeps, find_one-Keeps, find_one_ok,
}

module _ {N : Type 0} (tools : Tools) where
  -- What `findOne` found in a table with the same users.
  found_in :
      (users : List User) (id : String) (w : World N) (v : _)
      → w.users ≡ users
      → (find_one tools id w).0 ≡ ok v
      → (u : User) × (directory users id ≡ some u)
  found_in users id w v same answered =
      let (u, found, _) = find_one_ok tools id w answered in
      (u, ap (λ us. directory us id) (sym same) ∙ found)

  create-Refines :
      (dto : CreateUser) (w : World N) → Refines (creating dto) w.users (create tools dto w)
  unfolding create
  create-Refines dto w =
      then-Refines _ w.users _ _ (ensure_unique_email-Keeps tools w.users dto.email none) w refl
        λ _ w1 _ s1.
          then-Refines _ w.users _ _ (ensure_unique_username-Keeps tools w.users dto.username none)
            w1 s1
            λ _ w2 _ s2.
              bind-Refines _ w.users _ _ (query-Keeps tools w.users _) w2 s2 λ hashed w3 _ s3.
                write-Refines _ w.users tools.env _ w3 s3
                  λ t u s. insert_user-Refines tools dto hashed u

  update-Refines :
      (id : String) (dto : UpdateUser) (w : World N)
      → Refines (updating id dto) w.users (update tools id dto w)
  unfolding update
  update-Refines id dto w =
      then-Refines _ w.users _ _ (find_one-Keeps tools w.users id) w refl λ v w1 answered s1.
        let (row, found) = found_in w.users id w v refl answered in
        then-Refines _ w.users _ _ (check_email-Keeps tools w.users (given_text dto.email) id) w1 s1
          λ _ w2 _ s2.
            then-Refines _ w.users _ _
              (check_username-Keeps tools w.users (given_text dto.username) id) w2 s2
              λ _ w3 _ s3.
                bind-Refines _ w.users _ _
                  (hashed_change-Keeps tools w.users (given_text dto.password)) w3 s3
                  λ hashed w4 _ s4. write-Refines _ w.users tools.env _ w4 s4 λ t u s.
                    update_user-Refines tools id dto hashed u row
                      (ap (λ us. directory us id) s ∙ found)

  pub remove-Refines :
      (id : String) (w : World N) → Refines (removing id) w.users (remove tools id w)
  unfolding remove
  remove-Refines id w =
      then-Refines _ w.users _ _ (find_one-Keeps tools w.users id) w refl λ v w1 answered s1.
        let (row, found) = found_in w.users id w v refl answered in
        write-Refines _ w.users tools.env _ w1 s1
          λ t u s. delete_user-Refines tools id t u row (ap (λ us. directory us id) s ∙ found)

  find_one-Refines :
      (id : String) (w : World N) → Refines (reading id) w.users (find_one tools id w)
  find_one-Refines id w =
      let kept = (find_one-Keeps tools w.users id).at w refl in
      let same : (i : String) → directory (find_one tools id w).1.users i ≡ directory w.users i =
        λ i. ap (λ us. directory us i) kept in
      (
        inl same,
        λ v answered.
            let (row, found) = found_in w.users id w v refl answered in looked id row found same,
      )

  -- In any environment, creating, updating, removing or reading a user leaves the directory as it
  -- was or makes the step of that operation: a new user clashes with none that the directory
  -- shows in the id, the email or the username; a changed user is there before, and takes the
  -- email and the username of no other; a removed user is there before and not after. An
  -- operation that returns makes its step.
  pub perform-Refines :
      (operation : Operation) (w : World N) → Refines operation w.users (perform tools operation w)
  unfolding perform
  perform-Refines (creating dto) w = create-Refines dto w
  perform-Refines (updating id dto) w = update-Refines id dto w
  perform-Refines (removing id) w = remove-Refines id w
  perform-Refines (reading id) w = find_one-Refines id w
