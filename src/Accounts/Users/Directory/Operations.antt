-- ===== src/Accounts/Users/Directory/Operations.antt =====
-- The operations of the user service, in the directory.
use backend_task_management.Base.{◌≡◌, refl, String, Bool, true, false, Option, none, some, List}
use backend_task_management.Common.Errors.{ok, ok-injective}
use backend_task_management.Automation.World.{World, call, pure, throw}
use backend_task_management.Automation.World.Keeps.{
  counted, Keeps, Keeps-call, Keeps-pure, Keeps-throw, keeps_rules,
}
use backend_task_management.Automation.World.Inversion.{read_ok}
use backend_task_management.Accounts.Rows.{User, Admin}
use backend_task_management.Accounts.Users.{Tools, UserView, view_of}
use backend_task_management.Accounts.Users.Store.{first_user, has_id}
use backend_task_management.Accounts.Users.Service.{
  find_one, find_by_email, find_by_username, ensure_unique_email, ensure_unique_username, viewed,
  found_view, check_email, check_username, hashed_change, conflict_if,
}
use backend_task_management.Accounts.Users.Directory.{directory}

module _ {N : Type 0} (tools : Tools) where
  -- A query keeps every table.
  pub query-Keeps :
      {A : Type 0} (users : List User) (g : World N → A)
      → Keeps (λ u. u.users ≡ users) (call tools.env (λ now w. (g w, w)))
  query-Keeps users g = Keeps-call tools.env _ (λ w h. h) (λ t w h. h)

  conflict_if-Keeps :
      (users : List User) (b : Bool) (s : String)
      → Keeps {N = N} (λ u. u.users ≡ users) (conflict_if tools b s)
  conflict_if-Keeps users true s = Keeps-throw _
  conflict_if-Keeps users false s = Keeps-pure _

  pub ensure_unique_email-Keeps :
      (users : List User) (email : String) (excluded : Option String)
      → Keeps {N = N} (λ u. u.users ≡ users) (ensure_unique_email tools email excluded)
  unfolding ensure_unique_email find_by_email
  ensure_unique_email-Keeps users email excluded =
      search (keeps_rules, query-Keeps, conflict_if-Keeps)

  pub ensure_unique_username-Keeps :
      (users : List User) (username : String) (excluded : Option String)
      → Keeps {N = N} (λ u. u.users ≡ users) (ensure_unique_username tools username excluded)
  unfolding ensure_unique_username find_by_username
  ensure_unique_username-Keeps users username excluded =
      search (keeps_rules, query-Keeps, conflict_if-Keeps)

  pub check_email-Keeps :
      (users : List User) (email : Option String) (id : String)
      → Keeps {N = N} (λ u. u.users ≡ users) (check_email tools email id)
  check_email-Keeps users none id = Keeps-pure _
  check_email-Keeps users (some email) id = ensure_unique_email-Keeps users email (some id)

  pub check_username-Keeps :
      (users : List User) (username : Option String) (id : String)
      → Keeps {N = N} (λ u. u.users ≡ users) (check_username tools username id)
  check_username-Keeps users none id = Keeps-pure _
  check_username-Keeps users (some username) id =
      ensure_unique_username-Keeps users username (some id)

  pub hashed_change-Keeps :
      (users : List User) (password : Option String)
      → Keeps {N = N} (λ u. u.users ≡ users) (hashed_change tools password)
  hashed_change-Keeps users none = Keeps-pure _
  hashed_change-Keeps users (some password) =
      Keeps-call tools.env (λ now w. (some (tools.hash password w.calls), w)) (λ w h. h)
        (λ t w h. h)

  found_view-Keeps :
      (users : List User) (o : Option UserView)
      → Keeps {N = N} (λ u. u.users ≡ users) (found_view tools o)
  found_view-Keeps users none = Keeps-throw _
  found_view-Keeps users (some v) = Keeps-pure _

  pub find_one-Keeps :
      (users : List User) (id : String) → Keeps {N = N} (λ u. u.users ≡ users) (find_one tools id)
  unfolding find_one
  find_one-Keeps users id = search (keeps_rules, query-Keeps, found_view-Keeps)

  found_view_ok :
      (o : Option User) (profiles : List Admin) (w : World N) {v : UserView}
      → (found_view tools (viewed o profiles) w).0 ≡ ok v
      → (u : User) × (o ≡ some u) × (view_of profiles u ≡ v)
  unfolding throw pure
  found_view_ok none profiles w h = cc
  found_view_ok (some u) profiles w h = (u, refl, ok-injective _ _ h)

  -- `findOne` returns what the directory shows.
  pub find_one_ok :
      (id : String) (w : World N) {v : UserView}
      → (find_one tools id w).0 ≡ ok v
      → (u : User) × (directory w.users id ≡ some u) × (view_of w.admins u ≡ v)
  unfolding find_one directory
  find_one_ok id w h =
      found_view_ok _ _ (counted w)
        (read_ok tools.env (λ u. viewed (first_user (has_id id) u.users) u.admins) _ w h)
