-- ===== src/Accounts/Auth/Laws.antt =====
-- Who is let in.
use backend_task_management.Base.{
  ◌≡◌, ◌≢◌, refl, sym, ◌∙◌, ap, subst, String, ◌==◌, Bool, true, false, Option, none, some, List,
  any, ℕ, eq_refl, inl, inr, if◌then◌else◌,
}
use backend_task_management.Common.Errors.{Thrown, ok, err, ok-injective}
use backend_task_management.Automation.World.{World, lift, pure, throw, ◌>>=◌}
use backend_task_management.Automation.World.Keeps.{counted}
use backend_task_management.Automation.World.Inversion.{
  bind_ok, read_ok, then_ok, call_ok, catching_cases, throw_never,
}
use backend_task_management.Accounts.Rows.{Role, User}
use backend_task_management.Accounts.Users.{Tools, UserView, view_of}
use backend_task_management.Accounts.Users.Store.{first_user}
use backend_task_management.Accounts.Users.Listing.{is_role}
use backend_task_management.Accounts.Users.Service.{find_by_email, find_one, remove}
use backend_task_management.Accounts.Users.Directory.{Directory, directory, removing, Step, dropped}
use backend_task_management.Accounts.Users.Directory.Operations.{find_one_ok}
use backend_task_management.Accounts.Users.Directory.Laws.{remove-Refines}
use backend_task_management.Accounts.Auth.{
  AuthPayload, logged_in, current_user, LoggedIn, validate, can_activate, authorize, login,
  sign_token, invalid_token, refuse_unless, existing_user,
}

-- The role that a route asks for.
abbrev pub HasRole : Option (List Role) → Role → Type 0
HasRole none role = Unit
HasRole (some required) role = any (is_role role) required ≡ true

if_ok :
    (test : Bool) (e : Thrown) (b : Bool) → (if test then ok true else err e) ≡ ok b → test ≡ true
if_ok true e b h = refl
if_ok false e b h = cc

can_activate_ok :
    (required : Option (List Role)) (payload : AuthPayload) (b : Bool)
    → can_activate required (some payload) ≡ ok b
    → HasRole required payload.role
unfolding can_activate
can_activate_ok none payload b h = tt
can_activate_ok (some required) payload b h = if_ok _ _ b h

gone : (id : String) (d d' : Directory) → Step d d' (removing id) → d' id ≡ none
gone id d d' (dropped _ u found after) = after id ∙ rw (eq_refl id)

module _ {N : Type 0} (tools : Tools) where
  current_user_ok :
      (payload : AuthPayload) (w : World N) (current : AuthPayload)
      → (current_user tools payload w).0 ≡ ok current
      → (u : User) × (directory w.users payload.user_id ≡ some u) × (u.role ≡ current.role)
  unfolding current_user view_of pure
  current_user_ok payload w current h =
      let (v, answered, rest) = bind_ok (find_one tools payload.user_id) _ w h in
      let (u, found, seen) = find_one_ok tools payload.user_id w answered in
      let same = ok-injective _ current (sym (ap (λ p. p.0) rest) ∙ h) in
      (u, found, ap (λ v. v.role) seen ∙ ap (λ p. p.role) same)

  validate_ok :
      (payload : AuthPayload) (w : World N) (current : AuthPayload)
      → (validate tools payload w).0 ≡ ok current
      → (u : User) × (directory w.users payload.user_id ≡ some u) × (u.role ≡ current.role)
  unfolding validate
  validate_ok payload w current h =
      elim (catching_cases (current_user tools payload) (λ _. throw invalid_token) w) [
        | inl (a, returned, same) ↦
            let whole : ok a ≡ ok current = sym returned ∙ sym (ap (λ p. p.0) same) ∙ h in
            let (u, found, role) = current_user_ok payload w a returned in
            (u, found, role ∙ ap (λ p. p.role) (ok-injective a current whole))
        | inr (e, _, same) ↦ absurd (throw_never invalid_token _ (sym (ap (λ p. p.0) same) ∙ h))
      ]

  -- A request behind both guards is let in only for a user that the directory shows, and by the
  -- role that the table has for it, whatever role its token names.
  pub authorize_ok :
      (required : Option (List Role)) (payload : AuthPayload) (w : World N) (b : Bool)
      → (authorize tools required payload w).0 ≡ ok b
      → (u : User) × (directory w.users payload.user_id ≡ some u) × HasRole required u.role
  unfolding authorize lift
  authorize_ok required payload w b h =
      let (current, valid, rest) = bind_ok _ _ w h in
      let (u, found, role) = validate_ok payload w current valid in
      let allowed = can_activate_ok required current b (sym (ap (λ p. p.0) rest) ∙ h) in
      (u, found, subst (HasRole required) (sym role) allowed)

  -- After a removal that returned, no token of the user passes the guards.
  pub remove-authorize_never :
      (required : Option (List Role)) (payload : AuthPayload) (w : World N) (v : UserView)
      (b : Bool)
      → (remove tools payload.user_id w).0 ≡ ok v
      → (authorize tools required payload (remove tools payload.user_id w).1).0 ≢ ok b
  remove-authorize_never required payload w v b removed h =
      let (_, step) = remove-Refines tools payload.user_id w in
      let none_left = gone payload.user_id _ _ (step v removed) in
      let (u, found, _) = authorize_ok required payload _ b h in
      let same : none ≡ some u = sym none_left ∙ found in cc

  existing_user_ok :
      (o : Option User) (w : World N) (u : User) → (existing_user tools o w).0 ≡ ok u → o ≡ some u
  unfolding throw pure
  existing_user_ok none w u h = cc
  existing_user_ok (some v) w u h = ap some (ok-injective v u h)

  refuse_unless_ok : (b : Bool) (w : World N) → (refuse_unless tools b w).0 ≡ ok tt → b ≡ true
  unfolding throw
  refuse_unless_ok true w h = refl
  refuse_unless_ok false w h = cc

  signed_ok :
      (u : User) (w : World N) (answer : LoggedIn)
      → ((sign_token tools u.id u.role >>= λ token. pure (logged_in u token)) w).0 ≡ ok answer
      → (t : ℕ) × (answer.access_token ≡ tools.sign u.id u.role t) × (answer.role ≡ u.role)
  unfolding sign_token pure
  signed_ok u w answer h =
      let (token, signed, rest) = bind_ok (sign_token tools u.id u.role) _ w h in
      let (_, found) = call_ok tools.env (λ now v. (tools.sign u.id u.role now, v)) w signed in
      let made = ok-injective _ token (sym (ap (λ p. p.0) found) ∙ signed) in
      let same = ok-injective _ answer (sym (ap (λ p. p.0) rest) ∙ h) in
      (
        tools.env.now w.calls,
        sym (ap (λ a. a.access_token) same) ∙ sym made,
        sym (ap (λ a. a.role) same),
      )

  -- A login that returns is that of a row which is not removed, has the email, and whose password
  -- hash the given password matches; it answers the role of the row.
  pub login_ok :
      (email password : String) (w : World N) (answer : LoggedIn)
      → (login tools email password w).0 ≡ ok answer
      → (u : User) × (first_user (λ u. u.email == email) w.users ≡ some u)
        × (tools.compare password u.password ≡ true)
        × (answer.role ≡ u.role)
        × ((t : ℕ) × (answer.access_token ≡ tools.sign u.id u.role t))
  unfolding login find_by_email sign_token pure
  login_ok email password w answer h =
      let found = read_ok tools.env (λ u. first_user (λ v. v.email == email) u.users) _ w h in
      let existing = existing_user tools (first_user (λ v. v.email == email) w.users) in
      let (u, row, rest) = bind_ok existing _ (counted w) found in
      let compared =
        read_ok tools.env (λ _. tools.compare password u.password) _ (existing (counted w)).1
          (sym (ap (λ p. p.0) rest) ∙ found) in
      let (_, valid, rest2) =
        then_ok (refuse_unless tools (tools.compare password u.password)) _ _ compared in
      let (time, token, role) = signed_ok u _ answer (sym (ap (λ p. p.0) rest2) ∙ compared) in
      (u, existing_user_ok _ (counted w) u row, refuse_unless_ok _ _ valid, role, (time, token))
