-- ===== src/Accounts/Auth/Registration.antt =====
-- A registered user can log in.
use backend_task_management.Base.{
  ◌≡◌, refl, sym, ◌∙◌, ap, subst, String, ◌==◌, true, Option, none, some, List, ◌∷◌, any, ℕ,
  eq_refl, inl, inr, Bool-cases, get_or, suc,
}
use backend_task_management.Common.Errors.{ok, ok-injective}
use backend_task_management.Common.SoftDelete.{find_first, scoped}
use backend_task_management.Automation.World.{World, done, call, lift, pure, ◌>>=◌, ◌>>◌}
use backend_task_management.Automation.World.Keeps.{
  counted, Keeps, Keeps-call, Keeps-pure, Keeps-throw,
}
use backend_task_management.Automation.World.Inversion.{
  call_ok, Returns, bind-Returns, then-Returns, checked-Returns,
}
use backend_task_management.Accounts.Rows.{Role, User}
use backend_task_management.Accounts.Users.{Tools, CreateUser, UserView, view_of}
use backend_task_management.Accounts.Users.Store.{first_user, insert_user, new_user, clashes}
use backend_task_management.Accounts.Users.Service.{
  find_by_email, create, ensure_unique_email, ensure_unique_username, hashed_password,
}
use backend_task_management.Accounts.Users.Directory.Operations.{
  query-Keeps, ensure_unique_email-Keeps, ensure_unique_username-Keeps,
}
use backend_task_management.Accounts.Auth.{
  Register, Registered, login, register_user, sign_token, new_account, refuse_existing, logged_in,
}

first_user-new :
    (dto : Register) (id hashed : String) (users : List User)
    → first_user (λ v. v.email == dto.email) (new_user id (new_account dto) hashed ∷ users)
      ≡ some (new_user id (new_account dto) hashed)
unfolding first_user find_first scoped new_user new_account
first_user-new dto id hashed users = rw (eq_refl dto.email)

module _ {N : Type 0} (tools : Tools) where
  -- The table that a creation leaves behind, and what it answers.
  abbrev IsCreated : CreateUser → List User → UserView → World N → Type 0
  IsCreated dto users v w =
      (id : String) × (n : ℕ) × (w.users ≡ new_user id dto (tools.hash dto.password n) ∷ users)
      × (v.role ≡ dto.role)

  insert_user-Returns :
      (dto : CreateUser) (n : ℕ) (users : List User) (w : World N)
      → w.users ≡ users
      → Returns (IsCreated dto users) (insert_user tools dto (tools.hash dto.password n) w)
  unfolding insert_user view_of new_user
  insert_user-Returns dto n users w same =
      let id = tools.user_id w.users in
      let hashed = tools.hash dto.password n in
      elim (Bool-cases (any (clashes id dto.email dto.username) w.users)) [
        | inl y ↦ rw y (λ v h. cc)
        | inr no_clash ↦ rw no_clash λ v h. (
          id,
          n,
          ap (λ us. new_user id dto hashed ∷ us) same,
          sym (ap (λ v. v.role) (ok-injective _ v h)),
        )
      ]

  create-Returns :
      (dto : CreateUser) (w : World N) → Returns (IsCreated dto w.users) (create tools dto w)
  unfolding create
  create-Returns dto w =
      let w1 = (ensure_unique_email tools dto.email none w).1 in
      let s1 = (ensure_unique_email-Keeps tools w.users dto.email none).at w refl in
      let w2 = (ensure_unique_username tools dto.username none w1).1 in
      let s2 = (ensure_unique_username-Keeps tools w.users dto.username none).at w1 s1 in
      let s3 = (query-Keeps tools w.users (λ u. tools.hash dto.password u.calls)).at w2 s2 in
      let Q = IsCreated dto w.users in
      then-Returns Q _ _ w (
        then-Returns Q _ _ w1 (
          bind-Returns Q _ _ w2 λ hashed read.
            let (_, found) =
              call_ok tools.env (λ now u. (tools.hash dto.password u.calls, u)) w2 read in
            let made : hashed ≡ tools.hash dto.password (suc w2.calls) =
              sym (ok-injective _ hashed (sym (ap (λ p. p.0) found) ∙ read)) in
            subst
              (λ s. Returns (IsCreated dto w.users) (
                (call tools.env (λ now u. insert_user tools dto s u) >>= lift)
                  (hashed_password tools dto.password w2).1))
              (sym made)
              (checked-Returns Q tools.env _ (hashed_password tools dto.password w2).1 (
                insert_user-Returns dto (suc w2.calls) w.users
                  (counted (hashed_password tools dto.password w2).1) s3))))

  -- The table that a registration leaves behind, and what it answers.
  abbrev IsRegistered : Register → List User → Registered → World N → Type 0
  IsRegistered dto users answer w =
      (id : String) × (n : ℕ) × (w.users
        ≡ new_user id (new_account dto) (tools.hash dto.password n) ∷ users)
      × (answer.role ≡ get_or dto.role Role.user)

  sign_token-Keeps :
      (users : List User) (id : String) (role : Role)
      → Keeps {N = N} (λ u. u.users ≡ users) (sign_token tools id role)
  unfolding sign_token
  sign_token-Keeps users id role = Keeps-call tools.env _ (λ w h. h) (λ t w h. h)

  refuse_existing-Keeps :
      (users : List User) (o : Option User)
      → Keeps {N = N} (λ u. u.users ≡ users) (refuse_existing tools o)
  refuse_existing-Keeps users none = Keeps-pure _
  refuse_existing-Keeps users (some _) = Keeps-throw _

  register_user-Returns :
      (dto : Register) (w : World N)
      → Returns (IsRegistered dto w.users) (register_user tools dto w)
  unfolding register_user find_by_email pure new_account
  register_user-Returns dto w =
      let Q = IsRegistered dto w.users in
      let w1 = (find_by_email tools dto.email w).1 in
      let s1 =
        (query-Keeps tools w.users (λ u. first_user (λ v. v.email == dto.email) u.users)).at w
          refl in
      bind-Returns Q _ _ w λ existing _.
        let w2 = (refuse_existing tools existing w1).1 in
        let s2 = (refuse_existing-Keeps w.users existing).at w1 s1 in
        then-Returns Q _ _ w1 (
          bind-Returns Q _ _ w2 λ v created.
            let (id, n, there, role) = create-Returns (new_account dto) w2 v created in
            let w3 = (create tools (new_account dto) w2).1 in
            let s3 =
              there
              ∙ ap (λ us. new_user id (new_account dto) (tools.hash dto.password n) ∷ us) s2 in
            bind-Returns Q _ _ w3 λ token _ answer h.
              let s4 = (sign_token-Keeps _ v.id v.role).at w3 s3 in
              (id, n, s4, sym (ap (λ a. a.role) (ok-injective _ answer h)) ∙ role))

  -- A user whom the store shows logs in with the right password, when the calls pass.
  pub login_done :
      (email password : String) (w : World N) (u : User)
      → ((n : ℕ) → tools.env.fate n ≡ done)
      → first_user (λ v. v.email == email) w.users ≡ some u
      → tools.compare password u.password ≡ true
      → (login tools email password w).0
        ≡ ok (logged_in u (tools.sign u.id u.role (tools.env.now (suc (suc w.calls)))))
  unfolding login find_by_email ◌>>=◌ ◌>>◌ call sign_token pure
  login_done email password w u pass found valid =
      rw (pass w.calls, found, pass (suc w.calls), valid, pass (suc (suc w.calls)))

  -- Let bcrypt recognise its own hashes, and let the calls of the login pass. After a
  -- registration that returned, a login with its email and password returns, with the role that
  -- the registration answered and the username that was given.
  pub register_user-login :
      (dto : Register) (w : World N) (answer : Registered)
      → ((n : ℕ) → tools.env.fate n ≡ done)
      → ((password : String) (n : ℕ) → tools.compare password (tools.hash password n) ≡ true)
      → (register_user tools dto w).0 ≡ ok answer
      → (token : String) × ((login tools dto.email dto.password (register_user tools dto w).1).0
          ≡ ok (record {
            access_token = token;
            role = answer.role;
            email = dto.email;
            username = dto.username;
          }))
  unfolding new_user new_account
  register_user-login dto w answer pass recognised h =
      let (id, n, there, role) = register_user-Returns dto w answer h in
      let u = new_user id (new_account dto) (tools.hash dto.password n) in
      let after = (register_user tools dto w).1 in
      let found =
        ap (first_user (λ v. v.email == dto.email)) there ∙ first_user-new dto id _ w.users in
      let entered =
        login_done dto.email dto.password after u pass found (recognised dto.password n) in
      let token = tools.sign u.id u.role (tools.env.now (suc (suc after.calls))) in
      (token, entered ∙ ap (λ r. ok (record (logged_in u token) { role = r })) (sym role))
