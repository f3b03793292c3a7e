-- ===== src/Automation/World/Inversion.antt =====
-- What a computation that returned tells about its parts.
use backend_task_management.Base.{subst, ℕ, ◌≡◌, ◌≢◌, refl, sym, ap, ◌∙◌, ◌⊎◌, inl, inr}
use backend_task_management.Common.Errors.{Thrown, Result, ok, err, ok-injective}
use backend_task_management.Automation.World.{
  World, Env, Fate, done, refused, lost, Exec, ended, handled, continued, throw, lift, call,
  catching, ◌>>=◌, ◌>>◌,
}
use backend_task_management.Automation.World.Keeps.{counted}

module _ {N A B : Type 0} where
  continued_ok :
      (f : A → Exec N B) (r : Result A) (w : World N) {b : B}
      → (continued f r w).0 ≡ ok b
      → (a : A) × (r ≡ ok a) × (continued f r w ≡ f a w)
  continued_ok f (ok a) w h = (a, refl, refl)
  continued_ok f (err e) w h = cc

  pub bind_ok :
      (m : Exec N A) (f : A → Exec N B) (w : World N) {b : B}
      → ((m >>= f) w).0 ≡ ok b
      → (a : A) × ((m w).0 ≡ ok a) × ((m >>= f) w ≡ f a (m w).1)
  unfolding ◌>>=◌
  bind_ok m f w h = continued_ok f (m w).0 (m w).1 h

  pub then_ok :
      (m : Exec N A) (n : Exec N B) (w : World N) {b : B}
      → ((m >> n) w).0 ≡ ok b
      → (a : A) × ((m w).0 ≡ ok a) × ((m >> n) w ≡ n (m w).1)
  unfolding ◌>>◌
  then_ok m n w h = bind_ok m (λ _. n) w h

  continued_cases :
      (f : A → Exec N B) (r : Result A) (w : World N)
      → ((a : A) × (r ≡ ok a) × (continued f r w ≡ f a w))
        ⊎ ((e : Thrown) × (r ≡ err e) × (continued f r w ≡ (err e, w)))
  continued_cases f (ok a) w = inl (a, refl, refl)
  continued_cases f (err e) w = inr (e, refl, refl)

  pub bind_cases :
      (m : Exec N A) (f : A → Exec N B) (w : World N)
      → ((a : A) × ((m w).0 ≡ ok a) × ((m >>= f) w ≡ f a (m w).1))
        ⊎ ((e : Thrown) × ((m w).0 ≡ err e) × ((m >>= f) w ≡ (err e, (m w).1)))
  unfolding ◌>>=◌
  bind_cases m f w = continued_cases f (m w).0 (m w).1

module _ {N A : Type 0} where
  handled_cases :
      (h : Thrown → Exec N A) (r : Result A) (w : World N)
      → ((a : A) × (r ≡ ok a) × (handled h r w ≡ (r, w)))
        ⊎ ((e : Thrown) × (r ≡ err e) × (handled h r w ≡ h e w))
  handled_cases h (ok a) w = inl (a, refl, refl)
  handled_cases h (err e) w = inr (e, refl, refl)

  pub catching_cases :
      (m : Exec N A) (h : Thrown → Exec N A) (w : World N)
      → ((a : A) × ((m w).0 ≡ ok a) × (catching m h w ≡ m w))
        ⊎ ((e : Thrown) × ((m w).0 ≡ err e) × (catching m h w ≡ h e (m w).1))
  unfolding catching
  catching_cases m h w = handled_cases h (m w).0 (m w).1

  ended_ok :
      (fate : Fate) (after : A × World N) (w : World N) {a : A}
      → (ended fate after w).0 ≡ ok a
      → (fate ≡ done) × (ended fate after w ≡ (ok after.0, after.1))
  ended_ok done after w h = (refl, refl)
  ended_ok (refused e) after w h = cc
  ended_ok (lost e) after w h = cc

  -- A call that returned was carried out.
  pub call_ok :
      (env : Env) (f : ℕ → World N → A × World N) (w : World N) {a : A}
      → (call env f w).0 ≡ ok a
      → (env.fate w.calls ≡ done)
        × (call env f w
            ≡ (ok (f (env.now w.calls) (counted w)).0, (f (env.now w.calls) (counted w)).1))
  unfolding call
  call_ok env f w h = ended_ok (env.fate w.calls) (f (env.now w.calls) (counted w)) (counted w) h

module _ {N A B : Type 0} where
  pub then_cases :
      (m : Exec N A) (n : Exec N B) (w : World N)
      → ((m >> n) w ≡ n (m w).1) ⊎ ((e : Thrown) × ((m >> n) w ≡ (err e, (m w).1)))
  unfolding ◌>>◌
  then_cases m n w = elim (bind_cases m (λ _. n) w) [
    | inl (_, _, same) ↦ inl same
    | inr (e, _, same) ↦ inr (e, same)
  ]

-- What cannot return.
module _ {N A B : Type 0} where
  pub then_never :
      (m : Exec N A) (n : Exec N B) {b : B}
      → ((w : World N) → (n w).0 ≢ ok b)
      → (w : World N) → ((m >> n) w).0 ≢ ok b
  then_never m n never w h =
      let (_, _, same) = then_ok m n w h in never (m w).1 (sym (ap (λ p. p.0) same) ∙ h)

module _ {N A : Type 0} where
  pub throw_never : (e : Thrown) {a : A} (w : World N) → (throw {A = A} e w).0 ≢ ok a
  unfolding throw
  throw_never e w h = cc

module _ {N A : Type 0} where
  -- A statement that the database may refuse: what it answered, when it answered.
  pub checked_ok :
      (env : Env) (f : ℕ → World N → Result A × World N) (w : World N) {a : A}
      → ((call env f >>= lift) w).0 ≡ ok a
      → (call env f >>= lift) w ≡ f (env.now w.calls) (counted w)
  unfolding lift
  checked_ok env f w h =
      let (r, read, same) = bind_ok (call env f) lift w h in
      let (_, found) = call_ok env f w read in
      let answered : (f (env.now w.calls) (counted w)).0 ≡ r =
        ok-injective _ r (sym (ap (λ p. p.0) found) ∙ read) in
      cc

-- A chain that returned, behind a query that changes nothing and behind a value or an error.
module _ {N C B : Type 0} where
  pub read_ok :
      (env : Env) (g : World N → C) (f : C → Exec N B) (w : World N) {b : B}
      → ((call env (λ now w'. (g w', w')) >>= f) w).0 ≡ ok b
      → (f (g (counted w)) (counted w)).0 ≡ ok b
  read_ok env g f w h =
      let (c, read, same) = bind_ok (call env (λ now w'. (g w', w'))) f w h in
      let (_, found) = call_ok env (λ now w'. (g w', w')) w read in
      let answered : g (counted w) ≡ c = ok-injective _ c (sym (ap (λ p. p.0) found) ∙ read) in
      let there : (call env (λ now w'. (g w', w')) w).1 ≡ counted w = ap (λ p. p.1) found in
      let whole : (f c (call env (λ now w'. (g w', w')) w).1).0 ≡ ok _ =
        sym (ap (λ p. p.0) same) ∙ h in
      cc

  pub lift_ok :
      (r : Result C) (f : C → Exec N B) (w : World N) {b : B}
      → ((lift r >>= f) w).0 ≡ ok b
      → (c : C) × (r ≡ ok c) × ((f c w).0 ≡ ok b)
  unfolding lift
  lift_ok r f w h =
      let (c, read, same) = bind_ok (lift r) f w h in (c, read, sym (ap (λ p. p.0) same) ∙ h)

-- What holds of the value and the world of a computation that returned.
abbrev pub Returns : {N A : Type 0} → (A → World N → Type 0) → Result A × World N → Type 0
Returns {A = A} Q end = (a : A) → end.0 ≡ ok a → Q a end.1

module _ {N A : Type 0} (Q : A → World N → Type 0) where
  pub bind-Returns :
      {C : Type 0} (m : Exec N C) (f : C → Exec N A) (w : World N)
      → ((c : C) → (m w).0 ≡ ok c → Returns Q (f c (m w).1))
      → Returns Q ((m >>= f) w)
  bind-Returns m f w rest a h =
      let (c, answered, same) = bind_ok m f w h in
      subst (Returns Q) (sym same) (rest c answered) a h

  pub then-Returns :
      {C : Type 0} (m : Exec N C) (n : Exec N A) (w : World N)
      → Returns Q (n (m w).1)
      → Returns Q ((m >> n) w)
  then-Returns m n w rest a h =
      let (_, _, same) = then_ok m n w h in subst (Returns Q) (sym same) rest a h

  pub checked-Returns :
      (env : Env) (f : ℕ → World N → Result A × World N) (w : World N)
      → Returns Q (f (env.now w.calls) (counted w))
      → Returns Q ((call env f >>= lift) w)
  checked-Returns env f w rest a h = subst (Returns Q) (sym (checked_ok env f w h)) rest a h
