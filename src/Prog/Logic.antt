-- ===== src/Prog/Logic.antt =====
-- What the run of a program ensures: one rule for each way to build a program.
use wallet_service.Prelude.{◌≡◌, refl, subst, none, ◌⊎◌, inl, inr}
use wallet_service.Errors.{Error}
use wallet_service.Prog.{
  Prog, ret, fail, panic, perform, Effect, Reply, Result, Outcome, World, run, do_effect, ◌>>=◌,
  attempt, defer_rollback,
}

ok-injective : {A : Type 0} (a b : A) → Outcome.ok a ≡ Outcome.ok b → a ≡ b
ok-injective a b e = cc

err-injective :
    {A : Type 0} (a b : Error) → ◌≡◌ {A = Outcome A} (Outcome.err a) (Outcome.err b) → a ≡ b
err-injective {A} a b e = cc

-- The postcondition of a return, and of an error; a panic meets neither.
abbrev pub Post :
    {A : Type 0} → (A → World → Type 0) → (Error → World → Type 0) → Outcome A × World → Type 0
Post Q E (Outcome.ok a, w) = Q a w
Post Q E (Outcome.err e, w) = E e w
Post Q E (Outcome.panicked, w) = ⊥

pub record Runs {A : Type 0} (p : Prog A) (w : World) (Q : A → World → Type 0)
    (E : Error → World → Type 0) : Type 0 where
  pub post : Post Q E (run p w)

module _ {A : Type 0} {Q : A → World → Type 0} {E : Error → World → Type 0} where
  pub Runs-ret : {w : World} (a : A) → Q a w → Runs (ret a) w Q E
  unfolding run
  Runs-ret a q = record { post = q }

  pub Runs-fail : {w : World} (e : Error) → E e w → Runs (fail e) w Q E
  unfolding run
  Runs-fail e q = record { post = q }

  pub Runs-perform :
      (e : Effect) (k : Reply e → Prog A) (w : World)
      → Runs (k (do_effect e w).0) (do_effect e w).1 Q E
      → Runs (perform e k) w Q E
  unfolding run
  Runs-perform e k w h = record { post = h.post }

  pub perform-Runs :
      (e : Effect) (k : Reply e → Prog A) (w : World)
      → Runs (perform e k) w Q E
      → Runs (k (do_effect e w).0) (do_effect e w).1 Q E
  unfolding run
  perform-Runs e k w h = record { post = h.post }

  pub ret-Runs : {w : World} {a : A} → Runs (ret a) w Q E → Q a w
  unfolding run
  ret-Runs h = h.post

  pub fail-Runs : {w : World} {e : Error} → Runs {A = A} (fail e) w Q E → E e w
  unfolding run
  fail-Runs h = h.post

  pub panic-Runs : {w : World} → Runs {A = A} panic w Q E → ⊥
  unfolding run
  panic-Runs h = h.post

module _ {A B : Type 0} {P : A → World → Type 0} {Q : B → World → Type 0}
    {E : Error → World → Type 0} where
  pub Runs-bind :
      (p : Prog A) (f : A → Prog B) (w : World)
      → Runs p w P E
      → ((a : A) (w' : World) → P a w' → Runs (f a) w' Q E)
      → Runs (p >>= f) w Q E
  Runs-bind (ret a) f w h k = k a w (ret-Runs h)
  Runs-bind (fail e) f w h k = Runs-fail e (fail-Runs h)
  Runs-bind panic f w h k = absurd (panic-Runs h)
  Runs-bind (perform e g) f w h k =
      Runs-perform e (λ r. g r >>= f) w
        (Runs-bind (g (do_effect e w).0) f (do_effect e w).1 (perform-Runs e g w h) k)

module _ {A : Type 0} {P Q : A → World → Type 0} {E F : Error → World → Type 0} where
  pub Runs-weaken :
      (p : Prog A) (w : World)
      → Runs p w P E
      → ((a : A) (w' : World) → P a w' → Q a w')
      → ((e : Error) (w' : World) → E e w' → F e w')
      → Runs p w Q F
  Runs-weaken (ret a) w h q f = Runs-ret a (q a w (ret-Runs h))
  Runs-weaken (fail e) w h q f = Runs-fail e (f e w (fail-Runs h))
  Runs-weaken panic w h q f = absurd (panic-Runs h)
  Runs-weaken (perform e g) w h q f =
      Runs-perform e g w
        (Runs-weaken (g (do_effect e w).0) (do_effect e w).1 (perform-Runs e g w h) q f)

  -- The deferred rollback runs after the body, however that ends.
  pub Runs-defer_rollback :
      (p : Prog A) (w : World)
      → Runs p w P E
      → ((a : A) (w' : World) → P a w' → Q a (record w' { tx = none }))
      → ((e : Error) (w' : World) → E e w' → F e (record w' { tx = none }))
      → Runs (defer_rollback p) w Q F
  unfolding run do_effect
  Runs-defer_rollback (ret a) w h q f = record { post = q a w h.post }
  Runs-defer_rollback (fail e) w h q f = record { post = f e w h.post }
  Runs-defer_rollback panic w h q f = absurd h.post
  Runs-defer_rollback (perform e g) w h q f =
      Runs-perform e (λ r. defer_rollback (g r)) w
        (Runs-defer_rollback (g (do_effect e w).0) (do_effect e w).1 (perform-Runs e g w h) q f)

pub Result-cases :
    {A : Type 0} (o : Result A) → ((a : A) × (o ≡ Result.ok a)) ⊎ ((e : Error) × (o ≡ Result.err e))
Result-cases (Result.ok a) = inl (a, refl)
Result-cases (Result.err e) = inr (e, refl)

abbrev pub Attempted :
    {A : Type 0} → (A → World → Type 0) → (Error → World → Type 0) → Result A → World → Type 0
Attempted Q E (Result.ok a) w = Q a w
Attempted Q E (Result.err e) w = E e w

module _ {A : Type 0} {Q : A → World → Type 0} {E F : Error → World → Type 0} where
  pub Runs-attempt : (p : Prog A) (w : World) → Runs p w Q E → Runs (attempt p) w (Attempted Q E) F
  Runs-attempt (ret a) w h = Runs-ret (Result.ok a) (ret-Runs h)
  Runs-attempt (fail e) w h = Runs-ret (Result.err e) (fail-Runs h)
  Runs-attempt panic w h = absurd (panic-Runs h)
  Runs-attempt (perform e g) w h =
      Runs-perform e (λ r. attempt (g r)) w
        (Runs-attempt (g (do_effect e w).0) (do_effect e w).1 (perform-Runs e g w h))

module _ {A : Type 0} (Q : A → World → Type 0) (E : Error → World → Type 0) where
  state_of_Post :
      (R : World → Type 0) (o : Outcome A × World)
      → ((a : A) (w : World) → Q a w → R w)
      → ((e : Error) (w : World) → E e w → R w)
      → Post Q E o
      → R o.1
  state_of_Post R (Outcome.ok a, w) q e h = q a w h
  state_of_Post R (Outcome.err x, w) q e h = e x w h
  state_of_Post R (Outcome.panicked, w) q e h = absurd h

  ok_of_Post :
      (o : Outcome A × World)
      → ((e : Error) (w : World) → E e w → ⊥)
      → Post Q E o
      → (a : A) × (o.0 ≡ Outcome.ok a) × Q a o.1
  ok_of_Post (Outcome.ok a, w) e h = (a, refl, h)
  ok_of_Post (Outcome.err x, w) e h = absurd (e x w h)
  ok_of_Post (Outcome.panicked, w) e h = absurd h

  err_of_Post :
      (o : Outcome A × World)
      → ((a : A) (w : World) → Q a w → ⊥)
      → Post Q E o
      → (e : Error) × (o.0 ≡ Outcome.err e) × E e o.1
  err_of_Post (Outcome.ok a, w) q h = absurd (q a w h)
  err_of_Post (Outcome.err x, w) q h = (x, refl, h)
  err_of_Post (Outcome.panicked, w) q h = absurd h

  returned_of_Post : (o : Outcome A × World) (a : A) → o.0 ≡ Outcome.ok a → Post Q E o → Q a o.1
  returned_of_Post (Outcome.ok b, w) a e h = subst (λ x. Q x w) (ok-injective b a e) h
  returned_of_Post (Outcome.err x, w) a e h = cc
  returned_of_Post (Outcome.panicked, w) a e h = cc

  failed_of_Post : (o : Outcome A × World) (e : Error) → o.0 ≡ Outcome.err e → Post Q E o → E e o.1
  failed_of_Post (Outcome.ok a, w) e p h = cc
  failed_of_Post (Outcome.err x, w) e p h = subst (λ x. E x w) (err-injective {A = A} x e p) h
  failed_of_Post (Outcome.panicked, w) e p h = cc

module _ {A : Type 0} {Q : A → World → Type 0} {E : Error → World → Type 0} {p : Prog A} {w : World}
    (h : Runs p w Q E) where
  -- What every outcome ensures holds of the final state.
  pub Runs-state :
      (R : World → Type 0)
      → ((a : A) (w' : World) → Q a w' → R w')
      → ((e : Error) (w' : World) → E e w' → R w')
      → R (run p w).1
  Runs-state R q e = state_of_Post Q E R (run p w) q e h.post

  -- If no error is possible the program returns.
  pub Runs-ok :
      ((e : Error) (w' : World) → E e w' → ⊥)
      → (a : A) × ((run p w).0 ≡ Outcome.ok a) × Q a (run p w).1
  Runs-ok e = ok_of_Post Q E (run p w) e h.post

  -- If no return is possible the program fails.
  pub Runs-err :
      ((a : A) (w' : World) → Q a w' → ⊥)
      → (e : Error) × ((run p w).0 ≡ Outcome.err e) × E e (run p w).1
  Runs-err q = err_of_Post Q E (run p w) q h.post

  -- What a return ensures.
  pub Runs-returned : (a : A) → (run p w).0 ≡ Outcome.ok a → Q a (run p w).1
  Runs-returned a e = returned_of_Post Q E (run p w) a e h.post

  -- What an error ensures.
  pub Runs-failed : (e : Error) → (run p w).0 ≡ Outcome.err e → E e (run p w).1
  Runs-failed e q = failed_of_Post Q E (run p w) e q h.post

  -- A postcondition may speak of the final state by name.
  pub Runs-final :
      Runs p w (λ a w'. Q a w' × ((run p w).1 ≡ w')) (λ e w'. E e w' × ((run p w).1 ≡ w'))
  Runs-final = record { post = named (run p w) h.post }
    where
      named :
          (o : Outcome A × World)
          → Post Q E o
          → Post (λ a w'. Q a w' × (o.1 ≡ w')) (λ e w'. E e w' × (o.1 ≡ w')) o
      named (Outcome.ok a, w') q = (q, refl)
      named (Outcome.err e, w') q = (q, refl)
      named (Outcome.panicked, w') q = q
