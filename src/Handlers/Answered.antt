-- ===== src/Handlers/Answered.antt =====
-- A handler that calls a service answers whatever the call's end.
use wallet_service.Prelude.{
  subst, sym, ℕ, String, List, [], ◌∷◌, false, ◌≤◌, ◌==◌, ◌≡◌, refl, arith, inl, inr, Bool-cases,
  Option-cases,
}
use wallet_service.Errors.{Error, as_validation, database, wrapped}
use wallet_service.Prog.{Prog, Result, ok, err, attempt, World, do_effect, ◌>>=◌}
use wallet_service.Prog.Logic.{Runs, Runs-ret, Runs-perform, Runs-bind, Runs-attempt, Attempted}
use wallet_service.Transfer.Execute.{IsStorage}
use wallet_service.Handlers.{Body, error_body, Response, write_domain_error, by_sentinel, respond}

module _ {A : Type 0} (f : A → Response) (Q : A → World → Type 0) (E : Error → World → Type 0) where
  -- The response to a result, or to an error; a record of the log may be written in between.
  pub data Answered (resp : Response) (w : World) : Type 0 where
    returned : (a : A) → Q a w → resp ≡ f a → Answered resp w
    failed :
        (e : Error) (w₀ : World)
        → E e w₀
        → resp ≡ write_domain_error e
        → w.db ≡ w₀.db
        → w.tx ≡ w₀.tx
        → w.clock ≡ w₀.clock
        → Answered resp w

  respond_error-Runs :
      (e : Error) (w : World) → E e w → Runs (respond f (err e)) w Answered (λ _ _. ⊥)
  unfolding do_effect
  respond_error-Runs e w h = elim (Bool-cases ((write_domain_error e).status == 503)) [
    | inl p ↦ rw p (Runs-perform _ _ w (Runs-ret _ (failed e w h refl refl refl refl)))
    | inr p ↦ rw p (Runs-ret _ (failed e w h refl refl refl refl))
  ]

  respond-Runs :
      (r : Result A) (w : World) → Attempted Q E r w → Runs (respond f r) w Answered (λ _ _. ⊥)
  respond-Runs (ok a) w h = Runs-ret _ (returned a h refl)
  respond-Runs (err e) w h = respond_error-Runs e w h

  -- A handler whose one call ends in `Q` or `E` answers.
  pub handled-Runs :
      (p : Prog A) (w : World) → Runs p w Q E → Runs (attempt p >>= respond f) w Answered (λ _ _. ⊥)
  handled-Runs p w h =
      Runs-bind (attempt p) (respond f) w (Runs-attempt p w h) (λ r w' q. respond-Runs r w' q)

-- A JSON response with the status, the headers after the content type, and the body.
abbrev pub IsJson : ℕ → List (String × String) → Body → Response → Type 0
IsJson status headers body resp = resp ≡ record {
  status = status;
  headers = ("Content-Type", "application/json") ∷ headers;
  body = body;
}

-- An error response with the status and the code; its message is free.
abbrev pub IsError : ℕ → String → Response → Type 0
IsError status code resp =
    (message : String) × IsJson status []
      (error_body (record { success = false; message = message; error = code })) resp

storage_answer :
    (e : Error) → IsStorage e → IsError 503 "service_unavailable" (write_domain_error e)
unfolding write_domain_error
storage_answer (database x) s = ("temporarily unable to process the request; safe to retry", refl)
storage_answer (wrapped m (database x)) s =
    ("temporarily unable to process the request; safe to retry", refl)
storage_answer e s = absurd s

-- An error of the storage answers 503.
pub storage-IsError :
    (e : Error) (resp : Response)
    → resp ≡ write_domain_error e
    → IsStorage e
    → IsError 503 "service_unavailable" resp
storage-IsError e resp p s = subst (IsError 503 "service_unavailable") (sym p) (storage_answer e s)

by_sentinel-status : (e : Error) → 400 ≤ (by_sentinel e).status
by_sentinel-status e = ground arith

-- An error is never answered with a status of success.
pub write_domain_error-status : (e : Error) → 400 ≤ (write_domain_error e).status
unfolding write_domain_error
write_domain_error-status e = elim (Option-cases (as_validation e)) [
  | inl p ↦ rw (write_domain_error, p) (by_sentinel-status e)
  | inr (m, p) ↦ rw (write_domain_error, p) (omega arith)
]
