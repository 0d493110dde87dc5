-- ===== src/Api/Kept.antt =====
-- What a handler keeps, the middleware and the mux keep around it.
use wallet_service.Prelude.{
  String, Text, List, [], ◌∷◌, All, ◌≡◌, refl, sym, subst, some, Bool-cases, Option-cases, inl, inr,
}
use mathlib.Core.Option.{some-injective}
use wallet_service.Errors.{Error}
use wallet_service.Models.{Uuid}
use wallet_service.Observe.{Counter}
use wallet_service.Prog.{Prog, ret, fail, panic, perform, attempt, World, run, do_effect, ◌>>=◌}
use wallet_service.Prog.Logic.{
  Runs, Runs-ret, Runs-perform, perform-Runs, panic-Runs, Runs-bind, Runs-weaken, Runs-final,
}
use wallet_service.Auth.{AuthService}
use wallet_service.Handlers.{Response, Request, Handler, respond}
use wallet_service.Handlers.Answered.{Answered, handled-Runs}
use wallet_service.Api.{
  Pattern, Table, recovering, recovery, metrics, route_label, auth_fail, with_user_id, authenticate,
  match_path, match_method, find_route, serve_mux,
}
use wallet_service.Api.Gate
use wallet_service.Api.Gate.{Identified, authenticate-Gated}

-- A handler returns no error.
abbrev pub Never : Error → World → Type 0
Never e w = ⊥

recovering-Runs :
    {Q : Response → World → Type 0} (p : Prog Response) (w : World)
    → Runs p w Q Never
    → Runs (recovering p) w Q Never
recovering-Runs (ret a) w h = h
recovering-Runs (fail e) w h = h
recovering-Runs panic w h = absurd (panic-Runs h)
recovering-Runs (perform e k) w h =
    Runs-perform e (λ x. recovering (k x)) w
      (recovering-Runs (k (do_effect e w).0) (do_effect e w).1 (perform-Runs e k w h))

module _ (P : World → Type 0)
    (stable : (w w' : World) → w'.db ≡ w.db → w'.tx ≡ w.tx → w'.clock ≡ w.clock → P w → P w') where
  -- The program answers, and `P` holds then.
  abbrev pub Kept : Prog Response → World → Type 0
  Kept p w = Runs p w (λ _ w'. P w') Never

  pub Kept-ret : (resp : Response) (w : World) → P w → Kept (ret resp) w
  Kept-ret resp w h = Runs-ret resp h

  pub auth_fail-Kept : (reason : String) (w : World) → P w → Kept (auth_fail reason) w
  unfolding do_effect
  auth_fail-Kept reason w h =
      Runs-perform _ _ w (Runs-perform _ _ _ (Runs-ret _ (stable w _ refl refl refl h)))

  pub authenticate-Kept :
      (a : AuthService) (next : Handler) (r : Request) (w : World)
      → P w
      → ((id : Uuid) → Identified a r id → Kept (next (with_user_id r id)) w)
      → Kept (authenticate a next r) w
  authenticate-Kept a next r w h go = elim (authenticate-Gated a next r) [
    | Gate.admitted id i e ↦ subst (λ p. Kept p w) (sym e) (go id i)
    | Gate.rejected reason n e ↦ subst (λ p. Kept p w) (sym e) (auth_fail-Kept reason w h)
  ]

  -- A handler of one call, which ends somehow, where `P` holds.
  pub handled-Kept :
      {A : Type 0} {Q : A → World → Type 0} {E : Error → World → Type 0} (f : A → Response)
      (p : Prog A) (w : World)
      → Runs p w Q E
      → P (run p w).1
      → Kept (attempt p >>= respond f) w
  handled-Kept {A} {Q} {E} f p w h k =
      Runs-weaken _ w
        (handled-Runs f (λ _ w'. P w') (λ _ w'. P w') p w
          (Runs-weaken p w (Runs-final h) (λ a w' (q, e). subst P e k)
            (λ x w' (q, e). subst P e k)))
        (λ resp w' x. last resp w' x) (λ e w' x. x)
    where
      last :
          (resp : Response) (w' : World) → Answered f (λ _ w'. P w') (λ _ w'. P w') resp w' → P w'
      last resp w' (Answered.returned a q e) = q
      last resp w' (Answered.failed x w₀ q e d t c) = stable w₀ w' d t c q

  -- A route that is found is one of the table.
  found-Kept :
      (t : Table) (r : Request) (w : World)
      → All (λ e. (id : Text) → Kept (e.1 (record r { pattern = e.0.text; path_id = id })) w) t
      → (p : Pattern) (h : Handler) (id : Text) → find_route t r ≡ some (p, h, id)
      → Kept (h (record r { pattern = p.text; path_id = id })) w
  unfolding find_route
  found-Kept [] r w ks p h id e = cc
  found-Kept ((q, g) ∷ t) r w ks p h id e = elim (Option-cases (match_path q.segments r.path)) [
    | inl n ↦ found-Kept t r w ks.1 p h id (rw (find_route, n) at e)
    | inr (i, n) ↦ elim (Bool-cases (match_method q.method r.method)) [
      | inr m ↦ found-Kept t r w ks.1 p h id (rw (find_route, n, m) at e)
      | inl m ↦
          let same = some-injective (q, g, i) (p, h, id) (rw (find_route, n, m) at e) in
          subst (λ x. Kept (x.1 (record r { pattern = x.0.text; path_id = x.2 })) w) same (ks.0 i)
    ]
  ]

  pub serve_mux-Kept :
      (t : Table) (r : Request) (w : World)
      → P w
      → All (λ e. (id : Text) → Kept (e.1 (record r { pattern = e.0.text; path_id = id })) w) t
      → Kept (serve_mux t r) w
  unfolding serve_mux
  serve_mux-Kept t r w h ks = elim (Option-cases (find_route t r)) [
    | inl e ↦ rw (serve_mux, e) (Runs-ret _ h)
    | inr ((p, g, id), e) ↦ rw (serve_mux, e) (found-Kept t r w ks p g id e)
  ]

  -- The answer is counted last, under the label that the request's own pattern gives.
  abbrev pub Counted : Request → Response → World → Type 0
  Counted r resp w =
      (ms : List Counter) × (w.metrics
        ≡ Counter.http_requests (route_label r.pattern) r.method resp.status ∷ ms)

  pub recovery-Kept :
      (next : Handler) (r : Request) (w : World)
      → Kept (next r) w
      → Runs (recovery (metrics next) r) w (λ resp w'. P w' × Counted r resp w') Never
  unfolding recovery metrics do_effect
  recovery-Kept next r w h = recovering-Runs _ w (
      Runs-bind (next r) _ w h (λ resp w₁ k.
        Runs-perform _ _ w₁
          (Runs-perform _ _ _ (Runs-ret resp (stable w₁ _ refl refl refl k, (w₁.metrics, refl))))))
