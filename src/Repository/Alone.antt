-- ===== src/Repository/Alone.antt =====
-- A statement in a transaction of its own, which may change the tables.
use wallet_service.Prelude.{suc, ◌≤◌, ◌≡◌, refl, ap, ◌⊎◌, inl, inr, none, arith}
use wallet_service.Errors.{unavailable, Error}
use wallet_service.Models.{Uuid, Time, Db}
use wallet_service.Sql.{Answer, rejected, Query, Row, run_query}
use wallet_service.Prog.{
  Prog, perform, Effect, Fault, smooth, refused, answer_lost, World, do_effect, serve, serve_faulty,
  pass,
}
use wallet_service.Prog.Logic.{Runs, Runs-perform}
use wallet_service.Repository.InTx.{Quiet}
use wallet_service.Repository.Idle.{Idle}

-- After a statement that failed, its effect is there or it is not.
pub record Unsure (d d' : Db) (t : Time) (w : World) : Type 0 where
  pub either : (w.db ≡ d) ⊎ (w.db ≡ d')
  pub closed : w.tx ≡ none
  pub since : t ≤ w.clock

module _ (d : Db) (from : Time) (calm : Type 0) where
  serve-alone :
      (q : Query) (id : Uuid) (w : World)
      → Idle d from calm w
      → serve q id w
        ≡ ((run_query q w.clock id d).0, record w { db = (run_query q w.clock id d).1; tx = none })
  serve-alone q id w h =
      rw (h.closed, serve, h.kept)
        (ap
          (λ x.
            ((run_query q w.clock id d).0, record w { db = (run_query q w.clock id d).1; tx = x }))
          h.closed)

  module _ {A : Type 0} {Q : A → World → Type 0} {E : Error → World → Type 0} where
    Runs-alone_faulty :
        (f : Fault) (q : Query) (k : Answer (Row q) → Prog A) (id : Uuid) (w : World)
        → Idle d from calm w
        → (calm → f ≡ smooth)
        → ((w' : World)
            → w'.db ≡ (run_query q w.clock id d).1
            → w'.tx ≡ none
            → (calm → Quiet d.transfers w'.nature)
            → w.clock ≤ w'.clock
            → Runs (k (run_query q w.clock id d).0) w' Q E)
        → ((w' : World)
            → Unsure d (run_query q w.clock id d).1 w.clock w'
            → ¬ calm
            → Runs (k (rejected unavailable)) w' Q E)
        → Runs (k (serve_faulty f q id w).0) (serve_faulty f q id w).1 Q E
    Runs-alone_faulty smooth q k id w h s good bad =
        rw (serve-alone q id w h) (good _ refl refl h.quiet (omega arith))
    Runs-alone_faulty refused q k id w h s good bad =
        bad w (record { either = inl h.kept; closed = h.closed; since = omega arith })
          (λ c. cc (s c))
    Runs-alone_faulty answer_lost q k id w h s good bad =
        rw (serve-alone q id w h)
          (bad _ (record { either = inr refl; closed = refl; since = omega arith }) (λ c. cc (s c)))

    -- The statement takes the UUID that is at hand.
    pub Runs-offered :
        (q : Query) (k : Answer (Row q) → Prog A) (w : World)
        → Idle d from calm w
        → ((t : Time) (w' : World)
            → from ≤ t
            → w'.db ≡ (run_query q t (w.nature 0).uuid d).1
            → w'.tx ≡ none
            → (calm → Quiet d.transfers w'.nature)
            → t ≤ w'.clock
            → Runs (k (run_query q t (w.nature 0).uuid d).0) w' Q E)
        → ((t : Time) (w' : World)
            → from ≤ t
            → Unsure d (run_query q t (w.nature 0).uuid d).1 t w'
            → ¬ calm
            → Runs (k (rejected unavailable)) w' Q E)
        → Runs (perform (Effect.query q) k) w Q E
    unfolding do_effect
    Runs-offered q k w h good bad = Runs-perform (Effect.query q) k w (
        Runs-alone_faulty (w.nature 0).fault q k (w.nature 0).uuid (pass w) (later h)
          (λ c. (h.quiet c 0).0) (λ w'. good (pass w).clock w' (omega (arith, h.since)))
          (λ w'. bad (pass w).clock w' (omega (arith, h.since))))
      where
        later : Idle d from calm w → Idle d from calm (pass w)
        later h = record {
          kept = h.kept;
          closed = h.closed;
          quiet = λ c n. h.quiet c (suc n);
          since = omega (arith, h.since);
        }

    pub Runs-alone :
        (q : Query) (k : Answer (Row q) → Prog A) (w : World)
        → Idle d from calm w
        → ((t : Time) (id : Uuid) (w' : World)
            → from ≤ t
            → w'.db ≡ (run_query q t id d).1
            → w'.tx ≡ none
            → (calm → Quiet d.transfers w'.nature)
            → t ≤ w'.clock
            → Runs (k (run_query q t id d).0) w' Q E)
        → ((t : Time) (id : Uuid) (w' : World)
            → from ≤ t
            → Unsure d (run_query q t id d).1 t w'
            → ¬ calm
            → Runs (k (rejected unavailable)) w' Q E)
        → Runs (perform (Effect.query q) k) w Q E
    Runs-alone q k w h good bad =
        Runs-offered q k w h (λ t w'. good t (w.nature 0).uuid w')
          (λ t w'. bad t (w.nature 0).uuid w')
