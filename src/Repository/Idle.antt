-- ===== src/Repository/Idle.antt =====
-- A request between its transactions: a single read, the counters and the log.
use wallet_service.Prelude.{suc, ◌≤◌, ◌≡◌, refl, ap, none, arith}
use wallet_service.Errors.{unavailable, Error}
use wallet_service.Models.{Uuid, Time, Db}
use wallet_service.Observe.{Counter, Event}
use wallet_service.Sql.{Answer, rejected, Query, Row, run_query}
use wallet_service.Prog.{
  Prog, perform, Effect, Fault, smooth, refused, answer_lost, World, do_effect, serve, serve_faulty,
  pass,
}
use wallet_service.Prog.Logic.{Runs, Runs-perform}
use wallet_service.Repository.InTx.{Quiet}

module _ (c : Db) (from : Time) (calm : Type 0) where
  pub record Idle (w : World) : Type 0 where
    pub kept : w.db ≡ c
    pub closed : w.tx ≡ none
    pub quiet : calm → Quiet c.transfers w.nature
    pub since : from ≤ w.clock

  -- The statement reads the committed tables and leaves them as they are.
  abbrev pub Reads : (q : Query) → Answer (Row q) → Type 0
  Reads q ans = (now : Time) (u : Uuid) → run_query q now u c ≡ (ans, c)

  serve-Idle :
      (q : Query) (ans : Answer (Row q)) (id : Uuid) (w : World)
      → Reads q ans
      → Idle w
      → serve q id w ≡ (ans, record w { db = c; tx = none })
  serve-Idle q ans id w r h =
      rw (h.closed, serve, h.kept, r w.clock id)
        (ap (λ x. (ans, record w { db = c; tx = x })) h.closed)

  Idle-same : {w : World} → Idle w → Idle (record w { db = c; tx = none })
  Idle-same h = record { kept = refl; closed = refl; quiet = h.quiet; since = h.since }

  module _ {A : Type 0} {Q : A → World → Type 0} {E : Error → World → Type 0} where
    Runs-read_faulty :
        (f : Fault) (q : Query) (ans : Answer (Row q)) (k : Answer (Row q) → Prog A) (id : Uuid)
        (w : World)
        → Reads q ans
        → Idle w
        → (calm → f ≡ smooth)
        → ((w' : World) → Idle w' → Runs (k ans) w' Q E)
        → ((w' : World) → Idle w' → ¬ calm → Runs (k (rejected unavailable)) w' Q E)
        → Runs (k (serve_faulty f q id w).0) (serve_faulty f q id w).1 Q E
    Runs-read_faulty smooth q ans k id w r h s good bad =
        rw (serve-Idle q ans id w r h) (good _ (Idle-same h))
    Runs-read_faulty refused q ans k id w r h s good bad = bad w h (λ c. cc (s c))
    Runs-read_faulty answer_lost q ans k id w r h s good bad =
        rw (serve-Idle q ans id w r h) (bad _ (Idle-same h) (λ c. cc (s c)))

    pub Runs-read :
        (q : Query) (ans : Answer (Row q)) (k : Answer (Row q) → Prog A) (w : World)
        → Reads q ans
        → Idle w
        → ((w' : World) → Idle w' → Runs (k ans) w' Q E)
        → ((w' : World) → Idle w' → ¬ calm → Runs (k (rejected unavailable)) w' Q E)
        → Runs (perform (Effect.query q) k) w Q E
    unfolding do_effect
    Runs-read q ans k w r h good bad = Runs-perform (Effect.query q) k w (
        Runs-read_faulty (w.nature 0).fault q ans k (w.nature 0).uuid (pass w) r (later h)
          (λ c. (h.quiet c 0).0) good bad)
      where
        later : {w : World} → Idle w → Idle (pass w)
        later h = record {
          kept = h.kept;
          closed = h.closed;
          quiet = λ c n. h.quiet c (suc n);
          since = omega (arith, h.since);
        }

    pub Runs-inc :
        (x : Counter) (k : Unit {0} → Prog A) (w : World)
        → Idle w
        → ((w' : World) → Idle w' → Runs (k tt) w' Q E)
        → Runs (perform (Effect.inc x) k) w Q E
    unfolding do_effect
    Runs-inc x k w h go =
        Runs-perform (Effect.inc x) k w
          (go _ (record { kept = h.kept; closed = h.closed; quiet = h.quiet; since = h.since }))

    pub Runs-log :
        (x : Event) (k : Unit {0} → Prog A) (w : World)
        → Idle w
        → ((w' : World) → Idle w' → Runs (k tt) w' Q E)
        → Runs (perform (Effect.log x) k) w Q E
    unfolding do_effect
    Runs-log x k w h go =
        Runs-perform (Effect.log x) k w
          (go _ (record { kept = h.kept; closed = h.closed; quiet = h.quiet; since = h.since }))
