-- ===== src/Repository/InTx.antt =====
-- A statement inside an open transaction: it sees the transaction's own tables, its now() is the
-- start of the transaction, and what is committed stays as it is.
use wallet_service.Prelude.{ℕ, suc, ◌≤◌, ◌≡◌, refl, none, some, List, arith}
use wallet_service.Errors.{DbError, unavailable, Error, database}
use wallet_service.Models.{Uuid, Time, Transfer, Db}
use wallet_service.Sql.{Answer, rejected, Query, Row, run_query}
use wallet_service.Sql.Tables.{find_transfer}
use wallet_service.Prog.{
  Prog, perform, Effect, Fault, smooth, refused, answer_lost, Moment, World, OpenTx, do_effect,
  serve, serve_faulty, pass,
}
use wallet_service.Prog.Logic.{Runs, Runs-perform}

-- From here on no statement fails, and every UUID offered is new among the transfers `ts`.
abbrev pub Quiet : List Transfer → (ℕ → Moment) → Type 0
Quiet ts nature = (n : ℕ) → (nature n).fault ≡ smooth × (find_transfer (nature n).uuid ts ≡ none)

serve-InTx :
    (q : Query) (id : Uuid) (w : World) (o : OpenTx)
    → w.tx ≡ some o
    → serve q id w ≡ (
      (run_query q o.started id o.view).0,
      record w { tx = some (record o { view = (run_query q o.started id o.view).1 }) },
    )
serve-InTx q id w o h = rw (h, serve) refl

-- `calm` is the condition under which nothing interferes; a theorem puts `Unit` or `⊥` for it.
module _ (committed : Db) (start : Time) (ts : List Transfer) (calm : Type 0) where
  pub record InTx (view : Db) (w : World) : Type 0 where
    pub kept : w.db ≡ committed
    pub opened : w.tx ≡ some (record { started = start; view = view })
    pub quiet : calm → Quiet ts w.nature
    pub running : start ≤ w.clock

  -- The error of a statement that failed: nothing is committed, and it was not calm.
  pub record Failed (e : Error) (w : World) : Type 0 where
    pub kept : w.db ≡ committed
    pub cause : DbError
    pub error : e ≡ database cause
    pub disturbed : ¬ calm

  module _ {A : Type 0} {Q : A → World → Type 0} {E : Error → World → Type 0} where
    Runs-faulty :
        (f : Fault) (q : Query) (k : Answer (Row q) → Prog A) (id : Uuid) (d : Db) (w : World)
        → InTx d w
        → (calm → f ≡ smooth)
        → ((w' : World)
            → InTx (run_query q start id d).1 w'
            → Runs (k (run_query q start id d).0) w' Q E)
        → ((w' : World) → w'.db ≡ committed → ¬ calm → Runs (k (rejected unavailable)) w' Q E)
        → Runs (k (serve_faulty f q id w).0) (serve_faulty f q id w).1 Q E
    Runs-faulty smooth q k id d w h s good bad =
        rw (serve-InTx q id w (record { started = start; view = d }) h.opened)
          (good _ (record { kept = h.kept; opened = refl; quiet = h.quiet; running = h.running }))
    Runs-faulty refused q k id d w h s good bad = bad w h.kept (λ c. cc (s c))
    Runs-faulty answer_lost q k id d w h s good bad =
        rw (serve-InTx q id w (record { started = start; view = d }) h.opened)
          (bad _ h.kept (λ c. cc (s c)))

    -- A statement gives its answer on the tables of the transaction, or the driver's error.
    pub Runs-query :
        (q : Query) (k : Answer (Row q) → Prog A) (d : Db) (w : World)
        → InTx d w
        → ((w' : World) (id : Uuid)
            → (calm → find_transfer id ts ≡ none)
            → InTx (run_query q start id d).1 w'
            → Runs (k (run_query q start id d).0) w' Q E)
        → ((w' : World) → w'.db ≡ committed → ¬ calm → Runs (k (rejected unavailable)) w' Q E)
        → Runs (perform (Effect.query q) k) w Q E
    unfolding do_effect
    Runs-query q k d w h good bad = Runs-perform (Effect.query q) k w (
        Runs-faulty (w.nature 0).fault q k (w.nature 0).uuid d (pass w) (later h)
          (λ c. (h.quiet c 0).0) (λ w'. good w' (w.nature 0).uuid (λ c. (h.quiet c 0).1)) bad)
      where
        later : InTx d w → InTx d (pass w)
        later h = record {
          kept = h.kept;
          opened = h.opened;
          quiet = λ c n. h.quiet c (suc n);
          running = omega (arith, h.running);
        }
