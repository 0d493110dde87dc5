-- ===== src/Prog.antt =====
-- A request's code as a program over its effects, and its run against the database. The effects
-- are the statements of the pgx driver, the counters and the log; what the driver and the clock do
-- at each statement is read from a stream of `Moment`s, so a theorem for every stream is one for
-- every timing and every failure.
pub mod Logic
pub mod Clock
use wallet_service.Prelude.{
  ℕ, suc, zero, ◌+◌, Option, none, some, List, ◌∷◌, Bool, true, false, if◌then◌else◌,
}
use wallet_service.Errors.{DbError, unavailable, Error, Sentinel, sentinel}
use wallet_service.Models.{Uuid, Time, Db}
use wallet_service.Sql.{Answer, row, no_rows, rejected, Query, Row, run_query}
use wallet_service.Observe.{Counter, Event}

pub data Effect : Type 0 where
  query : Query → Effect
  begin commit rollback : Effect
  inc : Counter → Effect
  log : Event → Effect

-- `none` is a nil error.
abbrev pub Reply : Effect → Type 0
Reply (query q) = Answer (Row q)
Reply begin = Option DbError
Reply commit = Option DbError
Reply rollback = Unit
Reply (inc _) = Unit
Reply (log _) = Unit

-- `fail` is a return of a non-nil error, `panic` a run-time panic.
pub data Prog (A : Type 0) : Type 0 where
  ret : A → Prog A
  fail : Error → Prog A
  panic : Prog A
  perform : (e : Effect) → (Reply e → Prog A) → Prog A

infixl 5 ◌>>=◌ ◌>>◌
abbrev pub ◌>>=◌ : {A B : Type 0} → Prog A → (A → Prog B) → Prog B
ret a >>= f = f a
fail e >>= f = fail e
panic >>= f = panic
perform e k >>= f = perform e (λ r. k r >>= f)

abbrev pub ◌>>◌ : {A B : Type 0} → Prog A → Prog B → Prog B
m >> n = m >>= λ _. n

-- An effect whose reply is the result.
abbrev pub act : (e : Effect) → Prog (Reply e)
act e = perform e (λ r. ret r)

pub data Result (A : Type 0) : Type 0 where
  ok : A → Result A
  err : Error → Result A

-- A call whose error the caller looks at.
abbrev pub attempt : {A : Type 0} → Prog A → Prog (Result A)
attempt (ret a) = ret (ok a)
attempt (fail e) = ret (err e)
attempt panic = panic
attempt (perform e k) = perform e (λ r. attempt (k r))

abbrev pub from_result : {A : Type 0} → Result A → Prog A
from_result (ok a) = ret a
from_result (err e) = fail e

-- `defer pgtx.Rollback(ctx)`, on a return, on an error and on a panic.
abbrev pub defer_rollback : {A : Type 0} → Prog A → Prog A
defer_rollback (ret a) = perform rollback (λ _. ret a)
defer_rollback (fail e) = perform rollback (λ _. fail e)
defer_rollback panic = perform rollback (λ _. panic)
defer_rollback (perform e k) = perform e (λ r. defer_rollback (k r))

-- What happens at one statement: nothing, a failure before it took effect, or a failure after,
-- where only the answer is lost. Time passes before it, and a UUID is at hand.
pub data Fault : Type 0 where
  smooth refused answer_lost : Fault

pub record Moment : Type 0 where
  pub fault : Fault
  pub elapsed : ℕ
  pub uuid : Uuid

-- An open transaction: the time of its start, which is its now(), and the tables as it sees them.
pub record OpenTx : Type 0 where
  pub started : Time
  pub view : Db

-- `db` is what is committed; `metrics` and `logs` have the newest first.
pub record World : Type 0 where
  pub db : Db
  pub tx : Option OpenTx
  pub clock : Time
  pub nature : ℕ → Moment
  pub metrics : List Counter
  pub logs : List Event

pub data Outcome (A : Type 0) : Type 0 where
  ok : A → Outcome A
  err : Error → Outcome A
  panicked : Outcome A

abbrev pub pass : World → World
pass w = record w { clock = w.clock + (w.nature 0).elapsed; nature = λ n. w.nature (suc n) }

-- The statement in the open transaction, or in one of its own.
abbrev pub serve : (q : Query) → Uuid → World → Answer (Row q) × World
serve q id w = elim w.tx [
  | none ↦ let (r, d) = run_query q w.clock id w.db in (r, record w { db = d })
  | some t ↦
      let (r, d) = run_query q t.started id t.view in
      (r, record w { tx = some (record t { view = d }) })
]

abbrev pub serve_faulty : Fault → (q : Query) → Uuid → World → Answer (Row q) × World
serve_faulty smooth q id w = serve q id w
serve_faulty refused q id w = (rejected unavailable, w)
serve_faulty answer_lost q id w = (rejected unavailable, (serve q id w).1)

abbrev pub open_tx : Fault → World → Option DbError × World
open_tx smooth w = (none, record w { tx = some (record { started = w.clock; view = w.db }) })
open_tx refused w = (some unavailable, w)
open_tx answer_lost w = (some unavailable, w)

abbrev pub publish : World → World
publish w = elim w.tx [ none ↦ w | some t ↦ record w { db = t.view; tx = none } ]

abbrev pub close_tx : Fault → World → Option DbError × World
close_tx smooth w = (none, publish w)
close_tx refused w = (some unavailable, record w { tx = none })
close_tx answer_lost w = (some unavailable, publish w)

unfoldable pub do_effect : (e : Effect) → World → Reply e × World
do_effect (query q) w = serve_faulty (w.nature 0).fault q (w.nature 0).uuid (pass w)
do_effect begin w = open_tx (w.nature 0).fault (pass w)
do_effect commit w = close_tx (w.nature 0).fault (pass w)
do_effect rollback w = (tt, record w { tx = none })
do_effect (inc c) w = (tt, record w { metrics = c ∷ w.metrics })
do_effect (log ev) w = (tt, record w { logs = ev ∷ w.logs })

unfoldable pub run : {A : Type 0} → Prog A → World → Outcome A × World
run (ret a) w = (ok a, w)
run (fail e) w = (err e, w)
run panic w = (panicked, w)
run (perform e k) w = let (r, w') = do_effect e w in run (k r) w'
