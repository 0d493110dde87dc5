-- ===== src/Prog/Clock.antt =====
-- Time does not run backwards while a program runs.
use wallet_service.Prelude.{◌≤◌, ◌≡◌, refl, none, some, arith, Option}
use wallet_service.Models.{Uuid}
use wallet_service.Sql.{Query}
use wallet_service.Prog.{
  Prog, ret, fail, panic, perform, Effect, query, begin, commit, Fault, smooth, refused,
  answer_lost, World, Outcome, OpenTx, run, do_effect, serve, serve_faulty, open_tx, close_tx,
  publish, pass,
}
use wallet_service.Errors.{Error}
use wallet_service.Prog.Logic.{Post, Runs}

clock-serve :
    (q : Query) (id : Uuid) (w : World) (o : Option OpenTx)
    → w.tx ≡ o
    → w.clock ≤ (serve q id w).1.clock
clock-serve q id w none e = rw (e, serve) (omega arith)
clock-serve q id w (some t) e = rw (e, serve) (omega arith)

clock-publish : (w : World) (o : Option OpenTx) → w.tx ≡ o → w.clock ≤ (publish w).clock
clock-publish w none e = rw (e, publish) (omega arith)
clock-publish w (some t) e = rw (e, publish) (omega arith)

clock-serve_faulty :
    (f : Fault) (q : Query) (id : Uuid) (w : World) → w.clock ≤ (serve_faulty f q id w).1.clock
clock-serve_faulty smooth q id w = clock-serve q id w w.tx refl
clock-serve_faulty refused q id w = omega arith
clock-serve_faulty answer_lost q id w = clock-serve q id w w.tx refl

clock-open_tx : (f : Fault) (w : World) → w.clock ≤ (open_tx f w).1.clock
clock-open_tx smooth w = omega arith
clock-open_tx _ w = omega arith

clock-close_tx : (f : Fault) (w : World) → w.clock ≤ (close_tx f w).1.clock
clock-close_tx smooth w = clock-publish w w.tx refl
clock-close_tx refused w = omega arith
clock-close_tx answer_lost w = clock-publish w w.tx refl

clock-do_effect : (e : Effect) (w : World) → w.clock ≤ (do_effect e w).1.clock
unfolding do_effect
clock-do_effect (query q) w =
    omega (arith, clock-serve_faulty (w.nature 0).fault q (w.nature 0).uuid (pass w))
clock-do_effect begin w = omega (arith, clock-open_tx (w.nature 0).fault (pass w))
clock-do_effect commit w = omega (arith, clock-close_tx (w.nature 0).fault (pass w))
clock-do_effect _ w = omega arith

pub clock-run : {A : Type 0} (p : Prog A) (w : World) → w.clock ≤ (run p w).1.clock
unfolding run
clock-run (ret a) w = omega arith
clock-run (fail e) w = omega arith
clock-run panic w = omega arith
clock-run (perform e k) w =
    omega (arith, clock-do_effect e w, clock-run (k (do_effect e w).0) (do_effect e w).1)

-- An error is at the earliest at the time of the start.
pub Runs-clock :
    {A : Type 0} {Q : A → World → Type 0} {E : Error → World → Type 0} (p : Prog A) (w : World)
    → Runs p w Q E
    → Runs p w Q (λ e w'. E e w' × (w.clock ≤ w'.clock))
Runs-clock {A} {Q} {E} p w h = record { post = timed (run p w) h.post (clock-run p w) }
  where
    timed :
        (o : Outcome A × World)
        → Post Q E o
        → w.clock ≤ o.1.clock
        → Post Q (λ e w'. E e w' × (w.clock ≤ w'.clock)) o
    timed (Outcome.ok a, w') q le = q
    timed (Outcome.err e, w') x le = (x, le)
    timed (Outcome.panicked, w') q le = q
