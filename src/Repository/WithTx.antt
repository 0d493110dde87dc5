-- ===== src/Repository/WithTx.antt =====
-- `Store.WithTx`: what its function leaves in the transaction's tables is committed as a whole or
-- not at all.
use wallet_service.Prelude.{suc, ◌≤◌, ◌≡◌, refl, ◌⊎◌, inl, inr, none, some, ap, arith}
use wallet_service.Errors.{DbError, unavailable, Error, database, wrapped}
use wallet_service.Models.{Time, Db}
use wallet_service.Prog.{
  Prog, Effect, Fault, smooth, refused, answer_lost, World, OpenTx, do_effect, open_tx, close_tx,
  publish, pass, defer_rollback, ◌>>◌,
}
use wallet_service.Prog.Clock.{Runs-clock}
use wallet_service.Prog.Logic.{
  Runs, Runs-ret, Runs-fail, Runs-perform, Runs-bind, Runs-weaken, Runs-defer_rollback,
}
use wallet_service.Repository.{with_tx, begun, committed, then_commit}
use wallet_service.Repository.InTx.{InTx, Quiet}

-- `Good t a` is what the function ensures when it returns `a` in a transaction started at `t`,
-- `after t a` the tables that it leaves, and `Bad t e` what it ensures when it fails.
module _ {A : Type 0} (c : Db) (calm : Type 0) (Good : Time → A → Type 0) (after : Time → A → Db)
    (Bad : Time → Error → Type 0) where
  pub record Done (a : A) (w : World) : Type 0 where
    pub start : Time
    pub good : Good start a
    pub stored : w.db ≡ after start a
    pub closed : w.tx ≡ none
    pub ended : start ≤ w.clock
    pub quiet : calm → Quiet c.transfers w.nature

  -- A failed commit may have taken effect all the same.
  pub data TxError (e : Error) (w : World) : Type 0 where
    aborted :
        (t : Time)
        → Bad t e
        → t ≤ w.clock
        → w.db ≡ c
        → (calm → Quiet c.transfers w.nature)
        → TxError e w
    not_begun :
        (x : DbError) → e ≡ wrapped "begin tx" (database x) → ¬ calm → w.db ≡ c → TxError e w
    commit_failed :
        (x : DbError) (t : Time) (a : A)
        → e ≡ wrapped "commit tx" (database x)
        → ¬ calm
        → Good t a
        → t ≤ w.clock
        → (w.db ≡ c) ⊎ (w.db ≡ after t a)
        → TxError e w

  publish-InTx :
      (w : World) (o : OpenTx) → w.tx ≡ some o → publish w ≡ record w { db = o.view; tx = none }
  publish-InTx w o h = rw (h, publish)

  -- After the commit, or the failure, and before the deferred rollback.
  abbrev Stored : A → World → Type 0
  Stored a w =
      (t : Time) × Good t a
      × (w.db ≡ after t a)
      × (t ≤ w.clock)
      × (calm → Quiet c.transfers w.nature)

  commit-Runs :
      (f : Fault) (a : A) (t : Time) (w : World)
      → Good t a
      → InTx c t c.transfers calm (after t a) w
      → (calm → f ≡ smooth)
      → Runs (committed a (close_tx f w).0) (close_tx f w).1 Stored TxError
  commit-Runs smooth a t w g h s =
      rw (publish-InTx w _ h.opened) (Runs-ret a (t, g, refl, h.running, h.quiet))
  commit-Runs refused a t w g h s =
      Runs-fail _ (commit_failed unavailable t a refl (λ k. cc (s k)) g h.running (inl h.kept))
  commit-Runs answer_lost a t w g h s =
      rw (publish-InTx w _ h.opened)
        (Runs-fail _ (commit_failed unavailable t a refl (λ k. cc (s k)) g h.running (inr refl)))

  -- What the function of a transaction has to ensure.
  abbrev pub Body : Time → Prog A → World → Type 0
  Body t body w =
      Runs body w (λ a w'. Good t a × InTx c t c.transfers calm (after t a) w')
        (λ e w'. (w'.db ≡ c) × (calm → Quiet c.transfers w'.nature) × Bad t e)

  then_commit-Runs :
      (body : Prog A) (t : Time) (w : World)
      → t ≤ w.clock
      → Body t body w
      → Runs (then_commit body) w Stored TxError
  unfolding do_effect
  then_commit-Runs body t w started h =
      Runs-bind body _ w
        (Runs-weaken body w (Runs-clock body w h) (λ _ _ p. p)
          (λ e w' ((k, s, b), le). aborted t b (omega arith) k s))
        (λ a w' (g, i).
          Runs-perform Effect.commit _ w'
            (commit-Runs (w'.nature 0).fault a t (pass w') g (later i) (λ k. (i.quiet k 0).0)))
    where
      later :
          {d : Db} {w : World}
          → InTx c t c.transfers calm d w
          → InTx c t c.transfers calm d (pass w)
      later h = record {
        kept = h.kept;
        opened = h.opened;
        quiet = λ k n. h.quiet k (suc n);
        running = omega (arith, h.running);
      }

  module _ (body : Prog A) (w : World) (kept : w.db ≡ c) (closed : w.tx ≡ none)
      (quiet : calm → Quiet c.transfers w.nature)
      (inside : (t : Time) (w' : World)
        → w.clock ≤ t
        → InTx c t c.transfers calm c w'
        → Body t body w') where
    begin-Runs :
        (f : Fault)
        → (calm → f ≡ smooth)
        → Runs
            (begun (open_tx f (pass w)).0 >> defer_rollback (then_commit body))
            (open_tx f (pass w)).1
            Done
            (λ e w'. TxError e w' × (w'.tx ≡ none))
    begin-Runs smooth s =
        Runs-defer_rollback _ _
          (then_commit-Runs body _ _ (omega arith) (
            inside _ _ (omega arith) (record {
              kept = kept;
              opened = ap (λ d. some (record { started = (pass w).clock; view = d })) kept;
              quiet = λ k n. quiet k (suc n);
              running = omega arith;
            })))
          (λ a w' (t, g, st, e, q). record {
            start = t;
            good = g;
            stored = st;
            closed = refl;
            ended = e;
            quiet = q;
          })
          (λ e w' x. (closed_error e w' x, refl))
      where
        closed_error : (e : Error) (w' : World) → TxError e w' → TxError e (record w' { tx = none })
        closed_error e w' (aborted t b le k s) = aborted t b le k s
        closed_error e w' (not_begun x p n k) = not_begun x p n k
        closed_error e w' (commit_failed x t a p n g u k) = commit_failed x t a p n g u k
    begin-Runs refused s = Runs-fail _ (not_begun unavailable refl (λ k. cc (s k)) kept, closed)
    begin-Runs answer_lost s = Runs-fail _ (not_begun unavailable refl (λ k. cc (s k)) kept, closed)

    pub with_tx-Runs : Runs (with_tx body) w Done (λ e w'. TxError e w' × (w'.tx ≡ none))
    unfolding with_tx do_effect
    with_tx-Runs =
        Runs-perform Effect.begin _ w (begin-Runs (w.nature 0).fault (λ k. (quiet k 0).0))
