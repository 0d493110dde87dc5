-- ===== src/Transfer/Execute/Resolve.antt =====
-- `Execute`, `resolveExistingKey` and the calls around the transaction, branch by branch.
use wallet_service.Prelude.{
  pos, ◌≤◌, ◌≡◌, ◌≢◌, refl, ◌∙◌, inl, inr, ◌||◌, none, some, arith, Option-cases, Bool-cases,
  eq_of_test, ne_of_test, ◌==◌, ltb, leb_ℤ, length, text_eq, text_eq_iff,
}
use wallet_service.Errors.{Error}
use wallet_service.Models.{Time, User, Transfer, Db}
use wallet_service.Sql
use wallet_service.Sql.{from_option, run_query}
use wallet_service.Sql.Tables.{find_username, find_key}
use wallet_service.Prog.{World, Result, attempt, ◌>>=◌}
use wallet_service.Prog.Logic.{
  Runs, Runs-ret, Runs-fail, Runs-bind, Runs-weaken, Runs-attempt, Attempted,
}
use wallet_service.Repository.{get_user_by_username, get_transfer_by_sender_key, with_tx}
use wallet_service.Repository.Idle.{Idle, Runs-read, Runs-inc, Runs-log}
use wallet_service.Repository.WithTx.{
  Done, TxError, aborted, not_begun, commit_failed, with_tx-Runs,
}
use wallet_service.Transfer.{
  TransferService, TransferResult, resolve_existing_key, conclude, execute_to, execute, transfer_tx,
}
use wallet_service.Transfer.Transaction.{Order, IsTransfer, IsFeasible, Aborted, transferred}
use wallet_service.Transfer.Transaction.Body.{transfer_tx-InTx}
use wallet_service.Transfer.Execute.{
  Call, call_hash, order, Executed, applied, replayed, Refusal, bad_amount, bad_key, no_recipient,
  to_self, short, conflict, storage, NotExecuted, refused, commit_unknown,
}

module _ (svc : TransferService) (k : Call) (c : Db) (from : Time) (calm : Type 0)
    (feasible : calm
      → (u : User) (t : Time) → find_username k.to_username c.users ≡ some u
      → from ≤ t
      → IsFeasible svc (order svc k u) t c) where
  abbrev pub Ended : TransferResult → World → Type 0
  Ended r w = Executed svc k c from r w × (w.tx ≡ none)

  abbrev pub Stopped : Error → World → Type 0
  Stopped e w = NotExecuted svc k c from calm e w × (w.tx ≡ none)

  stopped :
      (e : Error) {since : Time} {w : World}
      → Refusal svc k c from calm e
      → Idle c since calm w
      → Stopped e w
  stopped e r h = (refused r h.kept, h.closed)

  -- The stored row decides between a replay and a conflict.
  resolve_existing_key-Runs :
      (old : Transfer) (w : World)
      → find_key k.sender k.key c.transfers ≡ some old
      → Idle c 0 calm w
      → Runs (resolve_existing_key svc k.sender k.key (call_hash svc k)) w Ended Stopped
  unfolding resolve_existing_key get_transfer_by_sender_key run_query
  resolve_existing_key-Runs old w e h =
      Runs-read c 0 calm (Sql.select_transfer_by_sender_key k.sender k.key) (Sql.row old) _ w
        (λ now u. rw e) h
        (λ w₁ h₁. elim (Bool-cases (text_eq old.body_hash (call_hash svc k))) [
          | inl same ↦ rw same (
              Runs-inc c 0 calm _ _ w₁ h₁ (λ w₂ h₂. Runs-log c 0 calm _ _ w₂ h₂ (λ w₃ h₃.
                Runs-ret _ (replayed old e ((text_eq_iff _ _).0 same) refl h₃.kept, h₃.closed))))
          | inr differs ↦ rw differs (
              Runs-inc c 0 calm _ _ w₁ h₁ (λ w₂ h₂. Runs-log c 0 calm _ _ w₂ h₂ (λ w₃ h₃.
                Runs-fail _
                  (stopped _ (conflict old e (λ p. cc (differs, (text_eq_iff _ _).1 p)) refl) h₃))))
        ])
        (λ w₁ h₁ n. Runs-fail _ (stopped _ (storage tt n) h₁))

  module _ (u : User) (found : find_username k.to_username c.users ≡ some u)
      (ne : k.sender ≢ u.id) where
    abbrev o : Order
    o = order svc k u

    abbrev Good : Time → TransferResult → Type 0
    Good t r = (from ≤ t) × IsTransfer svc o t c r

    abbrev Bad : Time → Error → Type 0
    Bad t e = (from ≤ t) × Aborted svc o calm t c e

    abbrev after : Time → TransferResult → Db
    after t r = transferred svc o t r.transfer_id c

    transaction-Runs :
        (w : World)
        → Idle c from calm w
        → Runs
            (with_tx (transfer_tx svc k.sender u.id k.amount k.key (call_hash svc k)))
            w
            (Done c calm Good after Bad)
            (λ e w'. TxError c calm Good after Bad e w' × (w'.tx ≡ none))
    transaction-Runs w h =
        with_tx-Runs c calm Good after Bad _ w h.kept h.closed h.quiet (λ t w₁ le h₁.
          let since : from ≤ t = omega (arith, h.since) in
          Runs-weaken _ w₁
            (transfer_tx-InTx svc o ne c t calm (λ q. feasible q u t found since) w₁ h₁)
            (λ r w₂ (g, i). ((since, g), i)) (λ e w₂ (kept, q, b). (kept, q, (since, b))))

    conclude-Aborted-Runs :
        (t : Time) (e : Error) (w : World)
        → from ≤ t
        → Aborted svc o calm t c e
        → Idle c 0 calm w
        → Runs
            (conclude svc k.sender u.id k.amount k.key (call_hash svc k) (Result.err e))
            w
            Ended
            Stopped
    conclude-Aborted-Runs t e w le (inl (p, (old, q))) h =
        rw p (resolve_existing_key-Runs old w q h)
    conclude-Aborted-Runs t e w le (inr (inl (p, q, lt))) h = rw p (
        Runs-inc c 0 calm _ _ w h (λ w₁ h₁.
          Runs-log c 0 calm _ _ w₁ h₁
            (λ w₂ h₂. Runs-fail _ (stopped _ (short u t found le q lt refl) h₂))))
    conclude-Aborted-Runs t e w le (inr (inr ((x, p), n))) h =
        rw p (Runs-fail _ (stopped _ (storage tt n) h))

    conclude_error-Runs :
        (e : Error) (w : World)
        → TxError c calm Good after Bad e w
        → w.tx ≡ none
        → Runs
            (conclude svc k.sender u.id k.amount k.key (call_hash svc k) (Result.err e))
            w
            Ended
            Stopped
    conclude_error-Runs e w (aborted t b le kept q) closed =
        conclude-Aborted-Runs t e w b.0 b.1
          (record { kept = kept; closed = closed; quiet = q; since = omega arith })
    conclude_error-Runs e w (not_begun x p n kept) closed =
        rw p (Runs-fail _ (refused (storage tt n) kept, closed))
    conclude_error-Runs e w (commit_failed x t r p n g le st) closed =
        rw p (Runs-fail _ (commit_unknown u t r x refl n found ne g.0 le g.1 st, closed))

    apply-Runs :
        (w : World)
        → Idle c from calm w
        → Runs
            (attempt (with_tx (transfer_tx svc k.sender u.id k.amount k.key (call_hash svc k)))
              >>= conclude svc k.sender u.id k.amount k.key (call_hash svc k))
            w
            Ended
            Stopped
    apply-Runs w h =
        Runs-bind _ _ w (Runs-attempt _ w (transaction-Runs w h)) (λ done w₁ q. concluded done w₁ q)
      where
        concluded :
            (done : Result TransferResult) (w₁ : World)
            → Attempted
                (Done c calm Good after Bad)
                (λ e w'. TxError c calm Good after Bad e w' × (w'.tx ≡ none))
                done
                w₁
            → Runs
                (conclude svc k.sender u.id k.amount k.key (call_hash svc k) done)
                w₁
                Ended
                Stopped
        concluded (Result.ok r) w₁ d =
            Runs-inc w₁.db d.start ⊥ _ _ w₁
              (record { kept = refl; closed = d.closed; quiet = λ q. absurd q; since = d.ended })
              (λ w₂ h₂. Runs-log w₁.db d.start ⊥ _ _ w₂ h₂ (λ w₃ h₃. Runs-ret r (
                applied u d.start found ne d.good.0 h₃.since d.good.1 (h₃.kept ∙ d.stored),
                h₃.closed,
              )))
        concluded (Result.err e) w₁ (x, closed) = conclude_error-Runs e w₁ x closed

  execute_to-Runs :
      (u : User) (w : World)
      → find_username k.to_username c.users ≡ some u
      → Idle c from calm w
      → Runs (execute_to svc k.sender k.to_username k.amount k.key u) w Ended Stopped
  execute_to-Runs u w found h = elim (Bool-cases (u.id == k.sender)) [
    | inl self ↦ rw self (
        Runs-inc c from calm _ _ w h
          (λ w₁ h₁. Runs-fail _ (stopped _ (to_self u found (eq_of_test _ _ self) refl) h₁)))
    | inr other ↦ rw other (apply-Runs u found (ne_of_test _ _ other) w h)
  ]

  -- From the arguments on.
  pub execute-Runs :
      (w : World)
      → Idle c from calm w
      → Runs (execute svc k.sender k.to_username k.amount k.key) w Ended Stopped
  unfolding execute get_user_by_username run_query
  execute-Runs w h = elim (Bool-cases (leb_ℤ k.amount (pos 0))) [
    | inl bad ↦ rw bad (
        Runs-inc c from calm _ _ w h
          (λ w₁ h₁. Runs-fail _ (stopped _ (bad_amount (ground arith) refl) h₁)))
    | inr positive ↦ elim (Bool-cases (length k.key == 0 || ltb 128 (length k.key))) [
      | inl bad ↦ rw (positive, bad) (Runs-fail _ (stopped _ (bad_key (ground arith) refl) h))
      | inr good ↦
          rw (positive, good)
            (Runs-read c from calm (Sql.select_user_by_username k.to_username)
              (from_option (find_username k.to_username c.users)) _ w (λ now u. refl) h
              (λ w₁ h₁. elim (Option-cases (find_username k.to_username c.users)) [
                | inl none_found ↦ rw none_found (
                    Runs-inc c from calm _ _ w₁ h₁
                      (λ w₂ h₂. Runs-fail _ (stopped _ (no_recipient none_found refl) h₂)))
                | inr (u, found) ↦ rw found (execute_to-Runs u w₁ found h₁)
              ])
              (λ w₁ h₁ n. Runs-fail _ (stopped _ (storage tt n) h₁)))
    ]
  ]
