-- ===== src/Transfer/Claim/Resolve.antt =====
-- `ClaimBack`, `resolveUnappliedClaim` and `replayClaim`, branch by branch.
use wallet_service.Prelude.{
  ℕ, ℤ, pos, ◌≤ℤ◌, ◌≤◌, ◌≡◌, ◌≢◌, refl, sym, subst, ◌∙◌, ◌⊎◌, inl, inr, true, false, Option, none,
  some, All, arith, Option-cases, Bool-cases, eq_of_test, ne_of_test, ◌==◌,
}
use wallet_service.Errors.{
  DbError, map_repo_not_found, Error, sentinel, database, claim_not_applied,
}
use wallet_service.Models.{Uuid, Time, Transfer, TransferStatus, completed, reversed, Db}
use wallet_service.Sql
use wallet_service.Sql.{from_option, run_query}
use wallet_service.Sql.Tables.{find_transfer, is_active}
use wallet_service.Sql.Tables.Balances.{balance?}
use wallet_service.Prog.{World, Result, attempt, ◌>>=◌}
use wallet_service.Prog.Logic.{
  Runs, Runs-ret, Runs-fail, Runs-bind, Runs-weaken, Runs-attempt, Attempted,
}
use wallet_service.Repository.{get_transfer_by_id, with_tx}
use wallet_service.Repository.Idle.{Idle, Runs-read, Runs-inc, Runs-log}
use wallet_service.Repository.WithTx.{
  Done, TxError, aborted, not_begun, commit_failed, with_tx-Runs,
}
use wallet_service.Ledger.Rows.{IsWellFormed, find_transfer_row}
use wallet_service.Transfer.{TransferService}
use wallet_service.Transfer.ClaimBack.{
  ClaimResult, replay_claim, resolve_unapplied_claim, conclude_claim, by_status, claim_back,
  claim_tx,
}
use wallet_service.Transfer.Claim.{
  IsClaim, claimed, sender_restored, recipient_restored, Claimed, applied, replayed, Refusal,
  unknown, not_sender, expired, storage, NotClaimed, refused, commit_unknown,
}
use wallet_service.Transfer.Claim.Body.{claim_tx-InTx}

pub is_active_earlier :
    (window : ℕ) (now later : Time) (tr : Transfer)
    → now ≤ later
    → is_active window later tr ≡ true
    → is_active window now tr ≡ true
unfolding is_active
is_active_earlier window now later tr le h = ground arith

pub has_value : {A : Type 0} {b : Option A} → b ≢ none → (x : A) × (b ≡ some x)
has_value {b = none} h = absurd (h refl)
has_value {b = some x} h = (x, refl)

module _ (svc : TransferService) (caller transfer_id : Uuid) (c : Db) (from : Time) (calm : Type 0)
    (rows : All (IsWellFormed c.wallets) c.transfers)
    (room : calm
      → (tr : Transfer) → find_transfer transfer_id c.transfers ≡ some tr
      → tr.sender_id ≡ caller
      → is_active svc.claim_window from tr ≡ true
      → (pos 0 ≤ℤ sender_restored svc tr c) × (pos 0 ≤ℤ recipient_restored svc tr c)) where
  abbrev pub Ended : ClaimResult → World → Type 0
  Ended r w = Claimed svc caller transfer_id c from r w × (w.tx ≡ none)

  abbrev pub Stopped : Error → World → Type 0
  Stopped e w = NotClaimed svc caller transfer_id c from calm e w × (w.tx ≡ none)

  stopped :
      (e : Error) {since : Time} {w : World}
      → Refusal svc caller transfer_id c from calm e w.clock
      → Idle c since calm w
      → Stopped e w
  stopped e r h = (refused r h.kept, h.closed)

  module _ (tr : Transfer) (found : find_transfer transfer_id c.transfers ≡ some tr)
      (mine : tr.sender_id ≡ caller) where
    row : IsWellFormed c.wallets tr × (tr.id ≡ transfer_id)
    row = find_transfer_row (IsWellFormed c.wallets) transfer_id c.transfers tr rows found

    -- A reversed transfer has its outcome stored, so the replay does not panic.
    replay_claim-Runs :
        (w : World)
        → tr.status ≡ reversed
        → Idle c 0 calm w
        → Runs (replay_claim svc tr) w Ended Stopped
    unfolding replay_claim
    replay_claim-Runs w st h =
        let (after, p) = has_value (row.0.reversal_balance st) in
        let (at, q) = has_value (row.0.reversal_time st) in
        Runs-inc c 0 calm _ _ w h (λ w₁ h₁. Runs-log c 0 calm _ _ w₁ h₁ (λ w₂ h₂.
          rw (p, q) (Runs-ret _ (replayed tr found mine st (refl, p, q, refl) h₂.kept, h₂.closed))))

    found_row : find_transfer tr.id c.transfers ≡ some tr
    found_row = subst (λ i. find_transfer i c.transfers ≡ some tr) (sym row.1) found

    -- A transfer that is still completed was not reversed because its window has passed.
    resolve_unapplied_claim-Runs :
        (t : Time) (w : World)
        → tr.status ≡ completed
        → from ≤ t
        → is_active svc.claim_window t tr ≡ false
        → Idle c t calm w
        → Runs (resolve_unapplied_claim svc tr.id) w Ended Stopped
    unfolding resolve_unapplied_claim get_transfer_by_id run_query
    resolve_unapplied_claim-Runs t w st le inactive h =
        Runs-read c t calm (Sql.select_transfer_by_id tr.id) (Sql.row tr) _ w
          (λ now u. rw found_row) h
          (λ w₁ h₁. rw st (
            Runs-inc c t calm _ _ w₁ h₁ (λ w₂ h₂. Runs-log c t calm _ _ w₂ h₂ (λ w₃ h₃.
              Runs-fail _ (stopped _ (expired tr t found mine st le h₃.since inactive refl) h₃)))))
          (λ w₁ h₁ n. Runs-fail _ (stopped _ (storage tt n) h₁))

    module _ (st : tr.status ≡ completed) (x y : ℤ)
        (sender_has : balance? tr.sender_id c.wallets ≡ some x)
        (recipient_has : balance? tr.recipient_id c.wallets ≡ some y) where
      abbrev Good : Time → ClaimResult → Type 0
      Good t r = (from ≤ t) × IsClaim svc tr t c r

      abbrev Bad : Time → Error → Type 0
      Bad t e =
          (from ≤ t)
          × (((e ≡ sentinel claim_not_applied) × (is_active svc.claim_window t tr ≡ false))
              ⊎ (((z : DbError) × (e ≡ database z)) × ¬ calm))

      abbrev after : Time → ClaimResult → Db
      after t r = claimed svc tr t c

      transaction-Runs :
          (w : World)
          → Idle c from calm w
          → Runs
              (with_tx (claim_tx svc tr))
              w
              (Done c calm Good after Bad)
              (λ e w'. TxError c calm Good after Bad e w' × (w'.tx ≡ none))
      transaction-Runs w h =
          with_tx-Runs c calm Good after Bad _ w h.kept h.closed h.quiet (λ t w₁ le h₁.
            let since : from ≤ t = omega (arith, h.since) in
            Runs-weaken _ w₁
              (claim_tx-InTx svc tr row.0.distinct c x y found_row sender_has recipient_has t calm
                (λ q a. room q tr found mine (is_active_earlier svc.claim_window from t tr since a))
                w₁ h₁)
              (λ r w₂ (g, i). ((since, g), i)) (λ e w₂ (kept, q, b). (kept, q, (since, b))))

      conclude-Aborted-Runs :
          (t : Time) (e : Error) (w : World)
          → Bad t e
          → Idle c t calm w
          → Runs (conclude_claim svc tr (Result.err e)) w Ended Stopped
      conclude-Aborted-Runs t e w (le, inl (p, inactive)) h =
          rw p (resolve_unapplied_claim-Runs t w st le inactive h)
      conclude-Aborted-Runs t e w (le, inr ((z, p), n)) h =
          rw p (Runs-fail _ (stopped _ (storage tt n) h))

      conclude_error-Runs :
          (e : Error) (w : World)
          → TxError c calm Good after Bad e w
          → w.tx ≡ none
          → Runs (conclude_claim svc tr (Result.err e)) w Ended Stopped
      conclude_error-Runs e w (aborted t b le kept q) closed =
          conclude-Aborted-Runs t e w b
            (record { kept = kept; closed = closed; quiet = q; since = le })
      conclude_error-Runs e w (not_begun z p n kept) closed =
          rw p (Runs-fail _ (refused (storage tt n) kept, closed))
      conclude_error-Runs e w (commit_failed z t r p n g le s) closed =
          rw p (Runs-fail _ (commit_unknown tr t r z refl n found mine st g.0 le g.1 s, closed))

      concluded-Runs :
          (done : Result ClaimResult) (w : World)
          → Attempted
              (Done c calm Good after Bad)
              (λ e w'. TxError c calm Good after Bad e w' × (w'.tx ≡ none))
              done
              w
          → Runs (conclude_claim svc tr done) w Ended Stopped
      concluded-Runs (Result.ok r) w d =
          Runs-inc w.db d.start ⊥ _ _ w
            (record { kept = refl; closed = d.closed; quiet = λ q. absurd q; since = d.ended })
            (λ w₂ h₂. Runs-log w.db d.start ⊥ _ _ w₂ h₂ (λ w₃ h₃. Runs-ret r (
              applied tr d.start found mine st d.good.0 h₃.since d.good.1 (h₃.kept ∙ d.stored),
              h₃.closed,
            )))
      concluded-Runs (Result.err e) w (z, closed) = conclude_error-Runs e w z closed

    claim_found-Runs :
        (s : TransferStatus) (w : World)
        → tr.status ≡ s
        → Idle c from calm w
        → Runs
            (by_status svc s
              (attempt (with_tx (claim_tx svc tr)) >>= conclude_claim svc tr)
              (replay_claim svc tr))
            w
            Ended
            Stopped
    claim_found-Runs completed w st h =
        let (x, p) = has_value row.0.sender_wallet in
        let (y, q) = has_value row.0.recipient_wallet in
        Runs-bind _ _ w (Runs-attempt _ w (transaction-Runs st x y p q w h))
          (concluded-Runs st x y p q)
    claim_found-Runs reversed w st h =
        replay_claim-Runs w st
          (record { kept = h.kept; closed = h.closed; quiet = h.quiet; since = omega arith })

  -- From the arguments on.
  pub claim_back-Runs :
      (w : World) → Idle c from calm w → Runs (claim_back svc caller transfer_id) w Ended Stopped
  unfolding claim_back get_transfer_by_id run_query map_repo_not_found
  claim_back-Runs w h =
      Runs-read c from calm (Sql.select_transfer_by_id transfer_id)
        (from_option (find_transfer transfer_id c.transfers)) _ w (λ now u. refl) h
        (λ w₁ h₁. elim (Option-cases (find_transfer transfer_id c.transfers)) [
          | inl none_found ↦ rw none_found (Runs-fail _ (stopped _ (unknown none_found refl) h₁))
          | inr (tr, found) ↦ rw found (elim (Bool-cases (tr.sender_id == caller)) [
            | inl mine ↦
                rw mine (claim_found-Runs tr found (eq_of_test _ _ mine) tr.status w₁ refl h₁)
            | inr other ↦ rw other (
                Runs-inc c from calm _ _ w₁ h₁ (λ w₂ h₂.
                  Runs-fail _
                    (stopped _ (not_sender tr found (λ p. ne_of_test _ _ other (sym p)) refl) h₂)))
          ])
        ])
        (λ w₁ h₁ n. Runs-fail _ (stopped _ (storage tt n) h₁))
