-- ===== src/Guarantees/Wallet.antt =====
-- What a caller of WalletService can count on.
use wallet_service.Prelude.{
  ℤ, pos, ◌≤ℤ◌, ◌≤◌, ◌≡◌, refl, sym, ap, subst, ◌∙◌, ◌⊎◌, inl, inr, Bool, true, false, none, some,
  Bool-cases, ltb_ℤ, arith,
}
use wallet_service.Errors.{
  DbError, unavailable, check_violation, foreign_key_violation, Error, database,
}
use wallet_service.Models.{Uuid, Time, Wallet, Db}
use wallet_service.Sql
use wallet_service.Sql.{
  Answer, row, no_rows, rejected, known, balance_of, run_query, run_insert_wallet,
}
use wallet_service.Sql.Tables.{find_wallet}
use wallet_service.Sql.Tables.Balances.{balance?}
use wallet_service.Sql.Effects.{open_wallet}
use wallet_service.Sql.Effects.Opened.{balance?-open_wallet, transfers-open_wallet}
use wallet_service.Prog.{World}
use wallet_service.Prog.Logic.{Runs, Runs-ret, Runs-fail}
use wallet_service.Repository.{get_or_create_wallet}
use wallet_service.Repository.InTx.{Quiet}
use wallet_service.Repository.Idle.{Idle, Runs-read, Runs-log}
use wallet_service.Repository.Alone.{Runs-alone, Unsure}
use wallet_service.Transfer.Execute.{IsStorage}
use wallet_service.Wallet.{WalletService, get_or_create}

module _ (svc : WalletService) (user : Uuid) (c : Db) (from : Time) (calm : Type 0) where
  -- The wallet was there, or is new with the seed.
  pub data Got (r : ℤ × Bool) (w : World) : Type 0 where
    existing : balance? user c.wallets ≡ some r.0 → r.1 ≡ false → w.db ≡ c → Got r w
    opened :
        (t : Time)
        → balance? user c.wallets ≡ none
        → r ≡ (svc.seed_paise, true)
        → from ≤ t
        → t ≤ w.clock
        → w.db ≡ open_wallet svc.seed_paise t user c
        → Got r w

  pub data NotGot (e : Error) (w : World) : Type 0 where
    unchanged : IsStorage e → ¬ calm → w.db ≡ c → NotGot e w
    opened_unknown :
        (t : Time)
        → IsStorage e
        → ¬ calm
        → from ≤ t
        → t ≤ w.clock
        → w.db ≡ open_wallet svc.seed_paise t user c
        → NotGot e w

  abbrev pub Ended : ℤ × Bool → World → Type 0
  Ended r w = Got r w × (w.tx ≡ none)

  abbrev pub Stopped : Error → World → Type 0
  Stopped e w = NotGot e w × (w.tx ≡ none)

  insert_absent :
      (t : Time)
      → find_wallet user c.wallets ≡ none
      → (run_insert_wallet user svc.seed_paise t c ≡ (row 1, open_wallet svc.seed_paise t user c))
        ⊎ ((x : DbError) × (run_insert_wallet user svc.seed_paise t c ≡ (rejected x, c))
            × ¬ ((pos 0 ≤ℤ svc.seed_paise) × (known user c ≡ true)))
  unfolding run_insert_wallet open_wallet
  insert_absent t e = elim (Bool-cases (ltb_ℤ svc.seed_paise (pos 0))) [
    | inl neg ↦ inr (check_violation, ground arith, λ h. ground arith)
    | inr ok ↦ elim (Bool-cases (known user c)) [
      | inl k ↦ inl (ground arith)
      | inr k ↦ inr (foreign_key_violation, ground arith, λ h. cc)
    ]
  ]

  balance_of-row : (d : Db) (b : ℤ) → balance? user d.wallets ≡ some b → balance_of user d ≡ row b
  unfolding balance?
  balance_of-row d b e = ground arith

  balance_of_found :
      (x : Wallet)
      → find_wallet user c.wallets ≡ some x
      → balance? user c.wallets ≡ some x.balance_paise
  unfolding balance?
  balance_of_found x e = rw e refl

  no_balance : find_wallet user c.wallets ≡ none → balance? user c.wallets ≡ none
  unfolding balance?
  no_balance e = rw e refl

  new_balance :
      (t : Time)
      → balance? user c.wallets ≡ none
      → balance? user (open_wallet svc.seed_paise t user c).wallets ≡ some svc.seed_paise
  new_balance t e = ground (arith, balance?-open_wallet svc.seed_paise t user user c)

  -- A wallet that is there: one more read.
  pub existing-Runs :
      (w : World)
      → (x : Wallet) → find_wallet user c.wallets ≡ some x
      → Idle c from calm w
      → Runs (get_or_create svc user) w Ended Stopped
  unfolding get_or_create get_or_create_wallet run_query
  existing-Runs w x e h =
      Runs-read c from calm (Sql.select_wallet_exists user) (row true) _ w (λ now u. rw e refl) h
        (λ w₁ h₁.
          Runs-read c from calm (Sql.select_balance user) (row x.balance_paise) _ w₁
            (λ now u. rw (balance_of-row c x.balance_paise (balance_of_found x e)) refl) h₁
            (λ w₂ h₂. Runs-ret _ (existing (balance_of_found x e) refl h₂.kept, h₂.closed))
            (λ w₂ h₂ n. Runs-fail _ (unchanged tt n h₂.kept, h₂.closed)))
        (λ w₁ h₁ n. Runs-fail _ (unchanged tt n h₁.kept, h₁.closed))

  module _ (able : calm → (pos 0 ≤ℤ svc.seed_paise) × (known user c ≡ true))
      (e : find_wallet user c.wallets ≡ none) where
    failed_insert :
        (t : Time) (w : World)
        → from ≤ t
        → ¬ calm
        → Unsure c (run_insert_wallet user svc.seed_paise t c).1 t w
        → NotGot (database unavailable) w
    failed_insert t w le n h = elim (insert_absent t e) [
      | inl p ↦ elim h.either [
        | inl same ↦ unchanged tt n same
        | inr q ↦ opened_unknown t tt n le h.since (q ∙ ap (λ x. x.1) p)
      ]
      | inr (x, p, r) ↦ elim h.either [
        | inl same ↦ unchanged tt n same
        | inr q ↦ unchanged tt n (q ∙ ap (λ x. x.1) p)
      ]
    ]

    -- A wallet that is not there: the insert, and the read of what it left.
    pub absent-Runs :
        (w : World) → Idle c from calm w → Runs (get_or_create svc user) w Ended Stopped
    unfolding get_or_create get_or_create_wallet run_query
    absent-Runs w h =
        Runs-read c from calm (Sql.select_wallet_exists user) (row false) _ w (λ now u. rw e refl) h
          (λ w₁ h₁.
            Runs-alone c from calm (Sql.insert_wallet user svc.seed_paise) _ w₁ h₁
              (λ t id w₂ le kept closed quiet since. elim (insert_absent t e) [
                | inl p ↦
                    let d = open_wallet svc.seed_paise t user c in
                    let h₂ : Idle d t calm w₂ = record {
                      kept = kept ∙ ap (λ x. x.1) p;
                      closed = closed;
                      quiet = λ k.
                          subst (λ ts. Quiet ts w₂.nature)
                            (sym (transfers-open_wallet svc.seed_paise t user c)) (quiet k);
                      since = since;
                    } in
                    rw p (
                      Runs-read d t calm (Sql.select_balance user) (row svc.seed_paise) _ w₂
                        (λ now u.
                          rw (balance_of-row d svc.seed_paise (new_balance t (no_balance e))) refl)
                        h₂
                        (λ w₃ h₃. Runs-log d t calm _ _ w₃ h₃ (λ w₄ h₄.
                          Runs-ret _ (opened t (no_balance e) refl le h₄.since h₄.kept, h₄.closed)))
                        (λ w₃ h₃ n.
                          Runs-fail _ (opened_unknown t tt n le h₃.since h₃.kept, h₃.closed)))
                | inr (x, p, r) ↦
                    rw p (
                      Runs-fail _ (unchanged tt (λ k. r (able k)) (kept ∙ ap (λ x. x.1) p), closed))
              ])
              (λ t id w₂ le un n. Runs-fail _ (failed_insert t w₂ le n un, un.closed)))
          (λ w₁ h₁ n. Runs-fail _ (unchanged tt n h₁.kept, h₁.closed))
