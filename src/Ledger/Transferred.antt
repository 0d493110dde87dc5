-- ===== src/Ledger/Transferred.antt =====
-- A transfer keeps the tables sound: balances, holds and rows after `transferred`.
use wallet_service.Prelude.{
  ℕ, ◌≤◌, ℤ, pos, ◌+ℤ◌, ◌-ℤ◌, ◌≤ℤ◌, InRange, wrap64-add, wrap64-sub, wrap64-InRange, int_laws, ◌≡◌,
  ◌≢◌, refl, sym, ◌∙◌, ◌⊎◌, false, none, some, [], ◌∷◌, ◌++◌, All, All-append, arith, ◌==◌,
  if◌then◌else◌, if_if_congr, if_if_cases, if_if_ne_none, eq_of_test, ne_of_test, Option-cases, inl,
  inr,
}
use wallet_service.Models.{Uuid, Time, Transfer, Db}
use wallet_service.Sql.{recorded}
use wallet_service.Sql.Tables.{active_holds}
use wallet_service.Sql.Tables.Balances.{balance?, balance?-set_balance}
use wallet_service.Sql.Tables.Holds.{hold, active_holds-append, active_holds-antitone}
use wallet_service.Sql.Effects.{add_transfer, put_balance}
use wallet_service.Sql.Effects.Opened.{balance?-open_wallets, transfers-open_wallets}
use wallet_service.Transfer.{TransferService, TransferResult, sort_ids}
use wallet_service.Transfer.Transaction.{
  Order, opened, balance_or_seed, sender_after, recipient_after, order_draft, transferred,
  IsTransfer, opened_sender, opened_recipient,
}
use wallet_service.Ledger.{IsSound, positive}
use wallet_service.Ledger.Rows.{IsWellFormed, active_holds-eq-zero, All-IsWellFormed}

module _ (svc : TransferService) (o : Order) (ne : o.sender ≢ o.recipient) (t : Time) (d : Db)
    (id : Uuid) where
  before_none :
      (j : Uuid) → balance? j d.wallets ≡ none → balance_or_seed svc o j d ≡ svc.seed_paise
  before_none j e = ground arith

  before_some : (j : Uuid) (b : ℤ) → balance? j d.wallets ≡ some b → balance_or_seed svc o j d ≡ b
  before_some j b e = ground arith

  opened_other :
      (j : Uuid)
      → o.sender ≢ j
      → o.recipient ≢ j
      → balance? j (opened svc o t d).wallets ≡ balance? j d.wallets
  unfolding sort_ids
  opened_other j s r = ground (
    arith,
    balance?-open_wallets svc.seed_paise t (sort_ids svc.uuid_string o.sender o.recipient) j d,
  )

  unfoldable pub sent : Db
  sent =
      put_balance o.sender (sender_after svc o d) t
        (add_transfer (order_draft svc o d) t id (opened svc o t d))

  balance?-sent :
      (j : Uuid)
      → balance? j sent.wallets ≡ (
          if o.sender == j
          then some (sender_after svc o d)
          else balance? j (opened svc o t d).wallets)
  unfolding sent put_balance add_transfer
  balance?-sent j = rw (
    balance?-set_balance o.sender j (sender_after svc o d) t (opened svc o t d).wallets,
    opened_sender svc o ne t d,
  )

  pub balance?-sent_recipient :
      balance? o.recipient sent.wallets ≡ some (balance_or_seed svc o o.recipient d)
  balance?-sent_recipient =
      rw (balance?-sent o.recipient, opened_recipient svc o ne t d) (ground arith)

  -- The sender's balance, the recipient's, and everybody else's.
  pub balance?-transferred :
      (j : Uuid)
      → balance? j (transferred svc o t id d).wallets ≡ (
          if o.recipient == j
          then some (recipient_after svc o d)
          else if o.sender == j
          then some (sender_after svc o d)
          else balance? j d.wallets)
  unfolding transferred put_balance sent
  balance?-transferred j =
      rw
        (
          balance?-set_balance o.recipient j (recipient_after svc o d) t sent.wallets,
          balance?-sent_recipient,
          balance?-sent j,
        )
        (if_if_congr (o.recipient == j) (o.sender == j) _ _ _ _
          (λ r q. opened_other j (λ e. ne_of_test _ _ q (sym e)) (λ e. ne_of_test _ _ r (sym e))))

  pub transfers-transferred :
      (transferred svc o t id d).transfers ≡ d.transfers ++ recorded (order_draft svc o d) t id ∷ []
  unfolding transferred put_balance add_transfer
  transfers-transferred =
      rw (transfers-open_wallets svc.seed_paise t (sort_ids svc.uuid_string o.sender o.recipient) d)

  active_holds-transferred :
      (j : Uuid) (window : ℕ) (now : Time)
      → active_holds j window now (transferred svc o t id d).transfers
        ≡ active_holds j window now d.transfers
          +ℤ hold j window now (recorded (order_draft svc o d) t id)
  active_holds-transferred j window now =
      rw transfers-transferred
        (active_holds-append j window now d.transfers (recorded (order_draft svc o d) t id))

  pub before_ok :
      (pos 0 ≤ℤ svc.seed_paise) × InRange svc.seed_paise
      → {now : Time} → IsSound svc.claim_window now d
      → (j : Uuid) → (pos 0 ≤ℤ balance_or_seed svc o j d) × InRange (balance_or_seed svc o j d)
  before_ok seed_ok s j = elim (Option-cases (balance? j d.wallets)) [
    | inl e ↦ rw (before_none j e) seed_ok
    | inr (b, e) ↦ rw (before_some j b e) (s.balances j b e)
  ]

  module _ (r : TransferResult) (seed_ok : (pos 0 ≤ℤ svc.seed_paise) × InRange svc.seed_paise)
      (amount_fits : InRange o.amount) (g : IsTransfer svc o t d r) (now : Time) (le : t ≤ now)
      (s : IsSound svc.claim_window now d) where
    amount_ok : (pos 0 ≤ℤ o.amount) × InRange o.amount
    amount_ok = (omega (arith, g.positive), amount_fits)

    -- The new balances are exact: nothing wraps round.
    pub sender_exact : sender_after svc o d ≡ balance_or_seed svc o o.sender d -ℤ o.amount
    sender_exact = wrap64-sub _ _ (before_ok seed_ok s o.sender) amount_ok

    pub recipient_exact : recipient_after svc o d ≡ balance_or_seed svc o o.recipient d +ℤ o.amount
    recipient_exact = wrap64-add _ _ (before_ok seed_ok s o.recipient) amount_ok g.recipient_nonneg

    -- Before the transfer the recipient covers its holds, also with a wallet that is new.
    recipient_funded :
        active_holds o.recipient svc.claim_window now d.transfers
        ≤ℤ balance_or_seed svc o o.recipient d
    recipient_funded = elim (Option-cases (balance? o.recipient d.wallets)) [
      | inl e ↦
          rw
            (
              active_holds-eq-zero o.recipient svc.claim_window now d.wallets d.transfers s.rows e,
              before_none _ e,
            )
            seed_ok.0
      | inr (b, e) ↦ rw (before_some _ b e) (s.funded o.recipient b e)
    ]

    abbrev row : Transfer
    row = recorded (order_draft svc o d) t id

    hold_bound : (j : Uuid) → hold j svc.claim_window now row ≤ℤ o.amount
    hold_bound j = ground (arith, g.positive)

    hold_other : (j : Uuid) → o.recipient ≢ j → hold j svc.claim_window now row ≡ pos 0
    hold_other j h = ground arith

    -- Whose balance it is.
    abbrev Owner : Uuid → ℤ → Type 0
    Owner j b =
        ((j ≡ o.recipient) × (b ≡ recipient_after svc o d))
        ⊎ ((j ≡ o.sender) × (b ≡ sender_after svc o d))
        ⊎ ((o.recipient ≢ j) × (o.sender ≢ j) × (balance? j d.wallets ≡ some b))

    owner : (j : Uuid) (b : ℤ) → balance? j (transferred svc o t id d).wallets ≡ some b → Owner j b
    owner j b e =
        elim (if_if_cases (o.recipient == j) (o.sender == j) _ _ _ b
          (sym (balance?-transferred j) ∙ e)) [
            | inl (r, p) ↦ inl (sym (eq_of_test _ _ r), p)
            | inr (inl (r, q, p)) ↦ inr (inl (sym (eq_of_test _ _ q), p))
            | inr (inr (r, q, p)) ↦
                inr (inr ((λ x. ne_of_test _ _ r (sym x)), (λ x. ne_of_test _ _ q (sym x)), p))
          ]

    pub funded-transferred :
        (j : Uuid) (b : ℤ)
        → balance? j (transferred svc o t id d).wallets ≡ some b
        → active_holds j svc.claim_window now (transferred svc o t id d).transfers ≤ℤ b
    funded-transferred j b e =
        rw (active_holds-transferred j svc.claim_window now) (covers (owner j b e))
      where
        covers :
            Owner j b
            → active_holds j svc.claim_window now d.transfers +ℤ hold j svc.claim_window now row
              ≤ℤ b
        covers (inl (p, q)) =
            rw (p, q, recipient_exact) (omega (int_laws, recipient_funded, hold_bound o.recipient))
        covers (inr (inl (p, q))) =
            rw (p, q, hold_other o.sender (λ x. ne (sym x)))
              (omega (
                int_laws,
                g.covered,
                active_holds-antitone o.sender svc.claim_window t now d.transfers le (positive s),
              ))
        covers (inr (inr (r, q, f))) = rw (hold_other j r) (omega (int_laws, s.funded j b f))

    pub balances-transferred :
        (j : Uuid) (b : ℤ)
        → balance? j (transferred svc o t id d).wallets ≡ some b
        → (pos 0 ≤ℤ b) × InRange b
    balances-transferred j b e = fits (owner j b e)
      where
        fits : Owner j b → (pos 0 ≤ℤ b) × InRange b
        fits (inl (p, q)) = rw q (g.recipient_nonneg, wrap64-InRange _)
        fits (inr (inl (p, q))) = rw q (g.sender_nonneg, wrap64-InRange _)
        fits (inr (inr (r, q, f))) = s.balances j b f

    has_wallet :
        (j : Uuid)
        → ((o.recipient == j) ≡ false → (o.sender == j) ≡ false → balance? j d.wallets ≢ none)
        → balance? j (transferred svc o t id d).wallets ≢ none
    has_wallet j h = rw (balance?-transferred j) (
        if_if_ne_none (o.recipient == j) (o.sender == j) (recipient_after svc o d)
          (sender_after svc o d) _ h)

    pub rows-transferred :
        All (IsWellFormed (transferred svc o t id d).wallets) (transferred svc o t id d).transfers
    rows-transferred = rw transfers-transferred (
        All-append _ d.transfers row
          (All-IsWellFormed d.wallets _ d.transfers (λ j h. has_wallet j (λ _ _. h)) s.rows)
          (record {
            positive = g.positive;
            distinct = ne;
            sender_wallet = has_wallet o.sender (λ _ q. absurd (ne_of_test _ _ q refl));
            recipient_wallet = has_wallet o.recipient (λ r _. absurd (ne_of_test _ _ r refl));
            reversal_time = λ x. cc;
            reversal_balance = λ x. cc;
          }))

    -- Every wallet still covers its holds, and every row is well formed, also at a time `now` after
    -- the start `t` of the transaction.
    pub transferred-IsSound : IsSound svc.claim_window now (transferred svc o t id d)
    transferred-IsSound = record {
      funded = funded-transferred;
      balances = balances-transferred;
      rows = rows-transferred;
    }
