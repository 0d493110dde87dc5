-- ===== src/Ledger/Reversed.antt =====
-- A reversal keeps the tables sound, and while the transfer is active the recipient has the money.
use wallet_service.Prelude.{
  ℤ, pos, ◌+ℤ◌, ◌-ℤ◌, ◌≤ℤ◌, InRange, wrap64-add, wrap64-sub, wrap64-InRange, bounds_of_eq, int_laws,
  ◌≡◌, ◌≢◌, refl, sym, ◌∙◌, ◌⊎◌, inl, inr, true, none, some, List, [], ◌∷◌, All, arith, ◌==◌,
  if◌then◌else◌, if_if_cases, if_if_ne_none, Bool-cases, eq_of_test,
}
use wallet_service.Models.{Uuid, Time, Transfer, reversed, Db}
use wallet_service.Sql.Tables.{find_transfer, active_holds, is_active, reverse}
use wallet_service.Sql.Tables.Balances.{balance?, balance?-set_balance}
use wallet_service.Sql.Tables.Holds.{hold, active_holds-reverse, hold-le-active_holds}
use wallet_service.Sql.Effects.{put_balance, mark}
use wallet_service.Transfer.{TransferService}
use wallet_service.Transfer.ClaimBack.{ClaimResult}
use wallet_service.Transfer.Claim.{
  balance_or_zero, sender_restored, recipient_restored, claimed, IsClaim,
}
use wallet_service.Ledger.{IsSound, positive}
use wallet_service.Ledger.Rows.{IsWellFormed, All-IsWellFormed, find_transfer_row}

All-reverse :
    (P : Transfer → Type 0) (id : Uuid) (at : Time) (after : ℤ) (ts : List Transfer)
    → ((t : Transfer)
        → P t
        → P (record t {
          status = reversed;
          reversed_at = some at;
          sender_balance_after_reversal = some after;
        }))
    → All P ts
    → All P (reverse id at after ts)
unfolding reverse
All-reverse P id at after [] k h = tt
All-reverse P id at after (t ∷ ts) k h = elim (Bool-cases (t.id == id)) [
  | inl here ↦ rw here (k t h.0, h.1)
  | inr on ↦ rw on (h.0, All-reverse P id at after ts k h.1)
]

module _ (svc : TransferService) (tr : Transfer) (t now : Time) (d : Db) (x y : ℤ)
    (s : IsSound svc.claim_window now d) (found : find_transfer tr.id d.transfers ≡ some tr)
    (sender_has : balance? tr.sender_id d.wallets ≡ some x)
    (recipient_has : balance? tr.recipient_id d.wallets ≡ some y) where
  row : IsWellFormed d.wallets tr
  row = (find_transfer_row (IsWellFormed d.wallets) tr.id d.transfers tr s.rows found).0

  sender_before : balance_or_zero tr.sender_id d ≡ x
  sender_before = ground arith

  recipient_before : balance_or_zero tr.recipient_id d ≡ y
  recipient_before = ground arith

  module _ (active : is_active svc.claim_window now tr ≡ true) where
    -- The recipient's balance covers the amount.
    pub recipient_covers : tr.amount_paise ≤ℤ y
    recipient_covers = omega (
      int_laws,
      hold-le-active_holds svc.claim_window now tr.id d.transfers (positive s) found active,
      s.funded tr.recipient_id y recipient_has,
    )

    amount_ok : (pos 0 ≤ℤ tr.amount_paise) × InRange tr.amount_paise
    amount_ok =
        omega (arith, row.positive, recipient_covers, s.balances tr.recipient_id y recipient_has)

    pub recipient_restored_exact : recipient_restored svc tr d ≡ y -ℤ tr.amount_paise
    recipient_restored_exact =
        rw recipient_before (wrap64-sub _ _ (s.balances tr.recipient_id y recipient_has) amount_ok)

    -- So the reversal never takes the recipient below zero.
    pub recipient_restored_nonneg : pos 0 ≤ℤ recipient_restored svc tr d
    recipient_restored_nonneg = rw recipient_restored_exact (omega (int_laws, recipient_covers))

    pub sender_restored_exact :
        pos 0 ≤ℤ sender_restored svc tr d → sender_restored svc tr d ≡ x +ℤ tr.amount_paise
    sender_restored_exact h =
        let h' = rw sender_before at h in
        rw sender_before (wrap64-add _ _ (s.balances tr.sender_id x sender_has) amount_ok h')

    hold_here : hold tr.recipient_id svc.claim_window now tr ≡ tr.amount_paise
    hold_here = ground arith

  -- The tables between the two updates.
  unfoldable pub paid_back : Db
  paid_back =
      put_balance tr.recipient_id (recipient_restored svc tr d) t
        (mark tr.id t (sender_restored svc tr d) d)

  balance?-paid_back :
      (j : Uuid)
      → balance? j paid_back.wallets ≡ (
          if tr.recipient_id == j then some (recipient_restored svc tr d) else balance? j d.wallets)
  unfolding paid_back put_balance mark
  balance?-paid_back j = rw (
    balance?-set_balance tr.recipient_id j (recipient_restored svc tr d) t d.wallets,
    recipient_has,
  )

  pub balance?-paid_back_sender : balance? tr.sender_id paid_back.wallets ≡ some x
  balance?-paid_back_sender =
      rw (balance?-paid_back tr.sender_id, sender_has) (ground (arith, row.distinct))

  -- The sender's balance, the recipient's, and everybody else's.
  pub balance?-claimed :
      (j : Uuid)
      → balance? j (claimed svc tr t d).wallets ≡ (
          if tr.sender_id == j
          then some (sender_restored svc tr d)
          else if tr.recipient_id == j
          then some (recipient_restored svc tr d)
          else balance? j d.wallets)
  unfolding claimed put_balance paid_back
  balance?-claimed j = rw (
    balance?-set_balance tr.sender_id j (sender_restored svc tr d) t paid_back.wallets,
    balance?-paid_back_sender,
    balance?-paid_back j,
  )

  transfers-claimed :
      (claimed svc tr t d).transfers ≡ reverse tr.id t (sender_restored svc tr d) d.transfers
  unfolding claimed put_balance mark
  transfers-claimed = refl

  module _ (r : ClaimResult) (g : IsClaim svc tr t d r)
      (active : is_active svc.claim_window now tr ≡ true) where
    abbrev after : Db
    after = claimed svc tr t d

    hold_le : (j : Uuid) → (pos 0 ≤ℤ hold j svc.claim_window now tr)
    hold_le j = ground (arith, row.positive)

    holds_after :
        (j : Uuid)
        → active_holds j svc.claim_window now after.transfers +ℤ hold j svc.claim_window now tr
          ≡ active_holds j svc.claim_window now d.transfers
    holds_after j = rw transfers-claimed (
        active_holds-reverse j svc.claim_window now t tr.id (sender_restored svc tr d) d.transfers
          found)

    -- Whose balance it is.
    abbrev Owner : Uuid → ℤ → Type 0
    Owner j b =
        ((j ≡ tr.sender_id) × (b ≡ sender_restored svc tr d))
        ⊎ ((j ≡ tr.recipient_id) × (b ≡ recipient_restored svc tr d))
        ⊎ (balance? j d.wallets ≡ some b)

    owner : (j : Uuid) (b : ℤ) → balance? j after.wallets ≡ some b → Owner j b
    owner j b e =
        elim (if_if_cases (tr.sender_id == j) (tr.recipient_id == j) _ _ _ b
          (sym (balance?-claimed j) ∙ e)) [
            | inl (q, p) ↦ inl (sym (eq_of_test _ _ q), p)
            | inr (inl (_, q, p)) ↦ inr (inl (sym (eq_of_test _ _ q), p))
            | inr (inr (_, _, p)) ↦ inr (inr p)
          ]

    sender_funded :
        active_holds tr.sender_id svc.claim_window now after.transfers ≤ℤ sender_restored svc tr d
    sender_funded = rw (sender_restored_exact active g.sender_nonneg) (
        omega (
          int_laws,
          bounds_of_eq (holds_after tr.sender_id),
          hold_le tr.sender_id,
          s.funded tr.sender_id x sender_has,
          row.positive,
        ))

    recipient_funded :
        active_holds tr.recipient_id svc.claim_window now after.transfers
        ≤ℤ recipient_restored svc tr d
    recipient_funded = rw (recipient_restored_exact active) (
        omega (
          int_laws,
          bounds_of_eq (holds_after tr.recipient_id),
          bounds_of_eq (hold_here active),
          s.funded tr.recipient_id y recipient_has,
        ))

    funded-claimed :
        (j : Uuid) (b : ℤ)
        → balance? j after.wallets ≡ some b
        → active_holds j svc.claim_window now after.transfers ≤ℤ b
    funded-claimed j b e = covers (owner j b e)
      where
        covers : Owner j b → active_holds j svc.claim_window now after.transfers ≤ℤ b
        covers (inl (p, q)) = rw (p, q) sender_funded
        covers (inr (inl (p, q))) = rw (p, q) recipient_funded
        covers (inr (inr p)) =
            omega (int_laws, bounds_of_eq (holds_after j), hold_le j, s.funded j b p)

    balances-claimed :
        (j : Uuid) (b : ℤ) → balance? j after.wallets ≡ some b → (pos 0 ≤ℤ b) × InRange b
    balances-claimed j b e = fits (owner j b e)
      where
        fits : Owner j b → (pos 0 ≤ℤ b) × InRange b
        fits (inl (p, q)) = rw q (g.sender_nonneg, wrap64-InRange _)
        fits (inr (inl (p, q))) = rw q (g.recipient_nonneg, wrap64-InRange _)
        fits (inr (inr p)) = s.balances j b p

    has_wallet : (j : Uuid) → balance? j d.wallets ≢ none → balance? j after.wallets ≢ none
    has_wallet j h = rw (balance?-claimed j) (
        if_if_ne_none (tr.sender_id == j) (tr.recipient_id == j) (sender_restored svc tr d)
          (recipient_restored svc tr d) _ (λ _ _. h))

    rows-claimed : All (IsWellFormed after.wallets) after.transfers
    rows-claimed = rw transfers-claimed (
        All-reverse (IsWellFormed after.wallets) tr.id t (sender_restored svc tr d) d.transfers
          (λ u h. record {
            positive = h.positive;
            distinct = h.distinct;
            sender_wallet = h.sender_wallet;
            recipient_wallet = h.recipient_wallet;
            reversal_time = λ _. cc;
            reversal_balance = λ _. cc;
          })
          (All-IsWellFormed d.wallets after.wallets d.transfers has_wallet s.rows))

    -- Every wallet still covers its holds, and every row is well formed.
    pub claimed-IsSound : IsSound svc.claim_window now (claimed svc tr t d)
    claimed-IsSound = record {
      funded = funded-claimed;
      balances = balances-claimed;
      rows = rows-claimed;
    }
