-- ===== src/Sql/Answers.antt =====
-- Each writing statement either succeeds, with a known effect, or is rejected for a known reason.
use wallet_service.Prelude.{
  ℕ, ℤ, pos, ◌≤ℤ◌, ◌<ℤ◌, ltb_ℤ, leb_ℤ, ◌≡◌, ◌⊎◌, inl, inr, true, ◌&&◌, none, some, arith,
  Option-cases, Bool-cases, if◌then◌else◌,
}
use wallet_service.Errors.{DbError, check_violation, foreign_key_violation, unique_violation}
use wallet_service.Models.{Uuid, Time, Transfer, Draft, Db}
use wallet_service.Sql.{
  Answer, row, no_rows, rejected, known, run_insert_wallet, run_insert_transfer, run_update_balance,
  run_update_reversed,
}
use wallet_service.Sql.Tables.{find_wallet, find_transfer, find_key, is_active}
use wallet_service.Sql.Tables.Balances.{balance?}
use wallet_service.Sql.Effects.{open_wallet, add_transfer, put_balance, mark}

-- A statement was rejected, and `reason` did not hold.
abbrev pub Rejected : {R : Type 0} → Answer R × Db → Type 0 → Type 0
Rejected r reason = (e : DbError) × (r.0 ≡ rejected e) × ¬ reason

module _ (id : Uuid) (b : ℤ) (now : Time) (d : Db) where
  pub run_insert_wallet-cases :
      ((n : ℕ) × (run_insert_wallet id b now d ≡ (row n, open_wallet b now id d)))
      ⊎ Rejected (run_insert_wallet id b now d) ((pos 0 ≤ℤ b) × (known id d ≡ true))
  unfolding run_insert_wallet open_wallet
  run_insert_wallet-cases = elim (Bool-cases (ltb_ℤ b (pos 0))) [
    | inl neg ↦ inr (check_violation, ground arith, λ h. ground arith)
    | inr ok ↦ elim (Option-cases (find_wallet id d.wallets)) [
      | inr (w, e) ↦ inl (0, ground arith)
      | inl e ↦ elim (Bool-cases (known id d)) [
        | inl k ↦ inl (1, ground arith)
        | inr k ↦ inr (foreign_key_violation, ground arith, λ h. cc)
      ]
    ]
  ]

  pub run_update_balance-cases :
      {old : ℤ}
      → balance? id d.wallets ≡ some old
      → ((run_update_balance id b now d ≡ (row 1, put_balance id b now d)) × (pos 0 ≤ℤ b))
        ⊎ Rejected (run_update_balance id b now d) (pos 0 ≤ℤ b)
  unfolding run_update_balance put_balance balance?
  run_update_balance-cases h = elim (Bool-cases (ltb_ℤ b (pos 0))) [
    | inl neg ↦ inr (check_violation, ground arith, λ h. ground arith)
    | inr ok ↦ elim (Option-cases (find_wallet id d.wallets)) [
      | inr (w, e) ↦ inl (ground arith, ground arith)
      | inl e ↦ absurd (ground arith)
    ]
  ]

module _ (tr : Draft) (now : Time) (id : Uuid) (d : Db) where
  abbrev pub Insertable : Type 0
  Insertable =
      (pos 0 <ℤ tr.amount_paise)
      × (find_transfer id d.transfers ≡ none)
      × (known tr.sender_id d ≡ true)
      × (known tr.recipient_id d ≡ true)

  -- The key is taken, or the row is new, or the statement is rejected.
  pub run_insert_transfer-cases :
      ((old : Transfer) × (find_key tr.sender_id tr.idempotency_key d.transfers ≡ some old)
        × (run_insert_transfer tr now id d ≡ (no_rows, d)))
      ⊎ ((find_key tr.sender_id tr.idempotency_key d.transfers ≡ none)
          × (find_transfer id d.transfers ≡ none)
          × (pos 0 <ℤ tr.amount_paise)
          × (run_insert_transfer tr now id d ≡ (row id, add_transfer tr now id d)))
      ⊎ Rejected (run_insert_transfer tr now id d) Insertable
  unfolding run_insert_transfer add_transfer
  run_insert_transfer-cases = elim (Bool-cases (leb_ℤ tr.amount_paise (pos 0))) [
    | inl neg ↦ inr (inr (check_violation, ground arith, λ h. ground arith))
    | inr ok ↦ elim (Option-cases (find_key tr.sender_id tr.idempotency_key d.transfers)) [
      | inr (old, e) ↦ inl (old, e, ground arith)
      | inl e ↦ elim (Option-cases (find_transfer id d.transfers)) [
        | inr (old, f) ↦ inr (inr (unique_violation, ground arith, λ h. cc))
        | inl f ↦ elim (Bool-cases (known tr.sender_id d && known tr.recipient_id d)) [
          | inl k ↦ inr (inl (e, f, ground arith, ground arith))
          | inr k ↦ inr (inr (foreign_key_violation, ground arith, λ h. ground arith))
        ]
      ]
    ]
  ]

-- The transfer is reversed if it is active, and stays as it is otherwise.
pub run_update_reversed-cases :
    (id : Uuid) (window : ℕ) (after : ℤ) (now : Time) (d : Db) {t : Transfer}
    → find_transfer id d.transfers ≡ some t
    → run_update_reversed id window after now d
      ≡ (if is_active window now t then (row now, mark id now after d) else (no_rows, d))
unfolding run_update_reversed mark
run_update_reversed-cases id window after now d e = ground arith
