-- ===== src/Ledger/Rows.antt =====
-- The rows of the transfers table, each consistent with the wallets.
use wallet_service.Prelude.{
  ℕ, pos, ◌<ℤ◌, ◌≡◌, ◌≢◌, refl, none, some, List, [], ◌∷◌, All, ◌==◌, inl, inr, Bool-cases,
  eq_of_test, subst,
}
use mathlib.Core.Option.{some-injective}
use wallet_service.Models.{Uuid, Time, Wallet, Transfer, reversed}
use wallet_service.Sql.Tables.{active_holds, find_transfer}
use wallet_service.Sql.Tables.Balances.{balance?}

-- A row of transfers: a positive amount between two different users who both have wallets, and the
-- outcome of the reversal once it is reversed.
pub record IsWellFormed (ws : List Wallet) (t : Transfer) : Type 0 where
  pub positive : pos 0 <ℤ t.amount_paise
  pub distinct : t.sender_id ≢ t.recipient_id
  pub sender_wallet : balance? t.sender_id ws ≢ none
  pub recipient_wallet : balance? t.recipient_id ws ≢ none
  pub reversal_time : t.status ≡ reversed → t.reversed_at ≢ none
  pub reversal_balance : t.status ≡ reversed → t.sender_balance_after_reversal ≢ none

pub amounts_positive :
    (ws : List Wallet) (ts : List Transfer)
    → All (IsWellFormed ws) ts
    → All (λ t. pos 0 <ℤ t.amount_paise) ts
amounts_positive ws [] h = tt
amounts_positive ws (t ∷ ts) h = (h.0.positive, amounts_positive ws ts h.1)

-- Nobody without a wallet has holds.
pub active_holds-eq-zero :
    (id : Uuid) (window : ℕ) (now : Time) (ws : List Wallet) (ts : List Transfer)
    → All (IsWellFormed ws) ts
    → balance? id ws ≡ none
    → active_holds id window now ts ≡ pos 0
unfolding active_holds
active_holds-eq-zero id window now ws [] h e = refl
active_holds-eq-zero id window now ws (t ∷ ts) h e = elim (Bool-cases (t.recipient_id == id)) [
  | inl here ↦ absurd (h.0.recipient_wallet (rw (eq_of_test _ _ here) e))
  | inr away ↦ rw away (active_holds-eq-zero id window now ws ts h.1 e)
]

-- Rows stay well formed as wallets are opened and balances change.
pub All-IsWellFormed :
    (ws ws' : List Wallet) (ts : List Transfer)
    → ((id : Uuid) → balance? id ws ≢ none → balance? id ws' ≢ none)
    → All (IsWellFormed ws) ts
    → All (IsWellFormed ws') ts
All-IsWellFormed ws ws' [] k h = tt
All-IsWellFormed ws ws' (t ∷ ts) k h = (
  record {
    positive = h.0.positive;
    distinct = h.0.distinct;
    sender_wallet = k _ h.0.sender_wallet;
    recipient_wallet = k _ h.0.recipient_wallet;
    reversal_time = h.0.reversal_time;
    reversal_balance = h.0.reversal_balance;
  },
  All-IsWellFormed ws ws' ts k h.1,
)

-- A row that is found by its id has that id and is one of the rows.
pub find_transfer_row {κ} :
    (P : Transfer → Type κ) (id : Uuid) (ts : List Transfer) (t : Transfer)
    → All P ts
    → find_transfer id ts ≡ some t
    → P t × (t.id ≡ id)
unfolding find_transfer
find_transfer_row P id [] t h e = cc
find_transfer_row P id (u ∷ ts) t h e = elim (Bool-cases (u.id == id)) [
  | inl here ↦
      subst (λ x. P x × (x.id ≡ id)) (some-injective u t (rw here at e))
        (h.0, eq_of_test u.id id here)
  | inr on ↦ find_transfer_row P id ts t h.1 (rw on at e)
]
