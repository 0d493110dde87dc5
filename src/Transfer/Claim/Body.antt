-- ===== src/Transfer/Claim/Body.antt =====
-- The statements of `claim_tx` one after the other.
use wallet_service.Prelude.{
  ℤ, pos, ◌≤ℤ◌, ◌≡◌, ◌≢◌, refl, ◌⊎◌, inl, inr, true, false, Option, none, some, List, [], arith,
}
use wallet_service.Errors.{Error, sentinel, database, DbError, claim_not_applied}
use wallet_service.Models.{Uuid, Time, Transfer, Db}
use wallet_service.Sql.Tables.{find_transfer, is_active}
use wallet_service.Sql.Tables.Balances.{balance?, balance?-set_balance}
use wallet_service.Sql.Effects.{put_balance, mark}
use wallet_service.Prog.{World}
use wallet_service.Prog.Logic.{Runs, Runs-ret, Runs-fail, Runs-bind, Runs-weaken}
use wallet_service.Repository.InTx.{InTx, Failed, Quiet}
use wallet_service.Repository.Methods.{mark_reversed-InTx, update_wallet_balance-InTx, Marked}
use wallet_service.Transfer.{TransferService, Balances, balance_at, sort_ids, lock_wallets}
use wallet_service.Transfer.ClaimBack.{pay_back, claim_tx}
use wallet_service.Transfer.Steps.{lock_wallets-InTx, sort_ids-cases}
use wallet_service.Transfer.Claim.{
  balance_or_zero, sender_restored, recipient_restored, claimed, IsClaim,
}

module _ (svc : TransferService) (tr : Transfer) (ne : tr.sender_id ≢ tr.recipient_id) (c : Db)
    (x y : ℤ) (found : find_transfer tr.id c.transfers ≡ some tr)
    (sender_has : balance? tr.sender_id c.wallets ≡ some x)
    (recipient_has : balance? tr.recipient_id c.wallets ≡ some y) (t : Time) (calm : Type 0)
    (room : calm
      → is_active svc.claim_window t tr ≡ true
      → (pos 0 ≤ℤ sender_restored svc tr c) × (pos 0 ≤ℤ recipient_restored svc tr c)) where
  abbrev ids : List Uuid
  ids = sort_ids svc.uuid_string tr.sender_id tr.recipient_id

  abbrev Inside : Db → World → Type 0
  Inside = InTx c t c.transfers calm

  -- Why the transaction is aborted.
  abbrev pub Aborted : Error → Type 0
  Aborted e =
      ((e ≡ sentinel claim_not_applied) × (is_active svc.claim_window t tr ≡ false))
      ⊎ (((z : DbError) × (e ≡ database z)) × ¬ calm)

  abbrev pub Refused : Error → World → Type 0
  Refused e w = (w.db ≡ c) × (calm → Quiet c.transfers w.nature) × Aborted e

  refused : (e : Error) (w : World) → Failed c t c.transfers calm e w → Refused e w
  refused e w f = (f.kept, (λ k. absurd (f.disturbed k)), inr ((f.cause, f.error), f.disturbed))

  abbrev Locked : Balances → Type 0
  Locked m =
      (balance_at tr.sender_id m ≡ balance_or_zero tr.sender_id c)
      × (balance_at tr.recipient_id m ≡ balance_or_zero tr.recipient_id c)

  lock_both-InTx :
      (w : World)
      → Inside c w
      → Runs (lock_wallets ids []) w (λ m w'. Locked m × Inside c w') (Failed c t c.transfers calm)
  unfolding balance_at
  lock_both-InTx w h = elim (sort_ids-cases svc.uuid_string tr.sender_id tr.recipient_id) [
    | inl e ↦ rw e (
        Runs-weaken _ w
          (lock_wallets-InTx c t c.transfers calm _ _ x y c w sender_has recipient_has h)
          (λ m w' (s, h'). (rw s (ground arith), h')) (λ z w' f. f))
    | inr e ↦ rw e (
        Runs-weaken _ w
          (lock_wallets-InTx c t c.transfers calm _ _ y x c w recipient_has sender_has h)
          (λ m w' (s, h'). (rw s (ground arith), h')) (λ z w' f. f))
  ]

  sender_kept :
      (now : Time) (a b : ℤ)
      → balance? tr.sender_id (put_balance tr.recipient_id a t (mark tr.id now b c)).wallets
        ≡ some x
  unfolding put_balance mark
  sender_kept now a b =
      ground (arith, balance?-set_balance tr.recipient_id tr.sender_id a t c.wallets)

  recipient_kept :
      (now : Time) (b : ℤ) → balance? tr.recipient_id (mark tr.id now b c).wallets ≡ some y
  unfolding mark
  recipient_kept now b = recipient_has

  -- What follows the conditional UPDATE.
  pay_back-InTx :
      (marked : Option Time) (w : World)
      → Marked c t c.transfers calm tr.id svc.claim_window (sender_restored svc tr c) tr c marked w
      → Runs
          (pay_back svc tr (sender_restored svc tr c) (balance_or_zero tr.recipient_id c) marked)
          w
          (λ r w'. IsClaim svc tr t c r × Inside (claimed svc tr t c) w')
          Refused
  pay_back-InTx none w (inactive, h) = Runs-fail _ (h.kept, h.quiet, inl (refl, inactive))
  pay_back-InTx (some at) w (same, active, h) =
      Runs-bind _ _ w
        (Runs-weaken _ w
          (update_wallet_balance-InTx c t c.transfers calm tr.recipient_id _ y _ w
            (recipient_kept t _) (λ k. (room k active).1) h)
          (λ _ _ p. p) refused)
        (λ _ w₁ (p₁, h₁).
          Runs-bind _ _ w₁
            (Runs-weaken _ w₁
              (update_wallet_balance-InTx c t c.transfers calm tr.sender_id _ x _ w₁
                (sender_kept t _ _) (λ k. (room k active).0) h₁)
              (λ _ _ p. p) refused)
            (λ _ w₂ (p₂, h₂). Runs-ret _ (
              record {
                active = active;
                sender_nonneg = p₂;
                recipient_nonneg = p₁;
                result = rw same;
              },
              unfold claimed in h₂,
            )))

  -- The transaction of `ClaimBack`, from its start to its commit.
  pub claim_tx-InTx :
      (w : World)
      → Inside c w
      → Runs
          (claim_tx svc tr)
          w
          (λ r w'. IsClaim svc tr t c r × Inside (claimed svc tr t c) w')
          Refused
  unfolding claim_tx
  claim_tx-InTx w h =
      Runs-bind _ _ w (Runs-weaken _ w (lock_both-InTx w h) (λ _ _ p. p) refused) (λ m w₁ (at, h₁).
        rw (at.0, at.1)
          (Runs-bind _ _ w₁
            (Runs-weaken _ w₁
              (mark_reversed-InTx c t c.transfers calm tr.id svc.claim_window _ tr c w₁ found h₁)
              (λ _ _ p. p) refused)
            pay_back-InTx))
