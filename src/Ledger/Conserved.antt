-- ===== src/Ledger/Conserved.antt =====
-- Conservation: the balances add up to the seed of each wallet that was ever opened.
use wallet_service.Prelude.{
  true, ◌≤◌, ℕ, zero, suc, ℤ, pos, ◌+ℤ◌, ◌-ℤ◌, ◌≤ℤ◌, InRange, int_laws, bounds_of_eq, ◌≡◌, ◌≢◌,
  refl, ◌∙◌, ap, some, List, [], ◌∷◌, ◌++◌, length, arith, Option-cases, inl, inr,
}
use wallet_service.Models.{Uuid, Time, Wallet, Transfer, Db}
use wallet_service.Sql.{new_wallet}
use wallet_service.Sql.Tables.{is_active, find_wallet, find_transfer, set_balance}
use wallet_service.Sql.Tables.Balances.{balance?, total, total-set_balance, total-append}
use wallet_service.Sql.Effects.{open_wallet, open_wallets, put_balance, add_transfer, mark}
use wallet_service.Transfer.{TransferService, TransferResult, sort_ids}
use wallet_service.Transfer.ClaimBack.{ClaimResult}
use wallet_service.Transfer.Transaction.{
  Order, opened, sender_after, recipient_after, transferred, IsTransfer, opened_sender,
}
use wallet_service.Transfer.Claim.{sender_restored, recipient_restored, claimed, IsClaim}
use wallet_service.Ledger.{IsSound}
use wallet_service.Ledger.Transferred.{sent, balance?-sent_recipient, sender_exact, recipient_exact}
use wallet_service.Ledger.Reversed.{
  paid_back, balance?-paid_back_sender, sender_restored_exact, recipient_restored_exact,
}

-- n * s
abbrev pub times : ℕ → ℤ → ℤ
times zero s = pos 0
times (suc n) s = s +ℤ times n s

-- sum(balances) = wallets created × seed
abbrev pub IsConserved : ℤ → Db → Type 0
IsConserved seed d = total d.wallets ≡ times (length d.wallets) seed

length-set_balance :
    (id : Uuid) (b : ℤ) (now : Time) (ws : List Wallet)
    → length (set_balance id b now ws) ≡ length ws
unfolding set_balance
length-set_balance id b now [] = refl
length-set_balance id b now (w ∷ ws) = ground (arith, length-set_balance id b now ws)

times-append :
    (s : ℤ) (ws : List Wallet) (w : Wallet)
    → times (length (ws ++ w ∷ [])) s ≡ times (length ws) s +ℤ s
times-append s [] w = omega int_laws
times-append s (v ∷ ws) w = rw (times-append s ws w) (omega int_laws)

pub IsConserved-open_wallet :
    (seed : ℤ) (now : Time) (id : Uuid) (d : Db)
    → IsConserved seed d
    → IsConserved seed (open_wallet seed now id d)
unfolding open_wallet
IsConserved-open_wallet seed now id d h = elim (Option-cases (find_wallet id d.wallets)) [
  | inr (w, e) ↦ rw (e, open_wallet) h
  | inl e ↦
      rw
        (
          e,
          open_wallet,
          total-append d.wallets (new_wallet id seed now),
          times-append seed d.wallets (new_wallet id seed now),
        )
        (ap (λ x. x +ℤ seed) h)
]

pub IsConserved-open_wallets :
    (seed : ℤ) (now : Time) (ids : List Uuid) (d : Db)
    → IsConserved seed d
    → IsConserved seed (open_wallets seed now ids d)
unfolding open_wallets
IsConserved-open_wallets seed now [] d h = h
IsConserved-open_wallets seed now (id ∷ ids) d h =
    IsConserved-open_wallets seed now ids (open_wallet seed now id d)
      (IsConserved-open_wallet seed now id d h)

-- Two updates that take from one balance what they give to another.
move_total :
    (before between after x x' y y' a : ℤ)
    → between +ℤ x ≡ before +ℤ x'
    → after +ℤ y ≡ between +ℤ y'
    → x' ≡ x -ℤ a
    → y' ≡ y +ℤ a
    → after ≡ before
move_total before between after x x' y y' a p q e f =
    omega (int_laws, bounds_of_eq p, bounds_of_eq q, bounds_of_eq e, bounds_of_eq f)

module _ (svc : TransferService) (o : Order) (ne : o.sender ≢ o.recipient) (t : Time) (d : Db)
    (r : TransferResult) (seed_ok : (pos 0 ≤ℤ svc.seed_paise) × InRange svc.seed_paise)
    (amount_fits : InRange o.amount) (g : IsTransfer svc o t d r) (now : Time) (le : t ≤ now)
    (s : IsSound svc.claim_window now d) where
  -- A transfer moves money and makes none.
  total-transferred :
      (id : Uuid) → total (transferred svc o t id d).wallets ≡ total (opened svc o t d).wallets
  unfolding transferred sent put_balance add_transfer
  total-transferred id =
      move_total _ _ _ _ _ _ _ o.amount
        (total-set_balance o.sender (sender_after svc o d) _ t (opened svc o t d).wallets
          (opened_sender svc o ne t d))
        (total-set_balance o.recipient (recipient_after svc o d) _ t (sent svc o ne t d id).wallets
          (balance?-sent_recipient svc o ne t d id))
        (sender_exact svc o ne t d id r seed_ok amount_fits g now le s)
        (recipient_exact svc o ne t d id r seed_ok amount_fits g now le s)

  length-transferred :
      (id : Uuid) → length (transferred svc o t id d).wallets ≡ length (opened svc o t d).wallets
  unfolding transferred put_balance add_transfer
  length-transferred id = length-set_balance o.recipient _ t _ ∙ length-set_balance o.sender _ t _

  pub transferred-IsConserved :
      (id : Uuid)
      → IsConserved svc.seed_paise d
      → IsConserved svc.seed_paise (transferred svc o t id d)
  transferred-IsConserved id h =
      rw (total-transferred id, length-transferred id)
        (IsConserved-open_wallets svc.seed_paise t (sort_ids svc.uuid_string o.sender o.recipient) d
          h)

module _ (svc : TransferService) (tr : Transfer) (t now : Time) (d : Db) (x y : ℤ)
    (s : IsSound svc.claim_window now d) (found : find_transfer tr.id d.transfers ≡ some tr)
    (sender_has : balance? tr.sender_id d.wallets ≡ some x)
    (recipient_has : balance? tr.recipient_id d.wallets ≡ some y) (r : ClaimResult)
    (g : IsClaim svc tr t d r) (active : is_active svc.claim_window now tr ≡ true) where
  total-claimed : total (claimed svc tr t d).wallets ≡ total d.wallets
  unfolding claimed paid_back put_balance mark
  total-claimed =
      move_total _ _ _ _ _ _ _ tr.amount_paise
        (total-set_balance tr.recipient_id (recipient_restored svc tr d) y t d.wallets
          recipient_has)
        (total-set_balance tr.sender_id (sender_restored svc tr d) x t
          (paid_back svc tr t now d x y s found sender_has recipient_has).wallets
          (balance?-paid_back_sender svc tr t now d x y s found sender_has recipient_has))
        (recipient_restored_exact svc tr t now d x y s found sender_has recipient_has active)
        (sender_restored_exact svc tr t now d x y s found sender_has recipient_has active
          g.sender_nonneg)

  length-claimed : length (claimed svc tr t d).wallets ≡ length d.wallets
  unfolding claimed put_balance mark
  length-claimed = length-set_balance tr.sender_id _ t _ ∙ length-set_balance tr.recipient_id _ t _

  pub claimed-IsConserved :
      IsConserved svc.seed_paise d → IsConserved svc.seed_paise (claimed svc tr t d)
  claimed-IsConserved h = rw (total-claimed, length-claimed) h
