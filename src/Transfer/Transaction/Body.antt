-- ===== src/Transfer/Transaction/Body.antt =====
-- The statements of `transfer_tx` one after the other.
use wallet_service.Prelude.{
  ℤ, pos, ◌≤ℤ◌, ltb_ℤ, ◌≡◌, ◌≢◌, refl, ◌∙◌, inl, inr, true, Option, none, some, List, [], arith,
  All, Bool-cases,
}
use wallet_service.Errors.{Error}
use wallet_service.Models.{Uuid, Time, Db}
use wallet_service.Sql.{known}
use wallet_service.Sql.Tables.{find_key, active_holds}
use wallet_service.Sql.Tables.Balances.{balance?, balance?-set_balance}
use wallet_service.Sql.Effects.{add_transfer, put_balance}
use wallet_service.Sql.Effects.Opened.{transfers-open_wallets, users-open_wallets}
use wallet_service.Prog.{World, ◌>>=◌}
use wallet_service.Prog.Logic.{Runs, Runs-ret, Runs-fail, Runs-bind, Runs-weaken}
use wallet_service.Repository.InTx.{InTx, Failed, Quiet}
use wallet_service.Repository.Methods.{
  sum_active_holds-InTx, insert_transfer-InTx, update_wallet_balance-InTx, Inserted,
}
use wallet_service.Repository.{insert_transfer}
use wallet_service.Transfer.{
  TransferService, Balances, balance_at, sort_ids, draft, settle, transfer_tx, lock_wallets,
}
use wallet_service.Transfer.Steps.{ensure_wallets-InTx, lock_wallets-InTx, sort_ids-cases}
use wallet_service.Transfer.Transaction.{
  Order, opened, balance_or_seed, sender_after, recipient_after, holds, order_draft, transferred,
  IsTransfer, IsFeasible, Aborted, opened_sender, opened_recipient,
}

module _ (svc : TransferService) (o : Order) (ne : o.sender ≢ o.recipient) (c : Db) (t : Time)
    (calm : Type 0) (feasible : calm → IsFeasible svc o t c) where
  abbrev ids : List Uuid
  ids = sort_ids svc.uuid_string o.sender o.recipient

  abbrev Inside : Db → World → Type 0
  Inside = InTx c t c.transfers calm

  abbrev pub Refused : Error → World → Type 0
  Refused e w = (w.db ≡ c) × (calm → Quiet c.transfers w.nature) × Aborted svc o calm t c e

  undisturbed : {d : Db} {w : World} → Inside d w → calm → Quiet c.transfers w.nature
  undisturbed h = h.quiet

  refused : (e : Error) (w : World) → Failed c t c.transfers calm e w → Refused e w
  refused e w f =
      (f.kept, (λ k. absurd (f.disturbed k)), inr (inr ((f.cause, f.error), f.disturbed)))

  abbrev Locked : Balances → Type 0
  Locked m =
      (balance_at o.sender m ≡ balance_or_seed svc o o.sender c)
      × (balance_at o.recipient m ≡ balance_or_seed svc o o.recipient c)

  lock_both-InTx :
      (d : Db) (w : World)
      → balance? o.sender d.wallets ≡ some (balance_or_seed svc o o.sender c)
      → balance? o.recipient d.wallets ≡ some (balance_or_seed svc o o.recipient c)
      → Inside d w
      → Runs (lock_wallets ids []) w (λ m w'. Locked m × Inside d w') (Failed c t c.transfers calm)
  unfolding balance_at
  lock_both-InTx d w p q h = elim (sort_ids-cases svc.uuid_string o.sender o.recipient) [
    | inl e ↦ rw e (
        Runs-weaken _ w (lock_wallets-InTx c t c.transfers calm o.sender o.recipient _ _ d w p q h)
          (λ m w' (s, h'). (rw s (ground arith), h')) (λ x w' f. f))
    | inr e ↦ rw e (
        Runs-weaken _ w (lock_wallets-InTx c t c.transfers calm o.recipient o.sender _ _ d w q p h)
          (λ m w' (s, h'). (rw s (ground arith), h')) (λ x w' f. f))
  ]

  same_transfers : (opened svc o t c).transfers ≡ c.transfers
  same_transfers = transfers-open_wallets svc.seed_paise t ids c

  sender_kept :
      (id : Uuid)
      → balance? o.sender (add_transfer (order_draft svc o c) t id (opened svc o t c)).wallets
        ≡ some (balance_or_seed svc o o.sender c)
  unfolding add_transfer
  sender_kept id = opened_sender svc o ne t c

  recipient_kept :
      (id : Uuid)
      → balance? o.recipient
          (put_balance o.sender
            (sender_after svc o c)
            t
            (add_transfer (order_draft svc o c) t id (opened svc o t c))).wallets
        ≡ some (balance_or_seed svc o o.recipient c)
  unfolding put_balance add_transfer
  recipient_kept id = ground (
    arith,
    balance?-set_balance o.sender o.recipient (sender_after svc o c) t (opened svc o t c).wallets,
    opened_recipient svc o ne t c,
  )

  -- What follows the insert: the check of the funds and the two updates.
  settle-InTx :
      (ins : Option Uuid) (w : World)
      → Inserted c t c.transfers calm (order_draft svc o c) (opened svc o t c) ins w
      → (calm → holds svc o t c ≤ℤ sender_after svc o c → pos 0 ≤ℤ sender_after svc o c)
      → (calm → find_key o.sender o.key c.transfers ≡ none → pos 0 ≤ℤ recipient_after svc o c)
      → Runs
          (settle (order_draft svc o c) (holds svc o t c) (balance_or_seed svc o o.recipient c) ins)
          w
          (λ r w'. IsTransfer svc o t c r × Inside (transferred svc o t r.transfer_id c) w')
          Refused
  settle-InTx none w h s r =
      Runs-fail _ (h.1.kept, undisturbed h.1, inl (refl, rw same_transfers at h.0))
  settle-InTx (some id) w (unclaimed, fresh, positive, h) s r =
      let unclaimed' = rw same_transfers at unclaimed in
      elim (Bool-cases (ltb_ℤ (sender_after svc o c) (holds svc o t c))) [
        | inl short ↦
            rw short
              (Runs-fail _ (h.kept, undisturbed h, inr (inl (refl, unclaimed', ground arith))))
        | inr enough ↦
            let covered : holds svc o t c ≤ℤ sender_after svc o c = ground arith in
            rw enough (
              Runs-bind _ _ w
                (Runs-weaken _ w
                  (update_wallet_balance-InTx c t c.transfers calm o.sender _ _ _ w (sender_kept id)
                    (λ k. s k covered) h)
                  (λ _ _ p. p) refused)
                (λ _ w₁ (p₁, h₁).
                  Runs-bind _ _ w₁
                    (Runs-weaken _ w₁
                      (update_wallet_balance-InTx c t c.transfers calm o.recipient _ _ _ w₁
                        (recipient_kept id) (λ k. r k unclaimed') h₁)
                      (λ _ _ p. p) refused)
                    (λ _ w₂ (p₂, h₂). Runs-ret _ (
                      record {
                        unclaimed = unclaimed';
                        fresh = rw same_transfers at fresh;
                        positive = positive;
                        covered = covered;
                        sender_nonneg = p₁;
                        recipient_nonneg = p₂;
                        new_balance = refl;
                        replayed = refl;
                      },
                      unfold transferred in h₂,
                    ))))
      ]

  known_opened : (id : Uuid) → known id c ≡ true → known id (opened svc o t c) ≡ true
  known_opened id e = rw (users-open_wallets svc.seed_paise t ids c) e

  -- From the insert of the row on.
  insert_and_settle-InTx :
      (m : Balances) (held : ℤ) (w : World)
      → Locked m
      → held ≡ holds svc o t c
      → Inside (opened svc o t c) w
      → let tr = draft o.sender o.recipient o.amount o.key o.body_hash m in
        Runs
          (insert_transfer tr >>= settle tr held (balance_at o.recipient m))
          w
          (λ r w'. IsTransfer svc o t c r × Inside (transferred svc o t r.transfer_id c) w')
          Refused
  insert_and_settle-InTx m held w at e h =
      rw (e, at.0, at.1)
        (Runs-bind (insert_transfer (order_draft svc o c)) _ w
          (Runs-weaken _ w
            (insert_transfer-InTx c t c.transfers calm (order_draft svc o c) (opened svc o t c) w
              same_transfers
              (λ k.
                let f = feasible k in
                (
                  f.positive,
                  known_opened o.sender f.sender_known,
                  known_opened o.recipient f.recipient_known,
                ))
              h)
            (λ _ _ p. p) refused)
          (λ ins w' i.
            settle-InTx ins w' i (λ k cov. omega (arith, (feasible k).holds_nonneg))
              (λ k. (feasible k).room)))

  -- The transaction of `Execute`, from its start to its commit.
  pub transfer_tx-InTx :
      (w : World)
      → Inside c w
      → Runs
          (transfer_tx svc o.sender o.recipient o.amount o.key o.body_hash)
          w
          (λ r w'. IsTransfer svc o t c r × Inside (transferred svc o t r.transfer_id c) w')
          Refused
  unfolding transfer_tx
  transfer_tx-InTx w h =
      Runs-bind _ _ w
        (Runs-weaken _ w
          (ensure_wallets-InTx c t c.transfers calm svc.seed_paise ids c w
            (λ k. ((feasible k).seed_nonneg, known_ids k)) h)
          (λ _ _ p. p) refused)
        (λ _ w₁ h₁.
          Runs-bind _ _ w₁
            (Runs-weaken _ w₁
              (lock_both-InTx (opened svc o t c) w₁ (opened_sender svc o ne t c)
                (opened_recipient svc o ne t c) h₁)
              (λ _ _ p. p) refused)
            (λ m w₂ (at, h₂).
              Runs-bind _ _ w₂
                (Runs-weaken _ w₂
                  (sum_active_holds-InTx c t c.transfers calm o.sender svc.claim_window _ w₂
                    (λ k. rw same_transfers (feasible k).holds_fit) h₂)
                  (λ _ _ p. p) refused)
                (λ held w₃ (sum, h₃). insert_and_settle-InTx m held w₃ at (sum ∙ same_holds) h₃)))
    where
      known_ids : calm → All (λ id. known id c ≡ true) ids
      known_ids k = elim (sort_ids-cases svc.uuid_string o.sender o.recipient) [
        | inl e ↦ rw e ((feasible k).sender_known, ((feasible k).recipient_known, tt))
        | inr e ↦ rw e ((feasible k).recipient_known, ((feasible k).sender_known, tt))
      ]

      same_holds :
          active_holds o.sender svc.claim_window t (opened svc o t c).transfers ≡ holds svc o t c
      same_holds = rw same_transfers
