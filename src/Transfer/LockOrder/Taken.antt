-- ===== src/Transfer/LockOrder/Taken.antt =====
-- The locks that the transactions of internal/service/transfer.go take, one after the other.
use wallet_service.Prelude.{
  ℤ, ltb_ℤ, Text, ◌==◌, Bool, true, false, Option, none, some, List, [], ◌∷◌, ◌≡◌, inl, inr, refl,
  arith, Bool-cases, if◌then◌else◌,
}
use wallet_service.Errors.{Error}
use wallet_service.Models.{Uuid, Time, Transfer, Draft}
use wallet_service.Sql
use wallet_service.Sql.{Answer, row, no_rows, rejected}
use wallet_service.Prog.{Prog, ret, fail, perform, Effect, query, Reply, ◌>>=◌, ◌>>◌}
use wallet_service.Repository.{
  scan, scan_found, scan_optional, insert_wallet, wallet_exists, lock_wallet, insert_transfer,
  sum_active_holds, mark_reversed, update_wallet_balance,
}
use wallet_service.Transfer.{
  TransferService, Balances, sort_ids, note_lost_race, create_absent, ensure_wallet, ensure_wallets,
  lock_wallets, settle, transfer_tx, draft, balance_at,
}
use wallet_service.Transfer.ClaimBack.{pay_back, claim_tx}

-- The locks that are left to take after an effect, if it may come now: SELECT … FOR UPDATE takes the
-- first of them, and no balance is written before all of them are taken.
abbrev pub take : Uuid → List Uuid → Option (List Uuid)
take id [] = none
take id (i ∷ is) = if i == id then some is else none

abbrev pub when_all_taken : List Uuid → Option (List Uuid)
when_all_taken [] = some []
when_all_taken (i ∷ is) = none

abbrev pub left_after : Effect → List Uuid → Option (List Uuid)
left_after (query (Sql.select_balance_for_update id)) is = take id is
left_after (query (Sql.update_balance id balance)) is = when_all_taken is
left_after _ is = some is

-- Whatever the replies, the program takes the locks `is` in their order as far as it gets, and
-- when it returns, `rest` are left.
pub data Locks {A : Type 0} : List Uuid → List Uuid → Prog A → Type 0 where
  returns : (is : List Uuid) (a : A) → Locks is is (ret a)
  fails : (is rest : List Uuid) (e : Error) → Locks is rest (fail e)
  performs :
      (is mid rest : List Uuid) (e : Effect) (k : Reply e → Prog A)
      → left_after e is ≡ some mid
      → ((r : Reply e) → Locks mid rest (k r))
      → Locks is rest (perform e k)

module _ {A B : Type 0} where
  bind-Locks :
      (is mid rest : List Uuid) (p : Prog A) (f : A → Prog B)
      → Locks is mid p
      → ((a : A) → Locks mid rest (f a))
      → Locks is rest (p >>= f)
  bind-Locks is _ rest _ f (returns _ a) h = h a
  bind-Locks is mid rest _ f (fails _ _ e) h = fails is rest e
  bind-Locks is mid rest _ f (performs _ m _ e k q g) h =
      performs is m rest e (λ r. k r >>= f) q (λ r. bind-Locks m mid rest (k r) f (g r) h)

module _ {R : Type 0} (is : List Uuid) where
  scan-Locks : (r : Answer R) → Locks is is (scan r)
  scan-Locks (row r) = returns is r
  scan-Locks no_rows = fails is is _
  scan-Locks (rejected e) = fails is is _

  scan_found-Locks : (r : Answer R) → Locks is is (scan_found r)
  scan_found-Locks (row r) = returns is r
  scan_found-Locks no_rows = fails is is _
  scan_found-Locks (rejected e) = fails is is _

  scan_optional-Locks : (r : Answer R) → Locks is is (scan_optional r)
  scan_optional-Locks (row r) = returns is (some r)
  scan_optional-Locks no_rows = returns is none
  scan_optional-Locks (rejected e) = fails is is _

insert_wallet-Locks : (is : List Uuid) (id : Uuid) (seed : ℤ) → Locks is is (insert_wallet id seed)
unfolding insert_wallet
insert_wallet-Locks is id seed =
    performs is is is _ _ refl (λ r. bind-Locks is is is _ _ (scan-Locks is r) (λ n. returns is _))

create_absent-Locks :
    (is : List Uuid) (seed : ℤ) (id : Uuid) (there : Bool)
    → Locks is is (create_absent seed id there)
create_absent-Locks is seed id true = returns is tt
create_absent-Locks is seed id false =
    bind-Locks is is is _ _ (insert_wallet-Locks is id seed) (λ made. noted made)
  where
    noted : (made : Bool) → Locks is is (note_lost_race id made)
    noted true = returns is tt
    noted false = performs is is is _ _ refl (λ _. performs is is is _ _ refl (λ _. returns is tt))

ensure_wallets-Locks :
    (is : List Uuid) (seed : ℤ) (ids : List Uuid) → Locks is is (ensure_wallets seed ids)
unfolding ensure_wallets ensure_wallet wallet_exists
ensure_wallets-Locks is seed [] = returns is tt
ensure_wallets-Locks is seed (id ∷ ids) =
    bind-Locks is is is (ensure_wallet seed id) _
      (performs is is is _ _ refl (λ r.
        bind-Locks is is is _ _ (scan-Locks is r) (λ there. create_absent-Locks is seed id there)))
      (λ _. ensure_wallets-Locks is seed ids)

lock_wallets-Locks : (ids : List Uuid) (bs : Balances) → Locks ids [] (lock_wallets ids bs)
unfolding lock_wallets lock_wallet
lock_wallets-Locks [] bs = returns [] bs
lock_wallets-Locks (id ∷ ids) bs = performs (id ∷ ids) ids [] _ _ (taken id ids) (λ r.
    bind-Locks ids ids [] _ _ (scan_found-Locks ids r) (λ b. lock_wallets-Locks ids ((id, b) ∷ bs)))
  where
    taken : (id : Uuid) (ids : List Uuid) → take id (id ∷ ids) ≡ some ids
    taken id ids = ground arith

update_wallet_balance-Locks : (id : Uuid) (b : ℤ) → Locks [] [] (update_wallet_balance id b)
unfolding update_wallet_balance
update_wallet_balance-Locks id b =
    performs [] [] [] _ _ refl (λ r. bind-Locks [] [] [] _ _ (scan-Locks [] r) (λ n. returns [] tt))

updates-Locks :
    {A : Type 0} (i j : Uuid) (b c : ℤ) (a : A)
    → Locks [] [] (update_wallet_balance i b >> (update_wallet_balance j c >> ret a))
updates-Locks i j b c a =
    bind-Locks [] [] [] _ _ (update_wallet_balance-Locks i b)
      (λ _. bind-Locks [] [] [] _ _ (update_wallet_balance-Locks j c) (λ _. returns [] a))

settle-Locks :
    (tr : Draft) (held balance : ℤ) (o : Option Uuid) → Locks [] [] (settle tr held balance o)
settle-Locks tr held balance none = fails [] [] _
settle-Locks tr held balance (some id) = elim (Bool-cases (ltb_ℤ tr.sender_balance_after held)) [
  | inl short ↦ rw short (fails [] [] _)
  | inr covered ↦ rw covered (updates-Locks _ _ _ _ _)
]

pub transfer_tx-Locks :
    (t : TransferService) (sender recipient : Uuid) (amount : ℤ) (key body_hash : Text)
    → Locks
        (sort_ids t.uuid_string sender recipient)
        []
        (transfer_tx t sender recipient amount key body_hash)
unfolding transfer_tx sum_active_holds insert_transfer
transfer_tx-Locks t sender recipient amount key body_hash =
    let ids = sort_ids t.uuid_string sender recipient in
    bind-Locks ids ids [] _ _ (ensure_wallets-Locks ids t.seed_paise ids) (λ _.
      bind-Locks ids [] [] _ _ (lock_wallets-Locks ids []) (λ bs. performs [] [] [] _ _ refl (λ r.
        bind-Locks [] [] [] _ _ (scan-Locks [] r) (λ held. performs [] [] [] _ _ refl (λ s.
          bind-Locks [] [] [] _ _ (scan_optional-Locks [] s) (λ o.
            settle-Locks (draft sender recipient amount key body_hash bs) held
              (balance_at recipient bs) o))))))

pay_back-Locks :
    (t : TransferService) (tr : Transfer) (after balance : ℤ) (o : Option Time)
    → Locks [] [] (pay_back t tr after balance o)
pay_back-Locks t tr after balance none = fails [] [] _
pay_back-Locks t tr after balance (some at) = updates-Locks _ _ _ _ _

pub claim_tx-Locks :
    (t : TransferService) (tr : Transfer)
    → Locks (sort_ids t.uuid_string tr.sender_id tr.recipient_id) [] (claim_tx t tr)
unfolding claim_tx mark_reversed
claim_tx-Locks t tr =
    let ids = sort_ids t.uuid_string tr.sender_id tr.recipient_id in
    bind-Locks ids [] [] _ _ (lock_wallets-Locks ids []) (λ bs.
      performs [] [] [] _ _ refl
        (λ r. bind-Locks [] [] [] _ _ (scan_optional-Locks [] r) (λ o. pay_back-Locks t tr _ _ o)))
