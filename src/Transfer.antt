-- ===== src/Transfer.antt =====
-- internal/service/transfer.go: TransferService. The text of a UUID and SHA-256 come from
-- libraries, and are arguments.
pub mod Hash
mod Steps
pub mod Transaction
pub mod Execute
pub mod LockOrder
pub mod ClaimBack
pub mod Claim
use wallet_service.Prelude.{
  ℕ, String, ℤ, pos, ◌+ℤ◌, ◌-ℤ◌, ltb_ℤ, leb_ℤ, wrap64, Text, text_eq, text_lt, length, Bool, true,
  false, not, ◌||◌, ◌&&◌, Option, none, some, List, [], ◌∷◌, ◌==◌, ltb, if◌then◌else◌,
}
use wallet_service.Errors.{
  Sentinel, Error, sentinel, validation, wrapped, unknown_recipient, self_transfer,
  insufficient_funds, idempotency_conflict, not_found, claim_window_expired, repo_not_found,
  key_exists, claim_not_applied, errors_is, map_repo_not_found,
}
use wallet_service.Models.{Uuid, Time, User, Transfer, TransferStatus, completed, reversed, Draft}
use wallet_service.Observe.{Reason, Counter, Event}
use wallet_service.Prog.{Prog, ret, fail, panic, Effect, act, Result, ok, err, attempt, ◌>>=◌, ◌>>◌}
use wallet_service.Repository.{
  get_user_by_username, get_transfer_by_id, get_transfer_by_sender_key, wallet_exists,
  insert_wallet, lock_wallet, insert_transfer, sum_active_holds, mark_reversed,
  update_wallet_balance, with_tx,
}
use Hash.{hash_body}

-- The fields of TransferService, with the two library functions that it calls.
pub record TransferService : Type 0 where
  pub seed_paise : ℤ
  pub claim_window : ℕ
  pub uuid_string : Uuid → Text
  pub sha256 : Text → Text

pub record TransferResult : Type 0 where
  pub transfer_id : Uuid
  pub new_balance : ℤ
  pub replayed : Bool

abbrev pub count : Counter → Prog Unit
count c = act (Effect.inc c)

abbrev pub info : Event → Prog Unit
info e = act (Effect.log e)

-- `sort.Slice` on two elements: an insertion sort, so one comparison.
unfoldable pub sort_ids : (Uuid → Text) → Uuid → Uuid → List Uuid
sort_ids uuid_string a b =
    if text_lt (uuid_string b) (uuid_string a) then b ∷ a ∷ [] else a ∷ b ∷ []

-- `map[uuid.UUID]int64`, where a missing key reads as zero.
abbrev pub Balances : Type 0
Balances = List (Uuid × ℤ)

unfoldable pub balance_at : Uuid → Balances → ℤ
balance_at id [] = pos 0
balance_at id ((k, v) ∷ m) = if k == id then v else balance_at id m

-- The body of the first loop of `Execute`, and the loop.
abbrev pub note_lost_race : Uuid → Bool → Prog Unit
note_lost_race id true = ret tt
note_lost_race id false = do
  count Counter.get_or_create_race_lost
  info (Event.get_or_create_race_lost id)

abbrev pub create_absent : ℤ → Uuid → Bool → Prog Unit
create_absent seed id true = ret tt
create_absent seed id false = do created ← insert_wallet id seed; note_lost_race id created

unfoldable pub ensure_wallet : ℤ → Uuid → Prog Unit
ensure_wallet seed id = do exists ← wallet_exists id; create_absent seed id exists

unfoldable pub ensure_wallets : ℤ → List Uuid → Prog Unit
ensure_wallets seed [] = ret tt
ensure_wallets seed (id ∷ ids) = do ensure_wallet seed id; ensure_wallets seed ids

-- The second loop of `Execute`, and the loop of `ClaimBack`. A later write of a key hides an
-- earlier one.
unfoldable pub lock_wallets : List Uuid → Balances → Prog Balances
lock_wallets [] balances = ret balances
lock_wallets (id ∷ ids) balances = do bal ← lock_wallet id; lock_wallets ids ((id, bal) ∷ balances)

-- What follows the insert in the transaction of `Execute`.
abbrev pub settle : Draft → ℤ → ℤ → Option Uuid → Prog TransferResult
settle tr held recipient_balance none = fail (sentinel key_exists)
settle tr held recipient_balance (some id) =
    if ltb_ℤ tr.sender_balance_after held then fail (sentinel insufficient_funds) else do
      update_wallet_balance tr.sender_id tr.sender_balance_after
      update_wallet_balance tr.recipient_id (wrap64 (recipient_balance +ℤ tr.amount_paise))
      ret (record { transfer_id = id; new_balance = tr.sender_balance_after; replayed = false })

abbrev pub draft : Uuid → Uuid → ℤ → Text → Text → Balances → Draft
draft sender recipient amount key body_hash balances = record {
  sender_id = sender;
  recipient_id = recipient;
  amount_paise = amount;
  idempotency_key = key;
  body_hash = body_hash;
  sender_balance_after = wrap64 (balance_at sender balances -ℤ amount);
}

module _ (t : TransferService) where
  -- The function that `Execute` runs in its transaction.
  unfoldable pub transfer_tx : Uuid → Uuid → ℤ → Text → Text → Prog TransferResult
  transfer_tx sender recipient amount key body_hash = do
    let ids = sort_ids t.uuid_string sender recipient
    ensure_wallets t.seed_paise ids
    balances ← lock_wallets ids []
    held ← sum_active_holds sender t.claim_window
    let tr = draft sender recipient amount key body_hash balances
    inserted ← insert_transfer tr
    settle tr held (balance_at recipient balances) inserted

  abbrev pub replay_or_conflict : Uuid → Text → Transfer → Prog TransferResult
  replay_or_conflict sender body_hash existing =
      if not (text_eq existing.body_hash body_hash)
      then (do
        count (Counter.transfers_rejected Reason.idempotency_conflict)
        info (Event.idempotency_conflict sender existing.id)
        fail (sentinel idempotency_conflict))
      else (do
        count Counter.idempotent_replays
        info (Event.idempotent_replay sender existing.id)
        ret (record {
          transfer_id = existing.id;
          new_balance = existing.sender_balance_after;
          replayed = true;
        }))

  abbrev pub load_for : {A : Type 0} → String → Result A → Prog A
  load_for msg (ok a) = ret a
  load_for msg (err e) = fail (wrapped msg e)

  unfoldable pub resolve_existing_key : Uuid → Text → Text → Prog TransferResult
  resolve_existing_key sender key body_hash = do
    found ← attempt (get_transfer_by_sender_key sender key)
    existing ← load_for "load transfer for claimed key" found
    replay_or_conflict sender body_hash existing

  -- The `switch` at the end of `Execute`.
  abbrev pub conclude : Uuid → Uuid → ℤ → Text → Text → Result TransferResult → Prog TransferResult
  conclude sender recipient amount key body_hash (ok result) = do
    count Counter.transfers_applied
    info (Event.transfer_applied result.transfer_id sender recipient amount)
    ret result
  conclude sender recipient amount key body_hash (err e) =
      if errors_is e key_exists
      then resolve_existing_key sender key body_hash
      else if errors_is e insufficient_funds
      then (do
        count (Counter.transfers_rejected Reason.insufficient_funds)
        info (Event.insufficient_funds_rejected sender amount)
        fail e)
      else fail e

  -- `Execute` from the recipient's row on.
  abbrev pub execute_to : Uuid → Text → ℤ → Text → User → Prog TransferResult
  execute_to sender to_username amount key recipient =
      if recipient.id == sender
      then (do
        count (Counter.transfers_rejected Reason.self_transfer)
        fail (sentinel self_transfer))
      else (do
        let body_hash = hash_body t.sha256 to_username amount
        done ← attempt (with_tx (transfer_tx sender recipient.id amount key body_hash))
        conclude sender recipient.id amount key body_hash done)

  abbrev pub known_recipient : Result User → Prog User
  known_recipient (ok u) = ret u
  known_recipient (err e) =
      if errors_is e repo_not_found
      then (do
        count (Counter.transfers_rejected Reason.unknown_recipient)
        fail (sentinel unknown_recipient))
      else fail e

  unfoldable pub execute : Uuid → Text → ℤ → Text → Prog TransferResult
  execute sender to_username amount key =
      if leb_ℤ amount (pos 0)
      then (do
        count (Counter.transfers_rejected Reason.invalid_amount)
        fail (validation "amount_paise must be a positive integer"))
      else if length key == 0 || ltb 128 (length key)
      then fail (validation "idempotency_key is required (1-128 chars)")
      else (do
        found ← attempt (get_user_by_username to_username)
        recipient ← known_recipient found
        execute_to sender to_username amount key recipient)

  abbrev pub mapped_not_found : {A : Type 0} → Result A → Prog A
  mapped_not_found (ok a) = ret a
  mapped_not_found (err e) = fail (map_repo_not_found e (sentinel not_found))

  unfoldable pub get_by_id : Uuid → Uuid → Prog Transfer
  get_by_id caller transfer_id = do
    found ← attempt (get_transfer_by_id transfer_id)
    tr ← mapped_not_found found
    if not (tr.sender_id == caller) && not (tr.recipient_id == caller)
        then fail (sentinel not_found)
        else ret tr
