-- ===== src/Sql/Tables.antt =====
-- The WHERE clauses of the statements, as searches and updates of a table's rows.
pub mod Balances
pub mod Holds
use wallet_service.Prelude.{
  ℕ, ◌+◌, ℤ, pos, ◌+ℤ◌, Text, text_eq, Bool, false, true, ◌&&◌, Option, none, some, List, [], ◌∷◌,
  ◌==◌, ltb, if◌then◌else◌,
}
use wallet_service.Models.{Uuid, Time, User, Wallet, Transfer, completed, reversed}

-- users, by primary key and by UNIQUE (username)
unfoldable pub find_user : Uuid → List User → Option User
find_user id [] = none
find_user id (u ∷ us) = if u.id == id then some u else find_user id us

unfoldable pub find_username : Text → List User → Option User
find_username name [] = none
find_username name (u ∷ us) = if text_eq u.username name then some u else find_username name us

-- wallets, by primary key
unfoldable pub find_wallet : Uuid → List Wallet → Option Wallet
find_wallet id [] = none
find_wallet id (w ∷ ws) = if w.user_id == id then some w else find_wallet id ws

unfoldable pub set_balance : Uuid → ℤ → Time → List Wallet → List Wallet
set_balance id b now [] = []
set_balance id b now (w ∷ ws) =
    if w.user_id == id
    then record w { balance_paise = b; updated_at = now } ∷ ws
    else w ∷ set_balance id b now ws

-- transfers, by primary key and by UNIQUE (sender_id, idempotency_key)
unfoldable pub find_transfer : Uuid → List Transfer → Option Transfer
find_transfer id [] = none
find_transfer id (t ∷ ts) = if t.id == id then some t else find_transfer id ts

unfoldable pub find_key : Uuid → Text → List Transfer → Option Transfer
find_key sender key [] = none
find_key sender key (t ∷ ts) =
    if t.sender_id == sender && text_eq t.idempotency_key key
    then some t
    else find_key sender key ts

abbrev pub is_completed : Transfer → Bool
is_completed t = elim t.status [ completed ↦ true | reversed ↦ false ]

-- status = 'completed' AND created_at > now() - window
unfoldable pub is_active : ℕ → Time → Transfer → Bool
is_active window now t = is_completed t && ltb now (t.created_at + window)

-- COALESCE(SUM(amount_paise), 0) over the rows of one recipient that are active
unfoldable pub active_holds : Uuid → ℕ → Time → List Transfer → ℤ
active_holds id window now [] = pos 0
active_holds id window now (t ∷ ts) =
    if t.recipient_id == id && is_active window now t
    then t.amount_paise +ℤ active_holds id window now ts
    else active_holds id window now ts

-- SET status = 'reversed', reversed_at = now(), sender_balance_after_reversal = $3
unfoldable pub reverse : Uuid → Time → ℤ → List Transfer → List Transfer
reverse id now after [] = []
reverse id now after (t ∷ ts) =
    if t.id == id
    then record t {
      status = reversed;
      reversed_at = some now;
      sender_balance_after_reversal = some after;
    }
      ∷ ts
    else t ∷ reverse id now after ts
