-- ===== src/Sql/Tables/Balances.antt =====
-- The wallets' balances under an insert and an update, one by one and in total.
use wallet_service.Prelude.{
  ℤ, pos, ◌+ℤ◌, int_laws, ◌≡◌, Option, none, some, List, [], ◌∷◌, ◌++◌, arith, ◌==◌, if◌then◌else◌,
}
use wallet_service.Models.{Uuid, Time, Wallet}
use wallet_service.Sql.Tables.{find_wallet, set_balance}

-- The balance of a user's wallet, if there is one.
abbrev pub paise : Option Wallet → Option ℤ
paise none = none
paise (some w) = some w.balance_paise

unfoldable pub balance? : Uuid → List Wallet → Option ℤ
balance? id ws = paise (find_wallet id ws)

-- The sum of all balances.
unfoldable pub total : List Wallet → ℤ
total [] = pos 0
total (w ∷ ws) = w.balance_paise +ℤ total ws

abbrev pub replaced : {A : Type 0} → Option A → A → Option A
replaced none b = none
replaced (some _) b = some b

abbrev pub or_else : {A : Type 0} → Option A → Option A → Option A
or_else none o = o
or_else (some a) o = some a

pub balance?-set_balance :
    (k j : Uuid) (b : ℤ) (now : Time) (ws : List Wallet)
    → balance? j (set_balance k b now ws)
      ≡ (if k == j then replaced (balance? k ws) b else balance? j ws)
unfolding balance? find_wallet set_balance
balance?-set_balance k j b now [] = ground arith
balance?-set_balance k j b now (w ∷ ws) = ground (arith, balance?-set_balance k j b now ws)

pub balance?-append :
    (j : Uuid) (ws : List Wallet) (w : Wallet)
    → balance? j (ws ++ w ∷ [])
      ≡ or_else (balance? j ws) (if w.user_id == j then some w.balance_paise else none)
unfolding balance? find_wallet
balance?-append j [] w = ground arith
balance?-append j (v ∷ ws) w = ground (arith, balance?-append j ws w)

pub total-set_balance :
    (k : Uuid) (b old : ℤ) (now : Time) (ws : List Wallet)
    → balance? k ws ≡ some old
    → total (set_balance k b now ws) +ℤ old ≡ total ws +ℤ b
unfolding balance? find_wallet set_balance total
total-set_balance k b old now [] h = cc
total-set_balance k b old now (w ∷ ws) h = grind (int_laws, total-set_balance k b old now ws)

pub total-append :
    (ws : List Wallet) (w : Wallet) → total (ws ++ w ∷ []) ≡ total ws +ℤ w.balance_paise
unfolding total
total-append [] w = omega int_laws
total-append (v ∷ ws) w = rw (total-append ws w) (omega int_laws)
