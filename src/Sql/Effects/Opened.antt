-- ===== src/Sql/Effects/Opened.antt =====
-- Opening wallets: who has one afterwards, with what balance, and what stays as it was.
use wallet_service.Prelude.{
  ℤ, ◌≡◌, refl, Bool, false, ◌||◌, none, some, List, [], ◌∷◌, arith, ◌==◌, if◌then◌else◌,
}
use wallet_service.Models.{Uuid, Time, Db}
use wallet_service.Sql.{new_wallet}
use wallet_service.Sql.Tables.Balances.{balance?, or_else, balance?-append}
use wallet_service.Sql.Effects.{open_wallet, open_wallets}

abbrev pub contains : Uuid → List Uuid → Bool
contains j [] = false
contains j (id ∷ ids) = id == j || contains j ids

module _ (seed : ℤ) (now : Time) where
  pub users-open_wallet : (id : Uuid) (d : Db) → (open_wallet seed now id d).users ≡ d.users
  unfolding open_wallet
  users-open_wallet id d = ground arith

  pub transfers-open_wallet :
      (id : Uuid) (d : Db) → (open_wallet seed now id d).transfers ≡ d.transfers
  unfolding open_wallet
  transfers-open_wallet id d = ground arith

  pub balance?-open_wallet :
      (id j : Uuid) (d : Db)
      → balance? j (open_wallet seed now id d).wallets
        ≡ or_else (balance? j d.wallets) (if id == j then some seed else none)
  unfolding open_wallet balance?
  balance?-open_wallet id j d = ground (arith, balance?-append j d.wallets (new_wallet id seed now))

  pub users-open_wallets :
      (ids : List Uuid) (d : Db) → (open_wallets seed now ids d).users ≡ d.users
  unfolding open_wallets
  users-open_wallets [] d = refl
  users-open_wallets (id ∷ ids) d =
      cc (users-open_wallets ids (open_wallet seed now id d), users-open_wallet id d)

  pub transfers-open_wallets :
      (ids : List Uuid) (d : Db) → (open_wallets seed now ids d).transfers ≡ d.transfers
  unfolding open_wallets
  transfers-open_wallets [] d = refl
  transfers-open_wallets (id ∷ ids) d =
      cc (transfers-open_wallets ids (open_wallet seed now id d), transfers-open_wallet id d)

  pub balance?-open_wallets :
      (ids : List Uuid) (j : Uuid) (d : Db)
      → balance? j (open_wallets seed now ids d).wallets
        ≡ or_else (balance? j d.wallets) (if contains j ids then some seed else none)
  unfolding open_wallets
  balance?-open_wallets [] j d = ground arith
  balance?-open_wallets (id ∷ ids) j d =
      ground (
        arith,
        balance?-open_wallets ids j (open_wallet seed now id d),
        balance?-open_wallet id j d,
      )
