-- ===== src/Ledger/Opened.antt =====
-- Opening a wallet keeps the tables sound.
use wallet_service.Prelude.{ℕ, ℤ, pos, ◌≤ℤ◌, InRange, ◌≡◌, ◌≢◌, ◌⊎◌, inl, inr, none, some, arith}
use wallet_service.Models.{Uuid, Time, Db}
use wallet_service.Sql.Tables.{active_holds}
use wallet_service.Sql.Tables.Balances.{balance?}
use wallet_service.Sql.Effects.{open_wallet}
use wallet_service.Sql.Effects.Opened.{balance?-open_wallet, transfers-open_wallet}
use wallet_service.Ledger.{IsSound}
use wallet_service.Ledger.Rows.{All-IsWellFormed, active_holds-eq-zero}

module _ (seed : ℤ) (seed_ok : (pos 0 ≤ℤ seed) × InRange seed) (user : Uuid) (window : ℕ)
    (now t : Time) (d : Db) (s : IsSound window now d) where
  -- A balance is an old one or the seed of the new wallet.
  old_or_new :
      (j : Uuid) (b : ℤ)
      → balance? j (open_wallet seed t user d).wallets ≡ some b
      → (balance? j d.wallets ≡ some b) ⊎ ((balance? j d.wallets ≡ none) × (b ≡ seed))
  old_or_new j b e = ground (arith, balance?-open_wallet seed t user j d)

  still_has :
      (j : Uuid)
      → balance? j d.wallets ≢ none
      → balance? j (open_wallet seed t user d).wallets ≢ none
  still_has j h = ground (arith, balance?-open_wallet seed t user j d)

  funded-open_wallet :
      (j : Uuid) (b : ℤ)
      → balance? j (open_wallet seed t user d).wallets ≡ some b
      → active_holds j window now (open_wallet seed t user d).transfers ≤ℤ b
  funded-open_wallet j b e = rw (transfers-open_wallet seed t user d) (elim (old_or_new j b e) [
    | inl f ↦ s.funded j b f
    | inr (f, p) ↦
        rw (active_holds-eq-zero j window now d.wallets d.transfers s.rows f, p) seed_ok.0
  ])

  balances-open_wallet :
      (j : Uuid) (b : ℤ)
      → balance? j (open_wallet seed t user d).wallets ≡ some b
      → (pos 0 ≤ℤ b) × InRange b
  balances-open_wallet j b e = elim (old_or_new j b e) [
    | inl f ↦ s.balances j b f
    | inr (f, p) ↦ rw p seed_ok
  ]

  pub IsSound-open_wallet : IsSound window now (open_wallet seed t user d)
  IsSound-open_wallet = record {
    funded = funded-open_wallet;
    balances = balances-open_wallet;
    rows = rw (transfers-open_wallet seed t user d) (
        All-IsWellFormed d.wallets (open_wallet seed t user d).wallets d.transfers still_has
          s.rows);
  }
