-- ===== src/Transfer/Steps.antt =====
-- The loops of a transaction of internal/service/transfer.go: the wallets that it opens, the locks
-- that it takes.
use wallet_service.Prelude.{
  ℤ, pos, ◌≤ℤ◌, ◌≡◌, sym, ◌∙◌, ◌⊎◌, Bool, true, false, some, List, [], ◌∷◌, arith, All, Text,
}
use wallet_service.Models.{Uuid, Time, Transfer, Db}
use wallet_service.Sql.{known}
use wallet_service.Sql.Effects.{open_wallet, open_wallets}
use wallet_service.Sql.Effects.Opened.{users-open_wallet}
use wallet_service.Sql.Tables.Balances.{balance?}
use wallet_service.Prog.{World, do_effect}
use wallet_service.Prog.Logic.{Runs, Runs-ret, Runs-bind, Runs-perform}
use wallet_service.Repository.InTx.{InTx, Failed}
use wallet_service.Repository.Methods.{
  present, wallet_exists-InTx, insert_wallet-InTx, lock_wallet-InTx,
}
use wallet_service.Transfer.{
  sort_ids, note_lost_race, create_absent, ensure_wallet, ensure_wallets, lock_wallets,
}

known-open_wallet :
    (seed : ℤ) (now : Time) (id j : Uuid) (d : Db) → known j (open_wallet seed now id d) ≡ known j d
known-open_wallet seed now id j d = rw (users-open_wallet seed now id d)

open_wallet-present :
    (seed : ℤ) (now : Time) (id : Uuid) (d : Db)
    → present id d ≡ true
    → open_wallet seed now id d ≡ d
unfolding open_wallet
open_wallet-present seed now id d h = ground arith

module _ (c : Db) (t : Time) (ts : List Transfer) (calm : Type 0) where
  note_lost_race-InTx :
      (id : Uuid) (b : Bool) (d : Db) (w : World)
      → InTx c t ts calm d w
      → Runs (note_lost_race id b) w (λ _ w'. InTx c t ts calm d w') (Failed c t ts calm)
  unfolding do_effect
  note_lost_race-InTx id true d w h = Runs-ret tt h
  note_lost_race-InTx id false d w h = Runs-perform _ _ _ (
      Runs-perform _ _ _ (
        Runs-ret tt
          (record { kept = h.kept; opened = h.opened; quiet = h.quiet; running = h.running })))

  create_absent-InTx :
      (seed : ℤ) (id : Uuid) (b : Bool) (d : Db) (w : World)
      → b ≡ present id d
      → (calm → (pos 0 ≤ℤ seed) × (known id d ≡ true))
      → InTx c t ts calm d w
      → Runs
          (create_absent seed id b)
          w
          (λ _ w'. InTx c t ts calm (open_wallet seed t id d) w')
          (Failed c t ts calm)
  create_absent-InTx seed id true d w e r h =
      Runs-ret tt (rw (open_wallet-present seed t id d (sym e)) h)
  create_absent-InTx seed id false d w e r h =
      Runs-bind _ _ w (insert_wallet-InTx c t ts calm id seed d w r h)
        (λ b w' h'. note_lost_race-InTx id b _ w' h')

  pub ensure_wallets-InTx :
      (seed : ℤ) (ids : List Uuid) (d : Db) (w : World)
      → (calm → (pos 0 ≤ℤ seed) × All (λ id. known id d ≡ true) ids)
      → InTx c t ts calm d w
      → Runs
          (ensure_wallets seed ids)
          w
          (λ _ w'. InTx c t ts calm (open_wallets seed t ids d) w')
          (Failed c t ts calm)
  unfolding ensure_wallets ensure_wallet open_wallets
  ensure_wallets-InTx seed [] d w r h = Runs-ret tt h
  ensure_wallets-InTx seed (id ∷ ids) d w r h =
      Runs-bind (ensure_wallet seed id) _ w
        (Runs-bind _ _ w (wallet_exists-InTx c t ts calm id d w h)
          (λ b w' (e, h'). create_absent-InTx seed id b d w' e (λ k. ((r k).0, (r k).1.0)) h'))
        (λ _ w' h'.
          ensure_wallets-InTx seed ids (open_wallet seed t id d) w'
            (λ k. ((r k).0, All-known ids ((r k).1.1))) h')
    where
      All-known :
          (js : List Uuid)
          → All (λ j. known j d ≡ true) js
          → All (λ j. known j (open_wallet seed t id d) ≡ true) js
      All-known [] a = tt
      All-known (j ∷ js) a = (known-open_wallet seed t id j d ∙ a.0, All-known js a.1)

  pub lock_wallets-InTx :
      (a b : Uuid) (x y : ℤ) (d : Db) (w : World)
      → balance? a d.wallets ≡ some x
      → balance? b d.wallets ≡ some y
      → InTx c t ts calm d w
      → Runs
          (lock_wallets (a ∷ b ∷ []) [])
          w
          (λ m w'. (m ≡ (b, y) ∷ (a, x) ∷ []) × InTx c t ts calm d w')
          (Failed c t ts calm)
  unfolding lock_wallets
  lock_wallets-InTx a b x y d w p q h =
      Runs-bind _ _ w (lock_wallet-InTx c t ts calm a x d w p h) (λ u w₁ (e, h₁).
        Runs-bind _ _ w₁ (lock_wallet-InTx c t ts calm b y d w₁ q h₁)
          (λ v w₂ (f, h₂). Runs-ret _ (cc, h₂)))

-- The two ids in one order or the other.
pub sort_ids-cases :
    (s : Uuid → Text) (a b : Uuid) → (sort_ids s a b ≡ a ∷ b ∷ []) ⊎ (sort_ids s a b ≡ b ∷ a ∷ [])
unfolding sort_ids
sort_ids-cases s a b = ground arith
