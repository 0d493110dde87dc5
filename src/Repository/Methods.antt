-- ===== src/Repository/Methods.antt =====
-- The Tx methods inside an open transaction: what each returns and what it does to the tables, and
-- that it can only fail with the driver's error.
use wallet_service.Prelude.{
  ℕ, ℤ, pos, ◌≤ℤ◌, ◌<ℤ◌, InRange, in_range, ◌≡◌, refl, inl, inr, Bool, true, false, Option, none,
  some, List, arith, Bool-cases,
}
use wallet_service.Errors.{DbError, unavailable, out_of_range, database}
use wallet_service.Models.{Uuid, Time, Transfer, Draft, Db}
use wallet_service.Sql.{
  Answer, row, no_rows, rejected, balance_of, known, recorded, run_query, run_insert_wallet,
  run_insert_transfer, run_update_balance,
}
use wallet_service.Sql
use wallet_service.Sql.Tables.{find_wallet, find_transfer, find_key, is_active, active_holds}
use wallet_service.Sql.Answers.{
  run_insert_wallet-cases, run_update_balance-cases, run_insert_transfer-cases,
  run_update_reversed-cases,
}
use wallet_service.Sql.Effects.{open_wallet, add_transfer, put_balance, mark}
use wallet_service.Sql.Tables.Balances.{balance?}
use wallet_service.Prog.{World}
use wallet_service.Prog.Logic.{Runs, Runs-ret, Runs-fail}
use wallet_service.Repository.{
  wallet_exists, insert_wallet, lock_wallet, sum_active_holds, insert_transfer, mark_reversed,
  update_wallet_balance,
}
use wallet_service.Repository.InTx.{InTx, Failed, Runs-query}

abbrev pub present : Uuid → Db → Bool
present id d = elim (find_wallet id d.wallets) [ none ↦ false | some _ ↦ true ]

balance_of-eq :
    (id : Uuid) (b : ℤ) (d : Db) → balance? id d.wallets ≡ some b → balance_of id d ≡ row b
unfolding balance?
balance_of-eq id b d e = ground arith

in_range-false : (z : ℤ) → in_range z ≡ false → InRange z → ⊥
in_range-false z e h = ground arith

module _ (c : Db) (t : Time) (ts : List Transfer) (calm : Type 0) where
  pub failed : {w : World} (e : DbError) → w.db ≡ c → ¬ calm → Failed c t ts calm (database e) w
  failed e h n = record { kept = h; cause = e; error = refl; disturbed = n }

  pub wallet_exists-InTx :
      (id : Uuid) (d : Db) (w : World)
      → InTx c t ts calm d w
      → Runs
          (wallet_exists id)
          w
          (λ b w'. (b ≡ present id d) × InTx c t ts calm d w')
          (Failed c t ts calm)
  unfolding wallet_exists run_query
  wallet_exists-InTx id d w h =
      Runs-query c t ts calm (Sql.select_wallet_exists id) _ d w h
        (λ w' u f h'. Runs-ret _ (refl, h')) (λ w' k n. Runs-fail _ (failed unavailable k n))

  pub lock_wallet-InTx :
      (id : Uuid) (b : ℤ) (d : Db) (w : World)
      → balance? id d.wallets ≡ some b
      → InTx c t ts calm d w
      → Runs (lock_wallet id) w (λ v w'. (v ≡ b) × InTx c t ts calm d w') (Failed c t ts calm)
  unfolding lock_wallet run_query
  lock_wallet-InTx id b d w e h =
      Runs-query c t ts calm (Sql.select_balance_for_update id) _ d w h
        (λ w' u f h'. rw (balance_of-eq id b d e) (Runs-ret b (refl, h')))
        (λ w' k n. Runs-fail _ (failed unavailable k n))

  pub sum_active_holds-InTx :
      (id : Uuid) (window : ℕ) (d : Db) (w : World)
      → (calm → InRange (active_holds id window t d.transfers))
      → InTx c t ts calm d w
      → Runs
          (sum_active_holds id window)
          w
          (λ v w'. (v ≡ active_holds id window t d.transfers) × InTx c t ts calm d w')
          (Failed c t ts calm)
  unfolding sum_active_holds run_query
  sum_active_holds-InTx id window d w r h =
      Runs-query c t ts calm (Sql.select_active_holds id window) _ d w h
        (λ w' u f h'. elim (Bool-cases (in_range (active_holds id window t d.transfers))) [
          | inl fits ↦ rw fits (Runs-ret _ (refl, h'))
          | inr over ↦
              rw over (Runs-fail _ (failed out_of_range h'.kept (λ k. in_range-false _ over (r k))))
        ])
        (λ w' k n. Runs-fail _ (failed unavailable k n))

  pub insert_wallet-InTx :
      (id : Uuid) (seed : ℤ) (d : Db) (w : World)
      → (calm → (pos 0 ≤ℤ seed) × (known id d ≡ true))
      → InTx c t ts calm d w
      → Runs
          (insert_wallet id seed)
          w
          (λ b w'. InTx c t ts calm (open_wallet seed t id d) w')
          (Failed c t ts calm)
  unfolding insert_wallet run_query
  insert_wallet-InTx id seed d w r h =
      Runs-query c t ts calm (Sql.insert_wallet id seed) _ d w h
        (λ w' u f h'. elim (run_insert_wallet-cases id seed t d) [
          | inl (n, p) ↦ rw p (Runs-ret _ (rw p at h'))
          | inr (e, p, no_fit) ↦ rw p (Runs-fail _ (failed e h'.kept (λ k. no_fit (r k))))
        ])
        (λ w' k n. Runs-fail _ (failed unavailable k n))

  pub update_wallet_balance-InTx :
      (id : Uuid) (b old : ℤ) (d : Db) (w : World)
      → balance? id d.wallets ≡ some old
      → (calm → pos 0 ≤ℤ b)
      → InTx c t ts calm d w
      → Runs
          (update_wallet_balance id b)
          w
          (λ _ w'. (pos 0 ≤ℤ b) × InTx c t ts calm (put_balance id b t d) w')
          (Failed c t ts calm)
  unfolding update_wallet_balance run_query
  update_wallet_balance-InTx id b old d w e r h =
      Runs-query c t ts calm (Sql.update_balance id b) _ d w h
        (λ w' u f h'. elim (run_update_balance-cases id b t d e) [
          | inl (p, fits) ↦ rw p (Runs-ret _ (fits, rw p at h'))
          | inr (x, p, no_fit) ↦ rw p (Runs-fail _ (failed x h'.kept (λ k. no_fit (r k))))
        ])
        (λ w' k n. Runs-fail _ (failed unavailable k n))

  -- The key is taken and nothing changes, or the row is added under a new id.
  abbrev pub Inserted : Draft → Db → Option Uuid → World → Type 0
  Inserted tr d none w =
      ((old : Transfer) × (find_key tr.sender_id tr.idempotency_key d.transfers ≡ some old))
      × InTx c t ts calm d w
  Inserted tr d (some id) w =
      (find_key tr.sender_id tr.idempotency_key d.transfers ≡ none)
      × (find_transfer id d.transfers ≡ none)
      × (pos 0 <ℤ tr.amount_paise)
      × InTx c t ts calm (add_transfer tr t id d) w

  pub insert_transfer-InTx :
      (tr : Draft) (d : Db) (w : World)
      → d.transfers ≡ ts
      → (calm
          → (pos 0 <ℤ tr.amount_paise)
            × (known tr.sender_id d ≡ true)
            × (known tr.recipient_id d ≡ true))
      → InTx c t ts calm d w
      → Runs (insert_transfer tr) w (Inserted tr d) (Failed c t ts calm)
  unfolding insert_transfer run_query
  insert_transfer-InTx tr d w same r h =
      Runs-query c t ts calm (Sql.insert_transfer tr) _ d w h
        (λ w' u fresh h'. elim (run_insert_transfer-cases tr t u d) [
          | inl (old, e, p) ↦ rw p (Runs-ret _ ((old, e), rw p at h'))
          | inr (inl (e, f, a, p)) ↦ rw p (Runs-ret _ (e, f, a, rw p at h'))
          | inr (inr (x, p, no_fit)) ↦ rw p (
              Runs-fail _
                (failed x h'.kept (λ k. no_fit ((r k).0, rw same (fresh k), (r k).1, (r k).2))))
        ])
        (λ w' k n. Runs-fail _ (failed unavailable k n))

  -- The transfer is active and is reversed, or it is not and nothing changes.
  abbrev pub Marked : Uuid → ℕ → ℤ → Transfer → Db → Option Time → World → Type 0
  Marked id window after tr d none w = (is_active window t tr ≡ false) × InTx c t ts calm d w
  Marked id window after tr d (some at) w =
      (at ≡ t) × (is_active window t tr ≡ true) × InTx c t ts calm (mark id t after d) w

  pub mark_reversed-InTx :
      (id : Uuid) (window : ℕ) (after : ℤ) (tr : Transfer) (d : Db) (w : World)
      → find_transfer id d.transfers ≡ some tr
      → InTx c t ts calm d w
      → Runs (mark_reversed id window after) w (Marked id window after tr d) (Failed c t ts calm)
  unfolding mark_reversed run_query
  mark_reversed-InTx id window after tr d w e h =
      Runs-query c t ts calm (Sql.update_reversed id window after) _ d w h
        (λ w' u f h'. elim (Bool-cases (is_active window t tr)) [
          | inl a ↦
              let p = rw (a) at (run_update_reversed-cases id window after t d e) in
              rw p (Runs-ret _ (refl, a, rw p at h'))
          | inr a ↦
              let p = rw (a) at (run_update_reversed-cases id window after t d e) in
              rw p (Runs-ret _ (a, rw p at h'))
        ])
        (λ w' k n. Runs-fail _ (failed unavailable k n))
