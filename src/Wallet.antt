-- ===== src/Wallet.antt =====
-- internal/service/wallet.go: WalletService.
use wallet_service.Prelude.{ℕ, ℤ, Bool, true, false}
use wallet_service.Errors.{sentinel, no_wallet, map_repo_not_found}
use wallet_service.Models.{Uuid}
use wallet_service.Observe.{Counter, Event}
use wallet_service.Prog.{Prog, ret, fail, Effect, act, Result, ok, err, attempt, ◌>>=◌, ◌>>◌}
use wallet_service.Repository.{get_or_create_wallet, get_wallet_balances}

pub record WalletService : Type 0 where
  pub seed_paise : ℤ
  pub claim_window : ℕ

abbrev pub note_race : Uuid → Bool → Prog Unit
note_race user_id false = ret tt
note_race user_id true = do
  act (Effect.inc Counter.get_or_create_race_lost)
  act (Effect.log (Event.get_or_create_race_lost user_id))

abbrev pub note_created : Uuid → ℤ → Bool → Prog Unit
note_created user_id seed_paise false = ret tt
note_created user_id seed_paise true = act (Effect.log (Event.wallet_created user_id seed_paise))

unfoldable pub get_or_create : WalletService → Uuid → Prog (ℤ × Bool)
get_or_create w user_id = do
  made ← get_or_create_wallet user_id w.seed_paise
  note_race user_id made.race_lost
  note_created user_id w.seed_paise made.created
  ret (made.balance, made.created)

abbrev pub mapped_no_wallet : Result (ℤ × ℤ) → Prog (ℤ × ℤ)
mapped_no_wallet (ok b) = ret b
mapped_no_wallet (err e) = fail (map_repo_not_found e (sentinel no_wallet))

unfoldable pub get_balance : WalletService → Uuid → Prog (ℤ × ℤ)
get_balance w user_id = do
  found ← attempt (get_wallet_balances user_id w.claim_window)
  mapped_no_wallet found
