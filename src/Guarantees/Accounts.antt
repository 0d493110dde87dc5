-- ===== src/Guarantees/Accounts.antt =====
-- Opening a wallet keeps the ledger, and what `GetBalance` shows of it.
use wallet_service.Prelude.{
  ℤ, pos, ◌≤ℤ◌, ◌≤◌, ◌≡◌, refl, sym, subst, inl, inr, Bool, true, none, Option-cases, arith,
}
use wallet_service.Errors.{Error}
use wallet_service.Models.{Uuid, Time, Db}
use wallet_service.Sql.{known}
use wallet_service.Sql.Tables.{find_wallet}
use wallet_service.Sql.Effects.{open_wallet}
use wallet_service.Prog.{World, run}
use wallet_service.Prog.Clock.{clock-run}
use wallet_service.Prog.Logic.{Runs, Runs-state, Post}
use wallet_service.Repository.Idle.{Idle}
use wallet_service.Transfer.{TransferService}
use wallet_service.Ledger.{IsSound, IsSound-later}
use wallet_service.Ledger.Opened.{IsSound-open_wallet}
use wallet_service.Ledger.Conserved.{IsConserved, IsConserved-open_wallet}
use wallet_service.Wallet.{WalletService, get_or_create}
use wallet_service.Guarantees.{HasSeed, IsStanding, IsQuiet}
use wallet_service.Guarantees.Standing.{kept-IsStanding, start-Idle}
use wallet_service.Guarantees.Wallet
use wallet_service.Guarantees.Wallet.{Got, NotGot, existing-Runs, absent-Runs, Ended, Stopped}

pub get_or_create-Runs :
    (svc : WalletService) (user : Uuid) (c : Db) (from : Time) (calm : Type 0)
    → (calm → (pos 0 ≤ℤ svc.seed_paise) × (known user c ≡ true))
    → (w : World) → Idle c from calm w
    → Runs (get_or_create svc user) w (Ended svc user c from calm) (Stopped svc user c from calm)
get_or_create-Runs svc user c from calm able w h =
    elim (Option-cases (find_wallet user c.wallets)) [
      | inl e ↦ absent-Runs svc user c from calm able e w h
      | inr (x, e) ↦ existing-Runs svc user c from calm w x e h
    ]

-- With no transaction open, `GetOrCreate` gives the balance of the wallet that is there, with
-- created=false and nothing changed, or opens one with the seed, gives the seed, and created=true.
-- It ends in an error only where `calm` does not hold, which is any condition under which no
-- statement fails, the user exists and the seed is not negative; then nothing has changed or the
-- new wallet is there.
pub get_or_create-outcome :
    (svc : WalletService) (user : Uuid) (w : World) (calm : Type 0)
    → w.tx ≡ none
    → (calm → IsQuiet w)
    → (calm → (pos 0 ≤ℤ svc.seed_paise) × (known user w.db ≡ true))
    → Post
        (λ r w'. Got svc user w.db w.clock calm r w' × (w'.tx ≡ none))
        (λ e w'. NotGot svc user w.db w.clock calm e w' × (w'.tx ≡ none))
        (run (get_or_create svc user) w)
get_or_create-outcome svc user w calm closed quiet able =
    (get_or_create-Runs svc user w.db w.clock calm able w
      (record { kept = refl; closed = closed; quiet = quiet; since = omega arith })).post

-- A WalletService with the seed and the window of a TransferService, as app.go makes them.
abbrev pub beside : TransferService → WalletService
beside svc = record { seed_paise = svc.seed_paise; claim_window = svc.claim_window }

module _ (svc : TransferService) (seed_ok : HasSeed svc) (user : Uuid) (w : World)
    (h : IsStanding svc w) where
  pub opened-IsStanding :
      (t : Time) (w' : World)
      → w.clock ≤ w'.clock
      → w'.tx ≡ none
      → w'.db ≡ open_wallet svc.seed_paise t user w.db
      → IsStanding svc w'
  opened-IsStanding t w' le c e = record {
    closed = c;
    sound = subst (IsSound svc.claim_window w'.clock) (sym e) (
        IsSound-open_wallet svc.seed_paise seed_ok user svc.claim_window w'.clock t w.db
          (IsSound-later h.sound w'.clock le));
    conserved =
        subst (IsConserved svc.seed_paise) (sym e)
          (IsConserved-open_wallet svc.seed_paise t user w.db h.conserved);
  }

  -- On a standing ledger, whatever the driver does at each statement, and whenever, `GetOrCreate`
  -- leaves the ledger standing, with the seed and the window that the transfers use. The seed is
  -- an int64 that is not negative.
  pub get_or_create-IsStanding : IsStanding svc (run (get_or_create (beside svc) user) w).1
  get_or_create-IsStanding =
      Runs-state
        (get_or_create-Runs (beside svc) user w.db w.clock ⊥ (λ q. absurd q) w
          (start-Idle w h.closed))
        (λ w'. w.clock ≤ w'.clock → IsStanding svc w') (λ r w' (x, c) le. ended r w' x c le)
        (λ e w' (x, c) le. stopped e w' x c le) (clock-run (get_or_create (beside svc) user) w)
    where
      ended :
          (r : ℤ × Bool) (w' : World)
          → Got (beside svc) user w.db w.clock ⊥ r w'
          → w'.tx ≡ none
          → w.clock ≤ w'.clock
          → IsStanding svc w'
      ended r w' (Wallet.existing b f e) c le = kept-IsStanding svc w w' h le e c
      ended r w' (Wallet.opened t n p from until e) c le = opened-IsStanding t w' le c e

      stopped :
          (x : Error) (w' : World)
          → NotGot (beside svc) user w.db w.clock ⊥ x w'
          → w'.tx ≡ none
          → w.clock ≤ w'.clock
          → IsStanding svc w'
      stopped x w' (Wallet.unchanged s n e) c le = kept-IsStanding svc w w' h le e c
      stopped x w' (Wallet.opened_unknown t s n from until e) c le = opened-IsStanding t w' le c e
