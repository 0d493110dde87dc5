-- ===== src/Guarantees/Lookup.antt =====
-- `GetByID`: what a caller may read.
use wallet_service.Prelude.{
  ◌≡◌, refl, sym, ◌∙◌, ap, false, not, ◌&&◌, none, some, ◌⊎◌, inl, inr, arith, Option-cases,
  Bool-cases, eq_of_test, ne_of_test, ◌==◌, if◌then◌else◌,
}
use mathlib.Core.Option.{some-injective}
use wallet_service.Errors.{Error, sentinel, not_found, map_repo_not_found}
use wallet_service.Models.{Uuid, Transfer}
use wallet_service.Sql
use wallet_service.Sql.{from_option, run_query}
use wallet_service.Sql.Tables.{find_transfer}
use wallet_service.Prog.{World, run, ret, fail}
use wallet_service.Prog.Logic.{Runs, Runs-ret, Runs-fail, Post}
use wallet_service.Repository.{get_transfer_by_id}
use wallet_service.Repository.Idle.{Runs-read}
use wallet_service.Transfer.{TransferService, get_by_id}
use wallet_service.Transfer.Execute.{IsStorage}
use wallet_service.Guarantees.{IsQuiet}

module _ (svc : TransferService) (caller transfer_id : Uuid) (w : World) (calm : Type 0) where
  -- The caller is a party to the transfer.
  abbrev pub IsParty : Transfer → Type 0
  IsParty tr = (tr.sender_id ≡ caller) ⊎ (tr.recipient_id ≡ caller)

  pub record Shown (tr : Transfer) (w' : World) : Type 0 where
    pub found : find_transfer transfer_id w.db.transfers ≡ some tr
    pub party : IsParty tr
    pub kept : w'.db ≡ w.db

  pub data Hidden (e : Error) (w' : World) : Type 0 where
    no_party :
        e ≡ sentinel not_found
        → ((tr : Transfer) → find_transfer transfer_id w.db.transfers ≡ some tr → ¬ IsParty tr)
        → w'.db ≡ w.db
        → Hidden e w'
    storage : IsStorage e → ¬ calm → w'.db ≡ w.db → Hidden e w'

  Shown-Runs :
      (tr : Transfer) (w' : World)
      → find_transfer transfer_id w.db.transfers ≡ some tr
      → w'.db ≡ w.db
      → Runs
          (if not (tr.sender_id == caller) && not (tr.recipient_id == caller)
            then fail (sentinel not_found)
            else ret tr)
          w'
          Shown
          Hidden
  Shown-Runs tr w' found kept = elim (Bool-cases (tr.sender_id == caller)) [
    | inl mine ↦
        rw mine
          (Runs-ret _ (record { found = found; party = inl (eq_of_test _ _ mine); kept = kept }))
    | inr other ↦ elim (Bool-cases (tr.recipient_id == caller)) [
      | inl mine ↦
          rw (other, mine)
            (Runs-ret _ (record { found = found; party = inr (eq_of_test _ _ mine); kept = kept }))
      | inr neither ↦
          rw (other, neither) (Runs-fail _ (no_party refl (λ x f. stranger x f other neither) kept))
    ]
  ]
    where
      stranger :
          (x : Transfer)
          → find_transfer transfer_id w.db.transfers ≡ some x
          → (tr.sender_id == caller) ≡ false
          → (tr.recipient_id == caller) ≡ false
          → ¬ IsParty x
      stranger x f p q (inl m) =
          ne_of_test _ _ p (sym (ap (λ t. t.sender_id) (some-injective tr x (sym found ∙ f)) ∙ m))
      stranger x f p q (inr m) =
          ne_of_test _ _ q
            (sym (ap (λ t. t.recipient_id) (some-injective tr x (sym found ∙ f)) ∙ m))

  -- With no transaction open, `GetByID` gives the transfer with the id to its sender and to its
  -- recipient. Anybody else gets not found, as for an id that does not exist. Another error is the
  -- storage's, and `calm`, any condition under which no statement fails, excludes it. No table
  -- changes.
  pub get_by_id-outcome :
      w.tx ≡ none
      → (calm → IsQuiet w)
      → Post Shown Hidden (run (get_by_id svc caller transfer_id) w)
  unfolding get_by_id get_transfer_by_id run_query map_repo_not_found
  get_by_id-outcome closed quiet =
      (Runs-read w.db w.clock calm (Sql.select_transfer_by_id transfer_id)
        (from_option (find_transfer transfer_id w.db.transfers)) _ w (λ now u. refl)
        (record { kept = refl; closed = closed; quiet = quiet; since = omega arith })
        (λ w₁ h₁. elim (Option-cases (find_transfer transfer_id w.db.transfers)) [
          | inl e ↦ rw e (Runs-fail _ (no_party refl (λ tr f. absurd (cc (e, f))) h₁.kept))
          | inr (tr, f) ↦ rw f (Shown-Runs tr w₁ f h₁.kept)
        ])
        (λ w₁ h₁ n. Runs-fail _ (storage tt n h₁.kept))).post
