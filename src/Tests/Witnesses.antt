-- ===== src/Tests/Witnesses.antt =====
-- The theorems at these states.
use wallet_service.Prelude.{
  List, All, Text, some, [], ◌∷◌, ◌≡◌, refl, pos, ◌+ℤ◌, text, true, none, arith,
}
use wallet_service.Errors.{
  sentinel, insufficient_funds, idempotency_conflict, not_found, claim_window_expired,
}
use wallet_service.Sql.Tables.{find_wallet, is_active, active_holds}
use wallet_service.Sql.Tables.Balances.{balance?}
use wallet_service.Prog.{Outcome, run}
use wallet_service.Prog.Logic.{Post}
use wallet_service.Transfer.Execute.{Executed, NotExecuted, stored}
use wallet_service.Transfer.Claim.{Claimed, NotClaimed}
use wallet_service.Transfer.Hash.{body_text, decimal, decimal_digits}
use wallet_service.Transfer.Hash.Injective.{IsByte, hash_body-injective}
use wallet_service.Transfer.{TransferResult, get_by_id}
use wallet_service.Transfer.ClaimBack.{ClaimResult}
use wallet_service.Guarantees.{IsStanding}
use wallet_service.Guarantees.Standing.{execute-IsStanding, claim_back-IsStanding}
use wallet_service.Guarantees.Execute.{call, execute-outcome}
use wallet_service.Guarantees.Execute
use wallet_service.Guarantees.Funds.{IsMoved, execute-moves, execute-overdraft}
use wallet_service.Guarantees.Retry.{execute-replays, execute-conflicts, execute-retry}
use wallet_service.Guarantees.Claim
use wallet_service.Guarantees.Claim.{claim, claim_back-outcome, IsReturned, claim_back-pays}
use wallet_service.Guarantees.Refused.{claim_back-hides, claim_back-expires}
use wallet_service.Guarantees.Reclaim.{claim_back-again}
use wallet_service.Guarantees.Status.{IsHonest, execute-IsHonest, claim_back-IsHonest}
use wallet_service.Observe.Ring.{new_ring, served}
use wallet_service.Observe.Ring.Latest.{write_all, IsShown, write_all-latest, served-latest}
use wallet_service.Guarantees.Lookup.{Shown, Hidden, get_by_id-outcome}
use wallet_service.Tests.Data.{
  svc, bob, empty, pay_bob, pay_bob_more, pay_bob_all, paid_bob, paid, past,
}
use wallet_service.Tests.Runs.{first, first_result, claim_result, claimed_back}
use wallet_service.Tests.Examples.{
  seed_ok, empty-IsStanding, empty-IsQuiet, paid-IsStanding, paid-IsQuiet, past-IsStanding,
  past-IsQuiet, pay_bob-IsProper, again-IsProper, more-IsProper, all-IsProper, later,
  later-IsStanding, later-IsQuiet, later-IsProper, bob_did_not_send, other_hash, recipient_room,
  all_room, key_new, sender_room, still_open, reclaimed, reclaimed-IsStanding, reclaimed-IsQuiet,
  paid_found, paid_key,
}

execute-IsStanding_example : IsStanding svc (call svc pay_bob empty).1
execute-IsStanding_example =
    execute-IsStanding svc seed_ok pay_bob (omega arith) empty empty-IsStanding

claim_back-IsStanding_example : IsStanding svc (claim svc 1 7 paid).1
claim_back-IsStanding_example = claim_back-IsStanding svc 1 7 paid paid-IsStanding

execute-replays_example :
    ((call svc pay_bob paid).0 ≡ Outcome.ok (stored svc pay_bob paid_bob))
    × ((call svc pay_bob paid).1.db ≡ paid.db)
execute-replays_example =
    execute-replays svc pay_bob bob paid seed_ok paid-IsStanding paid-IsQuiet again-IsProper
      paid_bob paid_key refl

execute-retry_example :
    ((call svc pay_bob later).0 ≡ Outcome.ok (record first_result { replayed = true }))
    × ((call svc pay_bob later).1.db ≡ later.db)
execute-retry_example =
    execute-retry svc pay_bob bob empty later first_result seed_ok refl first.0 later-IsStanding
      later-IsQuiet later-IsProper refl

claim_back-again_example :
    ((claim svc 1 7 reclaimed).0 ≡ Outcome.ok (record claim_result { replayed = true }))
    × ((claim svc 1 7 reclaimed).1.db ≡ reclaimed.db)
claim_back-again_example =
    claim_back-again svc 1 7 paid reclaimed claim_result paid-IsStanding claimed_back.0
      reclaimed-IsStanding reclaimed-IsQuiet refl

claim_back-hides_example :
    ((claim svc 2 7 paid).0 ≡ Outcome.err (sentinel not_found))
    × ((claim svc 2 7 paid).1.db ≡ paid.db)
claim_back-hides_example =
    claim_back-hides svc 2 7 paid paid-IsStanding paid-IsQuiet bob_did_not_send

claim_back-expires_example :
    ((claim svc 1 7 past).0 ≡ Outcome.err (sentinel claim_window_expired))
    × ((claim svc 1 7 past).1.db ≡ past.db)
unfolding is_active
claim_back-expires_example =
    claim_back-expires svc 1 7 past past-IsStanding past-IsQuiet paid_bob paid_found refl refl refl

get_by_id-outcome_example :
    Post (Shown svc 2 7 paid Unit) (Hidden svc 2 7 paid Unit) (run (get_by_id svc 2 7) paid)
get_by_id-outcome_example = get_by_id-outcome svc 2 7 paid Unit refl (λ _. paid-IsQuiet)

a_bar_IsBytes : All IsByte (body_text (text "a|1") (pos 5))
unfolding body_text decimal decimal_digits
a_bar_IsBytes = (omega arith, (omega arith, (omega arith, (omega arith, (omega arith, tt)))))

hash_body-injective_example : (text "a|1" ≡ text "a|1") × (pos 5 ≡ pos 5)
hash_body-injective_example =
    hash_body-injective (λ s. s) (text "a|1") (text "a|1") (pos 5) (pos 5) (omega arith)
      (omega arith) a_bar_IsBytes a_bar_IsBytes (λ e. e) refl

execute-outcome_example :
    Post
      (λ r w'. Executed svc pay_bob empty.db 0 r w' × (w'.tx ≡ none))
      (λ e w'. NotExecuted svc pay_bob empty.db 0 Unit e w' × (w'.tx ≡ none))
      (call svc pay_bob empty)
execute-outcome_example =
    execute-outcome svc pay_bob empty Unit refl (λ _. empty-IsQuiet)
      (λ _.
        Execute.feasible svc pay_bob bob empty seed_ok empty-IsStanding empty-IsQuiet
          pay_bob-IsProper recipient_room)

execute-moves_example :
    (r : TransferResult) × ((call svc pay_bob empty).0 ≡ Outcome.ok r)
    × IsMoved svc pay_bob bob empty seed_ok empty-IsStanding empty-IsQuiet pay_bob-IsProper r
        (call svc pay_bob empty).1
unfolding balance? find_wallet active_holds ◌+ℤ◌
execute-moves_example =
    execute-moves svc pay_bob bob empty seed_ok empty-IsStanding empty-IsQuiet pay_bob-IsProper
      (key_new (text "k")) (omega arith) (omega arith)

execute-overdraft_example :
    ((call svc pay_bob_all empty).0 ≡ Outcome.err (sentinel insufficient_funds))
    × ((call svc pay_bob_all empty).1.db ≡ empty.db)
unfolding balance? find_wallet active_holds ◌+ℤ◌
execute-overdraft_example =
    execute-overdraft svc pay_bob_all bob empty seed_ok empty-IsStanding empty-IsQuiet all-IsProper
      (key_new (text "j")) (omega arith) (omega arith)

claim_back-outcome_example :
    Post
      (λ r w'. Claimed svc 1 7 paid.db 20 r w' × (w'.tx ≡ none))
      (λ e w'. NotClaimed svc 1 7 paid.db 20 Unit e w' × (w'.tx ≡ none))
      (claim svc 1 7 paid)
claim_back-outcome_example =
    claim_back-outcome svc 1 7 paid Unit paid-IsStanding (λ _. paid-IsQuiet)
      (λ _.
        Claim.feasible svc 1 7 paid paid-IsStanding paid-IsQuiet paid_bob paid_found sender_room)

claim_back-pays_example :
    (r : ClaimResult) × ((claim svc 1 7 paid).0 ≡ Outcome.ok r)
    × IsReturned svc 1 7 paid paid-IsStanding paid-IsQuiet paid_bob paid_found sender_room r
        (claim svc 1 7 paid).1
claim_back-pays_example =
    claim_back-pays svc 1 7 paid paid-IsStanding paid-IsQuiet paid_bob paid_found sender_room refl
      refl still_open

execute-conflicts_example :
    ((call svc pay_bob_more paid).0 ≡ Outcome.err (sentinel idempotency_conflict))
    × ((call svc pay_bob_more paid).1.db ≡ paid.db)
execute-conflicts_example =
    execute-conflicts svc pay_bob_more bob paid seed_ok paid-IsStanding paid-IsQuiet more-IsProper
      paid_bob paid_key other_hash

execute-IsHonest_example :
    IsHonest Unit empty.db (sentinel insufficient_funds) (call svc pay_bob_all empty).1
unfolding balance? find_wallet active_holds ◌+ℤ◌
execute-IsHonest_example =
    execute-IsHonest svc pay_bob_all empty Unit refl (λ _. empty-IsQuiet)
      (λ _.
        Execute.feasible svc pay_bob_all bob empty seed_ok empty-IsStanding empty-IsQuiet
          all-IsProper all_room)
      (sentinel insufficient_funds)
      (execute-overdraft svc pay_bob_all bob empty seed_ok empty-IsStanding empty-IsQuiet
        all-IsProper (key_new (text "j")) (omega arith) (omega arith)).0

claim_back-IsHonest_example : IsHonest Unit paid.db (sentinel not_found) (claim svc 2 7 paid).1
claim_back-IsHonest_example =
    claim_back-IsHonest svc 2 7 paid Unit paid-IsStanding (λ _. paid-IsQuiet)
      (λ _.
        Claim.feasible svc 2 7 paid paid-IsStanding paid-IsQuiet paid_bob paid_found sender_room)
      (sentinel not_found)
      (claim_back-hides svc 2 7 paid paid-IsStanding paid-IsQuiet bob_did_not_send).0

write_all-latest_example :
    (write_all (text "a\nb\n" ∷ text "c\n" ∷ []) (new_ring 2)).lines ≡ text "b" ∷ text "c" ∷ []
write_all-latest_example = write_all-latest 2 (text "a\nb\n" ∷ text "c\n" ∷ [])

served-latest_example :
    (ys : List Text) × (served
        (some (pos 3))
        (write_all (text "a\nb\n" ∷ text "c\n" ∷ []) (new_ring 2))
      ≡ some ys)
    × IsShown (some (pos 3)) (text "b" ∷ text "c" ∷ []) ys
served-latest_example = served-latest 2 (some (pos 3)) (text "a\nb\n" ∷ text "c\n" ∷ [])
