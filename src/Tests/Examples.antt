-- ===== src/Tests/Examples.antt =====
-- The states are standing, and what the theorems say of them.
use wallet_service.Prelude.{
  ◌+◌, pos, ◌≤ℤ◌, ◌<ℤ◌, Text, text, text_eq, ◌+ℤ◌, ◌≡◌, ◌≢◌, refl, sym, ◌∙◌, subst, wrap64, ◌^◌,
  true, none, some, arith,
}
use mathlib.Core.Option.{some-injective}
use wallet_service.Models.{Transfer}
use wallet_service.Transfer.Transaction.{recipient_after}
use wallet_service.Transfer.Hash.{hash_body, body_text, decimal, decimal_digits, encode_hex}
use wallet_service.Transfer.Execute.{order, call_hash}
use wallet_service.Transfer.Claim.{balance_or_zero}
use wallet_service.Sql.{known}
use wallet_service.Sql.Tables.{
  find_user, find_username, find_key, find_wallet, find_transfer, active_holds, is_active,
}
use wallet_service.Sql.Tables.Balances.{balance?, total}
use wallet_service.Prog.{World, smooth}
use wallet_service.Ledger.{IsSound, IsSound-later}
use wallet_service.Guarantees.{HasSeed, IsStanding, IsQuiet, IsProper}
use wallet_service.Guarantees.Standing.{execute-IsStanding, claim_back-IsStanding}
use wallet_service.Guarantees.Execute.{call}
use wallet_service.Guarantees.Claim.{claim}
use wallet_service.Tests.Runs.{first, claimed_back}
use wallet_service.Tests.Data.{
  svc, bob, empty, pay_bob, pay_bob_more, pay_bob_all, paid_bob, paid, past,
}

pub seed_ok : HasSeed svc
seed_ok = omega arith

pub empty-IsStanding : IsStanding svc empty
unfolding balance? find_wallet total
empty-IsStanding = record {
  closed = refl;
  sound = record { funded = λ id b e. cc; balances = λ id b e. cc; rows = tt };
  conserved = refl;
}

pub empty-IsQuiet : IsQuiet empty
unfolding find_transfer
empty-IsQuiet n = (refl, refl)

paid-IsSound : IsSound 100 20 paid.db
unfolding balance? find_wallet active_holds is_active ◌+ℤ◌
paid-IsSound = record {
  funded = λ id b e. ground arith;
  balances = λ id b e. ground arith;
  rows = (
    record {
      positive = omega arith;
      distinct = ground arith;
      sender_wallet = cc;
      recipient_wallet = cc;
      reversal_time = λ e. cc;
      reversal_balance = λ e. cc;
    },
    tt,
  );
}

pub paid-IsQuiet : IsQuiet paid
unfolding find_transfer
paid-IsQuiet n = (refl, ground arith)

pub pay_bob-IsProper : IsProper pay_bob bob empty.db
unfolding find_user find_username text_eq
pay_bob-IsProper = record {
  sender_known = refl;
  found = refl;
  distinct = ground arith;
  positive = omega arith;
  fits = omega arith;
  key_given = omega arith;
  key_short = omega arith;
}

pub paid-IsStanding : IsStanding svc paid
unfolding balance? find_wallet total ◌+ℤ◌
paid-IsStanding = record { closed = refl; sound = paid-IsSound; conserved = refl }

pub past-IsStanding : IsStanding svc past
past-IsStanding = record {
  closed = refl;
  sound = IsSound-later paid-IsSound 500 (omega arith);
  conserved = paid-IsStanding.conserved;
}

pub past-IsQuiet : IsQuiet past
past-IsQuiet = paid-IsQuiet

-- The same call, a different one under the same key, and one for more than there is.
pub again-IsProper : IsProper pay_bob bob paid.db
unfolding find_user find_username text_eq
again-IsProper = record {
  sender_known = refl;
  found = refl;
  distinct = ground arith;
  positive = omega arith;
  fits = omega arith;
  key_given = omega arith;
  key_short = omega arith;
}

pub more-IsProper : IsProper pay_bob_more bob paid.db
unfolding find_user find_username text_eq
more-IsProper = record {
  sender_known = refl;
  found = refl;
  distinct = ground arith;
  positive = omega arith;
  fits = omega arith;
  key_given = omega arith;
  key_short = omega arith;
}

pub all-IsProper : IsProper pay_bob_all bob empty.db
unfolding find_user find_username text_eq
all-IsProper = record {
  sender_known = refl;
  found = refl;
  distinct = ground arith;
  positive = omega arith;
  fits = omega arith;
  key_given = omega arith;
  key_short = omega arith;
}

-- Alice has paid Bob, seen later, with ids that are new again.
abbrev pub later : World
later = record (call svc pay_bob empty).1 {
  nature = λ n. record { fault = smooth; elapsed = 1; uuid = n + 1000 };
}

pub later-IsStanding : IsStanding svc later
later-IsStanding =
    let h = execute-IsStanding svc seed_ok pay_bob (omega arith) empty empty-IsStanding in
    record { closed = h.closed; sound = h.sound; conserved = h.conserved }

pub later-IsQuiet : IsQuiet later
unfolding find_transfer
later-IsQuiet n = (refl, rw first.2 (ground arith))

pub later-IsProper : IsProper pay_bob bob later.db
unfolding find_user find_username text_eq
later-IsProper = record {
  sender_known = rw (first.1, known) refl;
  found = rw first.1 refl;
  distinct = ground arith;
  positive = omega arith;
  fits = omega arith;
  key_given = omega arith;
  key_short = omega arith;
}

-- Alice has claimed the payment back, seen later.
abbrev pub reclaimed : World
reclaimed = record (claim svc 1 7 paid).1 {
  nature = λ n. record { fault = smooth; elapsed = 1; uuid = n + 1000 };
}

pub reclaimed-IsStanding : IsStanding svc reclaimed
reclaimed-IsStanding =
    let h = claim_back-IsStanding svc 1 7 paid paid-IsStanding in
    record { closed = h.closed; sound = h.sound; conserved = h.conserved }

pub reclaimed-IsQuiet : IsQuiet reclaimed
reclaimed-IsQuiet n = (refl, claimed_back.1 n)

pub paid_found : find_transfer 7 paid.db.transfers ≡ some paid_bob
unfolding find_transfer
paid_found = refl

pub paid_key : find_key 1 (text "k") paid.db.transfers ≡ some paid_bob
unfolding find_key text_eq
paid_key = refl

pub bob_did_not_send :
    (tr : Transfer) → find_transfer 7 paid.db.transfers ≡ some tr → tr.sender_id ≢ 2
bob_did_not_send tr e =
    subst (λ x. x.sender_id ≢ 2) (some-injective paid_bob tr (sym paid_found ∙ e)) (ground arith)

pub recipient_room :
    find_key 1 (text "k") empty.db.transfers ≡ none
    → pos 0 ≤ℤ recipient_after svc (order svc pay_bob bob) empty.db
unfolding balance? find_wallet wrap64 ◌+ℤ◌
recipient_room e = omega arith

pub all_room :
    find_key 1 (text "j") empty.db.transfers ≡ none
    → pos 0 ≤ℤ recipient_after svc (order svc pay_bob_all bob) empty.db
unfolding balance? find_wallet wrap64 ◌+ℤ◌
all_room e = omega arith

pub key_new : (key : Text) → find_key 1 key empty.db.transfers ≡ none
unfolding find_key
key_new key = refl

pub sender_room : balance_or_zero 1 paid.db +ℤ pos 100 <ℤ pos (2 ^ 63)
unfolding balance? find_wallet ◌+ℤ◌
sender_room = omega arith

pub still_open : is_active 100 (claim svc 1 7 paid).1.clock paid_bob ≡ true
unfolding is_active
still_open = rw claimed_back.2 refl

pub other_hash : paid_bob.body_hash ≢ call_hash svc pay_bob_more
unfolding hash_body body_text decimal decimal_digits encode_hex
other_hash = λ e. cc
