-- ===== src/Tests/Data.antt =====
-- A service and two states of its database.
use wallet_service.Prelude.{ℕ, ◌+◌, pos, text, none, [], ◌∷◌}
use wallet_service.Models.{User, Wallet, Transfer, completed}
use wallet_service.Prog.{World, Moment, smooth}
use wallet_service.Transfer.{TransferService}
use wallet_service.Transfer.Hash.{hash_body}
use wallet_service.Transfer.Execute.{Call}

-- A seed of 1000 paise, and 100 microseconds to claim. The text of an id is its one byte, and the
-- digest is the text itself.
abbrev pub svc : TransferService
svc = record {
  seed_paise = pos 1000;
  claim_window = 100;
  uuid_string = λ n. n ∷ [];
  sha256 = λ s. s;
}

abbrev pub alice : User
alice = record { id = 1; username = text "alice"; password_hash = []; created_at = 0 }

abbrev pub bob : User
bob = record { id = 2; username = text "bob"; password_hash = []; created_at = 0 }

-- No statement fails, each takes a microsecond, and the ids count up.
abbrev pub smoothly : ℕ → Moment
smoothly n = record { fault = smooth; elapsed = 1; uuid = n + 20 }

abbrev pub empty : World
empty = record {
  db = record { users = alice ∷ bob ∷ []; wallets = []; transfers = [] };
  tx = none;
  clock = 0;
  nature = smoothly;
  metrics = [];
  logs = [];
}

abbrev pub pay_bob : Call
pay_bob = record { sender = 1; to_username = text "bob"; amount = pos 100; key = text "k" }

abbrev pub pay_bob_more : Call
pay_bob_more = record { sender = 1; to_username = text "bob"; amount = pos 200; key = text "k" }

-- More than the seed, under a key that is new.
abbrev pub pay_bob_all : Call
pay_bob_all = record { sender = 1; to_username = text "bob"; amount = pos 5000; key = text "j" }

abbrev pub alice_wallet : Wallet
alice_wallet = record { user_id = 1; balance_paise = pos 900; created_at = 5; updated_at = 5 }

abbrev pub bob_wallet : Wallet
bob_wallet = record { user_id = 2; balance_paise = pos 1100; created_at = 5; updated_at = 5 }

abbrev pub paid_bob : Transfer
paid_bob = record {
  id = 7;
  sender_id = 1;
  recipient_id = 2;
  amount_paise = pos 100;
  idempotency_key = text "k";
  body_hash = hash_body svc.sha256 (text "bob") (pos 100);
  sender_balance_after = pos 900;
  status = completed;
  created_at = 5;
  reversed_at = none;
  sender_balance_after_reversal = none;
}

-- Alice has paid Bob 100 paise.
abbrev pub paid : World
paid = record empty {
  db = record {
    users = alice ∷ bob ∷ [];
    wallets = alice_wallet ∷ bob_wallet ∷ [];
    transfers = paid_bob ∷ [];
  };
  clock = 20;
}

-- The same, after the window.
abbrev pub past : World
past = record paid { clock = 500 }
