-- ===== src/Observe.antt =====
-- internal/obs: the counters of metrics.go that the services and the middleware raise, and the log
-- records that they write.
pub mod Ring
use wallet_service.Prelude.{
  ℕ, suc, ◌+◌, ℤ, Text, text_eq, Bool, ◌&&◌, ◌==◌, List, [], ◌∷◌, if◌then◌else◌,
}
use wallet_service.Models.{Uuid}

-- The label of transfers_rejected_total and claims_rejected_total.
pub data Reason : Type 0 where
  invalid_amount unknown_recipient self_transfer insufficient_funds idempotency_conflict : Reason
  not_sender window_expired : Reason

pub data Counter : Type 0 where
  transfers_applied idempotent_replays claims_applied claim_replays : Counter
  get_or_create_race_lost auth_failures : Counter
  transfers_rejected claims_rejected : Reason → Counter
  http_requests : Text → Text → ℕ → Counter

-- A record's event name with the values that it carries.
pub data Event : Type 0 where
  get_or_create_race_lost : Uuid → Event
  wallet_created : Uuid → ℤ → Event
  transfer_applied claim_applied : Uuid → Uuid → Uuid → ℤ → Event
  insufficient_funds_rejected : Uuid → ℤ → Event
  idempotency_conflict idempotent_replay claim_window_expired claim_replay : Uuid → Uuid → Event
  db_unavailable panic : Event
  auth_failure : Text → Event
  request : ℕ → Event

abbrev reason_index : Reason → ℕ
reason_index invalid_amount = 0
reason_index unknown_recipient = 1
reason_index self_transfer = 2
reason_index insufficient_funds = 3
reason_index idempotency_conflict = 4
reason_index not_sender = 5
reason_index window_expired = 6

abbrev counter_index : Counter → ℕ
counter_index transfers_applied = 0
counter_index idempotent_replays = 1
counter_index claims_applied = 2
counter_index claim_replays = 3
counter_index Counter.get_or_create_race_lost = 4
counter_index auth_failures = 5
counter_index (transfers_rejected r) = 10 + reason_index r
counter_index (claims_rejected r) = 20 + reason_index r
counter_index (http_requests _ _ _) = 30

-- The labels route, method and status.
abbrev counter_eq : Counter → Counter → Bool
counter_eq (http_requests r m s) (http_requests r' m' s') = text_eq r r' && text_eq m m' && s == s'
counter_eq c d = counter_index c == counter_index d

-- A counter's value is the number of times that it was raised.
abbrev pub value : Counter → List Counter → ℕ
value c [] = 0
value c (d ∷ ds) = let rest = value c ds in if counter_eq c d then suc rest else rest
