-- ===== src/Concurrent/Interleaved.antt =====
-- Any order of the steps of any number of sessions.
use wallet_service.Prelude.{
  ℤ, pos, ltb_ℤ, InRange, ◌≤◌, Text, ◌≡◌, ◌≢◌, refl, ap, ◌∙◌, none, some, ◌⊎◌, inl, inr, arith, [],
  Bool-cases, Option-cases,
}
use wallet_service.Models.{Uuid, Time, User, Transfer, Db}
use wallet_service.Sql
use wallet_service.Sql.{
  Query, Row, Answer, rejected, known, run_query, run_insert_user, run_insert_wallet,
}
use wallet_service.Sql.Effects.{open_wallet}
use wallet_service.Sql.Tables.{find_transfer, find_username, find_wallet}
use wallet_service.Prog.{Effect, act, ret, World, run}
use wallet_service.Prog.Clock.{clock-run}
use wallet_service.Prog.Logic.{Runs-ret, Runs-state}
use wallet_service.Repository.Alone.{Runs-alone}
use wallet_service.Transfer.{TransferService}
use wallet_service.Transfer.Execute.{Call}
use wallet_service.Guarantees.{HasSeed, IsStanding}
use wallet_service.Guarantees.Standing.{kept-IsStanding, start-Idle}
use wallet_service.Guarantees.Accounts.{opened-IsStanding}
use wallet_service.Guarantees.Reached.{started-IsStanding, waited-IsStanding}
use wallet_service.Concurrent.{transfer_block, claim_block, SameCore, at_time, InWindow, Reads}
use wallet_service.Concurrent.Blocks.{transfer_block-IsStanding, claim_block-IsStanding}

-- One statement outside a transaction, as a step.
abbrev pub alone : Query → World → World
alone q w = (run (act (Effect.query q)) w).1

-- A step of some session: the transaction of a transfer or of a claim, which has begun at `begin` and
-- has ended by `later`, a statement that inserts a user or a wallet with the seed, or one that
-- reads. In `passed` time passes, the counters and the
-- log are written, and the next session's driver comes with faults of its own.
pub data Step (svc : TransferService) : World → World → Type 0 where
  transferring :
      (k : Call) (u : User) (w : World) (begin later : Time)
      → InRange k.amount
      → k.sender ≢ u.id
      → begin ≤ w.clock
      → w.clock ≤ later
      → (run (transfer_block svc k u.id) (at_time begin w)).1.clock ≤ later
      → Step svc w (at_time later (run (transfer_block svc k u.id) (at_time begin w)).1)
  claiming :
      (tr cur : Transfer) (w : World) (begin later : Time)
      → find_transfer cur.id w.db.transfers ≡ some cur
      → SameCore tr cur
      → InWindow svc cur begin w.clock
      → begin ≤ w.clock
      → w.clock ≤ later
      → (run (claim_block svc tr) (at_time begin w)).1.clock ≤ later
      → Step svc w (at_time later (run (claim_block svc tr) (at_time begin w)).1)
  opening : (user : Uuid) (w : World) → Step svc w (alone (Sql.insert_wallet user svc.seed_paise) w)
  joining : (name hash : Text) (w : World) → Step svc w (alone (Sql.insert_user name hash) w)
  reading : (q : Query) (w : World) → Reads q → Step svc w (alone q w)
  passed : (w w' : World) → w'.tx ≡ none → w'.db ≡ w.db → w.clock ≤ w'.clock → Step svc w w'

-- What the steps of all sessions, in any order, lead to from tables without wallets and transfers.
pub data Interleaved (svc : TransferService) : World → Type 0 where
  started : (w : World) → w.tx ≡ none → w.db.wallets ≡ [] → w.db.transfers ≡ [] → Interleaved svc w
  stepped : (w w' : World) → Interleaved svc w → Step svc w w' → Interleaved svc w'

-- A lone statement has its effect on the tables or none.
pub record Effected (q : Query) (d : Db) (w : World) : Type 0 where
  pub closed : w.tx ≡ none
  pub at : Time
  pub id : Uuid
  pub either : (w.db ≡ d) ⊎ (w.db ≡ (run_query q at id d).1)

pub alone-Effected : (q : Query) (w : World) → w.tx ≡ none → Effected q w.db (alone q w)
alone-Effected q w closed =
    Runs-state
      (Runs-alone w.db w.clock ⊥ q (λ r. ret r) w (start-Idle w closed)
        (λ t id w' le e c quiet since.
          Runs-ret _ (record { closed = c; at = t; id = id; either = inr e }))
        (λ t id w' le un n.
          Runs-ret _ (record { closed = un.closed; at = t; id = id; either = un.either })))
      (λ w'. Effected q w.db w') (λ a w' x. x) (λ e w' x. x)

insert_wallet-cases :
    (user : Uuid) (seed : ℤ) (t : Time) (d : Db)
    → ((run_insert_wallet user seed t d).1 ≡ d)
      ⊎ ((run_insert_wallet user seed t d).1 ≡ open_wallet seed t user d)
unfolding run_insert_wallet open_wallet
insert_wallet-cases user seed t d = elim (Bool-cases (ltb_ℤ seed (pos 0))) [
  | inl neg ↦ inl (rw (run_insert_wallet, neg) refl)
  | inr ok ↦ elim (Option-cases (find_wallet user d.wallets)) [
    | inr (w, e) ↦ inl (rw (run_insert_wallet, ok, e) refl)
    | inl e ↦ elim (Bool-cases (known user d)) [
      | inl k ↦ inr (ground arith)
      | inr k ↦ inl (rw (run_insert_wallet, ok, e, k) refl)
    ]
  ]
]

insert_user-same :
    (name hash : Text) (t : Time) (id : Uuid) (d : Db)
    → ((run_insert_user name hash t id d).1.wallets ≡ d.wallets)
      × ((run_insert_user name hash t id d).1.transfers ≡ d.transfers)
unfolding run_insert_user
insert_user-same name hash t id d = elim (Option-cases (find_username name d.users)) [
  | inr (u, e) ↦ rw (run_insert_user, e) (refl, refl)
  | inl e ↦ elim (Bool-cases (known id d)) [
    | inl k ↦ rw (run_insert_user, e, k) (refl, refl)
    | inr k ↦ rw (run_insert_user, e, k) (refl, refl)
  ]
]

module _ (svc : TransferService) (seed_ok : HasSeed svc) (w : World) (h : IsStanding svc w) where
  opening-IsStanding :
      (user : Uuid) → IsStanding svc (alone (Sql.insert_wallet user svc.seed_paise) w)
  unfolding run_query
  opening-IsStanding user =
      let e = alone-Effected (Sql.insert_wallet user svc.seed_paise) w h.closed in
      let le = clock-run (act (Effect.query (Sql.insert_wallet user svc.seed_paise))) w in
      elim e.either [
        | inl same ↦ kept-IsStanding svc w _ h le same e.closed
        | inr q ↦ elim (insert_wallet-cases user svc.seed_paise e.at w.db) [
          | inl same ↦ kept-IsStanding svc w _ h le (q ∙ same) e.closed
          | inr added ↦ opened-IsStanding svc seed_ok user w h e.at _ le e.closed (q ∙ added)
        ]
      ]

  joining-IsStanding : (name hash : Text) → IsStanding svc (alone (Sql.insert_user name hash) w)
  unfolding run_query
  joining-IsStanding name hash =
      let e = alone-Effected (Sql.insert_user name hash) w h.closed in
      let le = clock-run (act (Effect.query (Sql.insert_user name hash))) w in
      elim e.either [
        | inl same ↦ kept-IsStanding svc w _ h le same e.closed
        | inr q ↦
            let (a, b) = insert_user-same name hash e.at e.id w.db in
            waited-IsStanding svc w _ h e.closed (ap (λ d. d.wallets) q ∙ a)
              (ap (λ d. d.transfers) q ∙ b) le
      ]

  reading-IsStanding : (q : Query) → Reads q → IsStanding svc (alone q w)
  reading-IsStanding q reads =
      let e = alone-Effected q w h.closed in
      kept-IsStanding svc w _ h (clock-run (act (Effect.query q)) w)
        (elim e.either [ inl same ↦ same | inr p ↦ p ∙ reads e.at e.id w ]) e.closed

step-IsStanding :
    (svc : TransferService)
    → HasSeed svc
    → (w w' : World) → IsStanding svc w
    → Step svc w w'
    → IsStanding svc w'
step-IsStanding svc s w _ h (transferring k u _ begin later fits ne early after ended) =
    transfer_block-IsStanding svc s k fits u ne w h begin later after ended
step-IsStanding svc s w _ h (claiming tr cur _ begin later found same window early after ended) =
    claim_block-IsStanding svc tr cur w begin later h found same window after ended
step-IsStanding svc s w _ h (opening user _) = opening-IsStanding svc s w h user
step-IsStanding svc s w _ h (joining name hash _) = joining-IsStanding svc s w h name hash
step-IsStanding svc s w _ h (reading q _ reads) = reading-IsStanding svc s w h q reads
step-IsStanding svc s w w' h (passed _ _ c d le) = kept-IsStanding svc w w' h le d c

-- However the steps of any number of sessions interleave, and whatever the driver does at each of
-- their statements, every state that they lead to from tables without wallets and transfers is
-- standing, provided that no claim finds the window of its transfer open at its BEGIN and has the
-- locks only after the window has ended. A transfer's recipient may have been looked up, a claim's
-- transfer read, and a transaction have begun, any number of other sessions' steps before. The
-- steps are the statements outside transactions and, from the time of the locks on, the whole
-- transactions of the services. An amount is an int64, and so is the seed, which is not negative.
pub interleaved-IsStanding :
    (svc : TransferService) → HasSeed svc → (w : World) → Interleaved svc w → IsStanding svc w
interleaved-IsStanding svc s w (started _ c p q) = started-IsStanding svc w c p q
interleaved-IsStanding svc s w (stepped v _ r st) =
    step-IsStanding svc s v w (interleaved-IsStanding svc s v r) st
