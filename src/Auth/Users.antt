-- ===== src/Auth/Users.antt =====
-- The users table under Signup: rows are only added, each with a name and an id of its own.
use wallet_service.Prelude.{
  ℕ, Text, text_eq_refl, ◌≡◌, refl, sym, ap, subst, ◌⊎◌, inl, inr, false, none, some, List, [], ◌∷◌,
  ◌++◌, All, All-append, arith,
}
use wallet_service.Errors.{Error}
use wallet_service.Models.{Uuid, User, Db}
use wallet_service.Sql.{known}
use wallet_service.Sql.Tables.{find_user, find_username}
use wallet_service.Prog.{World, run}
use wallet_service.Prog.Logic.{Runs-state}
use wallet_service.Guarantees.Standing.{start-Idle}
use wallet_service.Auth.{AuthService, signup}
use wallet_service.Auth.Outcome.{
  SignedUp, NotSignedUp, bad_name, bad_password, no_hash, taken, storage, added_unknown, no_token,
  signup-Runs, new_row, add_user,
}

pub find_username-append :
    (name : Text) (us vs : List User) (u : User)
    → find_username name us ≡ some u
    → find_username name (us ++ vs) ≡ some u
unfolding find_username
find_username-append name [] vs u h = cc
find_username-append name (x ∷ us) vs u h = ground (arith, find_username-append name us vs u)

find_user-append :
    (id : Uuid) (us vs : List User) (u : User)
    → find_user id us ≡ some u
    → find_user id (us ++ vs) ≡ some u
unfolding find_user
find_user-append id [] vs u h = cc
find_user-append id (x ∷ us) vs u h = ground (arith, find_user-append id us vs u)

pub find_username-last :
    (us : List User) (u : User)
    → find_username u.username us ≡ none
    → find_username u.username (us ++ u ∷ []) ≡ some u
unfolding find_username
find_username-last [] u h = rw (text_eq_refl u.username) refl
find_username-last (x ∷ us) u h = ground (arith, find_username-last us u)

find_user-last :
    (us : List User) (u : User) → find_user u.id us ≡ none → find_user u.id (us ++ u ∷ []) ≡ some u
unfolding find_user
find_user-last [] u h = ground arith
find_user-last (x ∷ us) u h = ground (arith, find_user-last us u)

-- A row is the one that is found by its name and by its id.
abbrev pub IsUnique : List User → User → Type 0
IsUnique us u = (find_username u.username us ≡ some u) × (find_user u.id us ≡ some u)

-- No two rows share a name or an id.
abbrev pub HasUniqueUsers : List User → Type 0
HasUniqueUsers us = All (IsUnique us) us

All-weaken : {P Q : User → Type 0} (us : List User) → ((u : User) → P u → Q u) → All P us → All Q us
All-weaken [] f h = tt
All-weaken (u ∷ us) f h = (f u h.0, All-weaken us f h.1)

unknown_id : (id : Uuid) (d : Db) → known id d ≡ false → find_user id d.users ≡ none
unknown_id id d k = ground arith

HasUniqueUsers-add :
    (us : List User) (u : User)
    → find_username u.username us ≡ none
    → find_user u.id us ≡ none
    → HasUniqueUsers us
    → HasUniqueUsers (us ++ u ∷ [])
HasUniqueUsers-add us u n k h =
    All-append (IsUnique (us ++ u ∷ [])) us u
      (All-weaken us
        (λ x (p, q).
          (find_username-append x.username us (u ∷ []) x p, find_user-append x.id us (u ∷ []) x q))
        h)
      (find_username-last us u n, find_user-last us u k)

-- The tables after a signup that found `d`: at most one more user, and all else as it was.
pub record Enrolled (d : Db) (w : World) : Type 0 where
  pub closed : w.tx ≡ none
  pub users : (w.db.users ≡ d.users) ⊎ ((u : User) × (w.db.users ≡ d.users ++ u ∷ []))
  pub unique : HasUniqueUsers d.users → HasUniqueUsers w.db.users
  pub wallets : w.db.wallets ≡ d.wallets
  pub transfers : w.db.transfers ≡ d.transfers

module _ (d : Db) where
  kept-Enrolled : (w : World) → w.tx ≡ none → w.db ≡ d → Enrolled d w
  kept-Enrolled w c e = record {
    closed = c;
    users = inl (ap (λ x. x.users) e);
    unique = λ h. subst (λ x. HasUniqueUsers x.users) (sym e) h;
    wallets = ap (λ x. x.wallets) e;
    transfers = ap (λ x. x.transfers) e;
  }

  added-Enrolled :
      (u : User) (w : World)
      → w.tx ≡ none
      → find_username u.username d.users ≡ none
      → known u.id d ≡ false
      → w.db ≡ add_user u d
      → Enrolled d w
  added-Enrolled u w c n k e = record {
    closed = c;
    users = inr (u, ap (λ x. x.users) e);
    unique = λ h.
        subst (λ x. HasUniqueUsers x.users) (sym e)
          (HasUniqueUsers-add d.users u n (unknown_id u.id d k) h);
    wallets = ap (λ x. x.wallets) e;
    transfers = ap (λ x. x.transfers) e;
  }

-- With no transaction open, whatever the driver does at each statement: however a call of `Signup`
-- ends, at most one user is added, the wallets and the transfers are as they were, and if no two
-- users shared a name or an id before, no two share one after.
pub signup-Enrolled :
    (a : AuthService) (salt : Text) (now : ℕ) (username password : Text) (w : World)
    → w.tx ≡ none
    → Enrolled w.db (run (signup a salt now username password) w).1
signup-Enrolled a salt now username password w closed =
    Runs-state
      (signup-Runs a salt now username password w.db w.clock (w.nature 0).uuid ⊥ w
        (start-Idle w closed) refl)
      (Enrolled w.db) (λ r w' (x, c). ended r w' x c) (λ e w' (x, c). stopped e w' x c)
  where
    ended :
        (r : User × Text) (w' : World)
        → SignedUp a salt now username password w.db w.clock (w.nature 0).uuid ⊥ r w'
        → w'.tx ≡ none
        → Enrolled w.db w'
    ended r w' x c =
        added-Enrolled w.db r.0 w' c
          (subst (λ n. find_username n w.db.users ≡ none) (sym (ap (λ u. u.username) x.row))
            x.name_new)
          x.id_new x.added

    stopped :
        (e : Error) (w' : World)
        → NotSignedUp a salt now username password w.db w.clock (w.nature 0).uuid ⊥ e w'
        → w'.tx ≡ none
        → Enrolled w.db w'
    stopped e w' (bad_name p b k) c = kept-Enrolled w.db w' c k
    stopped e w' (bad_password p n b k) c = kept-Enrolled w.db w' c k
    stopped e w' (no_hash p h k) c = kept-Enrolled w.db w' c k
    stopped e w' (taken p t k) c = kept-Enrolled w.db w' c k
    stopped e w' (storage s n k) c = kept-Enrolled w.db w' c k
    stopped e w' (added_unknown hash t id s n h m k a) c =
        added-Enrolled w.db (new_row username hash t id) w' c m k a
    stopped e w' (no_token hash t id p q h m k a) c =
        added-Enrolled w.db (new_row username hash t id) w' c m k a
