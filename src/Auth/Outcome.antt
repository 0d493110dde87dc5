-- ===== src/Auth/Outcome.antt =====
-- Every way in which Signup of internal/service/auth.go ends.
use wallet_service.Prelude.{
  subst, ℕ, ◌≤◌, Text, ◌++◌, [], ◌∷◌, ◌≡◌, ◌≢◌, refl, ap, ◌∙◌, ◌⊎◌, inl, inr, true, false, none,
  some, arith, Option-cases, Bool-cases,
}
use wallet_service.Errors.{
  Error, unavailable, unique_violation, sentinel, validation, wrapped, external, database,
  username_taken, is_unique_violation,
}
use wallet_service.Models.{Uuid, Time, User, Db}
use wallet_service.Sql
use wallet_service.Sql.{row, rejected, known, from_option, run_query, run_insert_user}
use wallet_service.Sql.Tables.{find_username}
use wallet_service.Prog.{World, run}
use wallet_service.Prog.Logic.{Runs, Runs-ret, Runs-fail, Post}
use wallet_service.Repository.{create_user}
use wallet_service.Repository.Idle.{Idle}
use wallet_service.Repository.Alone.{Runs-offered, Unsure}
use wallet_service.Transfer.Execute.{IsStorage}
use wallet_service.Auth.{
  AuthService, username_re, password_rejected, default_cost, issue_token, issued, signup,
}
use wallet_service.Guarantees.{IsQuiet}

-- The row of a new user.
abbrev pub new_row : Text → Text → Time → Uuid → User
new_row username hash t id = record {
  id = id;
  username = username;
  password_hash = hash;
  created_at = t;
}

abbrev pub add_user : User → Db → Db
add_user u d = record d { users = d.users ++ u ∷ [] }

module _ (a : AuthService) (salt : Text) (now : ℕ) (username password : Text) (c : Db) (from : Time)
    (offered : Uuid) (calm : Type 0) where
  abbrev pub HashMade : Text → Type 0
  HashMade hash = a.libraries.generate_from_password password default_cost salt ≡ some hash

  -- The row was added; `t` is the time of the insert.
  pub record SignedUp (r : User × Text) (w : World) : Type 0 where
    pub name_allowed : username_re username ≡ true
    pub password_allowed : password_rejected password ≡ false
    pub hash : Text
    pub hash_is : HashMade hash
    pub at : Time
    pub since : from ≤ at
    pub row : r.0 ≡ new_row username hash at r.0.id
    pub name_new : find_username username c.users ≡ none
    pub id_new : known r.0.id c ≡ false
    pub token : issue_token a now r.0.id ≡ some r.1
    pub added : w.db ≡ add_user r.0 c

  pub data NotSignedUp (e : Error) (w : World) : Type 0 where
    bad_name :
        e ≡ validation "username must be 3-32 chars of letters, digits, '_', '.', '-'"
        → username_re username ≡ false
        → w.db ≡ c
        → NotSignedUp e w
    bad_password :
        e ≡ validation "password must be 8-72 characters"
        → username_re username ≡ true
        → password_rejected password ≡ true
        → w.db ≡ c
        → NotSignedUp e w
    no_hash :
        e ≡ wrapped "hash password" (external "bcrypt")
        → a.libraries.generate_from_password password default_cost salt ≡ none
        → w.db ≡ c
        → NotSignedUp e w
    taken :
        e ≡ sentinel username_taken
        → (find_username username c.users ≢ none) ⊎ (known offered c ≡ true)
        → w.db ≡ c
        → NotSignedUp e w
    storage : IsStorage e → ¬ calm → w.db ≡ c → NotSignedUp e w
    added_unknown :
        (hash : Text) (t : Time) (id : Uuid)
        → IsStorage e
        → ¬ calm
        → HashMade hash
        → find_username username c.users ≡ none
        → known id c ≡ false
        → w.db ≡ add_user (new_row username hash t id) c
        → NotSignedUp e w
    no_token :
        (hash : Text) (t : Time) (id : Uuid)
        → e ≡ external "sign token"
        → issue_token a now id ≡ none
        → HashMade hash
        → find_username username c.users ≡ none
        → known id c ≡ false
        → w.db ≡ add_user (new_row username hash t id) c
        → NotSignedUp e w

  abbrev pub Ended : User × Text → World → Type 0
  Ended r w = SignedUp r w × (w.tx ≡ none)

  abbrev pub Stopped : Error → World → Type 0
  Stopped e w = NotSignedUp e w × (w.tx ≡ none)

  run_insert_user-cases :
      (hash : Text) (t : Time) (id : Uuid)
      → ((find_username username c.users ≡ none)
          × (known id c ≡ false)
          × (run_insert_user username hash t id c
              ≡ (row (new_row username hash t id), add_user (new_row username hash t id) c)))
        ⊎ ((find_username username c.users ≢ none) ⊎ (known id c ≡ true))
          × (run_insert_user username hash t id c ≡ (rejected unique_violation, c))
  unfolding run_insert_user
  run_insert_user-cases hash t id = elim (Option-cases (find_username username c.users)) [
    | inr (u, e) ↦ inr (inl (λ n. cc (e, n)), rw (run_insert_user, e) refl)
    | inl e ↦ elim (Bool-cases (known id c)) [
      | inl k ↦ inr (inr k, rw (run_insert_user, e, k) refl)
      | inr k ↦ inl (e, k, rw (run_insert_user, e, k) refl)
    ]
  ]

  inserted-Runs :
      (hash : Text) (t : Time) (id : Uuid) (w : World)
      → username_re username ≡ true
      → password_rejected password ≡ false
      → HashMade hash
      → from ≤ t
      → find_username username c.users ≡ none
      → known id c ≡ false
      → w.db ≡ add_user (new_row username hash t id) c
      → w.tx ≡ none
      → Runs (issued (new_row username hash t id) (issue_token a now id)) w Ended Stopped
  inserted-Runs hash t id w name pass made le n k kept closed =
      elim (Option-cases (issue_token a now id)) [
        | inl e ↦ rw e (Runs-fail _ (no_token hash t id refl e made n k kept, closed))
        | inr (token, e) ↦ rw e (
            Runs-ret _ (
              record {
                name_allowed = name;
                password_allowed = pass;
                hash = hash;
                hash_is = made;
                at = t;
                since = le;
                row = refl;
                name_new = n;
                id_new = k;
                token = e;
                added = kept;
              },
              closed,
            ))
      ]

  failed_insert :
      (hash : Text) (t : Time) (id : Uuid) (w : World)
      → HashMade hash
      → ¬ calm
      → Unsure c (run_insert_user username hash t id c).1 t w
      → NotSignedUp (database unavailable) w
  failed_insert hash t id w made n un = elim (run_insert_user-cases hash t id) [
    | inl (new, k, p) ↦ elim un.either [
      | inl same ↦ storage tt n same
      | inr q ↦ added_unknown hash t id tt n made new k (q ∙ ap (λ x. x.1) p)
    ]
    | inr (why, p) ↦ elim un.either [
      | inl same ↦ storage tt n same
      | inr q ↦ storage tt n (q ∙ ap (λ x. x.1) p)
    ]
  ]

  hashed-Runs :
      (hash : Text) (w : World)
      → username_re username ≡ true
      → password_rejected password ≡ false
      → HashMade hash
      → Idle c from calm w
      → (w.nature 0).uuid ≡ offered
      → Runs (signup a salt now username password) w Ended Stopped
  unfolding signup create_user run_query is_unique_violation
  hashed-Runs hash w name pass made h drawn =
      rw (name, pass, made)
        (Runs-offered c from calm (Sql.insert_user username hash) _ w h
          (λ t w₁ le kept closed quiet since.
            elim (run_insert_user-cases hash t (w.nature 0).uuid) [
              | inl (new, k, p) ↦ rw p (
                  inserted-Runs hash t (w.nature 0).uuid w₁ name pass made le new k
                    (kept ∙ ap (λ x. x.1) p) closed)
              | inr (why, p) ↦
                  let why' =
                    subst (λ i. (find_username username c.users ≢ none) ⊎ (known i c ≡ true)) drawn
                      why in
                  rw p (Runs-fail _ (taken refl why' (kept ∙ ap (λ x. x.1) p), closed))
            ])
          (λ t w₁ le un n.
            Runs-fail _ (failed_insert hash t (w.nature 0).uuid w₁ made n un, un.closed)))

  pub signup-Runs :
      (w : World)
      → Idle c from calm w
      → (w.nature 0).uuid ≡ offered
      → Runs (signup a salt now username password) w Ended Stopped
  unfolding signup
  signup-Runs w h drawn = elim (Bool-cases (username_re username)) [
    | inr bad ↦ rw bad (Runs-fail _ (bad_name refl bad h.kept, h.closed))
    | inl name ↦ elim (Bool-cases (password_rejected password)) [
      | inl bad ↦ rw (name, bad) (Runs-fail _ (bad_password refl name bad h.kept, h.closed))
      | inr pass ↦
          elim (Option-cases (a.libraries.generate_from_password password default_cost salt)) [
            | inl e ↦ rw (name, pass, e) (Runs-fail _ (no_hash refl e h.kept, h.closed))
            | inr (hash, made) ↦ hashed-Runs hash w name pass made h drawn
          ]
    ]
  ]

-- With no transaction open, and with `calm` any condition under which no statement fails: every
-- call of `Signup` ends in a result or an error, never in a panic, with no transaction left open.
-- A result means that the name and the password pass the checks, that the name was free, that one
-- user with the name and a hash of the password has been added, and that the token is issued for
-- that user. An error of the checks, of the hash or of a name that is taken changes nothing, and
-- the last is given only if a user has the name, or has the UUID that the database draws for the
-- new row. With an error of the storage the user is added or nothing has changed; with one of the
-- token's signature the user is added. Under `calm` there is no error of the storage.
pub signup-outcome :
    (a : AuthService) (salt : Text) (now : ℕ) (username password : Text) (w : World) (calm : Type 0)
    → w.tx ≡ none
    → (calm → IsQuiet w)
    → Post
        (λ r w'.
          SignedUp a salt now username password w.db w.clock (w.nature 0).uuid calm r w'
          × (w'.tx ≡ none))
        (λ e w'.
          NotSignedUp a salt now username password w.db w.clock (w.nature 0).uuid calm e w'
          × (w'.tx ≡ none))
        (run (signup a salt now username password) w)
signup-outcome a salt now username password w calm closed quiet =
    (signup-Runs a salt now username password w.db w.clock (w.nature 0).uuid calm w
      (record { kept = refl; closed = closed; quiet = quiet; since = omega arith }) refl).post
