-- ===== src/Server/Reads.antt =====
-- A call of one reading statement leaves the tables as they are, whatever the driver does.
use wallet_service.Prelude.{
  Bool, true, false, ◌≡◌, refl, ◌∙◌, inl, inr, Option, none, some, ◌==◌, ◌&&◌, not, Text, ℕ,
  Bool-cases, if◌then◌else◌,
}
use wallet_service.Errors.{DbError}
use wallet_service.Models.{Uuid, Time, User, Db}
use wallet_service.Sql
use wallet_service.Sql.{Answer, row, no_rows, rejected, Query, Row, run_query}
use wallet_service.Prog.{Prog, ret, fail, panic, perform, Effect, World, ◌>>=◌}
use wallet_service.Prog.Logic.{Runs, Runs-ret, Runs-fail}
use wallet_service.Repository.{ping, get_user_by_username, get_transfer_by_id, get_wallet_balances}
use wallet_service.Repository.Alone.{Runs-alone, Unsure}
use wallet_service.Transfer.{TransferService, get_by_id}
use wallet_service.Wallet.{WalletService, get_balance}
use wallet_service.Auth.{AuthService, login, check_password, issue_token, issued}
use wallet_service.Guarantees.Standing.{start-Idle}

-- Nothing is left to do.
abbrev pub IsDone : {A : Type 0} → Prog A → Type 0
IsDone (ret a) = Unit
IsDone (fail e) = Unit
IsDone panic = ⊥
IsDone (perform e k) = ⊥

-- The tables are as they were, and no transaction is open.
abbrev pub Untouched : Db → World → Type 0
Untouched d w = (w.db ≡ d) × (w.tx ≡ none)

-- A program that leaves the tables as they are, however it ends.
abbrev pub Reading : {A : Type 0} → Prog A → World → Type 0
Reading p w = Runs p w (λ _ w'. Untouched w.db w') (λ _ w'. Untouched w.db w')

done-Runs :
    {A : Type 0} {R : World → Type 0} (p : Prog A) (w : World)
    → IsDone p
    → R w
    → Runs p w (λ _ w'. R w') (λ _ w'. R w')
done-Runs (ret a) w d h = Runs-ret a h
done-Runs (fail e) w d h = Runs-fail e h
done-Runs panic w d h = absurd d
done-Runs (perform e k) w d h = absurd d

query-Reading :
    {A : Type 0} (q : Query) (k : Answer (Row q) → Prog A) (w : World)
    → w.tx ≡ none
    → ((t : Time) (id : Uuid) → (run_query q t id w.db).1 ≡ w.db)
    → ((r : Row q) → IsDone (k (row r)))
    → IsDone (k no_rows)
    → ((e : DbError) → IsDone (k (rejected e)))
    → Reading (perform (Effect.query q) k) w
query-Reading q k w closed same found empty failed =
    Runs-alone w.db w.clock ⊥ q k w (start-Idle w closed)
      (λ t id w' le e c quiet since. done-Runs _ w' (done _) (e ∙ same t id, c))
      (λ t id w' le un n. done-Runs _ w' (done _) (settled t id w' un, un.closed))
  where
    done : (ans : Answer (Row q)) → IsDone (k ans)
    done (row r) = found r
    done no_rows = empty
    done (rejected e) = failed e

    settled :
        (t : Time) (id : Uuid) (w' : World)
        → Unsure w.db (run_query q t id w.db).1 t w'
        → w'.db ≡ w.db
    settled t id w' un = elim un.either [ inl e ↦ e | inr e ↦ e ∙ same t id ]

pub ping-Reading : (w : World) → w.tx ≡ none → Reading ping w
unfolding ping run_query
ping-Reading w c = query-Reading Sql.ping _ w c (λ t id. refl) (λ r. tt) tt (λ e. tt)

if-IsDone :
    {A : Type 0} (b : Bool) (p q : Prog A) → IsDone p → IsDone q → IsDone (if b then p else q)
if-IsDone true p q h k = h
if-IsDone false p q h k = k

pub get_by_id-Reading :
    (svc : TransferService) (caller id : Uuid) (w : World)
    → w.tx ≡ none
    → Reading (get_by_id svc caller id) w
unfolding get_by_id get_transfer_by_id run_query
get_by_id-Reading svc caller id w c =
    query-Reading (Sql.select_transfer_by_id id) _ w c (λ t u. refl)
      (λ tr. if-IsDone (not (tr.sender_id == caller) && not (tr.recipient_id == caller)) _ _ tt tt)
      tt (λ e. tt)

pub get_balance-Reading :
    (svc : WalletService) (user : Uuid) (w : World) → w.tx ≡ none → Reading (get_balance svc user) w
unfolding get_balance get_wallet_balances run_query
get_balance-Reading svc user w c =
    query-Reading (Sql.select_balances user svc.claim_window) _ w c (λ t u. refl) (λ b. tt) tt
      (λ e. tt)

checked-IsDone :
    (a : AuthService) (now : ℕ) (password : Text) (u : User)
    → IsDone (check_password a password u >>= λ v. issued v (issue_token a now v.id))
checked-IsDone a now password u =
    elim (Bool-cases (a.libraries.compare_hash_and_password u.password_hash password)) [
      | inr e ↦ rw (check_password, e) tt
      | inl e ↦ rw (check_password, e) (issued-IsDone u (issue_token a now u.id))
    ]
  where
    issued-IsDone : (u : User) (o : Option Text) → IsDone (issued u o)
    issued-IsDone u none = tt
    issued-IsDone u (some t) = tt

pub login-Reading :
    (a : AuthService) (now : ℕ) (username password : Text) (w : World)
    → w.tx ≡ none
    → Reading (login a now username password) w
unfolding login get_user_by_username run_query
login-Reading a now username password w c =
    query-Reading (Sql.select_user_by_username username) _ w c (λ t u. refl)
      (λ u. checked-IsDone a now password u) tt (λ e. tt)
