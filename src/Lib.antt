-- ===== src/Lib.antt =====
-- The wallet service: signup, wallets, transfers with idempotency keys, and claim-backs, written in
-- Go over one PostgreSQL database. This library models it from the HTTP request down to the
-- statements of the database.
--
-- How the files stand to the code:
--   Models        internal/models/models.go and the columns of migrations/*.sql
--   Errors        internal/service/errors.go, the sentinels of internal/repository/store.go and of
--                 internal/service/transfer.go, errors.Is and errors.As
--   Sql           the text of each statement of internal/repository/*.go as a function on three
--                 tables, under the constraints of migrations/*.sql; Sql/Tables has the WHERE
--                 clauses, Sql/Effects what a statement leaves when it goes through
--   Observe       the counters of internal/obs/metrics.go and the log events; Observe/Ring is the
--                 Ring of internal/obs/log.go, behind GET /logs
--   Prog          a request as a tree of effects (statement, begin, commit, rollback, counter,
--                 log), and its run; Prog/Logic has one proof rule for each way to build a tree
--   Repository    Store and Tx of internal/repository, one function for each method
--   Transfer      TransferService of internal/service/transfer.go: execute is Execute, get_by_id
--                 is GetByID, transfer_tx the function passed to WithTx; Transfer/ClaimBack has
--                 claim_back, ClaimBack, and Transfer/Hash hashBody
--   Wallet        WalletService of internal/service/wallet.go
--   Auth          AuthService of internal/service/auth.go: signup, login, issue_token, verify_token
--   Strconv       strconv.ParseInt, for the configuration and for JSON numbers
--   Dto           the structs of internal/dto/dto.go, and how encoding/json fills the requests
--   Config        Load of internal/config/config.go
--   Handlers      internal/handlers: respond.go, then Transfers, Accounts (wallet.go and auth.go) and
--                 Health, one function for each handler
--   Api           internal/api: recovery, metrics, withTimeout and authenticate of middleware.go, the
--                 table of routes of router.go, and the mux
--   Server        NewHandler of internal/app/app.go: the configured services behind the routes
--   Boot          main and run of cmd/server/main.go, Migrate and Connect of internal/db/db.go
--   Concurrent    the steps of sessions side by side; Tests/Stale has a run of a claim whose now() is
--                 older than the recipient's last transfer
--   Ledger        what holds of the tables between transactions
--   Guarantees    what the callers of the services of wallets and transfers can count on
--   Tests         two users and a payment: computed runs, and the theorems at these states
--
-- The router's middleware calls a handler, a handler calls a method of a service, the service calls
-- the repository's methods and passes functions to WithTx, and each method is one statement of the
-- driver (GetOrCreateWallet: three). The state is the committed tables, the open transaction's view
-- of them, the database clock, the counters and the log. now() in a transaction is the time of its
-- start. A handler returns its response, which it writes last.
--
-- Failures: a run reads a stream of moments, one for each statement, begin and commit. A moment
-- says how much time passes, which UUID gen_random_uuid() gives, and whether the statement works,
-- fails before it takes effect, or fails after with only its answer lost. A cancelled context, and
-- so the deadline of withTimeout, is such a failure. A theorem for every stream holds for every
-- timing and every failure.
--
-- Code that is not the repository's is an argument: bcrypt, jwt and uuid (Auth.Libraries, with what
-- their documentation says in Auth.Tokens.Documented and Auth.Accounts.Dependable), SHA-256, the
-- scanner of encoding/json, time.ParseDuration, PostgreSQL's reading of an interval, and the page of
-- the metrics library. The time of the process's clock and the salt of bcrypt are arguments of each
-- request.
--
-- Numbers: int64 arithmetic wraps at 2^64 (Prelude/Int), and a BIGINT column is checked where it is
-- scanned. `%d` prints with fuel for 20 digits, which every int64 fits. A UUID is its value as a
-- number. Strings are lists of bytes. A time of the database is in microseconds, and so is the claim
-- window of a service; a Go duration is in nanoseconds. Every other loop recurs on its list.
--
-- Sessions: elsewhere a request runs alone. In Concurrent other sessions' statements and transactions
-- come between a request's statements outside transactions, and between the BEGIN of a transaction,
-- which fixes its now(), and its locks. From the locks on a transaction is one step, which is what
-- the locks of its wallets' rows are for; the statements before the locks are counted to that step.
--
-- Not modelled: the row locks themselves, as waits; Transfer/LockOrder has the order in which they are
-- asked for. Nor are requestID, the histogram of durations, the print of a response as JSON, and the
-- sizes and timeouts of the server and its pool. A path that net/http would clean and redirect, and
-- the Allow header of a 405, are left out. A foreign key is checked at once, and a SUM that leaves
-- BIGINT is an error
-- of the scan.
pub mod Prelude
pub mod Errors
pub mod Models
pub mod Sql
pub mod Observe
pub mod Prog
pub mod Repository
pub mod Transfer
pub mod Wallet
pub mod Auth
pub mod Strconv
pub mod Dto
pub mod Config
pub mod Handlers
pub mod Api
pub mod Server
pub mod Concurrent
pub mod Boot
pub mod Ledger
pub mod Guarantees
pub mod Tests
