-- ===== src/Lib.antt =====
-- Verification of identra, an identity service in Go: signing keys and tokens, sessions, logins with
-- a password, with an e-mailed code and with an OAuth provider, service accounts and the management
-- API that they may call. The program serves gRPC; its handlers call stores (SQLite, Redis or memory)
-- through interfaces, the token library, and the clock.
--
-- A handler is a function on the state `W` of everything outside it: it answers a response or a
-- status, and the state it leaves comes back in both cases (Common/Exec.antt). `W` and the collaborators
-- are parameters, records of operations that may fail and that may find what another request has
-- written in between. So the theorems speak of the calls that a handler makes, each in the state that the
-- one before left. Times are natural numbers of nanoseconds. The sum in a page token wraps around at 64
-- bits, and prints in at most twenty digits, enough below 2 ^ 64; all other recursion is structural.
-- Texts are sequences of code points.
--
-- The files, and the code that they model (paths from the repository's root):
--   * Common: names passed on, lists, maps as association lists, sorting, `Result` and `Exec`.
--   * Text: what the program uses of Go's `strings`, `unicode`, `strconv`, `encoding/base64`
--     and `fmt.Sscanf`.
--   * Security/Keys: internal/security/jwks.go, the ring of signing keys. A method is one step on the
--     manager, since each holds the lock throughout.
--   * Security/Tokens: internal/security/tokens.go, over a signer that is a parameter (`Jwt`).
--   * Security/Passwords: internal/security/password.go, over argon2 and random bytes.
--   * Service: internal/identra, the data, the collaborators' interfaces and the service record
--     (collaborators.go, persistence.go, user.go, external_identity.go, service.go). Below it:
--     RateLimit (service_rate_limit.go, bearer tokens of service_login_info.go), Login (the blocks that
--     logins share, service_user.go), Session (service_tokens.go), Password (service_password.go),
--     EmailCode (service_email_code.go), CurrentUser (service_login_info.go), Providers
--     (user_info_provider.go), Oauth (service_oauth.go),
--     Accounts (service_accounts.go, `recordManagementAudit` of audit.go), Users (the handlers of
--     user_management.go that change users), Pages (ListUsers and page tokens of user_management.go,
--     ListAuditEvents of audit.go), Management (the requests of the three management
--     services for accounts, users and audit events, as one type), Limits (what the blocks on limiters
--     do, told by the limiter's calls).
--   * ServiceAccount: internal/serviceaccount/bootstrap.go.
--   * Oauth/StateStore: internal/oauth/state_store.go; a method is one step, and the times that
--     it reads are its arguments.
--   * Sqlite: internal/store/sqlite. The tables of schema.sql are lists of rows, a statement of
--     queries.sql.go (Sqlite/Queries) or service_accounts.go (Sqlite/Accounts/Statements) is a function on them
--     that refuses what the schema's constraints refuse, and a call of the driver may fail before it
--     reaches them. Above it store.go (Users, Identities), service_accounts.go (Accounts, with BeginTx,
--     Commit and Rollback), audit.go (Audit), and applyMigrations of database.go (Migrations, over the
--     calls of a connection). The pool has one connection, so a transaction runs alone.
--   * Redis: internal/cache. The commands are parameters with laws, and the Lua scripts are written out:
--     EmailCodes, States, Limiter and Revocations, one for each redis_*.go.
--   * Config: internal/config, over what spf13/viper answers for a key. App: internal/app/tokens.go
--     (TokenKeys, over the calls of a file system) and the configured service account of identra.go.
--   * Tests: a service over a small world, and the theorems at concrete inputs.
--
-- Parameters: github.com/golang-jwt/jwt (`Jwt`, with `JwtLaws`), RSA, PEM and X.509 (`Crypto`), the password
-- hasher of a service, argon2 (`Argon`), random bytes, UUIDs and the clock (`Runtime`, `Secrets`),
-- golang.org/x/oauth2, go-github, the SQL driver (`Driver`, `Connection`), go-redis and Redis itself (`Redis`), encoding/json
-- (`Json`, `StateJson`).
-- Not modelled: opening the database file, wiring of the process, the command-line client, logging, mail
-- transport, generated code.
pub mod Common
pub mod Text
pub mod Security
pub mod ServiceAccount
pub mod Service
pub mod Oauth
pub mod Sqlite
pub mod Redis
pub mod Config
pub mod App
pub mod Tests
