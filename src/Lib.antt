-- ===== src/Lib.antt =====
-- tempcdn accepts file uploads, stores each content once in an object store (Cloudflare R2) with a
-- row in Postgres, serves it from a CDN, and deletes it when it expires.
--
-- The parts and their files:
-- * Metadata (internal/metadata): the records (Metadata/Model), the connection pool (Metadata/Conn)
--   and the statements on the table files (Metadata/Files, postgres_repository_files.go). A table
--   is the list of its rows in the order of insertion; Metadata/Sql has ORDER BY.
-- * Storage (internal/storage/interface.go): the interface of the object store, with what its
--   operations do as laws. Storage/Memory has two stores that satisfy them. Storage/R2
--   (internal/storage/r2_client.go) is the client of the object store, over the calls of the SDK.
-- * Cloudflare (internal/cloudflare/purger.go): a request of the cache purge.
-- * IdGen (internal/idgen): the tokens (IdGen/Hex), their hashes and the comparison of these.
-- * Logger (internal/logger/logger.go): the handler that prints a record of the log as a line.
-- * Upload (internal/upload): Upload/Validator (validator.go), Upload/Checksum (checksum.go), and
--   Upload/Service with Upload/Key (service.go). An upload looks up the checksum in the table, puts
--   the object and inserts the row.
-- * File (internal/file/service.go): the early deletion with a token, and the file information.
-- * Sweeper (internal/sweeper/sweeper.go): a pass over the expired rows, and the loop of passes.
-- * Admin (internal/admin): Admin/Sessions, Admin/Keys, Admin/Settings and Admin/Documents
--   (service.go), Admin/Bootstrap (bootstrap.go), Admin/Access (middleware.go); their statements are
--   Metadata/Admins, Metadata/ApiKeys, Metadata/Settings and Metadata/Legal, over the tables of
--   Metadata/Tables. Upload/Synchronizer (internal/upload/settings_synchronizer.go) brings changed
--   settings into the validator.
-- * NodeStatus (internal/nodestatus) over Metadata/Nodes: heartbeats and stale instances.
-- * File/Handler and Upload/Handler (handler.go of both): the requests with their status codes, and
--   in Upload/Handler/Replies what the response to an upload holds.
-- * Config (internal/config/config.go): the configuration, from the environment to its validation.
-- * Http (internal/httpserver, internal/response): the calls of the response writer (Http), the
--   recorder (Http/Recorder), the middleware (Http/Middleware), the route registry (Http/Registry)
--   and the router with its table of routes (Http/Router, Http/Router/Table).
-- * Admin/Handler (internal/admin/handler.go): the endpoints of the administration.
-- * Metadata/Connect and Metadata/Migrate (internal/metadata/repository.go and
--   postgres_repository.go): the choice and the opening of the connection, and the migrations.
-- * Metadata/Stats (the statement Stats) and Public (internal/legal, internal/stats, and the handlers
--   of internal/nodestatus and of the upload configuration): the endpoints that only read.
-- * Server (cmd/server/main.go): the start, and the callback from the settings to the validator.
--   Server/Wiring puts the handlers of the parts over one state (Server/Shared) and hands them to
--   the router; Server/Run has the steps of a running instance. What each handler leaves alone is in
--   Admin/Frame, Admin/Handler/Frame and Server/Wiring/Frame; Server/Run/Stays lifts
--   a relation of the tables of the administration from the operations to the steps.
-- * RateLimit (internal/ratelimit/limiter.go): the limit of concurrent uploads.
-- Prelude, Text (Go strings and the package strings) and Action (results with a state) are shared.
--
-- An operation is an action: it takes the state to a result, ok or err, and the state after it. Each
-- statement sent to the database is answered from a list of outcomes: it is done, it is refused, or
-- it is done and its reply is lost; a theorem without a hypothesis on the outcomes holds of all of
-- them. An operation whose continuation depends on the answer of a call has a function for what it
-- does with that answer (after_put, after_lookup, after_find, after_object).
--
-- SHA-256, bcrypt, unicode.ToLower, http.DetectContentType, the calendar and the object store are
-- parameters. Times of the program are nanoseconds since the year 1 in UTC; a column holds them to
-- the microsecond, as TIMESTAMPTZ and pgx do (stored_time, and Metadata/Times on comparisons), so
-- that a row read back is the row that was stored and not the record that was given. Sizes
-- that the client reports are integers, lengths of contents natural numbers. io.Copy runs on fuel:
-- one round more than the content has bytes is enough, and Upload/Service gives that much. The
-- decimal digits of n are computed in n + 1 rounds.
--
-- A handler takes the request and the state to the calls that it makes of the response writer, what
-- it logs, whether it panics, and the state after it; what the clock and the random source answer
-- comes with the request. The router (go-chi/chi) is outside: the table of routes is the list of the
-- calls that register them.
--
-- The server is one state and two kinds of step: a request to one of the registered routes, and a
-- tick of one of the loops. A request is served as a whole before the next one; what a request and
-- a loop do at the same time is modelled only where the database decides between them, in the rows
-- that another instance has locked and in the answers of its statements.
--
-- Not modelled: the encoding and decoding of JSON (parameters or left out), the formats of
-- log/slog for values that are not texts, the drivers of database/sql and the AWS SDK below their
-- calls (parameters), the counters' registration, the time limits of the HTTP server and the
-- shutdown. A ticker loop is the sequence of its ticks.
pub mod Prelude
pub mod Text
pub mod Action
pub mod IdGen
pub mod Storage
pub mod Logger
pub mod Cloudflare
pub mod NodeStatus
pub mod RateLimit
pub mod Metadata
pub mod Config
pub mod Admin
pub mod Upload
pub mod File
pub mod Http
pub mod Sweeper
pub mod Public
pub mod Server
