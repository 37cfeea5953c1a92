-- ===== src/Lib.antt =====
-- The job board's back end: a Go service with a public API for job listings and applications, an
-- admin API, outbound webhooks, and PostgreSQL and S3 behind it. Handlers (internal/api) authenticate
-- a request with an API key, call a service (internal/service), which validates its input with
-- internal/domain, works on a repository (internal/store/postgres), and hands events to the webhook
-- dispatcher (internal/webhook), whose worker delivers them.
--
-- Files and the code they model:
--   Domain/Types       internal/domain/{errors,job,application,application_note,api_key,webhook}.go
--   Domain/Values      internal/domain/validation.go: IsEmptyValue, IsValidURL, IsValidNumber,
--                      IsValidBoolean, IsValidOption, on dynamic values (`interface{}`)
--   Domain/Formats     the e-mail and field-id patterns, the tests of the enumerations
--   Domain/Slug        IsValidSlug, GenerateSlug; Slug/{Automaton,Valid,Stable} prove about them
--   Domain/Report      what the validators share: lists of reported issues
--   Domain/Candidate, Domain/Answers, Domain/CustomFields, Domain/JobInput, Domain/Requests
--                      the validators, each a function from its input to the reported details
--   Auth               internal/auth/auth.go and internal/api/middleware/auth.go
--   Store/TextArray, Store/Uuid
--                      internal/store/postgres/helpers.go: TextArray, and isUUID
--   Store/Database     the tables of migrations/000001_init_schema.up.sql, what PostgreSQL decides,
--                      the answers of statements, and mapDBError
--   Store/Jobs, Store/Applications, Store/Notes, Store/Keys, Store/Subscriptions
--                      the repositories internal/store/postgres/{job,application,application_note,
--                      api_key,webhook_subscription}_repo.go; their children prove about one each
--   Store/Calls        the calls of the repositories that write, in any sequence
--   Store/Integrity    the constraints of the schema: Tables and Answers have the lemmas, Rules the
--                      invariant, *Rows its preservation by each statement, Reachable by all
--   Webhook/Dispatcher internal/webhook/dispatcher.go; Steps has the interleavings, Policy one
--                      delivery, Bounds what every reachable state keeps, Progress what is left
--   Webhook/Signer     internal/webhook/signer.go
--   Service/World      internal/domain: the repository interfaces, and the log of events
--   Service/Paging, Service/Jobs
--                      internal/service/job_service.go
--   Service/Applications, Service/Pipeline
--                      internal/service/application_service.go: Apply, and the other operations
--   Service/Webhooks   internal/service/webhook_service.go
--   Storage/Memory     internal/storage/memory.go; Refines makes it a storage of the service
--   Storage/Names, Storage/Header, Storage/Resume
--                      internal/storage/validation.go: file names and keys, the checks of what an
--                      upload declares and of the resume itself
--   Api                internal/api: Responses has internal/api/httputil/response.go and the mapping from
--                      errors to statuses, Queries the query strings, Public, Admin and Webhooks the
--                      handlers of internal/api/v1/{public,admin}.go, and RateLimit
--                      internal/api/middleware/ratelimit.go
--   Text, Prelude      Go strings and the functions of the package strings; shared names and lemmas
--   Tests              inputs at which the definitions run and the theorems are applied
--
-- How the code is modelled. A string is the list of its code points, for valid UTF-8, and `len`
-- counts the bytes of its encoding; a slice that is cut at a byte position is cut only where all
-- characters are ASCII. A pointer is an Option; a nil slice and an empty one are the same where the
-- code treats them alike. A float64 is a finite one, an integer multiple of 2^-1074, which has the
-- same order. Times are numbers of seconds. What the clock, the random source, the network and the
-- hash answer is an argument. Large tables and parsers of the standard library (Unicode case
-- mapping above ASCII, EqualFold, ParseFloat, ParseAddress, ParseRequestURI, Sprint) are the record
-- Platform, and theorems hold for every Platform. A repository is a record of functions over any
-- state type: the services are proved for every implementation. A resume is its bytes and whether
-- reading past them fails.
--
-- The database is a record of tables, each a list of rows, the latest first; a row is the entity
-- that it stores, and a JSON column holds the value that was encoded. A statement is one transaction,
-- and gives rows or an error. What the program does not say of PostgreSQL is the record Postgres,
-- another one for each statement where a theorem has a sequence of them: whether the connection
-- fails, which texts are uuids, what the types of the columns refuse, ILIKE, ORDER BY, NUMERIC and
-- array literals. NOW() and gen_random_uuid() are arguments.
--
-- The dispatcher has one worker. Each step of it is what one goroutine does between two channel
-- operations, with the mutex held as the code holds it; a cancelled context is a stop. Loops are
-- structural recursion, but for the one that collapses underscores in a file name: its fuel is the
-- length of the name, and each round makes the name shorter.
--
-- Not modelled: log output, JSON encoding and decoding, multipart forms, the HTTP server and router,
-- the SQL driver, S3 and the configuration.
pub mod Prelude
pub mod Text
pub mod Domain
pub mod Store
pub mod Storage
pub mod Auth
pub mod Webhook
pub mod Service
pub mod Api
pub mod Tests
