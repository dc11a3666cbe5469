-- ===== src/Lib.antt =====
-- The custd Go SDK: an ingestion client with validation, a bounded queue, batching, retries and
-- imports, and its administration clients.
--
-- Parts, and the files that model them (paths from the root of the repository):
-- - Base: what every part shares. Go strings are lists of code points (Base/Texts, with
--   `strings.TrimSpace`, `HasPrefix` and the UTF-8 length of `len`), maps are association lists of
--   which the first entry of a key counts (Base/Dict), `(value, error)` is a result
--   (Base/Results), `int` is a sign and a size where a value may be negative (Base/Int), and
--   decimal printing and reading are in Base/Decimal. A string that is not valid UTF-8 lies
--   outside the model.
-- - Queue (queue.go): the bounded queue that drops the oldest. Each method runs under its mutex,
--   so it is one step on a record. A slice that Go would panic on is `none`.
-- - Pattern (the regular expressions of validate.go, environment.go, admin_data_scopes.go,
--   raw_ingest.go and timeplan_validation.go): recognisers, and for label keys a grammar.
-- - Event (types.go, validate.go, environment.go): the envelope, `ValidateEvent`, and the label
--   that carries the environment. A function that writes through the caller's pointer returns the
--   event as it is afterwards.
-- - Ids (ids.go, raw_ingest.go): identifiers from sixteen random bytes and the clock, which are
--   arguments.
-- - Config (config.go, client.go): the configuration and its defaults; `float64` is a parameter.
-- - Errors and Retry (errors.go, retry.go, client.go): problem details and their text, request
--   errors, and `withRetry` over a world in which the operation and the wait act. The loop runs on
--   the attempts that are left, which start as the configured number, so it never runs out.
-- - Batch and Client (client.go, ids.go, response half of types.go): the check of a batch
--   response, and `Track`, `Flush`, `Close` and the loop of the background flusher as run by one
--   goroutine over a state of queue, closed flag and world. Decoding, compression, URL parsing,
--   the network, and fresh identifiers are parameters.
-- - Delivery (client.go, queue.go): the queue between goroutines, as a step relation whose steps
--   are the queue's methods, with the history of tracked, delivered and dropped events beside it.
-- - Response (response.go and two checks of raw_ingest.go): what a success body must hold. A body
--   is a text, and what encoding/json reads in it is a parameter.
-- - RawIngest (raw_ingest.go): the upload of raw lines, its local checks, its one request, and the
--   three outcomes: a receipt, a refusal, and an acceptance that is unknown.
-- - Authority (application_authority.go): the check of an application's token, which returns a
--   decision beside its error.
-- - Dogfood (dogfood.go): the payload cleaned of credentials and the event built from it. A Go
--   `any` is a string, a map of fields, a list, or another value; the code looks into maps only.
-- - Issuer (diagnostics.go): `InspectIssuer`, which trusts a URL before it sends anything to it,
--   and the redirect check that it gives to net/http.
-- - Setup (setup.go): the request for a producer and the scopes that are asked for.
-- - Url: net/url as the SDK uses it, `PathEscape`, `QueryEscape`, `Values` and their reading, over
--   the UTF-8 bytes of a text.
-- - Admin (admin.go, client.go): the transport of the administration client over a host with an
--   injected client or an `http.Client`. Admin/Transport has its request functions,
--   Admin/Operations one type of requests for each client with what it sends (admin.go,
--   admin_extended.go, admin_auth_project*.go, admin_auth_principal*.go, admin_data_labels.go,
--   admin_data_scopes.go, admin_users.go, admin_support_access.go, admin_impersonation.go,
--   admin_notification_webhooks.go, admin_environment_policy.go, admin_tenant_manifest.go,
--   admin_system_status.go, admin_oauth_admissions.go, admin_reporting_packs.go, measurement.go,
--   prediction.go), Admin/Performing runs one, and Admin/Download is the checked download of an
--   offboarding. A request type is a parameter, since it is only marshalled; so are a response
--   type and SHA-256. Every request type is a call of one request function, so an operation that
--   sends several, `ProvisionRealm`, is not among them.
-- - WorkflowTiming (workflow_timings.go): `AppendBatch` with its chunks, checks and merging, and
--   the deterministic idempotency keys. The length of an encoded observation is a parameter.
-- - DataScope (admin_data_scopes.go), TimePlan (timeplan.go, timeplan_validation.go) and Analytics
--   (analytics_events.go): the requests and their local validation. `time.Parse` is a parameter,
--   and so is the order in which a `range` over a map visits its entries.
--
-- Client uses Queue, Event, Config, Batch, Retry and Errors as the Go code calls them; Delivery
-- uses the queue alone; RawIngest, Authority, Issuer and Admin read a status as Errors does and
-- send requests of Client, and Dogfood fills in identifiers as Client does. A validation returns
-- the first error as an option, in the order of the code.
--
-- Not modelled: the text of most error messages (an error is the data it is formatted from),
-- floating point (the backoff delay stands behind the wait argument), encoding/json, net/http and
-- oauth2, the fields of request and response records of the administration clients, and overflow
-- of Go's `int`, which the compared values do not reach. Of the failures that the code guards
-- against, two that do not occur are left out: the path that `actingCompanyPath` parses is one
-- that the SDK has escaped, so it parses, and reading random bytes does not fail.
pub mod Base
pub mod Queue
pub mod Errors
pub mod Retry
pub mod Url
pub mod Admin
pub mod Pattern
pub mod Event
pub mod Ids
pub mod Config
pub mod Batch
pub mod Client
pub mod Delivery
pub mod Response
pub mod RawIngest
pub mod Authority
pub mod Dogfood
pub mod Issuer
pub mod Setup
pub mod WorkflowTiming
pub mod DataScope
pub mod TimePlan
pub mod Analytics
