-- ===== src/Lib.antt =====
-- A model of the device telemetry router and its theorems.
--
-- Devices send lines of text. The parser checks a line and its checksum, the service refuses unknown
-- or inactive devices and repeats, stores the raw message and its event, asks the router which rules
-- match the event, and stores one delivery for each. A worker dispatches the deliveries that are due
-- to a topic sink, and tries again, later each time, or gives up. Rules are changed through the
-- service, which logs each change.
--
-- The files and the code they model, by paths from the repository's root:
--   Domain, Domain/Errors: internal/domain/domain.go and errors.go. A pointer that may be nil is an
--     Option. `WithDetails` writes into the package's variable; here the details belong to the error
--     that is returned.
--   Parser and its children: internal/parser/parser.go (`parse_message` is ParseMessage,
--     `checksum_hex` ChecksumHex, `build_message` BuildMessage).
--   Expr and its children: internal/router/expr.go (`match_expr` is matchExpr). Expr/Syntax is an
--     abstract syntax of expressions with their layout and spelling, its meaning and its texts.
--   Router and its children: internal/router/router.go (`match_rules` is Match, `topics` Topics).
--   Dedup: internal/dedup/dedup.go (`dedup_key` is Key, `within_window` WithinWindow).
--   Db: what internal/store relies on in a database: tables, sequences, statements that fail, and
--     transactions (`in_tx` is InTx). Db/Atomic, Db/Keeps and Db/Returns hold the rules for
--     reasoning about a run of statements.
--   Store and its children: internal/store/pg_*.go, a function for each statement.
--   Service, Service/Ingest, Service/RuleChanges, Service/Replay, Service/Listing:
--     internal/service/service.go, rules.go, replay.go and events.go (`ingest_telemetry` is
--     IngestTelemetry, `add_rule`, `change_rule` and `delete_rule` are CreateRule, UpdateRule and
--     DeleteRule, `replay_event` is ReplayEvent, `events_page` QueryEvents). Service/Safe,
--     Service/Registry, Service/Effect, Service/Recorded, Service/Duplicate and Service/Replayed hold
--     the theorems about them.
--   Auth and its children: internal/auth/auth.go (`parse_key_pairs` is ParseKeyPairs, `new_keys` the
--     loop of New, `authenticate` Authenticate).
--   Http: the responses and errors of internal/httpapi/server.go. Http/Handlers: devices.go,
--     events.go, replay.go, rules.go and telemetry.go there, a function for each handler.
--     Http/Server: the routes, wrapAuth with the middleware of internal/auth, and static.go. The other
--     children hold the theorems about requests.
--   Worker and its children: internal/worker/worker.go (`process_once` is processOnce, `run_passes`
--     the loop of Run).
--   Config: internal/config/config.go. Metrics and its children: internal/metrics/metrics.go.
--   Start and its children: cmd/server/main.go (`run`, `root_answer` is the root handler).
--   Text: the functions of Go's packages strings and encoding/hex that the code calls, on bytes.
--   External: the rest of the standard library that the code calls, and the order that
--     PostgreSQL gives to ties, as fields without laws.
--   Prelude: tests, lists, integers and byte strings that all share. Tests: runs on small inputs.
--
-- A request is a function from a World, which holds the tables, the sequences and the list of the
-- statements that the driver will fail, to a result and the next World. The clock, the fresh id and
-- the operator of a request are arguments.
--
-- A recursive-descent parser calls itself on text that each call shortens. The model runs it on
-- fuel of 4 * length + 3: four calls at most, or, and, atom and the loop after it, stand between two
-- bytes that are consumed.
--
-- A request carries its method, path, key, body and query. The matching of patterns by net/http
-- (`Mux`), the decoding of JSON bodies and of numbers (`Codec`), and the serving of files (`Static`) are
-- parameters; what a theorem relies on of the first is the hypothesis `IsMux`.
--
-- Not modelled: internal/migrate, whose tables are those of Db and Store; the socket, the signals and
-- the shutdown of cmd/server; the clock of the worker's ticker; logging, the mutexes, and the recovery
-- from panics; requests that run at the same time. In the pages of events, the order of
-- rows of one time is a parameter (`tie_order`); elsewhere, where ORDER BY leaves such rows unordered,
-- the model keeps the order of the table.
-- The tables keep a time's nanoseconds and a document's text, where the
-- database keeps microseconds and its own form of the document, and priorities have no bound. Ids are
-- ordered by their bytes, as under the C collation.
mod Prelude
pub mod Domain
pub mod External
pub mod Text
pub mod Expr
pub mod Router
pub mod Parser
pub mod Db
pub mod Store
pub mod Dedup
pub mod Service
pub mod Auth
pub mod Http
pub mod Worker
pub mod Config
pub mod Metrics
pub mod Start
mod Tests
