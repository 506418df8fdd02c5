-- ===== src/Lib.antt =====
-- SentryX: an event collector that speaks the Sentry protocol. Clients send envelopes to a relay
-- (internal/sentryx/relay.go), which drops items by a policy and passes the rest to the server
-- (internal/sentryx/app.go). The server parses an envelope, files its events under issues, and
-- answers queries about them; with PostgreSQL the envelopes wait in a queue for workers, and an
-- evaluator sends alerts. These modules model the parts of the server and the relay that have no I/O.
--
-- Envelope models parseEnvelope and nextLine of internal/sentryx/app.go: the bytes behind the index of
-- the source are a list, and a round of the loop is a unit of fuel, of which parse_envelope gives one
-- for each byte. Envelope/Policy models internal/sentryx/item_policy.go. Pii models
-- internal/sentryx/pii.go, the scrubbing of personal data on the relay and the server: Pii/Scrub
-- scrubText, actionFor, scrubValue and ScrubJSON, where a JSON value is a data type and piiState is
-- passed on, Pii/Envelopes scrubItem and ScrubEnvelope.
-- Relay models internal/sentryx/relay.go: what the handler makes of a request, up to the requests that it
-- sends to the upstream and to the mirror.
-- Events models the canonical event of internal/sentryx/app.go: Events/Decode decodeEvent and
-- deriveEventTags, Events/Scrubbing scrubEventWithConfig, Events/Symbolicate Store.symbolicate, and
-- Events/Grouping the grouping hash. Ingest and Ingest/Items model Store.Ingest as a whole, from an
-- envelope to the tables of events, reports, attachments and signals; Ingest/Lists what reads these tables.
-- App models the intake of handleAPI of internal/sentryx/app.go, which guards Store.Ingest: the relay's
-- token, the keys of the projects, the rate limiter, the size of the body, and the scrubbing.
-- Store models the memory store of internal/sentryx/app.go: Store/Ingest the section of Store.Ingest
-- under the lock for an error event, Store/Status SetIssueStatus and GetIssue of
-- internal/sentryx/features.go. Each section under the lock is a function from the store to the store.
-- Query models the filters, the cursors and the pages of internal/sentryx/features.go over that store:
-- Query/Cursor encodeCursor and decodeCursor, Query/Page the cut of a page, Query/Issues ListIssuesPage
-- and ListEventsPage.
-- Jobs models the queue of internal/sentryx/worker.go and postgres.go: the rows of the table, LeaseJobs,
-- AckJob, NackJob, the UPDATE of a synchronous Ingest, the DELETE of retention, and a round of RunWorker;
-- Jobs/Interleavings the tables that any order of these statements reaches. A statement is atomic, so a second worker's statement comes
-- before or after it. Alerts models internal/sentryx/alerts.go: the retry delay, the cooldown, the
-- row that an attempt writes, and the evaluator's work on one candidate.
-- RateLimiter models RateLimiter of internal/sentryx/security.go. SourceMap models
-- internal/sentryx/sourcemap.go: SourceMap/Vlq decodeVLQ, SourceMap/Mappings decodeMappings,
-- SourceMap/Position SourceMap.Map, SourceMap/Parse parseSourceMap,
-- SourceMap/Artifacts ArtifactStore without its database. Metrics models Metrics of
-- internal/sentryx/features.go, Alerts/Rules the table of alert rules there. Control models the
-- projects and their keys of internal/sentryx/control.go.
-- Prelude has what these share: Go's strings, maps and integers over the library's lists and numbers.
--
-- A text is a list of bytes, and case and white space are those of ASCII. A time or a duration is a
-- number of nanoseconds, 0 for the zero time. A Go map is a list with one entry to a key, in the order
-- of insertion; Go itself visits a map in any order. An `int` wraps at 64 bits where source maps add
-- up numbers and where the minutes of a cooldown become nanoseconds; elsewhere the numbers are small. Code outside the repository is a parameter: SHA-256
-- (Sha, which gives 32 bytes), base64 (Base64, where decoding undoes encoding), time formatting
-- (TimeFormat, which prints no zero byte), encoding/json (Json, whose objects are one line from brace
-- to brace and are read back as written), regular expressions (Regexps, which give the matches of a
-- text), paths (Paths), the blob store (BlobStore), gzip, urls and http.NewRequest (RelayOutside,
-- AppOutside), url escapes, random ids (a function of how many have been drawn), the HTTP client, and the
-- outcome of a payload's processing.
--
-- Not modelled: the server's HTTP handlers but for the intake of envelopes, all transport, the
-- mirror's sending and its spool, SQL beyond the queue and the alert state, files and S3, the counters
-- of the metrics during ingestion, and the teams and members of the control plane.
pub mod Alerts
pub mod App
pub mod Control
pub mod Envelope
pub mod Events
pub mod Ingest
pub mod Jobs
pub mod Metrics
pub mod Pii
pub mod Prelude
pub mod Query
pub mod RateLimiter
pub mod Relay
pub mod SourceMap
pub mod Store
