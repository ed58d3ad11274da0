-- ===== src/Lib.antt =====
-- Verification of the Comunidad Solar web: the store of editorial changes (src/ingest) and the
-- Worker's handling of requests (src/lib).
--
-- An editorial change lives in a directory with a record (`state.json`), a journal of events that are
-- chained by hashes, a lock file and a guard under which the lock is taken. An operation of the store
-- takes the lock, reads and checks record and journal against each other, appends an event, writes
-- the journal first and then the record, and gives the lock back.
--
-- Json: JSON values and src/ingest/canonical-json.ts (`canonicalJson` is `canonical_json`); objects
--   are read field by field in Json/Decode.
-- Ingest/Domain: src/ingest/domain.ts, the states and `allowedTransition`.
-- Ingest/Journal: src/ingest/journal.ts. Events holds the events and `isJournalEvent`
--   (`decode_event`), Format the text form.
-- Ingest/Record: the record of a change, `assertChangeRecord` and `recordFromJournal` of
--   src/ingest/state-store.ts.
-- Ingest/Disk: the files of one change and the effects on them. The clock, the tokens and the faults
--   of the file system are functions of how often they were asked for; a write works, fails before
--   the file is replaced, or fails after that.
-- Ingest/Store: `readState`, `readJournal`, `verifyJournalFor`, `persistTransition`,
--   `recordLockRecovery` and the body of `retryChange`; OnDisk ties what is read to the files.
-- Ingest/Owner and Ingest/Lock: owner files, stale locks, the guard and `acquireLock`; Owner/Abandoned
--   says apart from the source which owners are gone.
-- Ingest/Api: `withChangeLock`, `transition`, `retryChange` and `verifyJournal`.
-- Ingest/Effect: computations that may throw and change a state, which the store and the approvals
--   share.
-- Ingest/Schema, Ingest/Plan and Ingest/Candidate: the plan of a change and the manifest of a
--   candidate (src/ingest/domain.ts) with the tests that schemas/ingestion makes of them.
-- Ingest/Dossier: src/ingest/dossier-integrity.ts. The parent has `sanitizedCandidateProjection` and
--   `candidateDossierPreimage`, Commitment the bindings, the schema candidate-dossier-preimage and
--   `candidateApprovalSubject`, Files `sanitizedDossierSha256`, Accepted the preimages that the schema
--   accepts.
-- Ingest/Approvals: src/ingest/approvals. Approval is the record, Baseline `protectedMainBaseline`,
--   Prompt the prompts and the fixture run of prompt.ts, Office the files of the approvals,
--   Provenance and Sealed the sealed provenance, Verify `verifyApproval`, Service `approveGate1` and
--   `approveGate2`. Steps has the steps of a fixture run, in which `createPrompt` and `dispose` are cut
--   at their waits, and Disposal its states.
-- Ingest/Planning: src/ingest/planning. Request is `NormalizedRequest`, Mode the composition mode and
--   the catalog, Outputs the paths and the manifest of routes, Create `createChangePlan`; its plan is
--   the one that Ingest/Approvals takes. Ingest/Validation: `validateGeneratedRoutes` of
--   src/ingest/validation/routes.ts.
-- Routing: src/lib/routing (the inventory of old paths, the answers before Astro) and src/lib/http (the
--   policy on Astro's responses). Headers are lists of lower-case names and values; the URL of a
--   request is already parsed, so a pathname is ASCII.
-- Auth: src/lib/auth, identities, the lists of the private areas and the return path of a sign-in.
-- Manganafer: src/lib/manganafer/interest.ts (Interest validates, Form handles a request and returns its
--   response with the calls of the storage), src/lib/manganafer/csv.ts (Csv), and the
--   quotes of src/lib/manganafer/quote.ts and quote-config.ts (Quote): Config is the configuration,
--   Invoice and Distance what is read of the answer for a CUPS, Candidate the ranking, Handler
--   `handleQuoteRequest` with the calls that it makes of the two services.
--
-- Parameters: SHA-256, `JSON.parse` and `Date.parse` are fields of Ingest/Platform, and the
-- process's host is Ingest/Disk.Host; of SHA-256 only the form of its digests and, where it is
-- named, that two given events do not collide are relied on, and that a text which the program
-- printed is read back by `JSON.parse` is a hypothesis where it is used. The lower case of any
-- script, URI coding and URL parsing are fields of Auth.Runtime, and the storage of the form is
-- a field of Manganafer/Form.Dependencies. The numbers of the quotes, which are not whole, are a type
-- with the operations of Manganafer/Quote/Numbers.Arithmetic, and the services that a quote asks are
-- a field of Manganafer/Quote/Handler.QuoteRuntime.
--
-- What the approvals ask of Git, of the file system around the repository, of the clock and of the
-- person at the terminal is in Ingest/Approvals/Office.Surroundings; the HMAC with the key of the
-- process is a function there, of which nothing is assumed but the form of its digests.
--
-- Every loop of the source runs over a list and is structural recursion here; the numerals of
-- `decimal` are printed on fuel of one more than the number, which is more than it has digits.
-- Counters are natural numbers, and what the source reads back is checked against 2^53 - 1.
--
-- Not modelled: the interleaving of two processes inside one operation (another process shows as what
-- the files hold when an operation starts), the creation of directories, a file that changes while it
-- is read, test hooks, and the parts of the repository that render pages, call git or third-party
-- programs, or hold content.
pub mod Auth
pub mod Ingest
pub mod Json
pub mod Manganafer
pub mod Prelude
pub mod Routing
