-- ===== src/Lib.antt =====
-- Document Core takes documents in, classifies them and delivers them to target systems. This
-- library models its store, its audit log, its secrets, its classification, its pipeline, its
-- licenses and connectors, the checks of incoming files, and the core of its web interface.
--
-- The parts, with the code that they model and the way they work together:
-- * Store (src/document_core/store.py) models the class `JobStore`, one module for each table. A
--   table is a list of rows in the order of their insertion, and a method is a function from the
--   table to its result and the new table. Store/Jobs.antt is the table of the documents, which
--   workers claim with a lease; Store/Events.antt holds the activity log of each document;
--   Store/Audit.antt the audit log, whose anchor lives in Store/Settings.antt; Store/Targets.antt
--   the target systems, whose secrets Secrets/Cipher.antt encrypts; Store/Rules.antt the rules
--   that choose a target; Store/Users.antt the accounts and their sessions; Store/Channels.antt
--   the input channels; Store/Heartbeats.antt the signs of life of the workers.
--   Store/Database.antt holds the tables that the pipeline uses, together with the cipher.
-- * Pipeline (src/document_core/pipeline.py) models the methods `ingest`, `process`, `release` and
--   `review`
--   of `DocumentPipeline`, with `_event`, `_apply_delivery_rule`, `_deliver` and
--   `_finalize_work_copy`. A method runs on the job object, the store and the files
--   (Pipeline/World.antt); what it calls outside of them is the record `Environment`.
-- * Secrets (src/document_core/secrets.py) models `SecretCipher`: encryption, migration to a new
--   key, and the redaction of every text that goes into a log.
-- * Processing (src/document_core/processing.py) models the classifier by keywords, the workflow
--   rules and the metadata of results.
-- * Models (src/document_core/models.py), Config (src/document_core/config.py) and Connectors
--   (src/document_core/connectors.py) hold the records and errors that the parts exchange.
--   Connectors/Http.antt is the reading of an HTTP target's reply, Connectors/Transfer.antt the
--   multipart body and the ranges of a large upload to Microsoft Graph.
-- * Web (src/document_core/api.py) models routes on top of the store and the pipeline: the
--   middleware `authorize` (Web/Access.antt), login and accounts (Web/Accounts.antt), the jobs
--   (Web/Jobs.antt), the input channels (Web/Channels.antt), and the audit log with its daily
--   upkeep (Web/AuditTrail.antt). A route runs on the tables, the files and the clock of the
--   service (Web/World.antt) and ends in an answer, an
--   `HTTPException` or another exception.
-- * Auth (src/document_core/auth.py) models the hashing of passwords; Licensing
--   (src/document_core/licensing.py) the check of license keys; Registry
--   (src/document_core/connector_registry.py) the connectors that licenses open.
-- * Intake models the check of a file's type (src/document_core/file_validation.py) and the scan
--   for malware (src/document_core/malware.py).
-- * Json is the type of the JSON columns, Table the operations on keyed rows, and Prelude the
--   shared helpers: tests, lists, sorting, decimal numbers, texts and results that may fail.
-- * Tests holds runs on concrete data.
--
-- How the code is translated:
-- * A time is a number of microseconds, and the clock reading of a call is its argument. A lease
--   of n seconds ends n * 1000000 after the reading.
-- * An exception is the `raise` of an `Outcome`; a transaction that raises leaves its tables as
--   they were. A unique index is the test that refuses the write.
-- * `SELECT … FOR UPDATE SKIP LOCKED` takes a function that says which rows other transactions
--   hold. Where the code leaves the order of equal rows to the database, the row inserted first
--   comes first; in the search and the export of the audit log, where a page depends on it, the
--   order is an argument.
-- * The status column holds the enumeration, and the JSON columns the records they are dumps of.
-- * Loops are structural recursion. The printing of a number runs on fuel, one more than the
--   number, which is enough since each step divides it by ten; the reading of a file in chunks
--   on as many rounds as the file has bytes, which is enough since each round reads one at least.
--
-- Parameters of the model: SHA-256, the canonical JSON text and the ISO form of a date (the
-- record `Hashing`), Fernet and MultiFernet (the record `Keys`), lower-casing, and for the pipeline
-- the record `Environment`: clock, identifiers, extractor, classifier, metadata patterns,
-- connectors, files, and the texts of the errors of pydantic and of the database. The web interface
-- adds the record `WebEnvironment`, passwords the record `Crypto` (PBKDF2, base64, SHA-256, random
-- bytes), licenses the record `Signing` (Ed25519, base64, JSON, dates), the malware scan the
-- record `Network` (the socket and the reading of the file), the HTTP connector the record
-- `HttpLibrary` (the parsers of JSON, of numbers, of dates and of content types), and the input
-- channels the record `PathLibrary` (pathlib).
--
-- Not modelled: the overflow of `datetime` after the year 9999, the limits on the length of
-- texts but for the message of an event, the SQL engine, the worker, the upload route, negative
-- numbers in the settings, an explicit null in the update of an account, the routes for
-- targets, rules, licenses and the system status with their validation, the CSV export, cookies
-- but for their values, the extraction of text from PDF files and images, the requests of the
-- connectors, the paths of the filesystem connector, and the migrations of the schema.
pub mod Prelude
pub mod Json
pub mod Table
pub mod Secrets
pub mod Store
pub mod Processing
pub mod Config
pub mod Connectors
pub mod Models
pub mod Pipeline
pub mod Tests
pub mod Auth
pub mod Web
pub mod Licensing
pub mod Registry
pub mod Intake
