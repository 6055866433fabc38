-- ===== src/Lib.antt =====
-- Verification of VectorSync, a vector database service: collections and documents with embedding
-- vectors, kept in PostgreSQL, behind gRPC handlers.
--
-- A request goes from a handler to a service (internal/services), which checks it, reads what it needs of the
-- collection from a cache (internal/db/collection_cache.go) or, on a miss, from the repository of
-- collections, and calls the repository of documents. Ingestion also cuts the text (internal/chunker) and
-- has the chunks embedded by a provider (internal/embedding).
--
-- - Base: numbers, lists, maps and actions. An action `Exec S A` passes the state on and gives a value
--   or an error (Base.Exec); Go's int is a signed integer (Base.Int), a text that is cut is a list of
--   bytes (Base.Text), a map is an association list (Base.Assoc). Base.Keeps
--   has a rule for each way to put an action together, by which a method keeps an invariant.
-- - Strings: the functions of Go's strings package that the code calls.
-- - Chunker: internal/chunker/chunker.go. Fixed, Sentence and Recursive are the three strategies. The loop of
--   Fixed has as many rounds as the text has bytes, which is enough since each round moves its
--   start on; the search of Sentence likewise. The recursion of Recursive is on the separators.
-- - Models: internal/models. Floats, JSON values and times are parameters.
-- - Cache: internal/db/collection_cache.go. Each method holds the lock throughout, so it is one step
--   (of `WarmFromDB`, what follows its query).
-- - Embedding: internal/embedding. Interface holds what the clients use of the environment and of HTTP.
-- - Db: internal/db. Vectors is the text form of a vector, Rows the loops over the rows of a query and the
--   methods of one statement, Statements the queries of the three searches and of BatchInsert with the
--   values that they bind, and Repository the other methods of document_repo.go and the repository
--   as the services use it. Collections is collection_repo.go and Connection is connection.go.
-- - Services: internal/services. Interfaces holds the repositories, which are parameters here and which Db
--   fills, and the state of a service: the cache and the world that the repositories act on.
--   Collections and Documents are the two services; Documents has Listing, Batch and Ingest for the
--   larger methods, and Coherent holds its cache against the table of the collections.
--   Interleaved takes the lookups apart into the calls that others may come in between, with the
--   goroutine of `main` that warms the cache.
-- - Handlers: internal/grpc, and internal/services/health_service.go in Health. Metadata converts the
--   maps of a message, Documents has the RPCs by ids, Searches the three searches, down to the query
--   that is run, and Collections those on collections. RoundTrip goes from a request through
--   every layer to the table and back.
--   Rpcs is the three services as `main` puts them together, each RPC from its request to its answer,
--   and Database puts the repositories of Db under them.
-- - Server: cmd/vector-sync/main.go. Each call of a library in `main` is a step by what it returns, each
--   line of the log and the exit are steps behind it, and the goroutines have steps of their own, in
--   any order; an RPC that runs may end at any time or never. Logger is internal/logger/logger.go.
-- - Metrics: internal/metrics. Inflight has RPCs that run at once, Ingestion the collectors of ingestions
--   and index builds.
-- - Examples: the theorems at concrete inputs, over a small database of its own.
--
-- What PostgreSQL answers to a statement is a parameter (`Driver`, `CollectionDriver`), and the laws on
-- it that a theorem needs are records beside the theorem: IsTransactional, KeepsDocuments, DeletesRows,
-- KeepsRows, KeepsTable, TellsTable for the query that warms the cache and, for the providers,
-- LeavesTables.
--
-- Not modelled: the generated protobuf code; logging by the services; timeouts and cancellation, but for
-- the shutdown of the gateway, which may fail; the registration of services, routes and collectors;
-- overflow of int in sums of text lengths and of the chunk size, which comes as an int32. Of the
-- panics of an index that is out of range, that of `embeddings[i]` is a result of its own
-- (Services.Documents.Ingest); the write `results[item.Index]` (Embedding.OpenAi) asks for the test
-- that it is in range, and the other lists are walked by their shape.
pub mod Base
pub mod Strings
pub mod Chunker
pub mod Models
pub mod Logger
pub mod Server
pub mod Cache
pub mod Embedding
pub mod Db
pub mod Services
pub mod Examples
pub mod Handlers
pub mod Metrics
