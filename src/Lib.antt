-- ===== src/Lib.antt =====
-- A model of the event analytics backend and of the event generator, and proofs about them.
--
-- The generator (event_generator/) makes web events and writes them to a Redis stream. The backend
-- (backend/app/) reads the stream in batches, stores the events in PostgreSQL, and lets users query
-- them: with free SQL that a policy admits or rejects, with structured Explore requests over a
-- catalog of datasets, and with view tables that users create from a query. A process-local
-- lifecycle state decides what the endpoints for readiness and the heartbeat answer.
--
-- The files and the code that they model:
-- - In Base, texts, lists, tests, and results that may be errors.
-- - In Lifecycle, backend/app/platform/lifecycle/state.py, every method as a function from state to
--   state, and the status code of backend/app/platform/health_router.py. Calls makes sequences of
--   method calls: the object's lock lets any interleaving of threads be one.
-- - In SqlPolicy, backend/app/event_analytics/application/query_policy.py. Parser holds the part of
--   sqlglot that the policy calls, as a parameter; it may raise the ParseError that the policy
--   catches, or the TokenError that it does not.
-- - In Catalog, analytics_catalog.py of backend/app/event_analytics/domain/ and of its sibling
--   application/, with application/analytics_catalog_service.py.
-- - In Explore, application/explore_query_service.py and domain/explore_query.py; Explore.Select: the
--   SELECT builder of infrastructure/repositories/postgres_analytics_query_repository.py. It uses
--   the catalog that Catalog gives it.
-- - In ViewTable, application/view_table_service.py. It calls the policy with the catalog's names and
--   "events" as the allowed relations, and the dataset repository, which is a parameter with a
--   state of its own.
-- - In Ingest, domain/events.py, interface/schemas/events.py, application/ingest_events_usecase.py,
--   infrastructure/streams/redis_stream_consumer.py, postgres_event_repository.py of
--   infrastructure/repositories/, and `poll_once` and `run_forever` of interface/consumer_lifespan.py. Redis, the
--   table, the JSON decoder and the payload validation are parameters, the first two with the laws
--   that their documentation states. An entry that Redis trims while it is pending is read without
--   fields, so delivery is stated of entries that the stream retains.
-- - In Repository, the rest of postgres_analytics_query_repository.py: Sql its statements' texts, Rows
--   what it makes of rows, Methods its methods. Database is PostgreSQL behind SQLAlchemy, a parameter
--   with the laws of its transactions and of its read-only mode. The upsert, the delete and the query
--   of the metadata are data that the repository's own builders make, in Metadata; the laws say what
--   PostgreSQL does with any such statement, in the terms of Semantics.
-- - In Queries, application/sql_query_service.py and `execute` of application/explore_query_service.py,
--   over a repository that is a parameter; Queries.Postgres puts that of Repository in its place.
-- - In Charts, application/chart_suggestion.py and domain/query_result.py.
-- - In Generator, event_generator/generator.py, in EventId, Clock and Events; traffic_profile.py in
--   Traffic; faker_catalog.py in FakerCatalog; models.py. Python's random source and Faker are
--   parameters with the documented ranges of their results.
-- - In TraceContext, backend/app/platform/logging/context/http_request.py; in TraceContext.Middleware,
--   backend/app/platform/middleware/request_logging.py. The active span of OpenTelemetry and the next
--   handler are parameters by what they answer.
--
-- Conventions. A Python method is a function of the object's state; an exception is an error value;
-- asynchronous calls are sequential, since each modelled routine awaits its calls one by one. A set
-- of names is a list of which only membership is looked at. Regular expressions are written out.
-- Integers are unbounded, as in Python; only the permuted counter of the event ids wraps, and the
-- wrap is written `% 2 ^ 64`. The ingestion loop is given how often it finds the stop event unset.
-- The printing of digits has fuel: as many steps as the number, which is at least its number of
-- digits. The search for a free identifier has fuel for one round more than there are identifiers in
-- use, which is proved to be enough. An amount is kept in cents.
--
-- Not modelled: the HTTP routers and schemas, the formatting of logs, the wiring of the application,
-- migrations, lint scripts, the sinks and the command line of the generator, the frontend; the waits
-- of the ingestion loop and its cancellation.
pub mod Base
pub mod Lifecycle
pub mod SqlPolicy
pub mod Catalog
pub mod Explore
pub mod ViewTable
pub mod Ingest
pub mod Charts
pub mod Repository
pub mod Queries
pub mod Generator
pub mod TraceContext
