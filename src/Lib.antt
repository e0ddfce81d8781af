-- ===== src/Lib.antt =====
-- sleuthgraph-api: a model of the program's core and its theorems.
--
-- The program is a FastAPI service over PostgreSQL, the AGE graph extension and an S3 object store. A
-- user owns cases; a case holds entities, relationships between them and evidence; plugins look an
-- entity up at a remote source and propose more of each. Handlers and the worker call repositories on
-- one SQLAlchemy session, repositories send SQL and, through `run_cypher`, graph statements, and
-- `get_session` commits or rolls back. All paths below are under src/sleuthgraph.
--
-- What stands for what
-- - Base, Errors: shared names, lists and texts; the exceptions as values, and in Every what holds of every
--   result that code returns.
-- - Model: the ORM rows (*/models.py) as records, the tables as lists in insertion order, the graph as
--   the list of executed statements, a session with its transaction and what is committed, and `World`:
--   the random source, the clock, printing, whether a commit is taken, AGE, the object store, SHA-256 and
--   Fernet, all of which are arguments. A UUID is a number, a time counts microseconds, a confidence is a number.
-- - Action: a coroutine is a function from a session to a result and a session; `in_session` is the
--   dependency `get_session` of db.py, `commit`, `rollback` and `draw` are explicit steps. `try_commit` is a
--   commit that the database may refuse, as those inside the `try` of plugins/runner.py, whose handler
--   catches the failure of its own; any other commit is taken.
-- - Sql: WHERE, UPDATE, ORDER BY, LIMIT and `scalar_one_or_none`, with their lemmas (Rows, Keys, Single).
-- - Graph: Json and Attrs (graph/validators.py), Encode and Age (graph/age.py, entities/age.py,
--   relationships/age.py); Depth, Literal, Validated, Delimiter and Effects hold the proofs.
-- - Cases, Entities, Relationships, Evidence, Credentials: repository.py and router.py of the package of
--   that name, with evidence/storage.py, evidence/integrity.py and evidence/export.py under Evidence.
--   Each function has the name of the method or handler that it models.
-- - Entities/Domain is entities/validators.py; Outcomes lists the outcomes of the writes, Vertex and Mirror
--   relate rows and graph, Dedup is about deduplication; Relationships is split in the same way.
-- - Licensing: licensing.py, with the registered provider as an argument.
-- - Plugins: base.py (Base), registry.py (Registry), runner.py (Checks, Proposals and Runner) and
--   sweeper.py (Sweeper). A plugin's query is a function that returns proposals or raises.
--   Keeping, Writes, Keeps, Audit and Partial under Runner hold the proofs about a run.
-- - Plugins/Dispatch: plugins/router.py and plugins/repository.py, the handlers that start and read runs.
-- - Builtin: plugins/builtin, a module per plugin (Searches has opensanctions.py and aleph_occrp.py), and
--   Shipped, the list in plugins/__init__.py. Web holds what the plugins reach out to, as a record of
--   functions: the exchange that an attempt of a request meets, tenacity's `retry`, `json.loads`, DNS, and
--   Python's strip, lower, splitlines, quote and urlencode. Values and Patterns are Python's operations on
--   parsed JSON and the plugins' regular expressions; Proposing is the construction of proposals, whose
--   field limits are those of plugins/base.py and whose confidences count hundredths.
--   Endpoints, Named, Judged, Closed, Resolved, Caps, Found, Keys and Retries hold the proofs.
-- - Queue: queue/tasks.py, the worker's task, and Workers, the tasks of several workers as steps.
-- - GraphDump: graph/router.py.
-- - Access: the ownership check of the handlers of entities, relationships, evidence and runs.
-- - Auth: auth/oidc_provision.py (Provision, and Table for its rows), auth/rate_limit.py (ClientIp), and under Oidc the sign-in at
--   an identity provider: oidc_state.py (State), oidc_id_token.py (IdToken) and oidc.py with oidc_client.py
--   (Callback, Login). PyJWT and the OAuth client are arguments; SignedIn has the proofs. RateLimit is the
--   rest of rate_limit.py, and Password is manager.py with login.py, forgot_password.py, verify.py,
--   reset_password.py and register.py, over the user manager
--   of fastapi-users, which Bootstrap, bootstrap.py, has as an argument too.
-- - Credentials/Vault: the proofs about stored keys.
-- - Fixtures and the Tests modules: a concrete world, in which the laws that theorems assume of the
--   object store hold, and runs of the theorems on it.
--
-- Bounds and fuel. `run_cypher` tries four tags, a recursion on their number. The key, plugin name and
-- version expressions are matched by recursion on their repetition bounds 63, 63 and 31. No other
-- recursion needs fuel: each is on a list or on a value.
--
-- Not modelled: configuration, wiring of FastAPI and fastapi-users, migrations, the handler of
-- the evidence export with its JSON printing and zip container, which are library calls or input and output. Two sessions are interleaved in Queue/Workers only, at the read of the
-- run's row; any other theorem is about one session, from the state it starts in.
pub mod Base
pub mod Fixtures
pub mod Errors
pub mod Graph
pub mod Model
pub mod Action
pub mod Sql
pub mod Cases
pub mod Entities
pub mod Relationships
pub mod Evidence
pub mod Credentials
pub mod Licensing
pub mod Plugins
pub mod Builtin
pub mod Auth
pub mod Queue
pub mod Access
pub mod GraphDump
