-- ===== src/Lib.antt =====
-- meta_loop drives coding tasks through a governed pipeline. A task is an immutable value with a state
-- machine; its changes are stored under an expected version, next to an append-only history of events;
-- work is handed out by a queue with leases; runner sessions, workspaces, artifacts, publications,
-- reviews, remote effects and check runs each have a ledger that accepts a thing once. Services combine
-- the stores inside a unit of work, under a fuse that stops new work and under governance.
--
-- What stands where (paths from the repository's root):
--   Base          what is shared: equality, Python's dictionaries and exceptions, integers, times, texts,
--                 and `json.dumps` with sorted keys; Base.Errors has src/meta_loop/domain/errors.py
--   Domain        src/meta_loop/domain: enums.py, artifacts.py, events.py (Event) and task.py (Task, with
--                 the policy in Task/Transition and reachable tasks in Task/Lifecycle)
--   Models        src/meta_loop/application/models.py: every record with the checks of its __post_init__
--                 and its canonical text
--   Memory        src/meta_loop/infrastructure/memory.py: a module for each store, and UnitOfWork. A
--                 method `m` of a store is a function from the arguments and the store's dictionaries to
--                 a result and the new dictionaries; `get`, `create` and the like carry the store's name
--                 (get_task, create_task, append_approval)
--   Services      src/meta_loop/application: controller.py (Intake, with the fuse), services.py
--                 (Transitions), runners.py (Sessions), artifacts.py and workers.py (Workers),
--                 workspaces.py (Allocation). publication.py is
--                 Publishing, a module for each of its services: Preparation, Approval, Remote (the
--                 publication itself) and Gate (the checks); a `with` block that ends without a commit
--                 leaves the store as it was. ingestion.py is Issues (the contract in an issue's text and
--                 its parser) and Ingestion (the service)
--   Infrastructure
--                 src/meta_loop/infrastructure: github_checks.py (CheckRuns), publication.py (Patches,
--                 the tests on patches and paths; Candidates, the preparer and the verification; and
--                 Verifier, its configuration and call), cas.py (Blobs, on a dictionary of files) and
--                 github.py (Publisher), over what Git, Docker and the remote side answer; the
--                 publisher runs on a remote state that is left open
--   Codecs        src/meta_loop/serialization/codecs.py: the two writers
--   Tests         runs on small inputs
--
-- How the code is read. A dictionary is the list of its items in the order of insertion. A method
-- that raises returns an error, which is the exception's class without its message, beside the
-- state at that moment. Integers are Python's, without bound; where the source rules out a
-- negative number they are natural numbers. A time is a count of microseconds in UTC; lease
-- durations are not negative. Frozen records are records, and the checks of Python types that a
-- constructor makes are left to the types. A mapping that is a payload is the list of its items
-- sorted by key. Texts of canonical requests are lists of character codes. The clock's and the id
-- generator's values, the governance reader, the blob store's answer, sha256, the candidate
-- preparer, the publisher, the source of check runs, the runner and the workspace manager are
-- arguments of the services; nothing is assumed of them. The unit of work keeps its dictionaries
-- on a heap, since commit shares them. Loops run over lists and need no fuel, but for the printing
-- of decimal digits, which has one unit more than the number, and the search of fenced blocks,
-- which has one unit for each character. `json.loads` is an argument of the issue parser,
-- `datetime.fromisoformat` one of the check source, and `shlex.split` and UTF-8 decoding are
-- arguments of the patch tests.
--
-- Not modelled: src/meta_loop/infrastructure/postgres.py and migrations.py (SQL), workspaces.py
-- (files and processes), the issue source and the HTTP transport of github.py, the processes that
-- publication.py and github.py start (their answers are arguments), src/meta_loop/cli (wiring),
-- and the readers of the codecs.
pub mod Base
pub mod Domain
pub mod Models
pub mod Infrastructure
pub mod Memory
pub mod Services
mod Tests
pub mod Codecs
