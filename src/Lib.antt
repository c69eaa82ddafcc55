-- ===== src/Lib.antt =====
-- The engine of Open Hollywood: the canonical story state, the three bounded workflow graphs, the
-- context of a model call, and the budget and the controls of a run, as executable definitions with
-- their properties.
--
-- Parts, and the code that each is about (paths from the repository's root):
--   Artifacts    engine/open_hollywood_engine/artifacts/schemas.py and ArtifactReference of
--                workflows/contracts.py: kinds, references, critiques, reports, drafts, dialogue
--                artifacts, and the story bible with the validators of its classes (BibleRules).
--   StoryBible   artifacts/story_bible.py: `apply_story_bible_update` is `reduce`, the guards and the
--                merge, followed by `construct`, the constructor with its validator; Upsert is
--                `_upsert`; Inversion, Threads, History and Canonical are proofs.
--   Models       models/contracts.py: the envelope of one model call.
--   Dialogue     workflows/dialogue_contracts.py and dialogue_graph.py: Contracts has the records and
--                `__post_init__` rules, Nodes the state, the nodes and their checks, Graph the edges
--                and a run; Steps, Rounds and Outcome are proofs.
--   Production   workflows/production_contracts.py and production_graph.py: Contracts and Rules have the
--                records and their rules, State the checkpoint and its readers, Tasks what the nodes
--                send, Validate what they check, Review the gate, Nodes and Adjudications the nodes and
--                Graph the edges and a run; Steps, Decisions and Acceptance invert the nodes; Envelope,
--                Advance, Openings, Settlement, Errors and Bounded prove termination and that the
--                adjudications are terminal, Untouched, Progress and Gates the rest.
--   RunControls  workflows/run_controls.py: `RunBudget`, `RunUsage`, the projected limits and the
--                control commands.
--   Context      context/contracts.py and compiler.py: Contracts has the sources and the packet,
--                Manifests what a role may be given and the registry, Sources the checks and the division
--                of what a request supplies, Compiler the selection and the packet; Budget, Partition,
--                Accounting, Packets, Required, Registration and Outcome are proofs.
--   ControlStore apps/api/open_hollywood_api/services/run_controls.py and the rows of
--                persistence/models.py that it uses: Transactions has what its transactions share, Usage
--                the accounting of a run, Operations the commands, of which `transact`
--                is the course that all five share, Boundaries `before_node` and
--                `execution_boundary`; Admission, Recorded, Replay, Transitions, Finality, Stopping, Budgets
--                and Pauses are proofs.
--   Blueprint    workflows/contracts.py and blueprint_graph.py: Contracts has the table of nodes, Nodes
--                the checkpoint and what a node reads and writes, Graph the edges, the entries and the
--                invocations; Retries, Ready, Failures and Termination are proofs.
--   Routing      models/routing.py: Gateways has the two gateways that choose another one by provider,
--                deployment and model; Routes and Deployments are proofs.
--   Prelude      shared helpers; Runs has the rules for runs of a state graph.
--   Tests        concrete assignments, executors, runs and snapshots.
--
-- How the parts meet: the production graph drafts a scene, lets the dialogue subgraph play it out where
-- the unit configures one, reviews it, settles it by the gate of Review, checks the story bible's
-- transition with the reducer and accepts the scene. An executor's answers are a parameter of every
-- run, indexed by the number of the step, and may fail; nothing is assumed of them beyond what the
-- nodes check. The context compiler makes the packet of a model call within its budget of tokens; the
-- control store lets a node run when no command and no limit of the run's budget stands against it, and
-- uses the limits and the JSON form of RunControls.
--
-- Correspondence. A node is a function from a checkpoint to a result; an exception is an error value,
-- and a guard stands where the code has it. The checkpoint is kept decoded: a reference is a record
-- where the code stores a dictionary, and a missing or null key is `none`. An identifier that is a UUID
-- is an opaque number. A Decimal is an amount of a smallest unit of money, or what is no such amount.
--
-- A transaction of the control store is a function from the store to the next store and a result; one that
-- raises has no next store, as it is rolled back. It reads the clock once. Tables are dictionaries by ID.
-- json.dumps, SHA-256, token counters, Decimal's parser and printer, the redaction of secrets and the
-- equality of JSON objects are parameters.
--
-- Bounds and fuel. A run takes the runtime's limit on steps as its fuel, as the code passes it to the
-- compiled graph, and raises `recursion_limit` when it is used up. The limit that the code computes,
-- `max_graph_steps`, is proved to be enough for the dialogue and the production graph, and
-- 8 steps for an invocation of the blueprint graph, whose default is 12. The nodes of one superstep of
-- that graph read the same checkpoint, and their updates are merged in the order of the frontier; the
-- state that an invocation starts from is taken as it is given.
--
-- Not modelled: the graph runtime itself, of which only the order of node, edge and limit is used; its
-- retry policy and checkpoints; observers; text constraints of pydantic; the overall score of a
-- critique, a float; the validator of continuity findings; the observations of names in
-- a blueprint; the catalogs of models, their presets and profiles,
-- providers, evaluations, rendering, the executors of models, the other services and the worker.
pub mod Prelude
pub mod Artifacts
pub mod StoryBible
pub mod Models
pub mod Dialogue
pub mod Production
pub mod Routing
pub mod RunControls
pub mod Context
pub mod ControlStore
pub mod Blueprint
pub mod Tests
