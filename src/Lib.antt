-- ===== src/Lib.antt =====
-- Discovery Net: the consensus core of the network, from bytes on the wire to the persisted ledger,
-- the home of a node, and the team of research agents that works on it.
-- Paths are those of the repository, below src/discovery_net/.
--
-- A client signs artifacts (contributions and relations between them), puts each into an envelope
-- and submits the envelopes as one signed transaction. CometBFT orders the transactions in blocks
-- and drives a node by callbacks: `check_tx` validates a transaction against the committed ledger,
-- `finalize_block` executes a decided block into a pending ledger, `commit` writes the ledger to
-- SQLite and promotes it. On a start the node reads the last snapshot and replays it. Readers of the
-- ledger keep an index of the committed artifacts, which they rebuild from a snapshot or extend by
-- the entries of new blocks, and answer queries from it.
--
-- A node is launched from a home: its genesis is verified against a trust anchor, its configuration is
-- written from the settings, and its keys stay as they are. A team of agents works beside it: a command
-- admits an agent with a prompt, its worker runs passes up to the limits of the prompt, an assessor
-- annotates the finished passes, and a dashboard draws them.
--
-- Base          names of the libraries, tests, lists, dictionaries, exceptions as results, text
-- Graph         knowledge_graph/: kinds, contributions and relations; the part of `datetime` in use
-- Wire          wire/: envelope.py (Envelope), transaction_limits.py (Limits), codec.py (Json,
--               Payload, Codec), signing.py (Signing), and the other packages (External)
-- Node          node/: transaction_validator.py (Validator), local_artifact_ledger.py (Ledger,
--               Equality), store/ (Store), _ledger_from_snapshot.py (Recovery) and
--               cometbft_callback_handler.py (Handler)
-- Index         indexing/knowledge_graph_index.py
-- Query         query/knowledge_graph_queries.py; `str.casefold` is a parameter of the title search
-- Inspector     inspector/: sources.py and sqlite_ledger_reader.py (Reading), and how service.py keeps
--               its index up to date (Advance, Follows, Steps, Interleaving) and pages its feed (Feed)
-- Submission    submission/: artifact_submitter.py, submission_receipt.py and the attached relations;
--               the two calls of the RPC client are parameters
-- Team          research_team/: controller.py (Prompt, Work, Worker, Roster), impact.py (Impact),
--               claude_code.py (Claude) and the snapshot of dashboard.py (Timeline); Host and the
--               parser of Impact are what they take from outside
-- Runtime       node/runtime/: endpoint.py and peer_address.py (Endpoint), genesis.py (Genesis),
--               genesis_validator.py, _validator_identity_files.py and the inputs of
--               cometbft_genesis_writer.py (Validators), node_launch_settings.py (Settings),
--               _cometbft_config.py (Config), _cometbft_home.py (Home); External is the other packages
-- Tests         runs on concrete inputs, and an instance of each theorem that is listed below
--
-- An exception is the `err` of `Result`, with its class; `reraise` and the tests on errors follow
-- the `except` clauses. `str` is a list of code points and `bytes` a list of bytes. The isinstance
-- checks of the code hold by typing. A method that changes an object returns the new record; one
-- that raises returns no state where the code assigns only after the last call that can raise. A
-- command of the controller, a pass and an operation on a home return the state with the result also
-- when they raise, for they may raise half-way; a stop or an error of a file may come between the
-- writes of a pass. The locks of the handler and of a home make each
-- callback and each operation one step.
--
-- `External` stands for other packages: the SHA-256 of hashlib, CIDs, Ed25519, and the JSON parser of
-- pydantic with the types of the fields. Nothing is assumed of them but what a theorem names. The
-- database is its two tables, with the constraints and the orders of the SQL text; BEGIN and
-- COMMIT make `save` atomic.
--
-- The only loops on fuel are `Text.replace`, whose fuel is the length of the text, and `Text.decimal`,
-- whose fuel is the number. The loop of a worker runs on a list of what each of its passes meets; a
-- theorem below says how many entries are enough.
--
-- Not modelled: the gRPC and protobuf layers around the handler, the HTTP client of submission/,
-- entrypoints/ and the other views of inspector/, which pass data on; the processes and the argument
-- parsers of node/runtime/ and research_team/, the rendering of a new genesis, the server
-- of the dashboard, and the reading of usage files by impact.py.
pub mod Base
pub mod Graph
pub mod Wire
pub mod Node
pub mod Index
pub mod Query
pub mod Inspector
pub mod Submission
pub mod Team
pub mod Runtime
mod Tests
