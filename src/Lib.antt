-- ===== src/Lib.antt =====
-- agent-torrent, a peer-to-peer network in which coding agents delegate tasks to each other for
-- credits. One process is requester and worker at once: it announces itself by signed beacons
-- (discovery), exchanges signed messages over connections (protocol, identity), validates what the
-- network sends (job, manifest), and keeps its credits in a double-entry ledger (ledger). `delegate`
-- (peer) ties them together: it puts a credit in escrow, offers the job to a worker, and pays or
-- refunds. The command line asks the running peer over a connection of the same protocol.
--
-- Files, and the code that they model:
--   Prelude, Prelude/Int, Prelude/Text: numbers, tests and texts that all parts share.
--   Py, Py/*: the values of JSON, the exceptions and their texts, indexing and `get` on a value that
--     need not be a dictionary, and methods that change an object and may raise.
--   Checks: the run of checks that job.py and manifest.py share.
--   Job: agenttorrent/job.py (`new_job`, `validate_job`).
--   Manifest: agenttorrent/manifest.py (`detect_harnesses`, `build_manifest`, `validate_manifest`).
--   Ledger: agenttorrent/ledger.py; Ledger/Records is what `records` returns, Ledger/Methods is about
--     single calls, Ledger/Posting and Ledger/Invariant about the record that a call adds,
--     Ledger/Sound, Ledger/Moves and Ledger/Final about runs, Ledger/Accounts about the life of
--     one job, Ledger/Pending about a job among the calls of other threads, Ledger/Jobs, Ledger/Held,
--     Ledger/InEscrow and Ledger/Bounds about the credits in escrow. Ledger/Disk and Ledger/Faults are
--     about writes of its file that fail.
--   Identity: agenttorrent/identity.py (`seal`, `open`); Identity/Hex is `bytes.hex` and
--     `bytes.fromhex`, Identity/KeyFile is `load_or_create`.
--   Protocol, Protocol/Verify: agenttorrent/protocol.py (`send`, `recv`, the handshakes);
--     Protocol/Roundtrip and Protocol/Handshake are about messages from one end to the other.
--   Discovery, Discovery/Beacon: agenttorrent/discovery.py (the peer table, `_handle_beacon`,
--     `_recv_loop`); Discovery/News, Origin, Table, Gossip, Meet, Crash and Live are about them.
--   Discovery/Sender: `_send_loop` of agenttorrent/discovery.py.
--   Peer/Delegate: `Peer.delegate` of agenttorrent/peer.py; Peer/Delegate/Candidates is the choice
--     of the worker, Peer/Delegate/Report the dictionaries that it returns.
--   Peer/Worker: `Peer._handle_task_offer` of agenttorrent/peer.py; Peer/Worker/Answers is about its
--     checks, Peer/Worker/Earns about the ledger.
--   Peer/Control: `Peer._handle_control` of agenttorrent/peer.py.
--   Peer/Serve: `Peer._serve_connection` of agenttorrent/peer.py; Peer/Serve/Course is about the
--     handlers that a connection can reach, Guard and Lawful about what it can change.
--   Peer/Deal: the requester's and the worker's end of one delegation, in agenttorrent/peer.py.
--   Peer/Settings: `PeerConfig.load` of agenttorrent/peer.py.
--   Peer/Node: one peer over its life, `Peer.__init__` and `Peer.start` of agenttorrent/peer.py with
--     the connections, datagrams and restarts that follow; Peer/Node/Refines and Spending are about
--     its ledger, Meeting about how two peers find each other.
--   Peer/Lifecycle: `Peer.start`, `Peer.stop` and `Peer.run_forever` of agenttorrent/peer.py, with
--     `Discovery.start` and `Discovery.stop` of agenttorrent/discovery.py.
--   Peer/Threads: `Peer.delegate` in the pieces between which other threads run; Safe and Schedules
--     are about every schedule of them, Credit, Escrow and Exact about the credits of the calls that
--     wait, Lost about restarts, Alone about a call with no other beside it.
--   Executor: agenttorrent/executor.py; Executor/Sandbox is about the variables of a harness,
--     Executor/Confined about what a job can launch, Executor/Run about the result.
--   ApiHarness: agenttorrent/api_harness.py; ApiHarness/Answers and ApiHarness/Exits are about it.
--   Cli, Cli/Request, Cli/Show: the commands of agenttorrent/cli.py that ask the running peer, and
--     `_control_request`; Cli/Talk and Cli/Wire are about a command line and its peer at the two ends
--     of a connection. Cli/Parser is `build_parser`, Cli/Mesh `main`, `cmd_start` and what the commands
--     take from a namespace; Cli/Typed, Cli/Start and Cli/Runs are about parsed command lines, and
--     Cli/Printed is about the lines that `mesh ledger` prints.
-- A field of a record is an attribute of the class of that name, and a function is named like the
-- method that it models, without a leading underscore; `open` is `open_envelope`, `PeerConfig.load` is
-- `load_config`, and `__init__` of `Identity`, `Ledger` and `Peer` are `identity`, `open_ledger` and
-- `start_peer`. A method of an object takes the object last and returns it beside its result, also
-- when it raises.
--
-- What stands in for the system. SHA-1, Ed25519 and the bytes of `json.dumps` are the parameter
-- `Crypto`; the hypotheses `CryptoLaws` are that a signature verifies under its key, that keys
-- and signatures are bytes, and that a digest has forty characters. A connection is two scripts,
-- of what each `recv` and each `sendall` meets; a line or a datagram comes as the JSON value
-- that it holds, as garbled, or as one that is nested so deep that `json.loads` or `json.dumps`
-- raises a `RecursionError`, so that the values are those that `json.dumps` encodes. A timeout
-- that is so large that it raises an `OverflowError` is what a `recv` meets. Random ids and
-- times are arguments (`Stamp`, `Draws`, `clock`), in microseconds. `dial` says what a
-- connection to a peer meets, and the probes of `detect_harnesses` what the system answers; what
-- argparse's `parse_args` promises of a namespace is the hypothesis `Conforms`, or `IsParsed`
-- for a whole command line; the system under the executor is the record `System`. `PyTexts` is
-- what `str` and `repr` give for Python's own exceptions and for values that are no text,
-- integer or Boolean; `int` and `f"{v:.0f}"` are parameters where they are called. `fetch` is
-- what the HTTP call of the script meets.
--
-- Concurrency. The lock makes each method of the ledger and of the table one step. Ledger/Sound,
-- Ledger/Final and Ledger/Pending are about these steps in any order, as threads interleave them. In
-- Peer/Threads the calls of `delegate` run in pieces, in any order: up to the choice of the worker,
-- `escrow`, and the dialogue with the worker, which touches the ledger once at most, at its end. In
-- Peer/Node each connection runs to its end before the next event.
--
-- Bounds. No function runs on fuel but the digits of a number in a text, which are given one more
-- step than the number, and every loop follows a list. Integers have no width in the source; where it
-- adds one to a float, `fits_float` says whether Python can.
--
-- What is left out. Lines of the log, but for `_summarize`, which can raise; the timeouts, which
-- a script can meet at any read; failures of writing a file other than the ledger's and that of
-- the running peer; floats, which the code only carries; the closing of connections; the length
-- of the delay of a simulated run and the removal of the fresh directory; what a start of a
-- thread may raise; a file of the configuration or of the running peer that holds no dictionary.
-- Not modelled is the script acceptance_test.py.
pub mod Prelude
pub mod Py
pub mod Checks
pub mod Job
pub mod Manifest
pub mod Ledger
pub mod Identity
pub mod Protocol
pub mod Discovery
pub mod Executor
pub mod Peer
pub mod ApiHarness
pub mod Cli
