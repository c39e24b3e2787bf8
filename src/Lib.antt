-- ===== src/Lib.antt =====
-- Models of the parts of slack-runtests that decide something, and what is shown of them.
--
-- A slash command reaches the edge server, which checks it (signature, workspace, channel and
-- person, wording), and queues it as a job. Test servers dial in over a second door, where each
-- request carries an Ed25519 signature; they claim jobs under a lease, renew it with heartbeats
-- and report the outcome.
--
-- Store and its children model edge/edge_server/store.py: `Store.claim`, `finish`, `_reap` and so
-- on are functions of the rows of the two SQLite tables, in the order of insertion, that return
-- the rows after the call; each call is one transaction there. An UPDATE is a rewrite of the rows
-- that pass its WHERE clause (Store/Rows), ORDER BY is a stable sort, and an arbitrary sequence of
-- calls is a list of the type `Op` of Store/History. Store/Lifecycle has the abstract
-- specification, the legal moves of one job; Store/Refines connects the two. Store/Runners and
-- Store/Registry are about the table of the test servers.
--
-- Signature models src/slack_runtests/signature.py, Identity src/slack_runtests/identity.py, with
-- base64 in Base64. Gate models src/slack_runtests/gate.py: `check` calls the signature check,
-- reads the form (Forms: UTF-8 with replacement, `parse_qsl`, `unquote`) and then the parser. The
-- allowlists are lists; Gate/Names sets them against the frozensets that they are in the code.
-- Parsing models src/slack_runtests/parsing.py, with `shlex.split` in Shlex and the part of
-- argparse that the program uses in Parsing itself. Strings and Python have the methods of `str`
-- and the built-in functions that these files call, with the exceptions that they raise as values
-- of `Result`. Prelude passes on the library and has the lemmas that all share.
--
-- A text is the list of its code points, bytes are a list of numbers. Times are numbers of
-- microseconds; the rounding of Python's floats is ignored, but for the integers that no float
-- holds. `int(text)` is modelled for code points up to U+00FF. HMAC, Ed25519 and SHA-256 are
-- parameters, with their documented sizes, alphabets and correctness as hypotheses. The only fuel
-- is that of `consume` in Parsing, one more than the number of arguments; Parsing/Fuel shows that
-- this is enough.
--
-- Edge models edge/edge_server/auth.py and, of edge/edge_server/app.py, the door for test servers:
-- `_authenticate`, `enroll` once its payload is read, `heartbeat` and `started`, as functions of
-- the two tables' rows; Edge/Slack models `slack_commands` there, the Slack door, over the gate
-- and the queue. `uuid.uuid5`, `str.isalnum` beyond ASCII and the pre-authorised keys are
-- arguments there. Edge/Polling has the long poll of `claim`, on a list of its rounds, and
-- `result` once its payload is read. Edge/Payload reads the payloads of `enroll` and `result` from
-- a value of `json.loads`, which is a parameter, as are Python's floats, and has what SQLite does
-- with an outcome that it cannot store; a duration that is NaN is one that it stores as NULL.
-- Edge/Keys has the five routes of the door together. Edge/Replies has the
-- signing of replies, Edge/Wire the replies themselves, where `json.dumps` is a parameter, and
-- Edge/Texts what the person who typed a command reads, `_describe` included. Edge/Trusted has
-- `preauthorised_key` of edge/edge_server/auth.py, on what the files have.
--
-- Edge/System puts the doors together: `Step` is one request at either door that is answered, a
-- result with an outcome that is read and stored, and `Reach` any number of them, in any order. Edge/System/Handlers and Orders relate that to the
-- histories of the store, Answers to the texts, Delivery and Taken to what a test server makes of
-- a job. What other requests do to the queue while a long poll waits is part of its rounds.
--
-- Api models the single-host API of src/slack_runtests/api.py, with the background task as a value
-- that the handler leaves behind, and the texts in Api/Texts. Config has `_csv` and the default
-- runner id; Config/Load has all that edge/edge_server/config.py,
-- test-server/test_server/config.py and src/slack_runtests/config.py read of the environment, with
-- Python's floats as a parameter. The handlers take times in microseconds where these files have
-- floats.
--
-- Notifier models src/slack_runtests/slack.py: the notifier is a record, and what a call sends or
-- prints is a list of events. Notifier/Console has the lines that are printed, and
-- `announce_configuration`, Notifier/Transport what comes of a request to Slack. Local models
-- src/slack_runtests/runners/local.py and Github src/slack_runtests/runners/github.py, where how
-- pytest ends, how the calls of Slack end and what GitHub answers are arguments. Decimal has `str` of numbers and
-- `f"{t:.1f}"`; the fuel of its digits is one more than the number, and what is written is shown
-- to be read again.
--
-- Client models test-server/test_server/client.py: a call takes what httpx brings back and is a
-- value, an EdgeError or another exception; `response.json()` is an argument. Client/Laws and
-- Client/Pinning set it against the edge, and Client/Protocol runs a call there and back, for
-- Client/Served and Client/Denied: the request that the client signs, the handler of the edge, and
-- the reply that the client checks. Reporter models test-server/test_server/reporter.py, and Agent
-- test-server/test_server/agent.py: `validate` and `build_argv` in Agent itself,
-- `counts_from_junit` on the tree of the XML reader in Agent/Junit, `execute` and `_safe_result`
-- in Agent/Execute as the list of what they do outside (messages, calls, the command, waits) with
-- the exception that they let through, those of the calls of Slack and of the command included, and the loops of `run_forever` in Agent/Loop on the list of
-- the edge's answers, with the intervals that it takes from the edge in Agent/Start. A value of
-- the payload of a job is a text, or its `str` and its truth.
--
-- Edge/Fleet has the operator's view of edge/edge_server/app.py, and Identity/Keys the file of the
-- private key, whose serialization is a parameter.
--
-- Not modelled: the HTTP layer, the notation of JSON, the healthz handlers, the start of the three
-- programs, the database's connection, logging, the wording of argparse's errors, and the text of
-- a refusal in the summary of a result (its reason is kept). They do input and output for the most
-- part.
pub mod Prelude
pub mod Strings
pub mod Python
pub mod Decimal
pub mod Notifier
pub mod Signature
pub mod Base64
pub mod Identity
pub mod Shlex
pub mod Parsing
pub mod Forms
pub mod Gate
pub mod Store
pub mod Edge
pub mod Local
pub mod Github
pub mod Api
pub mod Config
pub mod Client
pub mod Reporter
pub mod Agent
