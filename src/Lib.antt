-- ===== src/Lib.antt =====
-- A library about the editorial team: a Telegram conversation with a Coordinator, a Talker, and a
-- Writer, a Critic and an Editor that produce texts, the store of their artifacts, the queue that runs
-- the turns, and the heartbeat that watches the queue. All paths are under src/editorial_team.
--
-- - Prelude: Booleans, lists, results and text as code points with `str.strip`, `in` and `==`; Sorting
--   is a stable sort by an order, Decimal is `str` of a number.
-- - Contracts: contracts/common.py and contracts/identity.py. A refusal is a value of ValueError.
-- - Domain: domain/editorial.py, domain/routing.py and domain/conversation.py. A record is a data class
--   with its fields, and `make_x` is its `__post_init__`; Tasks says exactly when a task is
--   constructed, and Validity what the other values have.
-- - Artifacts.Models: artifacts/models.py. Artifacts.Store: artifacts/store.py with `save_run` over a
--   table of artifacts and a table of chunks; Store.Reads are its other reads, Keys, Corpus and
--   Listing say what they read and in which order, and Chunked turns chunks into rows.
-- - Artifacts.Chunking: artifacts/chunking.py. Patterns has the regular expressions, Units the pieces of
--   a text, Pack the chunks of pieces, Chunks the chunks of an artifact; the other modules show that the
--   pieces ascend and cover the text.
-- - Artifacts.Search: artifacts/retrieval_types.py (Types), fusion.py (Fusion), lexical.py (Lexical) and
--   retrieval.py (Dense, Hybrid and their composition Retriever), over an arithmetic of scores.
-- - Agents: agents/parsing.py over JSON values (Json, Parsing), what a parsed report guarantees (Strict)
--   and a decision written and read (Encoded).
-- - Graphs.State and Graphs.Editorial: graphs/state.py and graphs/editorial.py, a node as a function of
--   the state into a state or an error.
-- - Graphs.Turn, Prepare, Coordinator, Tools, Tasks, Finish and Conversation:
--   graphs/conversation.py with the tools of artifacts/tools.py. A node is an action on
--   the effects of a turn: the calls of the identifier generator and of the clock so far, and the tables. Conversation composes the nodes.
-- - Graphs.Service: conversation/service.py, one message of a thread with its stored state.
-- - Formatting: conversation/formatting.py.
-- - Runtime: runtime/queue.py as a state and a step for each event between two awaits.
-- - Operations: operations/models.py, policy.py, collector.py, store.py, service.py and runner.py.
-- - Telegram: interfaces/telegram.py, the identifiers and the cut of a reply. Telegram.Adapter has
--   the adapter and its calls of the bot, Telegram.Sending the sending of replies, Telegram.Handlers the
--   handlers, Telegram.Session the application as a sequence of events, and Telegram.Lifecycle
--   the start and the close of the runtime.
-- - Tests: the concrete inputs.
--
-- Bounds and fuel: the conversation graph is given seven visits of the Coordinator, since its tools
-- refuse the seventh round; the cut of a reply is given the length of the text and one more passes,
-- since each takes a character; the packing of units is given their number, since its start grows in each pass, and hard slices the number
-- of their matches; `str` of a number is given the number itself. Numbers are natural
-- numbers, as Python's integers have no width; a time is in microseconds.
--
-- Parameters, as code that is not of this repository: SHA-256, the language models, embeddings and the
-- reranker, the bot of Telegram, NumPy, `json.loads`, Unicode's tables, the forms of a timestamp, the clock and the identifier
-- generator. The conversation graph takes the chunker, the corpus search and the parser as parameters
-- too, since they are components of their own, with models of their own. Where a theorem needs that a UTC
-- time can be read back from its form, it says so. Not modelled: tracing and log output, the agents'
-- prompts, configuration and wiring, the scheduler, evaluation and
-- scripts; failures of SQLite other than those of its constraints.
pub mod Prelude
pub mod Contracts
pub mod Domain
pub mod Artifacts
pub mod Graphs
pub mod Runtime
pub mod Operations
pub mod Agents
pub mod Formatting
pub mod Telegram
pub mod Tests
