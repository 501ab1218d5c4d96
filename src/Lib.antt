-- ===== src/Lib.antt =====
-- A model of agent-lab: a local language model served through an OpenAI-compatible gateway.
--
-- The profile (src/agent_lab/config.py) gives the gateway its rules (src/agent_lab/gateway/server.py).
-- A request goes through authentication against the key file (src/agent_lab/gateway/keys.py), the
-- reading of its body, translation into a request for the backend (src/agent_lab/gateway/translate.py),
-- the count of its prompt and the limit of its answer, and takes a place in the queue
-- (src/agent_lab/gateway/queue.py). src/agent_lab/gateway/app.py puts these together.
--
-- Common, Common/Int: shared names, Boolean tests and Python's integers over the native numbers.
-- Json: Python values of JSON and TOML: dicts as association lists in insertion order.
-- Config/Text, Config/Size: the regular expressions and parse_size. Config/Section: `_Section`, its
--   errors passed on as state. Config/Profile: parse_profile and rules_for.
-- Gateway/Queue: RequestQueue with a step relation for the coroutines of the places.
-- Gateway/Messages, Tools, Effort, Options, Prepare, Limit: `_messages`, `_tools`, `_effort`, the options
--   and `prepare` and `limit`, in the monad of Gateway/Result, where what Python raises is a value.
-- Gateway/Keys: the key file and the commands on it. Gateway/Keys/Toml: the TOML of a saved file.
--   Gateway/Keys/Store: `KeyStore`, with the history of its requests in Gateway/Keys/Store/Served.
-- Gateway/App: `authenticate`, `read_json` and `chat`. Gateway/Chunks: `_well_formed`,
--   `_collect` and `public_chunk`. Gateway/Backend: `backend_chunks`, the stream of the model server.
-- Gateway/Stream: `_with_heartbeats` and `_stream`, with a step relation for the turns of the producer
--   and the sender. Gateway/Answer: `_complete`, `error_response`, the other endpoints and
--   `ChatResponse.__call__`, which gives up the place in the queue.
-- Process: the record, `status` and `stop` of src/agent_lab/backend/process.py. Process/Start: `start`.
--   Process/Gateway: the same for src/agent_lab/gateway/process.py.
-- Serve: `preflight` and `serve` of src/agent_lab/serve.py, which start both processes.
-- Launch: the log stream and the memory watchdog of src/agent_lab/backend/launch.py.
-- GpuLimit: `apply` and `revert` of src/agent_lab/gpulimit.py on a machine with one sysctl.
-- Registry: the models and files of src/agent_lab/registry.py. Registry/Files and Registry/Entries read
--   the TOML of a registry, with `names` and `total_size`.
-- Pull: src/agent_lab/pull.py. Pull/Records: the records kept beside a model. Pull/Download: the request,
--   the attempts and the resumption of a download. Pull/Verify: the check of each file and `pull`.
--
-- The loops of the modelled code run over finite lists and are structural recursion. A download makes
-- as many attempts as RETRIES of pull.py allows, which is the number its model counts down. A wait for
-- a process is the list of its looks before the deadline and the first look after it.
-- Python's integers have no bound. A double is not a number, an infinity or an exact fraction.
--
-- Parameters: the effect of sudo sysctl, json.loads, whether json.dumps succeeds, tomllib, SHA-256,
-- str.isdigit, str.strip and str.lower, the class of Unicode spaces and digits, float of a text, and the
-- count of a prompt, which tokenizes it with third-party code. Of tomllib the key commands rely on what
-- TOML says of a text of plain tables and strings.
-- The effects of the file system, of processes and of the clock are arguments: a file's contents and
-- stamp, whether a write succeeds, what a look at a process and its port shows.
--
-- Not modelled: the wording of messages, and the timing of coroutines beyond the order of their steps.
-- Diagnosis (src/agent_lab/doctor.py) and the command line are reports and input and output; prompt
-- counting and the hooks of the launcher are calls of third-party code.
mod Common
pub mod Json
pub mod Config
pub mod GpuLimit
pub mod Process
pub mod Pull
pub mod Registry
pub mod Serve
pub mod Launch
pub mod Gateway
