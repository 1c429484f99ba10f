-- ===== src/Lib.antt =====
-- openai-api-bridge: an OpenAI-shaped HTTP API in front of several image and video providers. A
-- request passes the size limit and the bearer check, is dispatched to a provider's backend, and its
-- assets are fetched and put into a file store; a video is a background job with a row of its own.
--
-- The parts, each with the file that it models, from the repository's root:
--
--   Errors      src/openai_api_bridge/errors.py: the error classes, their status, type and code, the
--               envelope (`error_payload`) and `bridge_error_handler`.
--   Limits      src/openai_api_bridge/api/_limits.py: `BodySizeLimitMiddleware`. An application is a
--               tree of the messages that it sends and receives, with the branch that it takes where
--               a receive raises; `serve` is the call below the two wrappers.
--   Auth        src/openai_api_bridge/auth.py: `check_bearer` and `ApiKeyMiddleware`.
--   Cache       src/openai_api_bridge/util/cache.py: `AsyncTTLCache`, with the readings of the clock
--               as arguments. The lock of `get` makes calls follow one another (`get_all`).
--   Tasks       src/openai_api_bridge/infra/tasks.py: `TaskScheduler`; Tasks/SingleFlight the class
--               of that name. What the event loop may do between two calls is a step relation
--               (Tasks/Steps, `Step`), and an invariant holds over every sequence of steps.
--   JobStore    src/openai_api_bridge/infra/jobstore.py: the table `video_jobs` as a list of rows.
--   Runner      src/openai_api_bridge/api/_videos_runner.py: `run_video_job` and its `except`
--               clauses, on the job store. At each await other tasks may change the table, and a
--               write that raises may have landed or not (`Await`, `Env`).
--   Http        src/openai_api_bridge/util/http.py: `raise_for_upstream_status`, `redact_url`,
--               `_read_capped`, `fetch_asset_with_retry`. A response's body is its chunks and how
--               they end; what each attempt meets is a function of its number.
--   Media       src/openai_api_bridge/util/media.py: the types that are served and their extensions.
--   FileStore   src/openai_api_bridge/infra/filestore.py: the rows of `generated_files` and the disk
--               below the files directory, as a function of the path. Directories are nodes of it,
--               and a write makes those above its file (FileStore/Files, `make_dirs`).
--   Eviction    src/openai_api_bridge/infra/eviction.py: `run_eviction_pass` over the file store. The
--               order of its LRU query is a parameter.
--   Database    src/openai_api_bridge/infra/db.py: the connection that all tasks share, with its
--               write lock. `step` is what one task does between two awaits (`Event`), `run` a list
--               of events, which is an interleaving. `run_migrations` with a fault at any version.
--   Json        parsed JSON, as Python's `json` gives it, for the modules that read it.
--   JsonBody    src/openai_api_bridge/util/json_body.py: `JsonBody.replace_top_level`, on the decoded
--               text, with the spans of the values as positions.
--   Aspect      src/openai_api_bridge/util/aspect.py: the parsing of ratios and the snapping.
--   Ids         src/openai_api_bridge/util/ids.py: `slugify`, each regular expression a function.
--   Models      `parse_model_id` and `_enforce_unique_ids` of src/openai_api_bridge/config.py, the
--               registry of src/openai_api_bridge/dispatcher.py, and the listing of
--               src/openai_api_bridge/api/models.py, where `Fetch` is what a backend's catalogue
--               came to and whether it came in time.
--   Labels      src/openai_api_bridge/backends/base.py: `disambiguate_display_names` and the labels
--               that it makes of the ids (`_prettify`).
--   Fal         src/openai_api_bridge/backends/fal/catalog.py: the pairing of a model's two halves
--               (`pair_variants`) and the entries (`entries_from_catalog`).
--   Workflows   src/openai_api_bridge/backends/comfyui/workflows.py: `prepare_workflow` (the prompt and
--               the images here, the rest in Workflows/Seeds) and `scan_workflows` (Workflows/Scan),
--               over the parsed graph and metadata. A result is `prepared` or `refused`.
--   Prelude     what the modules share: Boolean tests, lists, dictionaries, texts, decimal numerals.
--
-- How they meet: Runner uses the operations of JobStore; Tasks/Admission follows a request of
-- src/openai_api_bridge/api/videos.py from its slot to its task; FileStore asks Media for the type
-- and the extension; Http, Auth and Limits answer with the errors of Errors;
-- Workflows takes ratios from Aspect and slugs from Ids; Fal passes its entries
-- through Labels, and they are those that Models lists.
--
-- Choices. Times are natural numbers: ticks of the clock in Cache, seconds elsewhere; the duration
-- of a video in thousandths of a second. A difference of times is written so that a clock that runs
-- backwards is treated as in the source. A message is the list of the pieces of its f-string. Texts
-- that are taken apart, and bytes, are lists of numbers. The loops of Http and Limits are structural,
-- over the attempts left, the chunks or the application; the loop of `delete_many` has as much fuel
-- as there are ids, and each chunk takes at least one; the LRU loop of an eviction pass has one round
-- more than there are rows, and each round deletes one; the loop over shared segments in Labels has
-- as much as the first id has segments. Locks and the single event loop are what make a query, and
-- the code between two awaits, one step.
--
-- The distance of two ratios is a float in the source, a logarithm; it is a parameter by its rank.
-- The digits of a numeral are the ASCII ones. A rollback of the database always goes through. What
-- `json.dumps`, `str.lower`, the random numbers and the file system give is a parameter.
--
-- Not modelled: the web framework, the HTTP client, SQLite and the file system themselves, whose
-- choices are arguments of the definitions; the shutdown of the scheduler; the timer of
-- the eviction loop; the validation of the configuration; the providers' clients and adapters;
-- the parser of JSON bodies; logging. In the fetch loop the text of an error is left out, its type is
-- kept.
pub mod Aspect
pub mod Auth
pub mod Cache
pub mod Database
pub mod Errors
pub mod Eviction
pub mod Fal
pub mod FileStore
pub mod Http
pub mod Ids
pub mod JobStore
pub mod Json
pub mod JsonBody
pub mod Labels
pub mod Limits
pub mod Media
pub mod Models
pub mod Prelude
pub mod Runner
pub mod Tasks
pub mod Workflows
