-- ===== src/Lib.antt =====
-- moenotes-assets: the logic of the asset service as executable definitions, with the properties
-- that make it correct.
--
-- The service reads a game's asset catalog, downloads the bundles that an asset needs, decrypts
-- them, and turns the media inside into files. Each part is a module here, with one function for
-- each function (or named part of a function) of the source:
--
--   src/usm.rs        Usm: the `@UTF` tables (Usm/Table), the video metadata (Usm/Video), the masks
--                     (Usm/Mask) and the chunk machine of `extract` (Usm/Demux). The machine's
--                     state is the local variables of `extract`; its map of streams is a list in
--                     key order, and each stream's file is the bytes written so far.
--   src/adx.rs        Adx: `normalize`.
--   src/split_acb.rs  SplitAcb: `references`, `append`, `validate` and `read`. The JSON value and
--                     the Unity objects are parameters (`Json`, `Studio`).
--   src/crypto.rs     Crypto: `digest`, `builtin`, `decrypt`, the bounded writer, and `bundle_crc`
--                     (Crypto/Crc, with the decompressors as parameters). SHA-256 and
--                     the AES key stream are parameters (`Primitives`).
--   src/service.rs    Download: the loop of `download` that receives a payload.
--   src/catalog.rs    Catalog: the `Reader` (Catalog/Reader), `parse` (Catalog/Parse), `resolve`,
--                     `target` and `closure_from`. The maps are association
--                     lists. The loop of `closure_from` has fuel for the start and for each
--                     dependency of the catalog once; that of `parse` for each location named by
--                     a key and each of the million dependencies that the limit allows.
--   src/plan.rs       Plan: `build`, `validate` and `disposition`.
--   src/task_runner.rs  TaskRunner: `run`, and the start of the run in `submit_export` of
--                     src/service.rs (`run_export`). What the runtime decides is a list of events;
--                     `execute` is a parameter.
--   src/embedded.rs   Embedded: the reader, `extract`, and `schema` and `read` (Embedded/Schema).
--   src/service.rs    Budget: `Budget::reserve` and the drop of a `Reservation`.
--   src/config.rs     Config: `worker_limits`, `validate` and `root`. URLs are a parameter (`Urls`).
--   src/shared.rs     Shared: `join` and the drop of a `Waiter` as steps on a store of operations.
--   src/tree.rs       Tree: `component`, `safe_destination` and `verify`; the planning of
--                     `export_profile` (Tree/Export, Tree/Export/Preflight). A path is the list of
--                     its components; the disk is a parameter (`Disk`).
--   src/upload.rs     Upload: `put`, `verify` and `upload_object`; `upload` (Upload/Whole); `S3::new`,
--                     `encode`, `hmac` and the URL of `request` (Upload/Signing, Upload/Address).
--                     What the server answers and when the upload is cancelled are arguments.
--   src/diagnostics.rs  Diagnostics: `Capture`, `drain` and `capture`. A process is what it writes
--                     and how it ends (`Child`).
--   src/service.rs    Service: the restart (`App::open`); `new_task`, `finish_task` and the run of
--                     `submit_refresh` (Service/Tasks); the selection of `submit_export` and
--                     `fetch_bytes` (Service/Requests). The database's tables are lists; the loop of
--                     the restart has fuel for each task once, since a page has at least one.
--   src/worker.rs     Worker: `validate_ivf`, whose loop has fuel for each byte of the file, and
--                     `check_awb_references` (Worker/Waves); `Output` and the archive branch of
--                     `run` (Worker/Archive, Worker/Copies, Worker/Accepted), where an input
--                     carries what the decoders say of it, and the calls that write a file
--                     are a parameter (`Folder`).
--
-- Base holds what the parts share: Boolean tests on numbers, lists over native numbers, results
-- with an error message (`anyhow::Result`), byte strings (lists of numbers, a byte string that is
-- a `String` being its UTF-8), exclusive or, and UTF-8.
--
-- Machine integers are native numbers; where a sum may leave the range, the wrap-around or the
-- overflow check of the source is written out. A loop that is not structural runs on fuel and
-- gives `none` when the fuel is used up; a theorem shows that the fuel given is enough.
-- `extract` has one unit for each byte of the input, since each chunk has at least 32.
--
-- Not modelled: the file system, HTTP, SQL and the async runtime, whose answers are arguments where
-- a part uses them; the external converters and decoders that `worker.rs` drives; the HTTP handlers
-- of `service.rs`; the command line. An error is its message without the context that a caller
-- adds; of a message with values in it the fixed part is kept.
pub mod Adx
pub mod Base
pub mod Budget
pub mod Catalog
pub mod Config
pub mod Crypto
pub mod Diagnostics
pub mod Download
pub mod Embedded
pub mod Plan
pub mod Service
pub mod Shared
pub mod SplitAcb
pub mod TaskRunner
pub mod Tests
pub mod Tree
pub mod Upload
pub mod Usm
pub mod Worker
