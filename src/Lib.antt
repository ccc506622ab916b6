-- ===== src/Lib.antt =====
-- simple_downloader: a verification library for the download engine of this repository.
--
-- The program fetches a file by HTTP range requests in parallel. A chunk task streams one range of
-- the file and sends its blocks to the file writer; it is steered by broadcast commands, which may
-- split it, and it reports progress, splits, failures and its completion. The monitor keeps the
-- ledger of bytes and hands failed ranges to the retry handler, which sends them out again. The
-- writer joins adjacent blocks, and at the end refuses a file with a hole. The metadata of resume say
-- which segments need not be fetched again. A queue runs several downloads, at most `max` at a time.
-- The downloader puts these together: it probes the file, starts the first chunks and the monitor, and
-- checks the length of the file in the end. The concurrency manager watches the speeds at each tick and
-- sends the commands that split or end a chunk.
--
-- Which file models which part:
--   Prelude           shared names, lists, maps, texts, words, stable sorting, tests on numbers
--   Types             src/types.rs: DownloadCmd and DownloadInfo with their accessors
--   ContentRange      src/util.rs: parse_content_range
--   Range             src/util.rs: mark_written!, coverage_gap; src/resume.rs: add_covered_range,
--                     covers_segment, collect_contiguous_ranges
--   Chunk             src/chunk.rs: chunk_run_with_reliable; Chunk/Split the splits, Chunk/Check the
--                     check of the response; Writes, Stream, Handover, Ends and Ending the proofs
--   State             src/state.rs: ChunkState and DownloadState, the ledger
--   Retry             src/retry.rs: on_chunk_failed; Retry/Classify the classifiers, Retry/Queues the
--                     other methods; Retry/Conservation, Coalesce, Order, Counting and History the
--                     proofs
--   Writer            src/util.rs: file_writer_task_impl; Writer/Gate, Image and Delivery the proofs
--   Resume            src/resume.rs: the metadata's segments, hashes and ranges; Resume/Plan the
--                     ranges that the writer trusts, Resume/Prepare the plan, Resume/Recorder the
--                     recorder; Resume/Segments, Verify, Prepared and Vouched the proofs
--   Task, Queue       src/task.rs and src/queue.rs: the methods of TaskQueue; Queue/Driver the
--                     driver and the interleavings, Queue/Rename the choice of a path, Queue/Query
--                     what the queue tells, Queue/Jobs the downloads that run; Bound, Running, Window,
--                     Unique, Free and Suffix the proofs, Unique by Places, Placed, Leaving,
--                     Entering, Spawning and Methods
--   Lane              src/lane.rs: LaneScheduler; Lane/Runtime MultiRuntime; Lane/History the calls
--                     in any order, Lane/Probe the choice of the sources; Lane/Capacity, Select, Health,
--                     Slots and Agree the proofs, the first by Lane/Invariant
--   Monitor           src/monitor.rs: DownloadMonitor; Monitor/Info handle_download_info,
--                     Monitor/Tick handle_tick, Monitor/Loop run_with_reliable; Monitor/Tally,
--                     Room, Retired, Finish and Stall the proofs
--   Float, Speed      the operations on `f64` as an interface; the speeds of src/state.rs and
--                     src/monitor.rs over it
--   Concurrency       src/concurrency.rs: ConcurrencyManager and its requests; Concurrency/Find the
--                     searches for a chunk, Concurrency/Decide decide_and_act; Outcome, Sound, Pace,
--                     Phase and Choice the proofs
--   Downloader        src/downloader.rs: split_resume_ranges; Downloader/Orchestrate
--                     orchestrate_downloads, Downloader/Streaming streaming_download,
--                     Downloader/Refill refill_tail_gap and the check of the length; Split, Started,
--                     Streamed and Tail the proofs
--   FileProbe         src/util.rs: get_file_info_with_request_headers; FileProbe/Grounds the proofs
--   Config            src/config.rs; Config/Limits the limiters of src/limiter.rs and apply_config of
--                     src/monitor.rs, Config/Synced the proofs
--
-- How the code is read:
--   * The numbers are native naturals with the `u64` and `u32` arithmetic written out (`sat_add`,
--     `wrap_add`, `% u64_mod`): an addition that may overflow wraps, as in a release build.
--   * A `select!` loop is a step function on events; a run is a list of events, each with what the
--     environment answers (clock, channels, limiters). All orders of events are thereby covered.
--     A loop that has used up its events still waits for more.
--   * What a task sends is a list of effects; what the file system answers comes with the command
--     that calls it. `Instant::now()` is a reading of a clock that is a parameter, in milliseconds.
--   * A hash map is an association list; a text is the list of its character codes.
--   * Fuel: `batches` has the number of bytes and `segments_from` the file size, and each turn takes
--     at least one byte; `decimal` has the number itself, which loses a digit each turn; the bitwise
--     operation of `hash_bytes` runs over 64 bits; `split_loop` has the number of workers, and each
--     turn adds a range; `retry_loop` has the length of the retry queue, and each turn takes one
--     chunk off it; `rename_loop` has 10001 turns, after which the source leaves its loop. So the
--     bounds are enough.
--   * The monitor holds its lanes and its retry handler, and starts the chunks: each is an entry of
--     `sent`. What a chunk, the writer and the concurrency manager do meanwhile comes as events.
--
--   * An `f64` is a value of a type that is a parameter, with the operations that the code uses and no
--     law; where the order of the speeds matters the laws are a hypothesis (IsOrdered), which leaves
--     NaN out and holds of the numbers in thousandths in which the tests run.
--
-- Not modelled: the window of src/speed.rs, which nothing uses; the HTTP client, the channels of tokio,
-- the token bucket behind src/limiter.rs, logging; of src/monitor.rs the speeds that it shows; of
-- src/lane.rs the clients and the measuring of the speeds; of src/downloader.rs the builder and the
-- choice between the probe, the lanes and the stream; and of src/resume.rs the files.
pub mod Prelude
pub mod Types
pub mod ContentRange
pub mod Range
pub mod Chunk
pub mod State
pub mod Retry
pub mod Writer
pub mod Resume
pub mod Task
pub mod Queue
pub mod Downloader
pub mod Monitor
pub mod Lane
pub mod Float
pub mod Speed
pub mod Concurrency
pub mod FileProbe
pub mod Config
