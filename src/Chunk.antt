-- ===== src/Chunk.antt =====
-- src/chunk.rs: a chunk downloads the bytes `start_byte` to `end_byte` of the file. Its loop is a
-- step function on the events that `select!` delivers; what it sends on its channels is a list of
-- effects. The clock and the state of the channels at an event come with the event.
pub mod Split
pub mod Check
pub mod Writes
pub mod Stream
pub mod Handover
pub mod Ends
pub mod Ending
mod Tests
use simple_downloader.Prelude.{
  ℕ, zero, suc, ◌+◌, ◌-◌, ◌%◌, min, Bool, true, false, ◌&&◌, ◌||◌, not, List, [], ◌∷◌, ◌++◌, map,
  Option, none, some, ltb, leb, ◌==◌, if◌then◌else◌, length, take, sat_add, u32_mod,
}
use simple_downloader.Prelude.Text.{Text, codes, decimal}
use simple_downloader.Types.{
  ChunkId, DownloadCmd, write_file, bisect_download, bisect_download_skewed, terminate_chunk,
  terminate_all, DownloadInfo, chunk_progress, chunk_failed, chunk_bisected, download_complete,
}
use Check.{Response, check_response}
use Split.{split_range, split_range_skewed}

-- The local variables of `chunk_run_with_reliable`; times are in milliseconds.
pub record Chunk : Type 0 where
  pub id : ChunkId
  pub start_byte : ℕ
  pub end : ℕ
  pub offset : ℕ
  pub failed : Bool
  pub terminated : Bool
  pub last_progress : ℕ
  pub last_reported : ℕ

pub start_chunk : ChunkId → ℕ → ℕ → ℕ → Chunk
start_chunk id start_byte end_byte now = record {
  id = id;
  start_byte = start_byte;
  end = end_byte;
  offset = start_byte;
  failed = false;
  terminated = false;
  last_progress = now;
  last_reported = 0;
}

-- What one turn of `select!` receives: a command, a lagged or closed command channel, the next item
-- of the response stream, its end, or the idle timeout.
pub data Event : Type 0 where
  command : DownloadCmd → Event
  lagged closed : Event
  bytes : List ℕ → Event
  stream_error : Text → Event
  stream_end idle_timeout : Event

-- The environment of an event: is a receiver left on the broadcast channel, does the file writer
-- accept a block, is some rate limiter set, and the clock.
pub record Env : Type 0 where
  pub broadcast_heard : Bool
  pub writer_open : Bool
  pub limited : Bool
  pub now : ℕ

-- A send on a channel. `write` is a block that the file writer accepted, `terminal` an event for
-- both channels, `progress` one that may be lost, and `reliable` one for the reliable channel only.
pub data Effect : Type 0 where
  write : ℕ → List ℕ → Effect
  acquire : ℕ → Effect
  broadcast progress terminal reliable : DownloadInfo → Effect

pub record Outcome : Type 0 where
  pub chunk : Chunk
  pub running : Bool
  pub effects : List Effect

abbrev pub goes_on : Chunk → List Effect → Outcome
goes_on c fx = record { chunk = c; running = true; effects = fx }

abbrev pub stops : Chunk → List Effect → Outcome
stops c fx = record { chunk = c; running = false; effects = fx }

-- The last progress, if it was not reported, and the failure of the bytes that are missing.
fail_rest : Chunk → Text → Outcome
fail_rest c error =
    let actual = c.offset - c.start_byte in
    let report =
      if actual == c.last_reported
      then []
      else progress (chunk_progress c.id c.start_byte c.end actual) ∷ [] in
    stops (record c { failed = true })
      (report ++ terminal (chunk_failed c.id c.offset c.end error) ∷ [])

-- The answer to a split command.
bisect : Env → Chunk → Option (ℕ × ℕ) → Outcome
bisect env c none = goes_on c []
bisect env c (some (midpoint, new_chunk_start)) =
    goes_on (if env.broadcast_heard then record c { end = midpoint } else c)
      (terminal (chunk_bisected c.id new_chunk_start c.end) ∷ [])

killed_text : Text
killed_text = codes "stalled trickle connection killed, retry with fresh connection"

on_command : Env → Chunk → DownloadCmd → Outcome
unfolding bisect fail_rest split_range split_range_skewed
on_command env c (write_file offset block) = goes_on c []
on_command env c (bisect_download id) =
    if c.id == id then bisect env c (split_range c.offset c.end) else goes_on c []
on_command env c (bisect_download_skewed id) =
    if c.id == id then bisect env c (split_range_skewed c.offset c.end true) else goes_on c []
on_command env c (terminate_chunk id) = if c.id == id then fail_rest c killed_text else goes_on c []
on_command env c terminate_all = stops (record c { terminated = true }) []

-- The token batches of a block for the rate limiters.
unfoldable pub batches : ℕ → ℕ → List ℕ
batches zero remaining = []
batches (suc fuel) remaining =
    let batch = min remaining 65536 in
    let rest = batches fuel (remaining - batch) in if remaining == 0 then [] else batch ∷ rest

-- Is the progress broadcast after `write_len` of `received` bytes?
should_send : Env → Chunk → ℕ → ℕ → Bool
should_send env c write_len received =
    leb 65536 (c.offset - c.start_byte - c.last_reported)
    || leb 50 (env.now - c.last_progress)
    || leb c.end c.offset
    || ltb write_len received

-- The writer took `write_len` of `received` bytes.
advance : Env → Chunk → ℕ → ℕ → List Effect → Outcome
unfolding should_send
advance env c write_len received fx =
    let moved = record c { offset = sat_add c.offset write_len } in
    let downloaded = moved.offset - c.start_byte in
    let send = should_send env moved write_len received in
    record {
      chunk =
          if send
          then record moved { last_reported = downloaded; last_progress = env.now }
          else moved;
      running = not (ltb write_len received);
      effects =
          fx
          ++ (if send
              then broadcast (chunk_progress c.id c.start_byte c.end downloaded) ∷ []
              else []);
    }

closed_text : ChunkId → Text
closed_text id = codes "[Chunk " ++ decimal id ++ codes "] 文件写入通道已关闭"

on_bytes : Env → Chunk → List ℕ → Outcome
unfolding batches advance fail_rest
on_bytes env c block =
    let allowed = sat_add (c.end - c.offset) 1 in
    let write_len = min allowed (length block) in
    let tokens = write_len % u32_mod in
    let acquired = if env.limited then map acquire (batches tokens tokens) else [] in
    let taken =
      advance env c write_len (length block)
        (acquired ++ write c.offset (take write_len block) ∷ []) in
    let refused = fail_rest c (closed_text c.id) in
    if ltb c.end c.offset
    then stops c []
    else if env.writer_open
    then taken
    else record refused { effects = acquired ++ refused.effects }

idle_text : Chunk → Text
idle_text c =
    codes "chunk idle timeout (15s no data, "
    ++ (decimal c.offset ++ (codes "-" ++ (decimal c.end ++ codes ")")))

-- "{label}: expected {} bytes ({start_byte}-{end}), got {}".
eof_text : Text → Chunk → Text
eof_text label c =
    label
    ++ (codes ": expected "
        ++ (decimal (sat_add (c.end - c.start_byte) 1)
            ++ (codes " bytes ("
                ++ (decimal c.start_byte
                    ++ (codes "-"
                        ++ (decimal c.end
                            ++ (codes "), got " ++ decimal (c.offset - c.start_byte))))))))

on_stream_end : Chunk → Outcome
unfolding fail_rest
on_stream_end c =
    if ltb c.offset (sat_add c.end 1)
    then fail_rest c (eof_text (codes "early EOF") c)
    else stops c []

-- One turn of the loop.
pub step : Env → Chunk → Event → Outcome
unfolding on_command on_bytes on_stream_end fail_rest
step env c (command cmd) = on_command env c cmd
step env c lagged = goes_on c []
step env c closed = stops (record c { terminated = true }) []
step env c (bytes block) = on_bytes env c block
step env c (stream_error error) = fail_rest c error
step env c stream_end = on_stream_end c
step env c idle_timeout = fail_rest c (idle_text c)

abbrev pub before : List Effect → Outcome → Outcome
before fx o = record o { effects = fx ++ o.effects }

-- The loop over the events that arrive; it still runs when they are used up.
pub run : Chunk → List (Env × Event) → Outcome
run c [] = goes_on c []
run c ((env, e) ∷ events) =
    let o = step env c e in
    let rest = before o.effects (run o.chunk events) in if o.running then rest else o

monitor_gone : Option Bool → Bool
monitor_gone none = false
monitor_gone (some is_closed) = is_closed

-- The last progress, where there is a reliable channel.
sure_progress : Option Bool → DownloadInfo → List Effect
sure_progress none info = []
sure_progress (some is_closed) info = reliable info ∷ []

-- The code behind the loop. `reliable_tx` says if there is a reliable channel, and if it is closed.
pub finish : Option Bool → Chunk → List Effect
unfolding monitor_gone sure_progress
finish reliable_tx c =
    let terminated = c.terminated || monitor_gone reliable_tx in
    let final_downloaded = c.offset - c.start_byte in
    let expected_size = sat_add (c.end - c.start_byte) 1 in
    let last = chunk_progress c.id c.start_byte c.end final_downloaded in
    let report = if final_downloaded == c.last_reported then [] else progress last ∷ [] in
    if terminated || c.failed
    then []
    else if final_downloaded == expected_size
    then sure_progress reliable_tx last ++ terminal (download_complete c.id) ∷ []
    else report
      ++ terminal (chunk_failed c.id c.offset c.end (eof_text (codes "early EOF on exit") c)) ∷ []

-- The whole task: the request's answer is checked, then the loop runs over the events, and then the
-- code behind it. A loop that waits for more events has done nothing else yet.
pub chunk_run :
    (ℕ → Text) → ChunkId → ℕ → ℕ → ℕ → Response → List (Env × Event) → Option Bool → List Effect
chunk_run show_status id start_byte end_byte now response events reliable_tx =
    elim (check_response show_status start_byte end_byte response) [
      | some error ↦ terminal (chunk_failed id start_byte end_byte error) ∷ []
      | none ↦
          let o = run (start_chunk id start_byte end_byte now) events in
          if o.running then o.effects else o.effects ++ finish reliable_tx o.chunk
    ]
