-- ===== src/Speed.antt =====
-- The speeds of the chunks: `ChunkState::update_speed` and `DownloadState::total_speed` of
-- src/state.rs, and the loop of `handle_tick` of src/monitor.rs that samples them. The two fields of
-- a chunk that it takes to measure are kept beside the state, by the chunk's id.
mod Tests
use simple_downloader.Prelude.{
  ℕ, ◌-◌, ◌*◌, Bool, true, false, ◌||◌, not, List, [], ◌∷◌, map, Option, none, some, ◌==◌,
  if◌then◌else◌, keep,
}
use simple_downloader.Prelude.Map
use simple_downloader.Float.{Float, nought, sum}
use simple_downloader.State.{ChunkState, DownloadState}
use simple_downloader.Types.{ChunkId}

-- The fields `speed` and `last_sampled_bytes` of a chunk.
pub record Gauge (W : Type 0) : Type 0 where
  pub speed : W
  pub last_sampled_bytes : ℕ

module _ {W : Type 0} ⦃f : Float W⦄ where
  abbrev pub new_gauge : Gauge W
  new_gauge = record { speed = nought; last_sampled_bytes = 0 }

  abbrev max_single_chunk_bps : W
  max_single_chunk_bps = f.mul (f.mul (f.lit 200 1) (f.lit 1024 1)) (f.lit 1024 1)

  -- The guard of `update_speed`, and of `handle_tick`.
  unfoldable pub is_too_short : W → Bool
  is_too_short elapsed_secs = not (f.is_finite elapsed_secs) || f.lt elapsed_secs (f.lit 5 100)

  unfoldable pub instantaneous_speed : W → ℕ → W
  instantaneous_speed elapsed_secs newly_downloaded =
      let speed = f.div (f.of_nat newly_downloaded) (f.fmax elapsed_secs (f.lit 5 100)) in
      if f.lt max_single_chunk_bps speed then max_single_chunk_bps else speed

  unfoldable pub update_speed : W → W → ℕ → Gauge W → Gauge W
  unfolding is_too_short instantaneous_speed
  update_speed elapsed_secs smoothing_factor downloaded_bytes g =
      let instant = instantaneous_speed elapsed_secs (downloaded_bytes - g.last_sampled_bytes) in
      let smoothed =
        f.add (f.mul instant smoothing_factor)
          (f.mul g.speed (f.sub (f.lit 1 1) smoothing_factor)) in
      let sampled : Gauge W = record {
        speed = if f.eq g.speed nought then instant else smoothed;
        last_sampled_bytes = downloaded_bytes;
      } in
      if is_too_short elapsed_secs then g else sampled

  unfoldable pub total_speed : (ChunkId → Gauge W) → DownloadState → W
  unfolding sum
  total_speed gauges s = sum (map (λ e. (gauges e.0).speed) (keep (λ e. e.1.status == 0) s.chunks))

  -- The turn of the loop over the chunks: one that does not download has no speed.
  unfoldable pub sample_chunk : W → Option ChunkState → Gauge W → Gauge W
  unfolding update_speed
  sample_chunk elapsed_secs none g = g
  sample_chunk elapsed_secs (some c) g =
      let still : Gauge W = record g { speed = if f.eq g.speed nought then g.speed else nought } in
      if c.status == 0
      then update_speed (f.fmax elapsed_secs (f.lit 5 100)) (f.lit 30 100) c.downloaded_bytes g
      else still

  unfoldable pub sample_chunks : W → DownloadState → (ChunkId → Gauge W) → ChunkId → Gauge W
  unfolding sample_chunk Map.get
  sample_chunks elapsed_secs s gauges id =
      sample_chunk elapsed_secs (Map.get id s.chunks) (gauges id)
