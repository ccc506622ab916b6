-- ===== src/Config.antt =====
-- src/config.rs: the settings that may change while a download runs, and the handle that shares them.
pub mod Limits
pub mod Synced
mod Tests
use simple_downloader.Prelude.{ℕ, max, Bool, ◌&&◌, Option, none, if◌then◌else◌}
use simple_downloader.Float.{Float, nought}

pub record RuntimeConfig (W : Type 0) : Type 0 where
  pub workers : ℕ
  pub update_interval : W
  pub speed_limit : Option ℕ
  pub burst : Option ℕ

module _ {W : Type 0} ⦃f : Float W⦄ where
  -- `available_parallelism` counts the processors, if it can.
  unfoldable pub default_config : ℕ → RuntimeConfig W
  default_config available_parallelism = record {
    workers = max available_parallelism 1;
    update_interval = f.lit 5 10;
    speed_limit = none;
    burst = none;
  }

  unfoldable pub with_workers : ℕ → RuntimeConfig W → RuntimeConfig W
  with_workers workers c = record c { workers = max workers 1 }

  -- A positive, finite number of seconds.
  unfoldable pub is_interval : W → Bool
  is_interval secs = f.lt nought secs && f.is_finite secs

  unfoldable pub with_update_interval : W → RuntimeConfig W → RuntimeConfig W
  unfolding is_interval
  with_update_interval secs c = record c {
    update_interval = if is_interval secs then secs else c.update_interval;
  }

-- The shared value is replaced, and the old one returned.
unfoldable pub apply_config :
    {W : Type 0} → RuntimeConfig W → RuntimeConfig W → RuntimeConfig W × RuntimeConfig W
apply_config shared new = (shared, new)
