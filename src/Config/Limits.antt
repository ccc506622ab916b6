-- ===== src/Config/Limits.antt =====
-- `RateLimiter` of src/limiter.rs as a shared cell, with `runtime_limiter_from_config` and
-- `apply_config` of src/monitor.rs. What the token bucket does is left out: a cell holds its rate and
-- its burst. A limiter is the number of its cell, so that a chunk that holds it sees each change.
use simple_downloader.Prelude.{
  ℕ, ◌+◌, ◌*◌, Bool, true, false, not, ◌++◌, Option, none, some, ltb, ◌==◌, if◌then◌else◌, u32_mod,
}
use simple_downloader.Prelude.Map
use simple_downloader.Prelude.Map.{Map}
use simple_downloader.Prelude.Text.{Text, codes, decimal}
use simple_downloader.Float.{Float}
use simple_downloader.Concurrency.{ConcurrencyManager, set_max_workers}
use simple_downloader.Config.{RuntimeConfig, is_interval}

-- Bytes per second, and the burst.
abbrev pub Quota : Type 0
Quota = ℕ × ℕ

-- The limiters; a cell without a quota is disabled.
abbrev pub Cells : Type 0
Cells = Map (Option Quota)

abbrev pub or_default_burst : Option ℕ → ℕ
or_default_burst none = 64 * 1024
or_default_burst (some burst) = burst

unfoldable pub build : ℕ → Option ℕ → Quota
build bytes_per_sec burst = (bytes_per_sec, or_default_burst burst)

unfoldable pub reconfigure : ℕ → ℕ → Option ℕ → Cells → Cells
unfolding build Map.insert
reconfigure id bytes_per_sec burst cells = Map.insert id (some (build bytes_per_sec burst)) cells

unfoldable pub disable : ℕ → Cells → Cells
unfolding Map.insert
disable id cells = Map.insert id none cells

pub data Limits : Type 0 where
  limited : (bytes_per_sec : ℕ) → (burst : Option ℕ) → Limits
  unlimited : Limits
  invalid : Text → Limits

abbrev pub exceeds : Text → ℕ → Text
exceeds what n = what ++ (decimal n ++ codes " exceeds 4294967295")

-- The burst of a limit that is in range.
abbrev pub with_burst : ℕ → Option ℕ → Limits
with_burst limit none = limited limit none
with_burst limit (some burst) =
    if burst == 0
    then invalid (codes "burst must be greater than zero")
    else if ltb burst u32_mod
    then limited limit (some burst)
    else invalid (exceeds (codes "burst ") burst)

abbrev pub limits_of : Option ℕ → Option ℕ → Limits
limits_of none none = unlimited
limits_of none (some burst) = invalid (codes "burst requires speed_limit")
limits_of (some limit) burst =
    if not (ltb limit u32_mod)
    then invalid (exceeds (codes "speed_limit ") limit)
    else if limit == 0
    then invalid (codes "speed_limit must be greater than zero")
    else with_burst limit burst

unfoldable pub runtime_limiter_from_config : {W : Type 0} → RuntimeConfig W → Limits
runtime_limiter_from_config c = limits_of c.speed_limit c.burst

-- The settings of the monitor; `next_cell` is the number of a limiter that is made.
pub record Settings (W : Type 0) : Type 0 where
  pub manager : ConcurrencyManager W
  pub update_interval : W
  pub global_limiter : Option ℕ
  pub is_rate_limited : Bool
  pub cells : Cells
  pub next_cell : ℕ

abbrev pub disable_cell : Option ℕ → Cells → Cells
disable_cell none cells = cells
disable_cell (some id) cells = disable id cells

module _ {W : Type 0} where
  abbrev pub limit_cell : ℕ → Option ℕ → Option ℕ → Settings W → Settings W
  limit_cell rate burst (some id) s = record s {
    cells = reconfigure id rate burst s.cells;
    is_rate_limited = true;
  }
  limit_cell rate burst none s = record s {
    cells = Map.insert s.next_cell (some (build rate burst)) s.cells;
    global_limiter = some s.next_cell;
    next_cell = s.next_cell + 1;
    is_rate_limited = true;
  }

  -- An invalid limit leaves the limiter as it is.
  abbrev pub apply_limits : Limits → Settings W → Settings W
  apply_limits (limited rate burst) s = limit_cell rate burst s.global_limiter s
  apply_limits unlimited s = record s {
    cells = disable_cell s.global_limiter s.cells;
    global_limiter = none;
    is_rate_limited = false;
  }
  apply_limits (invalid error) s = s

module _ {W : Type 0} ⦃f : Float W⦄ where
  unfoldable pub apply_config : RuntimeConfig W → Settings W → Settings W
  unfolding runtime_limiter_from_config set_max_workers is_interval build reconfigure disable
      Map.insert
  apply_config c s =
      let paced = record s {
        manager = set_max_workers c.workers s.manager;
        update_interval =
            if is_interval c.update_interval then c.update_interval else s.update_interval;
      } in
      apply_limits (runtime_limiter_from_config c) paced
