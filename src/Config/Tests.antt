-- ===== src/Config/Tests.antt =====
-- A limit that is set while a limiter is in use, and taken away again.
use simple_downloader.Prelude.{◌≤◌, ◌≡◌, refl, true, [], ◌∷◌, none, some, arith}
use simple_downloader.Prelude.Map
use simple_downloader.Float.{Fixed, fixed_float}
use simple_downloader.Concurrency.{new_with_interval}
use simple_downloader.Config.{RuntimeConfig}
use simple_downloader.Config.Limits.{Settings, apply_config}
use simple_downloader.Config.Synced.{IsSynced, Follows, apply_config-IsSynced}

abbrev settings : Settings Fixed
settings = record {
  manager = new_with_interval 1000 4 500;
  update_interval = 500;
  global_limiter = some 0;
  is_rate_limited = true;
  cells = (0, some (1024, 65536)) ∷ [];
  next_cell = 1;
}

abbrev slower : RuntimeConfig Fixed
slower = record { workers = 0; update_interval = 0; speed_limit = some 512; burst = none }

abbrev free : RuntimeConfig Fixed
free = record { workers = 2; update_interval = 200; speed_limit = none; burst = none }

-- The chunks that hold limiter 0 see both changes.
cell_is_shared :
    (Map.get 0 (apply_config slower settings).cells ≡ some (some (512, 65536)))
    × (Map.get 0 (apply_config free settings).cells ≡ some none)
    × ((apply_config free settings).update_interval ≡ 200)
unfolding apply_config Map.get
cell_is_shared = (refl, refl, refl)

apply_config-IsSynced_example :
    let next = apply_config slower settings in
    IsSynced next.global_limiter next.is_rate_limited next.cells
    × Follows (some 0) next.global_limiter next.cells
    × (1 ≤ next.manager.max_workers)
unfolding Map.get
apply_config-IsSynced_example =
    apply_config-IsSynced slower settings
      (refl, (1024, 65536), refl, (omega arith, omega arith, omega arith, omega arith))
