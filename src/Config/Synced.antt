-- ===== src/Config/Synced.antt =====
-- What a change of the settings of src/monitor.rs does to the limiters, those that chunks hold included.
use simple_downloader.Prelude.{
  ℕ, ◌≤◌, ◌<◌, ◌≡◌, ◌⊎◌, refl, inl, inr, subst, sym, Bool, true, false, Option, none, some, ltb,
  ◌==◌, if◌then◌else◌, Bool-cases, u32_mod, arith,
}
use simple_downloader.Prelude.Map
use simple_downloader.Float.{Float}
use simple_downloader.Concurrency.{set_max_workers}
use simple_downloader.Config.{RuntimeConfig, is_interval}
use simple_downloader.Config.Limits.{
  Cells, Quota, build, reconfigure, disable, Limits, limited, unlimited, invalid, with_burst,
  limits_of, runtime_limiter_from_config, Settings, limit_cell, disable_cell, apply_limits,
  apply_config,
}

-- Rate and burst are not zero and are `u32`s.
abbrev pub IsQuota : Quota → Type 0
IsQuota (rate, burst) = (0 < rate) × (rate < u32_mod) × (0 < burst) × (burst < u32_mod)

-- A limiter is set exactly if the rate is limited, and its cell holds a quota that is in range.
abbrev pub IsSynced : Option ℕ → Bool → Cells → Type 0
IsSynced none is_limited cells = is_limited ≡ false
IsSynced (some id) is_limited cells =
    (is_limited ≡ true) × (q : Quota) × (Map.get id cells ≡ some (some q)) × IsQuota q

-- What becomes of the limiter that a chunk got before: it is still the one in use, or it is disabled.
abbrev pub Follows : Option ℕ → Option ℕ → Cells → Type 0
Follows none after cells = Unit
Follows (some id) after cells = (after ≡ some id) ⊎ (Map.get id cells ≡ some none)

abbrev pub IsLimits : Limits → Type 0
IsLimits (limited rate burst) = IsQuota (build rate burst)
IsLimits _ = Unit

with_burst-IsLimits :
    (limit : ℕ) (burst : Option ℕ) → 0 < limit → limit < u32_mod → IsLimits (with_burst limit burst)
unfolding build
with_burst-IsLimits limit none h k = (h, k, omega arith, omega arith)
with_burst-IsLimits limit (some burst) h k = ground arith

limits_of-IsLimits : (limit burst : Option ℕ) → IsLimits (limits_of limit burst)
limits_of-IsLimits none none = tt
limits_of-IsLimits none (some burst) = tt
limits_of-IsLimits (some limit) burst = elim (Bool-cases (ltb limit u32_mod)) [
  | inr e ↦ rw e tt
  | inl e ↦ elim (Bool-cases (limit == 0)) [
    | inl d ↦ rw (e, d) tt
    | inr d ↦ rw (e, d) (with_burst-IsLimits limit burst (ground arith) (ground arith))
  ]
]

get-inserted :
    (id : ℕ) (v : Option Quota) (cells : Cells) → Map.get id (Map.insert id v cells) ≡ some v
get-inserted id v cells = ground (arith, Map.get-insert id id v cells)

Follows-refl : (o : Option ℕ) (cells : Cells) → Follows o o cells
Follows-refl none cells = tt
Follows-refl (some id) cells = inl refl

disable_cell-Follows : (o : Option ℕ) (cells : Cells) → Follows o none (disable_cell o cells)
unfolding disable
disable_cell-Follows none cells = tt
disable_cell-Follows (some id) cells = inr (get-inserted id none cells)

module _ {W : Type 0} where
  -- The settings after a change of the limits.
  abbrev Good : Option ℕ → Settings W → Type 0
  Good before s =
      IsSynced s.global_limiter s.is_rate_limited s.cells × Follows before s.global_limiter s.cells

  limit_cell-Good :
      (rate : ℕ) (burst before : Option ℕ) (s : Settings W)
      → s.global_limiter ≡ before
      → IsQuota (build rate burst)
      → Good before (limit_cell rate burst before s)
  unfolding reconfigure
  limit_cell-Good rate burst none s e h =
      ((refl, build rate burst, get-inserted s.next_cell (some (build rate burst)) s.cells, h), tt)
  limit_cell-Good rate burst (some id) s e h =
      rw e
        ((refl, build rate burst, get-inserted id (some (build rate burst)) s.cells, h), inl refl)

  apply_limits-Good :
      (l : Limits) (s : Settings W)
      → IsLimits l
      → IsSynced s.global_limiter s.is_rate_limited s.cells
      → Good s.global_limiter (apply_limits l s)
  apply_limits-Good (limited rate burst) s q h =
      limit_cell-Good rate burst s.global_limiter s refl q
  apply_limits-Good unlimited s q h = (refl, disable_cell-Follows s.global_limiter s.cells)
  apply_limits-Good (invalid error) s q h = (h, Follows-refl s.global_limiter s.cells)

  limit_cell-manager :
      (rate : ℕ) (burst o : Option ℕ) (s : Settings W)
      → (limit_cell rate burst o s).manager ≡ s.manager
  limit_cell-manager rate burst none s = refl
  limit_cell-manager rate burst (some id) s = refl

  apply_limits-manager : (l : Limits) (s : Settings W) → (apply_limits l s).manager ≡ s.manager
  apply_limits-manager (limited rate burst) s = limit_cell-manager rate burst s.global_limiter s
  apply_limits-manager unlimited s = refl
  apply_limits-manager (invalid error) s = refl

module _ {W : Type 0} ⦃f : Float W⦄ where
  -- Whatever the new settings are: after apply_config the monitor has a global limiter exactly if its
  -- rate is limited, with a rate and a burst that are not zero and are `u32`s, if that was so before;
  -- and a limiter that chunks got before is still the one in use, or is disabled. The workers are at
  -- least one.
  pub apply_config-IsSynced :
      (c : RuntimeConfig W) (s : Settings W)
      → IsSynced s.global_limiter s.is_rate_limited s.cells
      → let next = apply_config c s in
        IsSynced next.global_limiter next.is_rate_limited next.cells
        × Follows s.global_limiter next.global_limiter next.cells
        × (1 ≤ next.manager.max_workers)
  unfolding apply_config runtime_limiter_from_config set_max_workers
  apply_config-IsSynced c s h =
      let limits = limits_of c.speed_limit c.burst in
      let paced : Settings W = record s {
        manager = set_max_workers c.workers s.manager;
        update_interval =
            if is_interval c.update_interval then c.update_interval else s.update_interval;
      } in
      let (synced, follows) =
        apply_limits-Good limits paced (limits_of-IsLimits c.speed_limit c.burst) h in
      let same = apply_limits-manager limits paced in
      let some_worker : 1 ≤ (set_max_workers c.workers s.manager).max_workers = ground arith in
      (synced, follows, subst (λ m. 1 ≤ m.max_workers) (sym same) some_worker)
