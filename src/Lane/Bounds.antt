-- ===== src/Lane/Bounds.antt =====
-- What a change of a lane in src/lane.rs does to the limits by download, by lane and by source.
use simple_downloader.Prelude.{
  ℕ, ◌+◌, ◌%◌, ◌≤◌, u32_mod, ◌≡◌, refl, inl, inr, Bool, true, false, ◌&&◌, not, map, Option, none,
  some, leb, ◌==◌, All, Bool-cases, arith,
}
use simple_downloader.Lane.{
  LaneId, LaneModel, per_source, per_source_proxy, LaneEntry, LaneScheduler, id_of, active_of,
  total_active_chunks, active_of_source, source_active_chunks, available_capacity, source_is_full,
  lane_has_capacity, is_healthy, find, is_eligible, is_expired, decay_entry, on_lane, one_more,
  failed_once, assign_chunk, blacklist_threshold,
}
use simple_downloader.Lane.Change.{
  is_lane, Distinct, find-is_lane, weigh-change_lane, weigh-change_lane_le, weigh-map_le,
  All-change_lane, All-map, All-change_found,
}

-- The limit for a source, where lanes are by source and it is set.
abbrev pub IsWithin : LaneModel → Option ℕ → ℕ → Type 0
IsWithin per_source (some limit) n = n ≤ limit
IsWithin per_source none n = Unit
IsWithin per_source_proxy limit n = Unit

IsWithin-le :
    (model : LaneModel) (limit : Option ℕ) (m n : ℕ)
    → m ≤ n
    → IsWithin model limit n
    → IsWithin model limit m
IsWithin-le per_source none m n h k = tt
IsWithin-le per_source (some limit) m n h k = omega arith
IsWithin-le per_source_proxy limit m n h k = tt

abbrev pub IsBounded : LaneScheduler → Type 0
IsBounded s =
    (total_active_chunks s ≤ s.max_workers)
    × All (λ e. e.active_chunks ≤ s.max_chunks_per_lane) s.lanes
    × ((source : ℕ) → IsWithin s.lane_model s.max_chunks_per_source (source_active_chunks s source))

-- The name and the source stay, and no chunk is added.
abbrev pub Shrinks : (LaneEntry → LaneEntry) → Type 0
Shrinks f =
    (e : LaneEntry)
    → (id_of (f e) ≡ id_of e)
      × ((f e).candidate.source_id ≡ e.candidate.source_id)
      × ((f e).active_chunks ≤ e.active_chunks)

module _ (f : LaneEntry → LaneEntry) (h : Shrinks f) where
  is_lane-Shrinks : (k : LaneId) (e : LaneEntry) → is_lane k (f e) ≤ is_lane k e
  is_lane-Shrinks k e = rw ((h e).0) (omega arith)

  active_of_source-Shrinks :
      (source : ℕ) (e : LaneEntry) → active_of_source source (f e) ≤ active_of_source source e
  active_of_source-Shrinks source e = rw ((h e).1) (ground (arith, (h e).2))

  pub on_lane-IsBounded :
      (id : LaneId) (s : LaneScheduler)
      → Distinct s.lanes × IsBounded s
      → Distinct (on_lane id f s).lanes × IsBounded (on_lane id f s)
  on_lane-IsBounded id s (d, (total, each, source)) = (
    λ k. omega (arith, d k, weigh-change_lane_le (is_lane k) f (is_lane-Shrinks k) id s.lanes),
    (
      omega (arith, weigh-change_lane_le active_of f (λ e. (h e).2) id s.lanes),
      All-change_lane (λ e. e.active_chunks ≤ s.max_chunks_per_lane) f
          (λ e k. omega (arith, (h e).2)) id s.lanes each,
      λ k.
          IsWithin-le s.lane_model s.max_chunks_per_source (source_active_chunks (on_lane id f s) k)
            (source_active_chunks s k)
            (weigh-change_lane_le (active_of_source k) f (active_of_source-Shrinks k) id s.lanes)
            (source k),
    ),
  )

  pub map-IsBounded :
      (s : LaneScheduler)
      → Distinct s.lanes × IsBounded s
      → Distinct (map f s.lanes) × IsBounded (record s { lanes = map f s.lanes })
  map-IsBounded s (d, (total, each, source)) = (
    λ k. omega (arith, d k, weigh-map_le (is_lane k) f (is_lane-Shrinks k) s.lanes),
    (
      omega (arith, weigh-map_le active_of f (λ e. (h e).2) s.lanes),
      All-map (λ e. e.active_chunks ≤ s.max_chunks_per_lane) f (λ e k. omega (arith, (h e).2))
          s.lanes each,
      λ k.
          IsWithin-le s.lane_model s.max_chunks_per_source
            (source_active_chunks (record s { lanes = map f s.lanes }) k) (source_active_chunks s k)
            (weigh-map_le (active_of_source k) f (active_of_source-Shrinks k) s.lanes) (source k),
    ),
  )

pub decay_entry-Shrinks : (now : ℕ) → Shrinks (decay_entry now)
decay_entry-Shrinks now e =
    elim (Bool-cases (not (is_healthy e.health) && is_expired now e.blacklisted_at)) [
      | inl t ↦ rw t (refl, refl, omega arith)
      | inr t ↦ rw t (refl, refl, omega arith)
    ]

pub failed_once-Shrinks : (now : ℕ) → Shrinks (failed_once now)
failed_once-Shrinks now e =
    elim (Bool-cases (leb blacklist_threshold ((e.consecutive_failures + 1) % u32_mod))) [
      | inl t ↦ rw t (refl, refl, omega arith)
      | inr t ↦ rw t (refl, refl, omega arith)
    ]

-- A lane that has capacity takes one more chunk.
eligible_room :
    (s : LaneScheduler) (b : Bool) (e : LaneEntry)
    → is_eligible s b e ≡ true
    → (1 ≤ available_capacity s)
      × (e.active_chunks + 1 ≤ s.max_chunks_per_lane)
      × (source_is_full s e.candidate.source_id s.lane_model s.max_chunks_per_source ≡ false)
unfolding lane_has_capacity
eligible_room s b e h = (ground arith, ground arith, ground arith)

room-IsWithin :
    (s : LaneScheduler) (source : ℕ) (model : LaneModel) (limit : Option ℕ) (n : ℕ)
    → source_is_full s source model limit ≡ false
    → n ≤ source_active_chunks s source + 1
    → IsWithin model limit n
room-IsWithin s source per_source none n full h = tt
room-IsWithin s source per_source (some limit) n full h = ground arith
room-IsWithin s source per_source_proxy limit n full h = tt

-- A lane that was selected takes a chunk.
pub assign_chunk-IsBounded :
    (s : LaneScheduler) (b : Bool) (e : LaneEntry)
    → find (is_eligible s b) s.lanes ≡ some e
    → Distinct s.lanes × IsBounded s
    → Distinct (assign_chunk (id_of e) s).lanes × IsBounded (assign_chunk (id_of e) s)
unfolding assign_chunk
assign_chunk-IsBounded s b e h (d, (total, each, source)) =
    let p = is_eligible s b in
    let once = d (id_of e) in
    let changed = λ (w : LaneEntry → ℕ). weigh-change_lane w p one_more s.lanes e h once in
    let (room, lane_room, source_room) = eligible_room s b e ((find-is_lane p s.lanes e h).1) in
    (
      λ k. omega (arith, d k, changed (is_lane k)),
      (
        omega (arith, changed active_of),
        All-change_found (λ x. x.active_chunks ≤ s.max_chunks_per_lane) one_more p s.lanes e h once
            lane_room each,
        λ k. elim (Bool-cases (e.candidate.source_id == k)) [
          | inl t ↦
              let same : e.candidate.source_id ≡ k = ground arith in
              room-IsWithin s k s.lane_model s.max_chunks_per_source
                (source_active_chunks (on_lane (id_of e) one_more s) k) (rw same at source_room)
                (omega (arith, rw t at (changed (active_of_source k))))
          | inr t ↦
              IsWithin-le s.lane_model s.max_chunks_per_source
                (source_active_chunks (on_lane (id_of e) one_more s) k) (source_active_chunks s k)
                (omega (arith, rw t at (changed (active_of_source k)))) (source k)
        ],
      ),
    )
