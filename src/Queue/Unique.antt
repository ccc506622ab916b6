-- ===== src/Queue/Unique.antt =====
-- No two tasks of the queue write to one path, as long as the queue is used in order.
use simple_downloader.Prelude.{
  ℕ, ◌≤◌, ◌≡◌, refl, inl, inr, Bool, true, false, none, some, none-ne-some, leb, length, Bool-cases,
  arith,
}
use simple_downloader.Prelude.Map
use simple_downloader.Prelude.Map.{Map}
use simple_downloader.Prelude.Text.{Text}
use simple_downloader.Task.{Task, TaskId}
use simple_downloader.Queue.{QueueState, with_max_concurrent, holds_path, pause, resume, cancel}
use simple_downloader.Queue.Driver.{
  pump_pop, pump_register, flush_pending_deletes, Step, enqueues, pauses, resumes, cancels, pops,
  registers, completes, flushes, apply, IsEnabled,
}
use simple_downloader.Queue.Places.{one_if, copies, is_queued, is_active, shows, owners}
use simple_downloader.Queue.Placed.{located, IsPlaced}
use simple_downloader.Queue.Spawning.{pop_front-IsPlaced, register-IsPlaced}
use simple_downloader.Queue.Methods.{
  shows_over, enqueue_at-IsPlaced, pause-IsPlaced, resume-IsPlaced, cancel-IsPlaced,
  on_complete-IsPlaced,
}

-- The id of a new task is new, no task is cancelled that is over, and only a download that is in
-- `active` ends.
abbrev pub IsOrderly : Step → QueueState → Type 0
IsOrderly (enqueues d c id url path workers now) s = Map.get id s.all ≡ none
IsOrderly (cancels id) s = shows_over (Map.get id s.all) ≡ false
IsOrderly (completes id error) s = (t : Task) × (Map.get id s.active ≡ some t)
IsOrderly other s = Unit

-- The states that an interleaving of orderly steps leads to.
pub data Orderly : QueueState → Type 0 where
  fresh : (n : ℕ) → Orderly (with_max_concurrent n)
  next :
      (step : Step) (s : QueueState)
      → IsEnabled step s
      → IsOrderly step s
      → Orderly s
      → Orderly (apply step s)

apply-IsPlaced :
    (step : Step) (s : QueueState)
    → IsEnabled step s
    → IsOrderly step s
    → IsPlaced s
    → IsPlaced (apply step s)
unfolding apply
apply-IsPlaced (enqueues d c id url path workers now) s ok new h =
    enqueue_at-IsPlaced d c id url path workers now s new h
apply-IsPlaced (pauses id) s ok o h =
    unfold pause in pause-IsPlaced id (Map.get id s.active) s refl h
apply-IsPlaced (resumes id) s ok o h =
    unfold resume in resume-IsPlaced id (Map.get id s.all) s refl h
apply-IsPlaced (cancels id) s ok o h =
    unfold cancel in cancel-IsPlaced id (Map.get id s.active) s refl o h
apply-IsPlaced pops s ok o h = elim (Bool-cases (leb s.max (length s.active))) [
  | inl e ↦ unfold pump_pop in rw e h
  | inr e ↦ unfold pump_pop in rw e (pop_front-IsPlaced s.queue s refl ok h)
]
apply-IsPlaced registers s ok o h = unfold pump_register in register-IsPlaced s.spawning s refl h
apply-IsPlaced (completes id error) s ok (t, runs) h = on_complete-IsPlaced id error t s runs h
apply-IsPlaced (flushes gone) s ok o h =
    unfold flush_pending_deletes in
    record {
      all_keyed = h.all_keyed;
      active_keyed = h.active_keyed;
      waiting = h.waiting;
      running = h.running;
      owned = h.owned;
    }

pub Orderly-IsPlaced : (s : QueueState) → Orderly s → IsPlaced s
unfolding with_max_concurrent Map.get
Orderly-IsPlaced s (fresh n) = record {
  all_keyed = λ id t e. absurd (none-ne-some t e);
  active_keyed = λ id t e. absurd (none-ne-some t e);
  waiting = λ id p. refl;
  running = λ id p. refl;
  owned = λ p. omega arith;
}
Orderly-IsPlaced s (next step t ok o r) = apply-IsPlaced step t ok o (Orderly-IsPlaced t r)

at_most_one : (b : Bool) (n : ℕ) → n ≤ one_if b → n ≤ 1
at_most_one true n h = h
at_most_one false n h = omega arith

-- In any interleaving of the queue's methods with the driver's steps in which the id of a new task is
-- new, no task is cancelled that has completed or failed, and only downloads in `active` end: a path
-- is the output of at most one task that is queued, active or paused, and is then in `occupied`; a
-- task stands in the queue exactly once while it is queued, and not at all otherwise; and it is in
-- `active`, or in the driver's hands, exactly once while it is active, and not at all otherwise.
pub owners-Orderly :
    (s : QueueState)
    → Orderly s
    → ((p : Text) → (owners p s.all ≤ 1) × (owners p s.all ≤ one_if (holds_path s.occupied p)))
      × ((id : TaskId) (p : Text)
          → (copies id p s.queue ≡ shows is_queued p (Map.get id s.all))
            × (located id p s ≡ shows is_active p (Map.get id s.all)))
owners-Orderly s r =
    let h = Orderly-IsPlaced s r in
    (
      λ p.
          let bound : owners p s.all ≤ one_if (holds_path s.occupied p) = h.owned p in
          (at_most_one (holds_path s.occupied p) (owners p s.all) bound, bound),
      λ id p. (h.waiting id p, h.running id p),
    )
