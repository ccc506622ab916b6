-- ===== src/Queue/Methods.antt =====
-- Each method of the queue keeps the tasks and their paths in place.
use simple_downloader.Prelude.{
  ℕ, ◌≡◌, refl, inl, inr, Bool, true, false, ◌||◌, List, [], ◌∷◌, ◌++◌, Option, none, some, max,
  Bool-cases, arith,
}
use simple_downloader.Prelude.Map
use simple_downloader.Prelude.Map.{Map}
use simple_downloader.Prelude.Text.{Text}
use simple_downloader.Task.{
  Task, TaskId, TaskState, queued, active, paused, completed, removed, failed,
}
use simple_downloader.Task
use simple_downloader.Queue.{
  QueueState, enqueue_at, holds_path, without, take_task, pause_active, pause_queued, pause_other,
  resume_task, cancel_active, cancel_queued, cancel_other,
}
use simple_downloader.Queue.Driver.{ended, is_over, on_complete, or_same}
use simple_downloader.Queue.Places.{is_queued, is_active, is_live, active_else}
use simple_downloader.Queue.Placed.{IsPlaced, Owned-kept, Owned-freed}
use simple_downloader.Queue.Leaving.{
  same_path_live, left_queue, paused_queue, freed_queue, ran, left_active,
}
use simple_downloader.Queue.Entering.{joined-IsPlaced, resumed-IsPlaced, dropped-IsPlaced}

abbrev pub shows_over : Option Task → Bool
shows_over none = false
shows_over (some t) = is_over t.state

pub enqueue_at-IsPlaced :
    (d c : Bool) (id : TaskId) (url path : Text) (workers now : ℕ) (s : QueueState)
    → Map.get id s.all ≡ none
    → IsPlaced s
    → IsPlaced (or_same s (enqueue_at d c id url path workers now s))
unfolding enqueue_at Task.new
enqueue_at-IsPlaced d c id url path workers now s new h =
    elim (Bool-cases (holds_path s.occupied path || d || c)) [
      | inl e ↦ rw e h
      | inr e ↦
          let free : holds_path s.occupied path ≡ false = ground arith in
          rw e
            (joined-IsPlaced s id (Task.new id url path (max workers 1) now) new refl refl free h)
    ]

pause_other-IsPlaced :
    (id : TaskId) (o : Option Task) (s : QueueState)
    → IsPlaced s
    → IsPlaced (pause_other id o s).state
unfolding pause_other
pause_other-IsPlaced id none s h = h
pause_other-IsPlaced id (some t) s h =
    let same : (pause_other id (some t) s).state ≡ s = ground arith in rw same h

pause_queued-IsPlaced :
    (id : TaskId) (o : Option (Task × List Task)) (s : QueueState)
    → take_task id s.queue ≡ o
    → IsPlaced s
    → IsPlaced (pause_queued id o s).state
unfolding pause_queued
pause_queued-IsPlaced id none s e h = pause_other-IsPlaced id (Map.get id s.all) s h
pause_queued-IsPlaced id (some (t, rest)) s e h =
    left_queue s id t rest paused h e refl refl s.occupied
      (paused_queue s id t rest paused h e refl refl)

pub pause-IsPlaced :
    (id : TaskId) (o : Option Task) (s : QueueState)
    → Map.get id s.active ≡ o
    → IsPlaced s
    → IsPlaced (pause_active id o s).state
unfolding pause_active
pause-IsPlaced id none s e h = pause_queued-IsPlaced id (take_task id s.queue) s refl h
pause-IsPlaced id (some t) s e h =
    let v = record t { state = paused } in
    let own : t.id ≡ id = h.active_keyed id t e in
    let (u, g, a, path) = ran s id t v h e own refl refl in
    let (_, _, live) = active_else u.state a in
    left_active s id t v h e own refl refl s.occupied s.pending_deletes
      (Owned-kept s.all s.occupied id u v g (same_path_live t u paused live path) h.owned)

-- By the state that the task has.
resume_by :
    (s : QueueState) (id : TaskId) (t : Task) (x : TaskState)
    → t.state ≡ x
    → Map.get id s.all ≡ some t
    → IsPlaced s
    → IsPlaced (resume_task id (some t) s).state
unfolding resume_task
resume_by s id t paused e known h = rw e (resumed-IsPlaced s id t h known e)
resume_by s id t queued e known h = rw e h
resume_by s id t active e known h = rw e h
resume_by s id t completed e known h = rw e h
resume_by s id t removed e known h = rw e h
resume_by s id t (failed error) e known h = rw e h

cancel_by :
    (s : QueueState) (id : TaskId) (t : Task) (x : TaskState)
    → t.state ≡ x
    → Map.get id s.all ≡ some t
    → is_over x ≡ false
    → IsPlaced s
    → IsPlaced (cancel_other id (some t) s).state
unfolding cancel_other
cancel_by s id t paused e known over h = rw e (dropped-IsPlaced s id t h known e)
cancel_by s id t queued e known over h = rw e h
cancel_by s id t active e known over h = rw e h
cancel_by s id t removed e known over h = rw e h
cancel_by s id t completed e known over h = absurd (ground arith)
cancel_by s id t (failed error) e known over h = absurd (ground arith)

pub resume-IsPlaced :
    (id : TaskId) (o : Option Task) (s : QueueState)
    → Map.get id s.all ≡ o
    → IsPlaced s
    → IsPlaced (resume_task id o s).state
unfolding resume_task
resume-IsPlaced id none s e h = h
resume-IsPlaced id (some t) s e h = resume_by s id t t.state refl e h

cancel_other-IsPlaced :
    (id : TaskId) (o : Option Task) (s : QueueState)
    → Map.get id s.all ≡ o
    → shows_over o ≡ false
    → IsPlaced s
    → IsPlaced (cancel_other id o s).state
unfolding cancel_other
cancel_other-IsPlaced id none s e over h = h
cancel_other-IsPlaced id (some t) s e over h = cancel_by s id t t.state refl e over h

cancel_queued-IsPlaced :
    (id : TaskId) (o : Option (Task × List Task)) (s : QueueState)
    → take_task id s.queue ≡ o
    → shows_over (Map.get id s.all) ≡ false
    → IsPlaced s
    → IsPlaced (cancel_queued id o s).state
unfolding cancel_queued
cancel_queued-IsPlaced id none s e over h =
    cancel_other-IsPlaced id (Map.get id s.all) s refl over h
cancel_queued-IsPlaced id (some (t, rest)) s e over h =
    left_queue s id t rest removed h e refl refl (without s.occupied t.output_path)
      (freed_queue s id t rest removed h e refl refl refl)

pub cancel-IsPlaced :
    (id : TaskId) (o : Option Task) (s : QueueState)
    → Map.get id s.active ≡ o
    → shows_over (Map.get id s.all) ≡ false
    → IsPlaced s
    → IsPlaced (cancel_active id o s).state
unfolding cancel_active
cancel-IsPlaced id none s e over h = cancel_queued-IsPlaced id (take_task id s.queue) s refl over h
cancel-IsPlaced id (some t) s e over h =
    let v = record t { state = removed } in
    let own : t.id ≡ id = h.active_keyed id t e in
    let (u, g, a, path) = ran s id t v h e own refl refl in
    let (_, _, live) = active_else u.state a in
    left_active s id t v h e own refl refl (without s.occupied t.output_path)
      (s.pending_deletes ++ t.output_path ∷ [])
      (Owned-freed s.all s.occupied id u v t.output_path g live refl path h.owned)

-- A download that ends makes its task completed or failed.
ended_active :
    (error : Option Text) (x : TaskState)
    → x ≡ active
    → (is_over (ended error x) ≡ true)
      × (is_queued (ended error x) ≡ false)
      × (is_active (ended error x) ≡ false)
      × (is_live (ended error x) ≡ false)
unfolding ended
ended_active none x e = rw e (refl, refl, refl, refl)
ended_active (some error) x e = rw e (refl, refl, refl, refl)

pub on_complete-IsPlaced :
    (id : TaskId) (error : Option Text) (t : Task) (s : QueueState)
    → Map.get id s.active ≡ some t
    → IsPlaced s
    → IsPlaced (on_complete id error s)
unfolding on_complete
on_complete-IsPlaced id error t s runs h =
    let (u, g, a, path) =
      ran s id t (record t { state = paused }) h runs (h.active_keyed id t runs) refl refl in
    let (is, _, live) = active_else u.state a in
    let (over, idle, still, dead) = ended_active error u.state is in
    let v = record u { state = ended error u.state } in
    rw (g, over)
      (left_active s id t v h runs (h.all_keyed id u g) idle still
        (without s.occupied u.output_path) s.pending_deletes
        (Owned-freed s.all s.occupied id u v u.output_path g live dead refl h.owned))
