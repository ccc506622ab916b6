-- ===== src/Queue/Places.antt =====
-- In which table of the queue a task is found, and with which path: `copies` counts the tasks in
-- `queue`, `entry` and `held` those in `active` and in the hands of the driver.
use simple_downloader.Prelude.{
  ℕ, ◌+◌, ◌≤◌, ◌≡◌, refl, ap, inl, inr, Bool, true, false, ◌&&◌, List, [], ◌∷◌, Option, none, some,
  some-injective, none-ne-some, ◌==◌, if◌then◌else◌, weigh, Bool-cases, Option-cases, arith, sym,
  ◌∙◌,
}
use simple_downloader.Prelude.Map
use simple_downloader.Prelude.Map.{Map}
use simple_downloader.Prelude.Text.{Text}
use simple_downloader.Task.{
  Task, TaskId, TaskState, queued, active, paused, completed, removed, failed,
}
use simple_downloader.Queue.{same_text, holds_path, without, take_task}

pub same_text_refl : (p : Text) → same_text p p ≡ true
same_text_refl [] = refl
same_text_refl (c ∷ p) = let same = same_text_refl p in ground arith

pub same_text-≡ : (p q : Text) → same_text p q ≡ true → p ≡ q
same_text-≡ [] [] h = refl
same_text-≡ [] (d ∷ q) h = absurd (ground arith)
same_text-≡ (c ∷ p) [] h = absurd (ground arith)
same_text-≡ (c ∷ p) (d ∷ q) h = elim (Bool-cases (c == d)) [
  | inl e ↦ let head : c ≡ d = ground arith in let tail : p ≡ q = same_text-≡ p q (rw e at h) in cc
  | inr e ↦ absurd (ground arith)
]

abbrev pub one_if : Bool → ℕ
one_if b = if b then 1 else 0

abbrev pub is_for : TaskId → Text → Task → Bool
is_for id p t = t.id == id && same_text t.output_path p

abbrev pub copies : TaskId → Text → List Task → ℕ
copies id p = weigh (λ t. one_if (is_for id p t))

abbrev pub entry : Text → Option Task → ℕ
entry p none = 0
entry p (some t) = one_if (same_text t.output_path p)

abbrev pub held : TaskId → Text → Option Task → ℕ
held id p none = 0
held id p (some t) = one_if (is_for id p t)

-- What `all` says of a task: whether it is queued, active, or in the way of others.
abbrev pub is_queued : TaskState → Bool
is_queued queued = true
is_queued other = false

abbrev pub is_active : TaskState → Bool
is_active active = true
is_active other = false

abbrev pub is_live : TaskState → Bool
is_live queued = true
is_live active = true
is_live paused = true
is_live other = false

abbrev pub shows : (TaskState → Bool) → Text → Option Task → ℕ
shows is p none = 0
shows is p (some t) = one_if (is t.state && same_text t.output_path p)

-- The tasks that hold a path.
abbrev pub owners : Text → Map Task → ℕ
owners p = weigh (λ e. shows is_live p (some e.1))

abbrev pub Keyed : Map Task → Type 0
Keyed m = (id : TaskId) (t : Task) → Map.get id m ≡ some t → t.id ≡ id

-- A task that is shown with a path is there.
pub shows-some :
    (is : TaskState → Bool) (p : Text) (o : Option Task)
    → 1 ≤ shows is p o
    → (u : Task) × (o ≡ some u) × (is u.state ≡ true) × (u.output_path ≡ p)
shows-some is p none h = absurd (omega arith)
shows-some is p (some u) h = elim (Bool-cases (is u.state)) [
  | inl e ↦ elim (Bool-cases (same_text u.output_path p)) [
    | inl f ↦ (u, refl, e, same_text-≡ u.output_path p f)
    | inr f ↦ absurd (omega (arith, rw (e, f) at h))
  ]
  | inr e ↦ absurd (omega (arith, rw e at h))
]

-- In `shows-some` a queued task is not active, nor the other way round, and both are live.
pub queued_else : (x : TaskState) → is_queued x ≡ true → (is_active x ≡ false) × (is_live x ≡ true)
queued_else queued h = (refl, refl)
queued_else active h = absurd (ground arith)
queued_else paused h = absurd (ground arith)
queued_else completed h = absurd (ground arith)
queued_else removed h = absurd (ground arith)
queued_else (failed error) h = absurd (ground arith)

pub active_else :
    (x : TaskState) → is_active x ≡ true → (x ≡ active) × (is_queued x ≡ false) × (is_live x ≡ true)
active_else active h = (refl, refl, refl)
active_else queued h = absurd (ground arith)
active_else paused h = absurd (ground arith)
active_else completed h = absurd (ground arith)
active_else removed h = absurd (ground arith)
active_else (failed error) h = absurd (ground arith)

pub owners-remove :
    (p : Text) (id : TaskId) (m : Map Task)
    → owners p (Map.remove id m) + shows is_live p (Map.get id m) ≤ owners p m
unfolding Map.get Map.remove
owners-remove p id [] = omega arith
owners-remove p id ((j, t) ∷ m) = elim (Bool-cases (j == id)) [
  | inl e ↦ rw e (omega (arith, owners-remove p id m))
  | inr e ↦ rw e (omega (arith, owners-remove p id m))
]

pub Keyed-insert :
    (id : TaskId) (t : Task) (m : Map Task) → t.id ≡ id → Keyed m → Keyed (Map.insert id t m)
Keyed-insert id t m own k j u g = elim (Bool-cases (id == j)) [
  | inl e ↦
      let same : t ≡ u = some-injective t u (rw (Map.get-insert id j t m, e) at g) in
      let here : t.id ≡ j = ground arith in rw (sym same) here
  | inr e ↦ k j u (rw (Map.get-insert id j t m, e) at g)
]

pub Keyed-remove : (j : TaskId) (m : Map Task) → Keyed m → Keyed (Map.remove j m)
Keyed-remove j m k id u g = elim (Bool-cases (j == id)) [
  | inl e ↦ absurd (grind (arith, Map.get-remove j id m))
  | inr e ↦ k id u (rw (Map.get-remove j id m, e) at g)
]

-- A path that is given back is free, and no other.
pub holds_path-without :
    (paths : List Text) (q p : Text)
    → one_if (holds_path (without paths q) p)
      ≡ (if same_text q p then 0 else one_if (holds_path paths p))
holds_path-without [] q p = ground arith
holds_path-without (r ∷ paths) q p =
    let rest = holds_path-without paths q p in
    elim (Bool-cases (same_text r q)) [
      | inl e ↦ let here : r ≡ q = same_text-≡ r q e in rw e (rw here (ground arith))
      | inr e ↦ rw e (elim (Bool-cases (same_text r p)) [
        | inl f ↦ rw f (elim (Bool-cases (same_text q p)) [
          | inl g ↦
              let both : r ≡ q = same_text-≡ r p f ∙ sym (same_text-≡ q p g) in
              absurd (ground (arith, same_text_refl q))
          | inr g ↦ rw g refl
        ])
        | inr f ↦ rw f rest
      ])
    ]

==-≡ : (a b : ℕ) → (a == b) ≡ true → a ≡ b
==-≡ a b h = ground arith

-- The task that is taken out of the queue was in it.
pub take_task-copies :
    (id : TaskId) (queue : List Task) (t : Task) (rest : List Task)
    → take_task id queue ≡ some (t, rest)
    → (t.id ≡ id)
      × ((j : TaskId) (p : Text) → copies j p queue ≡ one_if (is_for j p t) + copies j p rest)
unfolding take_task
take_task-copies id [] t rest h = absurd (grind arith)
take_task-copies id (u ∷ queue) t rest h = elim (Bool-cases (u.id == id)) [
  | inl e ↦
      let same : (u, queue) ≡ (t, rest) =
        some-injective (u, queue) (t, rest) (rw (take_task, e) at h) in
      let task : u ≡ t = ap (λ x. x.0) same in
      let left : queue ≡ rest = ap (λ x. x.1) same in
      let known : u.id ≡ id = ==-≡ u.id id e in rw (sym task, sym left) (known, λ j p. refl)
  | inr e ↦ elim (Option-cases (take_task id queue)) [
    | inl g ↦ absurd (none-ne-some (t, rest) (rw (take_task, e, g) at h))
    | inr ((v, others), g) ↦
        let same : (v, u ∷ others) ≡ (t, rest) =
          some-injective (v, u ∷ others) (t, rest) (rw (take_task, e, g) at h) in
        let task : v ≡ t = ap (λ x. x.0) same in
        let left : u ∷ others ≡ rest = ap (λ x. x.1) same in
        let (known, split) = take_task-copies id queue v others g in
        let both : (j : TaskId) (p : Text)
            → copies j p (u ∷ queue) ≡ one_if (is_for j p v) + copies j p (u ∷ others) =
          λ j p. omega (arith, split j p) in
        rw (sym task, sym left) (known, both)
  ]
]
