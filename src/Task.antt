-- ===== src/Task.antt =====
-- sccp_task.c: the task runner of a session's thread, a list of delayed callbacks and a heap of
-- them by due time. Asterisk's heap is the parameter `Heap`, whose laws are those of
-- asterisk/heap.h with `task_cmp` as its order. Times are microseconds; the clock's reading is an
-- argument. A runner holds at most one task for a callback and its data, so a task stands for its
-- address. An allocation's outcome is an argument.
pub mod Valid
pub mod Detach
pub mod Ends
pub mod Run
pub mod Wait
pub mod Example
mod Tests
use wazo_libsccp.Common.{
  ℕ, zero, suc, ◌+◌, ◌-◌, ◌*◌, ◌/◌, ◌%◌, ◌^◌, ◌≡◌, Bool, true, false, ◌&&◌, not, List, [], ◌∷◌,
  ◌++◌, Option, none, some, if◌then◌else◌, ltb, ◌==◌, ℤ, pos, negsuc, count, take, same_bytes,
}

pub record Task : Type 0 where
  pub callback : ℕ
  pub bytes : List ℕ
  pub when : ℕ

-- `memcmp` looks at the runner's `data_size` bytes, which is what `task_create` copied.
abbrev pub task_is_equal : ℕ → List ℕ → Task → Bool
task_is_equal callback bytes t = (t.callback == callback) && same_bytes t.bytes bytes

abbrev pub earlier : Task → Task → Bool
earlier t u = ltb u.when t.when

pub record Heap : Type 1 where
  pub H : Type 0
  pub create : H
  -- What the heap holds, in any order.
  pub elements : H → List Task
  pub push : H → Task → Bool × H
  pub remove : H → Task → H
  pub peek : H → Option Task
  pub pop : H → H
  pub create_empty : elements create ≡ []
  pub push_adds :
      (h : H) (t : Task) (p : Task → Bool)
      → (push h t).0 ≡ true
      → count p (elements (push h t).1) ≡ count p (t ∷ elements h)
  pub push_fails : (h : H) (t : Task) → (push h t).0 ≡ false → (push h t).1 ≡ h
  pub remove_removes :
      (h : H) (t : Task) (p : Task → Bool)
      → count p (elements (remove h t))
        ≡ count (λ u. p u && not (task_is_equal t.callback t.bytes u)) (elements h)
  pub peek_empty : (h : H) → peek h ≡ none → elements h ≡ []
  pub peek_first : (h : H) (t : Task) → peek h ≡ some t → count (earlier t) (elements h) ≡ 0
  pub pop_removes :
      (h : H) (t : Task) (p : Task → Bool)
      → peek h ≡ some t
      → count p (elements h) ≡ count p (t ∷ elements (pop h))

pub record Runner (H : Type 0) : Type 0 where
  pub tasks : List Task
  pub heap : H
  pub data_size : ℕ

-- `AST_LIST_TRAVERSE` to the first task of that callback and data.
unfoldable pub lookup : ℕ → List ℕ → List Task → Option Task
lookup c d [] = none
lookup c d (t ∷ ts) = elim (task_is_equal c d t) [ true ↦ some t | false ↦ lookup c d ts ]

-- `task->when = …` on that task.
unfoldable pub set_when : ℕ → List ℕ → ℕ → List Task → List Task
set_when c d w [] = []
set_when c d w (t ∷ ts) = elim (task_is_equal c d t) [
  | true ↦ record t { when = w } ∷ ts
  | false ↦ t ∷ set_when c d w ts
]

-- `AST_LIST_REMOVE` of that task.
unfoldable pub unlink : ℕ → List ℕ → List Task → List Task
unlink c d [] = []
unlink c d (t ∷ ts) = elim (task_is_equal c d t) [ true ↦ ts | false ↦ t ∷ unlink c d ts ]

-- The due time of a delay in seconds, from the present.
unfoldable pub due_time : ℕ → ℤ → ℕ
due_time now (negsuc n) = now
due_time now (pos sec) = now + sec * 1000000

-- Tasks whose time is before the deadline.
abbrev pub is_due : ℕ → Task → Bool
is_due deadline t = ltb t.when deadline

-- `ast_tvdiff_ms`, rounded down, kept in an `int`, with 0 in place of a negative number. The number of
-- milliseconds has 64 bits, and the `int` keeps its lower 32.
unfoldable pub to_ms : ℕ → ℕ → ℕ
to_ms when now =
    let ms =
      if ltb when now
      then (2 ^ 32 - (now - when + 999) / 1000 % 2 ^ 32) % 2 ^ 32
      else (when - now) / 1000 % 2 ^ 32 in
    if ltb ms (2 ^ 31) then ms else 0

module _ (E : Heap) where
  open E use {H, push, remove, peek, pop}

  unfoldable pub runner_create : Bool → Bool → ℕ → Option (Runner H)
  runner_create allocated heap_allocated data_size =
      if allocated && heap_allocated
      then some (record { tasks = []; heap = E.create; data_size = data_size })
      else none

  -- The end of `sccp_task_runner_add`: 0, or what `ast_heap_push` failed with.
  unfoldable pub schedule : Runner H → List Task → H → Task → Bool × Runner H
  schedule r tasks heap t =
      let (ok, heap') = push heap t in (ok, record r { tasks = tasks; heap = heap' })

  -- The result is true for 0 and false for -1.
  unfoldable pub runner_add : Bool → ℕ → Runner H → ℕ → List ℕ → ℤ → Bool × Runner H
  unfolding lookup set_when due_time schedule
  runner_add allocated now r callback bytes sec =
      let d = take r.data_size bytes in
      let when = due_time now sec in
      let new : Task = record { callback = callback; bytes = d; when = when } in
      elim (lookup callback d r.tasks) [
        | some t ↦
            schedule r (set_when callback d when r.tasks) (remove r.heap t)
              (record t { when = when })
        | none ↦ if allocated then schedule r (r.tasks ++ new ∷ []) r.heap new else (false, r)
      ]

  unfoldable pub runner_remove : Runner H → ℕ → List ℕ → Runner H
  unfolding lookup unlink
  runner_remove r callback bytes =
      let d = take r.data_size bytes in
      elim (lookup callback d r.tasks) [
        | some t ↦ record r { tasks = unlink callback d r.tasks; heap = remove r.heap t }
        | none ↦ r
      ]

  unfoldable pub detach : Runner H → Task → Runner H
  unfolding unlink
  detach r t = record r { tasks = unlink t.callback t.bytes r.tasks; heap = pop r.heap }

  -- The loop of `sccp_task_runner_run`. A callback may change the runner, and a state `S`. The
  -- first argument bounds the rounds; `none` when it is used up.
  unfoldable pub run_loop :
      {S : Type 0}
      → ℕ
      → (Task → Runner H × S → Runner H × S)
      → ℕ
      → Runner H × S
      → Option (Runner H × S)
  unfolding detach
  run_loop zero call deadline s = none
  run_loop (suc n) call deadline s = elim (peek s.0.heap) [
    | none ↦ some s
    | some t ↦ elim (is_due deadline t) [
      | true ↦ run_loop n call deadline (call t (detach s.0 t, s.1))
      | false ↦ some s
    ]
  ]

  unfoldable pub runner_run :
      {S : Type 0}
      → ℕ
      → (Task → Runner H × S → Runner H × S)
      → ℕ
      → Runner H × S
      → Option (Runner H × S)
  unfolding run_loop
  runner_run fuel call now s = run_loop fuel call (now + 1000) s

  -- How long the poll may wait, in milliseconds; -1 is for ever.
  unfoldable pub next_ms : ℕ → Runner H → ℤ
  unfolding to_ms
  next_ms now r = elim (peek r.heap) [ none ↦ negsuc 0 | some t ↦ pos (to_ms t.when now) ]
