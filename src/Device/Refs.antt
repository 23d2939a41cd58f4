-- ===== src/Device/Refs.antt =====
-- sccp_device.c: the tasks for the time without the lock, and their references to channels.
use wazo_libsccp.Common.{
  ℕ, suc, ◌+◌, ◌==◌, ◌≡◌, refl, sym, ap, subst, ◌∙◌, Bool, true, false, List, [], ◌∷◌, ◌++◌,
  if◌then◌else◌, is_empty, arith, Bool-cases, inl, inr,
}
use wazo_libsccp.Queue.{Queue, done, failed, put, move_to, is_empty_queue}
use wazo_libsccp.Device.Types.{
  Device, Effect, channel_ref, channel_unref, executes, NolockTask, reset, hard_restart, connlost,
  sends, stat_panic, session_stop,
}
use wazo_libsccp.Device.Core.{
  emit, emit_all, refs, unrefs, channels, add_nolock_task, add_task, exec_task, exec_nolock_tasks,
  sccp_device_unlock, sccp_device_panic, is_working,
}

abbrev one_if : Bool → ℕ
one_if b = if b then 1 else 0

-- How many references to a channel the device took, and gave back.
abbrev pub taken : ℕ → List Effect → ℕ
taken c [] = 0
taken c (channel_ref x ∷ es) = one_if (x == c) + taken c es
taken c (_ ∷ es) = taken c es

abbrev pub returned : ℕ → List Effect → ℕ
returned c [] = 0
returned c (channel_unref x ∷ es) = one_if (x == c) + returned c es
returned c (_ ∷ es) = returned c es

abbrev pub named : ℕ → List ℕ → ℕ
named c [] = 0
named c (x ∷ xs) = one_if (x == c) + named c xs

-- How often the tasks of a list name a channel.
abbrev pub waiting_for : ℕ → List NolockTask → ℕ
waiting_for c [] = 0
waiting_for c (t ∷ ts) = named c (channels t) + waiting_for c ts

abbrev pub Holds : ℕ → Device → Type 0
Holds c d = taken c d.out ≡ returned c d.out + waiting_for c d.nolock_tasks.containers

-- The references that a device holds are those of its queued tasks.
abbrev pub IsBalanced : Device → Type 0
IsBalanced d = (c : ℕ) → Holds c d

waiting_for-append :
    (c : ℕ) (xs ys : List NolockTask)
    → waiting_for c (xs ++ ys) ≡ waiting_for c xs + waiting_for c ys
waiting_for-append c [] ys = omega arith
waiting_for-append c (x ∷ xs) ys = ground (arith, waiting_for-append c xs ys)

record AfterEmit (c : ℕ) (xs : List ℕ) (more_taken more_returned : ℕ) (d e : Device) : Type 0 where
  taken : taken c e.out ≡ more_taken + taken c d.out
  returned : returned c e.out ≡ more_returned + returned c d.out
  tasks : e.nolock_tasks.containers ≡ d.nolock_tasks.containers

refs-AfterEmit :
    (c : ℕ) (xs : List ℕ) (d : Device) → AfterEmit c xs (named c xs) 0 d (emit_all (refs xs) d)
unfolding emit_all refs
refs-AfterEmit c [] d = record { taken = omega arith; returned = omega arith; tasks = refl }
refs-AfterEmit c (x ∷ xs) d =
    let r = refs-AfterEmit c xs (emit (channel_ref x) d) in
    record {
      taken = ground (arith, r.taken);
      returned = ground (arith, r.returned);
      tasks = r.tasks;
    }

unrefs-AfterEmit :
    (c : ℕ) (xs : List ℕ) (d : Device) → AfterEmit c xs 0 (named c xs) d (emit_all (unrefs xs) d)
unfolding emit_all unrefs
unrefs-AfterEmit c [] d = record { taken = omega arith; returned = omega arith; tasks = refl }
unrefs-AfterEmit c (x ∷ xs) d =
    let r = unrefs-AfterEmit c xs (emit (channel_unref x) d) in
    record {
      taken = ground (arith, r.taken);
      returned = ground (arith, r.returned);
      tasks = r.tasks;
    }

-- A task takes a reference to each channel that it names if it is queued, and none if there is no
-- memory for it.
pub add_task-IsBalanced : (t : NolockTask) (d : Device) → IsBalanced d → IsBalanced (add_task t d).1
unfolding add_task add_nolock_task put sccp_device_panic
add_task-IsBalanced t d b c = elim (Bool-cases (d.mem 0)) [
  | inl ok ↦ holds (sym (queued ok)) (
      ground (
        arith,
        r.taken,
        r.returned,
        ap (waiting_for c) r.tasks,
        b c,
        waiting_for-append c d.nolock_tasks.containers (t ∷ []),
      ))
  | inr full ↦ elim (Bool-cases (is_working d.device_state)) [
    | inl w ↦ holds (sym (panics full w)) (b c)
    | inr n ↦ holds (sym (gone full n)) (b c)
  ]
]
  where
    left : Queue NolockTask → Device
    left q = record d { nolock_tasks = q; mem = λ k. d.mem (suc k) }

    more : Device
    more = left (record {
      containers = d.nolock_tasks.containers ++ t ∷ [];
      item_size = d.nolock_tasks.item_size;
    })

    r : AfterEmit c (channels t) (named c (channels t)) 0 more (emit_all (refs (channels t)) more)
    r = refs-AfterEmit c (channels t) more

    holds : {x y : Bool × Device} → x ≡ y → Holds c x.1 → Holds c y.1
    holds e h = subst (λ z. Holds c z.1) e h

    stored : d.mem 0 ≡ true → put (d.mem 0) d.nolock_tasks t ≡ (done, more.nolock_tasks)
    stored ok = rw ok refl

    refused : d.mem 0 ≡ false → put (d.mem 0) d.nolock_tasks t ≡ (failed, d.nolock_tasks)
    refused full = rw full refl

    queued : d.mem 0 ≡ true → add_task t d ≡ (true, emit_all (refs (channels t)) more)
    queued ok =
        rw (add_task, add_nolock_task, stored ok)
          (ap (λ r. (true, emit_all (refs (channels t)) (left r.1))) (stored ok))

    panics :
        d.mem 0 ≡ false
        → is_working d.device_state ≡ true
        → add_task t d ≡ (
          false,
          record (left d.nolock_tasks) {
            device_state = connlost;
            out = sends (reset hard_restart) ∷ session_stop ∷ stat_panic ∷ d.out;
          },
        )
    panics full w =
        rw (add_task, add_nolock_task, refused full, w)
          (ap
            (λ r. (
              false,
              record (left r.1) {
                device_state = connlost;
                out = sends (reset hard_restart) ∷ session_stop ∷ stat_panic ∷ d.out;
              },
            ))
            (refused full))

    gone :
        d.mem 0 ≡ false
        → is_working d.device_state ≡ false
        → add_task t d
          ≡ (false, record (left d.nolock_tasks) { out = session_stop ∷ stat_panic ∷ d.out })
    gone full n =
        rw (add_task, add_nolock_task, refused full, n)
          (ap (λ r. (false, record (left r.1) { out = session_stop ∷ stat_panic ∷ d.out }))
            (refused full))

record AfterExec (c : ℕ) (ts : List NolockTask) (d e : Device) : Type 0 where
  taken : taken c e.out ≡ taken c d.out
  returned : returned c e.out ≡ waiting_for c ts + returned c d.out
  tasks : e.nolock_tasks.containers ≡ d.nolock_tasks.containers

exec-AfterExec :
    (c : ℕ) (ts : List NolockTask) (d : Device) → AfterExec c ts d (exec_nolock_tasks ts d)
unfolding exec_nolock_tasks exec_task
exec-AfterExec c [] d = record { taken = refl; returned = omega arith; tasks = refl }
exec-AfterExec c (t ∷ ts) d =
    let u = unrefs-AfterEmit c (channels t) (emit (executes t) d) in
    let r = exec-AfterExec c ts (exec_task t d) in
    record {
      taken = r.taken ∙ ground (arith, u.taken);
      returned = ground (arith, u.returned, r.returned);
      tasks = r.tasks ∙ u.tasks;
    }

is_empty_nil : (ts : List NolockTask) → is_empty ts ≡ true → ts ≡ []
is_empty_nil [] h = refl
is_empty_nil (t ∷ ts) h = ground arith

-- The tasks that were executed, newest first.
abbrev pub executed : List Effect → List NolockTask
executed [] = []
executed (executes t ∷ es) = t ∷ executed es
executed (_ ∷ es) = executed es

-- A list turned round, onto another.
abbrev pub onto : List NolockTask → List NolockTask → List NolockTask
onto [] done_ = done_
onto (t ∷ ts) done_ = onto ts (t ∷ done_)

unrefs-executed :
    (xs : List ℕ) (d : Device) → executed (emit_all (unrefs xs) d).out ≡ executed d.out
unfolding emit_all unrefs
unrefs-executed [] d = refl
unrefs-executed (x ∷ xs) d = unrefs-executed xs (emit (channel_unref x) d)

exec-executed :
    (ts : List NolockTask) (d : Device)
    → executed (exec_nolock_tasks ts d).out ≡ onto ts (executed d.out)
unfolding exec_nolock_tasks exec_task
exec-executed [] d = refl
exec-executed (t ∷ ts) d =
    exec-executed ts (exec_task t d)
    ∙ ap (onto ts) (unrefs-executed (channels t) (emit (executes t) d))

-- Unlocking executes every task that waits, once, the oldest first, and gives every reference back: a
-- device whose references are those of its tasks has neither tasks nor references afterwards.
pub unlock-IsBalanced :
    (d : Device)
    → IsBalanced d
    → (let e = sccp_device_unlock d in
        (e.nolock_tasks.containers ≡ [])
        × (executed e.out ≡ onto d.nolock_tasks.containers (executed d.out))
        × ((c : ℕ) → taken c e.out ≡ returned c e.out))
unfolding sccp_device_unlock move_to is_empty_queue
unlock-IsBalanced d b = elim (Bool-cases (is_empty d.nolock_tasks.containers)) [
  | inl e ↦
      let nil = is_empty_nil d.nolock_tasks.containers e in
      rw (sccp_device_unlock, e)
        (
          nil,
          ap (λ ts. onto ts (executed d.out)) (sym nil),
          λ c. b c ∙ ground (arith, ap (waiting_for c) nil),
        )
  | inr n ↦
      rw (sccp_device_unlock, n)
        (let moved = record d {
          nolock_tasks = record { containers = []; item_size = d.nolock_tasks.item_size };
        } in
          (
            (exec-AfterExec 0 d.nolock_tasks.containers moved).tasks,
            exec-executed d.nolock_tasks.containers moved,
            λ c.
                let r = exec-AfterExec c d.nolock_tasks.containers moved in
                r.taken ∙ b c ∙ ground (arith, r.returned),
          ))
]
