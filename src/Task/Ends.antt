-- ===== src/Task/Ends.antt =====
-- sccp_task.c, sccp_task_runner_run: how many rounds a run makes.
use wazo_libsccp.Common.{
  ◌⊎◌, ℕ, zero, suc, ◌+◌, ◌*◌, ◌≤◌, ◌<◌, ◌≡◌, refl, Bool, false, List, [], ◌∷◌, ◌++◌, none, some,
  pos, count, take, Option-cases, Bool-cases, inl, inr, arith, ltb, ap,
}
use wazo_libsccp.Task.{
  Task, earlier, is_due, Heap, Runner, runner_add, schedule, due_time, detach, run_loop, runner_run,
  lookup, set_when,
}
use wazo_libsccp.Task.Valid.{others_le}

due_le_earlier :
    (t : Task) (deadline : ℕ) (ts : List Task)
    → is_due deadline t ≡ false
    → count (is_due deadline) ts ≤ count (earlier t) ts
due_le_earlier t deadline [] d = omega arith
due_le_earlier t deadline (u ∷ ts) d = ground (arith, due_le_earlier t deadline ts d)

module _ (E : Heap) where
  open E use {H, elements}

  -- How many tasks of the heap have a time before the deadline.
  abbrev pub due : ℕ → Runner H → ℕ
  due deadline r = count (is_due deadline) (elements r.heap)

  -- A callback that leaves no more due tasks than it found.
  abbrev pub IsQuiet : {S : Type 0} → (Task → Runner H × S → Runner H × S) → ℕ → Type 0
  IsQuiet {S = S} call deadline =
      (t : Task) (r : Runner H) (s : S) → due deadline (call t (r, s)).0 ≤ due deadline r

  pub empty_due : (deadline : ℕ) (r : Runner H) → E.peek r.heap ≡ none → due deadline r ≡ 0
  empty_due deadline r e = ap (λ ts. count (is_due deadline) ts) (E.peek_empty r.heap e)

  pub nothing_due :
      (deadline : ℕ) (r : Runner H) (t : Task)
      → E.peek r.heap ≡ some t
      → is_due deadline t ≡ false
      → due deadline r ≡ 0
  nothing_due deadline r t e d =
      omega (arith, E.peek_first r.heap t e, due_le_earlier t deadline (elements r.heap) d)

  run_loop-ends :
      {S : Type 0} (call : Task → Runner H × S → Runner H × S) (deadline : ℕ)
      → IsQuiet call deadline
      → (fuel : ℕ) (r : Runner H) (s : S) → due deadline r < fuel
      → (r' : Runner H) × (s' : S) × (run_loop E fuel call deadline (r, s) ≡ some (r', s'))
        × (due deadline r' ≡ 0)
  unfolding run_loop detach
  run_loop-ends call deadline quiet zero r s h = absurd (omega arith)
  run_loop-ends call deadline quiet (suc n) r s h = elim (Option-cases (E.peek r.heap)) [
    | inl e ↦ (r, s, rw (run_loop, e) refl, empty_due deadline r e)
    | inr (t, e) ↦ elim (Bool-cases (is_due deadline t)) [
      | inl d ↦
          let next = call t (detach E r t, s) in
          let (r', s', run, rest) = run_loop-ends call deadline quiet n next.0 next.1 (
            let q = quiet t (detach E r t) s in
            let c = E.pop_removes r.heap t (is_due deadline) e in ground (arith, q, c)) in
          (r', s', rw (run_loop, e, d) run, rest)
      | inr d ↦ (r, s, rw (run_loop, e, d) refl, nothing_due deadline r t e d)
    ]
  ]

module _ (E : Heap) where
  open E use {H, elements}

  -- Whatever the callbacks do to the runner and to the rest of the state, if none leaves more due
  -- tasks than it found, a run with more rounds than there are due tasks returns, and no task is
  -- left that was due within a millisecond of its start.
  pub run-ends :
      {S : Type 0} (call : Task → Runner H × S → Runner H × S) (now : ℕ)
      → IsQuiet E call (now + 1000)
      → (fuel : ℕ) (r : Runner H) (s : S) → due E (now + 1000) r < fuel
      → (r' : Runner H) × (s' : S) × (runner_run E fuel call now (r, s) ≡ some (r', s'))
        × (due E (now + 1000) r' ≡ 0)
  unfolding runner_run
  run-ends call now quiet fuel r s h = run_loop-ends E call (now + 1000) quiet fuel r s h

  schedule-due :
      (deadline : ℕ) (r : Runner H) (ts : List Task) (h : H) (t : Task)
      → is_due deadline t ≡ false
      → due E deadline (schedule E r ts h t).1 ≤ count (is_due deadline) (elements h)
  unfolding schedule
  schedule-due deadline r ts h t late = elim (Bool-cases (E.push h t).0) [
    | inl e ↦ ground (arith, E.push_adds h t (is_due deadline) e)
    | inr e ↦ rw (E.push_fails h t e) omega arith
  ]

  -- A callback that puts itself off by a second or more, at a clock that has not gone back.
  pub add-IsQuiet :
      {S : Type 0} (allocated : Bool) (start now sec : ℕ)
      → start ≤ now
      → 1 ≤ sec
      → IsQuiet E {S = S}
          (λ t s. ((runner_add E allocated now s.0 t.callback t.bytes (pos sec)).1, s.1))
          (start + 1000)
  unfolding runner_add due_time
  add-IsQuiet allocated start now sec h one t r s =
      let d = take r.data_size t.bytes in
      let w = now + sec * 1000000 in
      let late : ltb w (start + 1000) ≡ false = ground arith in
      let new : Task = record { callback = t.callback; bytes = d; when = w } in
      elim (Option-cases (lookup t.callback d r.tasks)) [
        | inl e ↦
            rw (runner_add, e)
              (elim (Bool-cases allocated) [
                | inl a ↦ rw a (schedule-due (start + 1000) r (r.tasks ++ new ∷ []) r.heap new late)
                | inr a ↦
                    rw a
                      (let z : due E (start + 1000) r ≤ due E (start + 1000) r = omega arith in z)
              ])
        | inr (u, e) ↦
            rw (runner_add, e)
              (let p = is_due (start + 1000) in
                let v : Task = record u { when = w } in
                let a =
                  schedule-due (start + 1000) r (set_when t.callback d w r.tasks)
                    (E.remove r.heap u) v late in
                omega (
                  arith,
                  a,
                  E.remove_removes r.heap u p,
                  others_le u.callback u.bytes p (elements r.heap),
                ))
      ]

-- A statement about the rest of the state that every callback keeps holds after a run.
pub run_loop-keeps :
    (E : Heap) {S : Type 0} (P : S → Type 0) (call : Task → Runner E.H × S → Runner E.H × S)
    → ((t : Task) (r : Runner E.H) (s : S) → P s → P (call t (r, s)).1)
    → (fuel deadline : ℕ) (r : Runner E.H) (s : S) → P s
    → (run_loop E fuel call deadline (r, s) ≡ none)
      ⊎ ((r' : Runner E.H) × (s' : S) × (run_loop E fuel call deadline (r, s) ≡ some (r', s'))
          × P s')
unfolding run_loop
run_loop-keeps E P call keep zero deadline r s p = inl refl
run_loop-keeps E P call keep (suc n) deadline r s p = elim (Option-cases (E.peek r.heap)) [
  | inl e ↦ inr (r, s, rw (run_loop, e) refl, p)
  | inr (t, e) ↦ elim (Bool-cases (is_due deadline t)) [
    | inl d ↦
        let next = call t (detach E r t, s) in
        rw (run_loop, e, d)
          (run_loop-keeps E P call keep n deadline next.0 next.1 (keep t (detach E r t) s p))
    | inr d ↦ inr (r, s, rw (run_loop, e, d) refl, p)
  ]
]
