-- ===== src/Task/Wait.antt =====
-- sccp_task.c, sccp_task_runner_next_ms: how long the session's poll waits.
use wazo_libsccp.Common.{
  ℕ, ◌+◌, ◌-◌, ◌*◌, ◌/◌, ◌%◌, ◌^◌, ◌≤◌, ◌<◌, ◌≡◌, refl, ltb, Bool, true, false, List, [], ◌∷◌, ◌++◌,
  some, pos, count, take, Option-cases, Bool-cases, inl, inr, arith,
}
use wazo_libsccp.Task.{
  Task, earlier, Heap, Runner, runner_add, schedule, due_time, lookup, next_ms, to_ms, set_when,
}

module _ (E : Heap) where
  open E use {H, elements}

  schedule-first :
      (r : Runner H) (ts : List Task) (h : H) (u : Task)
      → (schedule E r ts h u).0 ≡ true
      → (t : Task) × (E.peek (schedule E r ts h u).1.heap ≡ some t) × (t.when ≤ u.when)
  unfolding schedule
  schedule-first r ts h u ok = elim (Option-cases (E.peek (E.push h u).1)) [
    | inl e ↦
        let none_there = E.peek_empty (E.push h u).1 e in
        let n : count (λ t. true) (elements (E.push h u).1) ≡ 0 = rw none_there refl in
        absurd (omega (arith, n, E.push_adds h u (λ t. true) ok))
    | inr (t, e) ↦ (
      t,
      e,
      (let first = E.peek_first (E.push h u).1 t e in
          let added = E.push_adds h u (earlier t) ok in ground (arith, first, added)),
    )
  ]

  -- Not more than 2147483 seconds overdue, of which an `int` still knows that they are past.
  to_ms-past : (when now : ℕ) → when < now → now ≤ when + 2147483000000 → to_ms when now ≡ 0
  unfolding to_ms
  to_ms-past when now l h =
      let past : ltb when now ≡ true = ground arith in
      let k = (now - when + 999) / 1000 in
      let few : k < 2 ^ 31 = omega arith in
      let one : 1 ≤ k = omega arith in
      let v : 2 ^ 31 ≤ (2 ^ 32 - k % 2 ^ 32) % 2 ^ 32 = omega (arith, few, one) in
      let negative : ltb ((2 ^ 32 - k % 2 ^ 32) % 2 ^ 32) (2 ^ 31) ≡ false = ground (arith, v) in
      rw (past, negative) refl

  to_ms-ahead :
      (when now sec : ℕ)
      → now ≤ when
      → sec ≤ 2147483
      → when ≤ now + sec * 1000000
      → to_ms when now ≤ sec * 1000
  unfolding to_ms
  to_ms-ahead when now sec l h w =
      let ahead : ltb when now ≡ false = ground arith in rw ahead (ground arith)

  first-next_ms :
      (now sec : ℕ) (r : Runner H) (t : Task)
      → sec ≤ 2147483
      → E.peek r.heap ≡ some t
      → t.when ≤ now + sec * 1000000
      → now ≤ t.when + 2147483000000
      → (ms : ℕ) × (next_ms E now r ≡ pos ms) × (ms ≤ sec * 1000)
  unfolding next_ms
  first-next_ms now sec r t h e w late = (
    to_ms t.when now,
    rw (next_ms, e) refl,
    elim (Bool-cases (ltb t.when now)) [
      | inl l ↦ let z = to_ms-past t.when now (ground (arith, l)) late in omega (arith, z)
      | inr l ↦ to_ms-ahead t.when now sec (ground (arith, l)) h w
    ],
  )

  added-first :
      (allocated : Bool) (now : ℕ) (r : Runner H) (c : ℕ) (d : List ℕ) (sec : ℕ)
      → (runner_add E allocated now r c d (pos sec)).0 ≡ true
      → (t : Task) × (E.peek (runner_add E allocated now r c d (pos sec)).1.heap ≡ some t)
        × (t.when ≤ now + sec * 1000000)
  unfolding runner_add due_time
  added-first allocated now r c d sec =
      let d' = take r.data_size d in
      let w = now + sec * 1000000 in
      let new : Task = record { callback = c; bytes = d'; when = w } in
      elim (Option-cases (lookup c d' r.tasks)) [
        | inl e ↦
            rw (runner_add, e)
              (elim (Bool-cases allocated) [
                | inl a ↦ rw a (λ ok. schedule-first r (r.tasks ++ new ∷ []) r.heap new ok)
                | inr a ↦ rw a (λ ok. absurd (ground (arith, ok)))
              ])
        | inr (t, e) ↦
            rw (runner_add, e)
              (λ ok.
                schedule-first r (set_when c d' w r.tasks) (E.remove r.heap t)
                  (record t { when = w }) ok)
      ]

  -- After a task was added with a delay of at most 2147483 seconds and the result is 0, the poll
  -- waits, by a clock that reads the same, no longer than that delay, if the task that is due first
  -- is not more than 2147483 seconds overdue.
  pub runner_add-next_ms :
      (allocated : Bool) (now : ℕ) (r : Runner H) (c : ℕ) (d : List ℕ) (sec : ℕ)
      → sec ≤ 2147483
      → ((t : Task)
          → E.peek (runner_add E allocated now r c d (pos sec)).1.heap ≡ some t
          → now ≤ t.when + 2147483000000)
      → (runner_add E allocated now r c d (pos sec)).0 ≡ true
      → (ms : ℕ) × (next_ms E now (runner_add E allocated now r c d (pos sec)).1 ≡ pos ms)
        × (ms ≤ sec * 1000)
  unfolding runner_add due_time
  runner_add-next_ms allocated now r c d sec h late ok =
      let (t, e, le) = added-first allocated now r c d sec ok in
      first-next_ms now sec (runner_add E allocated now r c d (pos sec)).1 t h e le (late t e)
