-- ===== src/Task/Run.antt =====
-- sccp_task.c, sccp_task_runner_run: which callbacks a run calls, and in what order.
use wazo_libsccp.Common.{
  ℕ, zero, suc, ◌+◌, ◌<◌, ◌≡◌, refl, ◌∙◌, Bool, true, not, List, [], ◌∷◌, ◌++◌, some, count,
  Option-cases, Bool-cases, inl, inr, arith, ap, append_assoc, append-nil,
}
use wazo_libsccp.Task.{Task, earlier, is_due, Heap, Runner, detach, run_loop, runner_run}
use wazo_libsccp.Task.Valid.{IsValid, unlink-counts}
use wazo_libsccp.Task.Detach.{detach-IsValid, peek-lookup}
use wazo_libsccp.Task.Ends.{due, empty_due, nothing_due}

-- Each task comes no later than those after it.
abbrev pub IsOrdered : List Task → Type 0
IsOrdered [] = Unit {0}
IsOrdered (t ∷ ts) = (count (earlier t) ts ≡ 0) × IsOrdered ts

-- A callback that writes down which task was called, and leaves the runner alone.
abbrev pub note_call : {H : Type 0} → Task → Runner H × List Task → Runner H × List Task
note_call t s = (s.0, s.1 ++ t ∷ [])

module _ (E : Heap) where
  open E use {H, elements}

  -- The tasks `done` are what the run took out of the runner `r`, and `r'` is left.
  pub record Splits (deadline : ℕ) (r r' : Runner H) (done : List Task) : Type 0 where
    pub ordered : IsOrdered done
    pub all_due : count (λ t. not (is_due deadline t)) done ≡ 0
    pub none_left : due E deadline r' ≡ 0
    pub from_heap :
        (p : Task → Bool) → count p (elements r.heap) ≡ count p done + count p (elements r'.heap)
    pub from_list : (p : Task → Bool) → count p r.tasks ≡ count p done + count p r'.tasks
    pub valid : IsValid E r'

  Splits-cons :
      (deadline : ℕ) (r r' : Runner H) (t : Task) (done : List Task)
      → IsValid E r
      → E.peek r.heap ≡ some t
      → is_due deadline t ≡ true
      → Splits deadline (detach E r t) r' done
      → Splits deadline r r' (t ∷ done)
  unfolding detach
  Splits-cons deadline r r' t done v e d h = record {
    ordered = (
      let first = E.peek_first r.heap t e in
          let pop = E.pop_removes r.heap t (earlier t) e in
          ground (arith, first, pop, h.from_heap (earlier t)),
      h.ordered,
    );
    all_due = ground (arith, h.all_due);
    none_left = h.none_left;
    from_heap = λ p. omega (arith, E.pop_removes r.heap t p e, h.from_heap p);
    from_list = λ p. omega (
      arith,
      unlink-counts t.callback t.bytes r.tasks t p (peek-lookup E r t v e),
      h.from_list p,
    );
    valid = h.valid;
  }

  nothing :
      (deadline : ℕ) (r : Runner H) → IsValid E r → due E deadline r ≡ 0 → Splits deadline r r []
  nothing deadline r v e = record {
    ordered = tt;
    all_due = refl;
    none_left = e;
    from_heap = λ p. omega arith;
    from_list = λ p. omega arith;
    valid = v;
  }

  run_loop-Splits :
      (deadline fuel : ℕ) (r : Runner H) (log : List Task)
      → IsValid E r
      → due E deadline r < fuel
      → (r' : Runner H) × (done : List Task) × (run_loop E fuel note_call deadline (r, log)
          ≡ some (r', log ++ done))
        × Splits deadline r r' done
  unfolding run_loop
  run_loop-Splits deadline zero r log v h = absurd (omega arith)
  run_loop-Splits deadline (suc n) r log v h = elim (Option-cases (E.peek r.heap)) [
    | inl e ↦ (
      r,
      [],
      rw (run_loop, e, append-nil log) refl,
      nothing deadline r v (empty_due E deadline r e),
    )
    | inr (t, e) ↦ elim (Bool-cases (is_due deadline t)) [
      | inl d ↦
          let (r', done, run, rest) =
            run_loop-Splits deadline n (detach E r t) (log ++ t ∷ []) (detach-IsValid E r t v e)
              (ground (arith, E.pop_removes r.heap t (is_due deadline) e)) in
          (
            r',
            t ∷ done,
            rw (run_loop, e, d) (run ∙ ap (λ l. some (r', l)) (append_assoc log (t ∷ []) done)),
            Splits-cons deadline r r' t done v e d rest,
          )
      | inr d ↦ (
        r,
        [],
        rw (run_loop, e, d, append-nil log) refl,
        nothing deadline r v (nothing_due E deadline r t e d),
      )
    ]
  ]

  -- A run over callbacks that leave the runner alone, given more rounds than there are due tasks,
  -- returns. It calls, in the order of their times, tasks that are all due within a millisecond of
  -- the present, and leaves none that is; what it called and what it left make up the heap and the
  -- list from before.
  pub run-Splits :
      (now fuel : ℕ) (r : Runner H) (log : List Task)
      → IsValid E r
      → due E (now + 1000) r < fuel
      → (r' : Runner H) × (done : List Task) × (runner_run E fuel note_call now (r, log)
          ≡ some (r', log ++ done))
        × Splits (now + 1000) r r' done
  unfolding runner_run
  run-Splits now fuel r log v h = run_loop-Splits (now + 1000) fuel r log v h
