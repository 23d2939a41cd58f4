-- ===== src/Task/Detach.antt =====
-- sccp_task.c, sccp_task_runner_run: taking the first task of the heap out of the list.
use wazo_libsccp.Common.{
  ◌≤◌, ◌≡◌, ◌==◌, Bool, true, ◌&&◌, List, [], ◌∷◌, some, count, Bool-cases, inl, inr, arith,
  same_bytes_eq, same_bytes_refl, ap,
}
use wazo_libsccp.Task.{Task, task_is_equal, Heap, Runner, lookup, detach}
use wazo_libsccp.Task.Valid.{IsValid, same, unlink-counts}

-- The task of that key and of that very time.
abbrev exactly : Task → Task → Bool
exactly t u = task_is_equal t.callback t.bytes u && (u.when == t.when)

exactly_le_same : (t : Task) (ts : List Task) → count (exactly t) ts ≤ same t.callback t.bytes ts
exactly_le_same t [] = omega arith
exactly_le_same t (u ∷ ts) = ground (arith, exactly_le_same t ts)

exactly_eq : (t u : Task) → exactly t u ≡ true → u ≡ t
exactly_eq t u e = grind (arith, same_bytes_eq u.bytes t.bytes)

exactly_refl : (t : Task) → exactly t t ≡ true
exactly_refl t = ground (arith, same_bytes_refl t.bytes)

lookup-held :
    (ts : List Task) (t : Task)
    → same t.callback t.bytes ts ≤ 1
    → 1 ≤ count (exactly t) ts
    → lookup t.callback t.bytes ts ≡ some t
unfolding lookup
lookup-held [] t one held = absurd (omega arith)
lookup-held (u ∷ ts) t one held = elim (Bool-cases (task_is_equal t.callback t.bytes u)) [
  | inl h ↦ elim (Bool-cases (exactly t u)) [
    | inl x ↦ rw (lookup, h) (ap some (exactly_eq t u x))
    | inr x ↦ absurd (ground (arith, exactly_le_same t ts))
  ]
  | inr h ↦ rw (lookup, h) (lookup-held ts t (ground arith) (ground arith))
]

module _ (E : Heap) where
  open E use {H, elements}

  -- The first task of the heap is in the list.
  pub peek-lookup :
      (r : Runner H) (t : Task)
      → IsValid E r
      → E.peek r.heap ≡ some t
      → lookup t.callback t.bytes r.tasks ≡ some t
  peek-lookup r t v e = lookup-held r.tasks t (v.0 t.callback t.bytes) (
      let x = exactly_refl t in
      let c = E.pop_removes r.heap t (exactly t) e in ground (arith, c, x, v.1 (exactly t)))

  pub detach-IsValid :
      (r : Runner H) (t : Task) → IsValid E r → E.peek r.heap ≡ some t → IsValid E (detach E r t)
  unfolding detach
  detach-IsValid r t v e =
      let l = peek-lookup r t v e in
      let ts = r.tasks in
      (
        (λ c d.
            omega (arith, v.0 c d, unlink-counts t.callback t.bytes ts t (task_is_equal c d) l)),
        (λ p.
            omega (
              arith,
              v.1 p,
              E.pop_removes r.heap t p e,
              unlink-counts t.callback t.bytes ts t p l,
            )),
      )
