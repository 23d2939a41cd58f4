-- ===== src/Task/Valid.antt =====
-- sccp_task.c: which tasks a runner holds, in its list and in its heap.
use wazo_libsccp.Common.{
  ℕ, ◌≤◌, ◌≡◌, refl, sym, subst, Bool, true, false, ◌&&◌, not, List, [], ◌∷◌, ◌++◌, none, some, ℤ,
  count, take, count-append, Option-cases, Bool-cases, inl, inr, arith, same_bytes_eq,
  same_bytes_refl,
}
use wazo_libsccp.Task.{
  Task, task_is_equal, Heap, Runner, lookup, set_when, unlink, runner_create, runner_add,
  runner_remove, schedule, due_time,
}

pub task_is_equal_refl : (t : Task) → task_is_equal t.callback t.bytes t ≡ true
task_is_equal_refl t = ground (arith, same_bytes_refl t.bytes)

-- A task that answers to a key has that key.
pub task_is_equal_key :
    (c : ℕ) (d : List ℕ) (t : Task) → task_is_equal c d t ≡ true → (t.callback ≡ c) × (t.bytes ≡ d)
task_is_equal_key c d t e = grind (arith, same_bytes_eq t.bytes d)

-- The tasks of that key.
abbrev pub same : ℕ → List ℕ → List Task → ℕ
same c d ts = count (task_is_equal c d) ts

lookup-none : (c : ℕ) (d : List ℕ) (ts : List Task) → lookup c d ts ≡ none → same c d ts ≡ 0
unfolding lookup
lookup-none c d [] e = refl
lookup-none c d (t ∷ ts) e = ground (arith, lookup-none c d ts)

lookup_equal :
    (c : ℕ) (d : List ℕ) (ts : List Task) (t : Task)
    → lookup c d ts ≡ some t
    → task_is_equal c d t ≡ true
unfolding lookup
lookup_equal c d [] t e = grind arith
lookup_equal c d (u ∷ ts) t e = elim (Bool-cases (task_is_equal c d u)) [
  | inl h ↦ grind arith
  | inr h ↦ lookup_equal c d ts t (let e' : lookup c d ts ≡ some t = grind arith in e')
]

pub unlink-counts :
    (c : ℕ) (d : List ℕ) (ts : List Task) (t : Task) (p : Task → Bool)
    → lookup c d ts ≡ some t
    → count p ts ≡ count p (t ∷ unlink c d ts)
unfolding lookup unlink
unlink-counts c d [] t p e = grind arith
unlink-counts c d (u ∷ ts) t p e = elim (Bool-cases (task_is_equal c d u)) [
  | inl h ↦ rw h grind arith
  | inr h ↦
      let rest = unlink-counts c d ts t p (let e' : lookup c d ts ≡ some t = grind arith in e') in
      rw h ground (arith, rest)
]

set_when-counts :
    (c : ℕ) (d : List ℕ) (w : ℕ) (ts : List Task) (t : Task) (p : Task → Bool)
    → lookup c d ts ≡ some t
    → count p (set_when c d w ts) ≡ count p (record t { when = w } ∷ unlink c d ts)
unfolding lookup set_when unlink
set_when-counts c d w [] t p e = grind arith
set_when-counts c d w (u ∷ ts) t p e = elim (Bool-cases (task_is_equal c d u)) [
  | inl h ↦ grind arith
  | inr h ↦
      let rest =
        set_when-counts c d w ts t p (let e' : lookup c d ts ≡ some t = grind arith in e') in
      rw h ground (arith, rest)
]

pub others_le :
    (c : ℕ) (d : List ℕ) (p : Task → Bool) (ts : List Task)
    → count (λ u. p u && not (task_is_equal c d u)) ts ≤ count p ts
others_le c d p [] = omega arith
others_le c d p (u ∷ ts) = ground (arith, others_le c d p ts)

-- Without the tasks of a key, no more is left than without the first of them.
others_le_unlink :
    (c : ℕ) (d : List ℕ) (ts : List Task) (p : Task → Bool)
    → count (λ u. p u && not (task_is_equal c d u)) ts ≤ count p (unlink c d ts)
unfolding unlink
others_le_unlink c d [] p = omega arith
others_le_unlink c d (u ∷ ts) p = ground (arith, others_le_unlink c d ts p, others_le c d p ts)

module _ (E : Heap) where
  open E use {H, elements}

  -- At most one task for a callback and its data, and every task of the heap is in the list.
  abbrev pub IsValid : Runner H → Type 0
  IsValid r =
      ((c : ℕ) (d : List ℕ) → same c d r.tasks ≤ 1)
      × ((p : Task → Bool) → count p (elements r.heap) ≤ count p r.tasks)

  schedule-IsValid :
      (r : Runner H) (ts : List Task) (h : H) (t : Task)
      → ((c : ℕ) (d : List ℕ) → same c d ts ≤ 1)
      → ((p : Task → Bool) → count p (t ∷ elements h) ≤ count p ts)
      → IsValid (schedule E r ts h t).1
  unfolding schedule
  schedule-IsValid r ts h t unique held = (
    unique,
    λ p. elim (Bool-cases (E.push h t).0) [
      | inl e ↦ omega (arith, E.push_adds h t p e, held p)
      | inr e ↦ rw (E.push_fails h t e) ground (arith, held p)
    ],
  )

  pub create-IsValid :
      (a b : Bool) (n : ℕ) (r : Runner H) → runner_create E a b n ≡ some r → IsValid r
  unfolding runner_create
  create-IsValid true true n r e =
      let e' : record { tasks = []; heap = E.create; data_size = n } ≡ r = grind arith in
      subst IsValid e' (
        (λ c d. omega arith),
        (λ p. let h : count p (elements E.create) ≡ 0 = rw E.create_empty in omega (arith, h)),
      )
  create-IsValid true false n r e = grind arith
  create-IsValid false b n r e = grind arith

  -- Moving the time of a known task.
  replace_unique :
      (c : ℕ) (d : List ℕ) (w : ℕ) (ts : List Task) (t : Task) (c' : ℕ) (d' : List ℕ)
      → lookup c d ts ≡ some t
      → same c' d' (set_when c d w ts) ≡ same c' d' ts
  replace_unique c d w ts t c' d' e = omega (
    arith,
    set_when-counts c d w ts t (task_is_equal c' d') e,
    unlink-counts c d ts t (task_is_equal c' d') e,
  )

  replace-held :
      (r : Runner H) (c : ℕ) (d : List ℕ) (w : ℕ) (t : Task)
      → IsValid r
      → lookup c d r.tasks ≡ some t
      → (p : Task → Bool)
      → count p (record t { when = w } ∷ elements (E.remove r.heap t))
        ≤ count p (set_when c d w r.tasks)
  replace-held r c d w t v e p =
      let (ec, ed) = task_is_equal_key c d t (lookup_equal c d r.tasks t e) in
      let others : count (λ u. p u && not (task_is_equal t.callback t.bytes u)) r.tasks
          ≤ count p (unlink c d r.tasks) =
        rw (ec, ed) (others_le_unlink c d r.tasks p) in
      omega (
        arith,
        others,
        E.remove_removes r.heap t p,
        set_when-counts c d w r.tasks t p e,
        v.1 (λ u. p u && not (task_is_equal t.callback t.bytes u)),
      )

  new_unique :
      (ts : List Task) (t : Task)
      → ((c : ℕ) (d : List ℕ) → same c d ts ≤ 1)
      → lookup t.callback t.bytes ts ≡ none
      → (c : ℕ) (d : List ℕ) → same c d (ts ++ t ∷ []) ≤ 1
  new_unique ts t unique e c d = elim (Bool-cases (task_is_equal c d t)) [
    | inl h ↦
        let (ec, ed) = task_is_equal_key c d t h in
        let none_yet : same c d ts ≡ 0 =
          rw (sym ec, sym ed) (lookup-none t.callback t.bytes ts e) in
        ground (arith, count-append (task_is_equal c d) ts (t ∷ []), none_yet)
    | inr h ↦ ground (arith, count-append (task_is_equal c d) ts (t ∷ []), unique c d)
  ]

  -- Adding a task, known or new, whatever the allocator and the heap answer: there is still at
  -- most one task for a callback and its data, and the heap holds nothing that the list has not.
  pub runner_add-IsValid :
      (allocated : Bool) (now : ℕ) (r : Runner H) (c : ℕ) (d : List ℕ) (sec : ℤ)
      → IsValid r
      → IsValid (runner_add E allocated now r c d sec).1
  unfolding runner_add
  runner_add-IsValid allocated now r c d sec v =
      let d' = take r.data_size d in
      let w = due_time now sec in
      let new : Task = record { callback = c; bytes = d'; when = w } in
      elim (Option-cases (lookup c d' r.tasks)) [
        | inl e ↦
            rw (runner_add, e)
              (elim (Bool-cases allocated) [
                | inl a ↦ rw a (
                    schedule-IsValid r (r.tasks ++ new ∷ []) r.heap new
                      (new_unique r.tasks new v.0 e)
                      (λ p. ground (arith, count-append p r.tasks (new ∷ []), v.1 p)))
                | inr a ↦ rw a v
              ])
        | inr (t, e) ↦
            rw (runner_add, e)
              (schedule-IsValid r (set_when c d' w r.tasks) (E.remove r.heap t)
                (record t { when = w })
                (λ c' d''. rw (replace_unique c d' w r.tasks t c' d'' e) (v.0 c' d''))
                (replace-held r c d' w t v e))
      ]

  -- Cancelling a task keeps that.
  pub runner_remove-IsValid :
      (r : Runner H) (c : ℕ) (d : List ℕ) → IsValid r → IsValid (runner_remove E r c d)
  unfolding runner_remove
  runner_remove-IsValid r c d v =
      let d' = take r.data_size d in
      elim (Option-cases (lookup c d' r.tasks)) [
        | inl e ↦ rw (runner_remove, e) v
        | inr (t, e) ↦
            rw (runner_remove, e)
              (
                (λ c' d''.
                    omega
                      (arith, v.0 c' d'', unlink-counts c d' r.tasks t (task_is_equal c' d'') e)),
                (λ p. omega (
                  arith,
                  replace-held r c d' t.when t v e p,
                  set_when-counts c d' t.when r.tasks t p e,
                )),
              )
      ]
