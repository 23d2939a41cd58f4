-- ===== src/Task/Example.antt =====
-- Asterisk's heap as a list that is searched for its least time.
use wazo_libsccp.Common.{
  ◌≡◌, refl, subst, ◌≤◌, Bool, true, false, ◌&&◌, not, List, [], ◌∷◌, Option, none, some, count,
  ltb, arith, if◌then◌else◌,
}
use wazo_libsccp.Task.{Task, Heap, task_is_equal, earlier}

-- The least of a task and a list, and the others.
abbrev pub select : Task → List Task → Task × List Task
select t [] = (t, [])
select t (u ∷ us) =
    if ltb u.when t.when
    then ((select u us).0, t ∷ (select u us).1)
    else ((select t us).0, u ∷ (select t us).1)

abbrev pub first : List Task → Option Task
first [] = none
first (t ∷ ts) = some (select t ts).0

abbrev pub rest : List Task → List Task
rest [] = []
rest (t ∷ ts) = (select t ts).1

abbrev pub without : List Task → Task → List Task
without [] t = []
without (u ∷ us) t = if task_is_equal t.callback t.bytes u then without us t else u ∷ without us t

pub without-counts :
    (us : List Task) (t : Task) (p : Task → Bool)
    → count p (without us t) ≡ count (λ u. p u && not (task_is_equal t.callback t.bytes u)) us
without-counts [] t p = refl
without-counts (u ∷ us) t p = ground (arith, without-counts us t p)

pub select-counts :
    (t : Task) (us : List Task) (p : Task → Bool)
    → count p (t ∷ us) ≡ count p ((select t us).0 ∷ (select t us).1)
select-counts t [] p = refl
select-counts t (u ∷ us) p = ground (arith, select-counts t us p, select-counts u us p)

pub select_le : (t : Task) (us : List Task) → (select t us).0.when ≤ t.when
select_le t [] = omega arith
select_le t (u ∷ us) = ground (arith, select_le t us, select_le u us)

pub select_first : (t : Task) (us : List Task) → count (earlier (select t us).0) (t ∷ us) ≡ 0
select_first t [] = ground arith
select_first t (u ∷ us) =
    ground (arith, select_first t us, select_first u us, select_le t us, select_le u us)

pub peek_empty : (h : List Task) → first h ≡ none → h ≡ []
peek_empty [] e = refl
peek_empty (t ∷ ts) e = grind arith

pub peek_first : (h : List Task) (t : Task) → first h ≡ some t → count (earlier t) h ≡ 0
peek_first [] t e = grind arith
peek_first (u ∷ us) t e =
    let e' : (select u us).0 ≡ t = grind arith in
    subst (λ v. count (earlier v) (u ∷ us) ≡ 0) e' (select_first u us)

pub pop_removes :
    (h : List Task) (t : Task) (p : Task → Bool)
    → first h ≡ some t
    → count p h ≡ count p (t ∷ rest h)
pop_removes [] t p e = grind arith
pop_removes (u ∷ us) t p e =
    let e' : (select u us).0 ≡ t = grind arith in
    subst (λ v. count p (u ∷ us) ≡ count p (v ∷ (select u us).1)) e' (select-counts u us p)

pub always : (h : List Task) {x : List Task} → true ≡ false → x ≡ h
always h e = absurd (grind (arith, e))

abbrev pub list_heap : Heap
list_heap = record {
  H = List Task;
  create = [];
  elements = λ h. h;
  push = λ h t. (true, t ∷ h);
  remove = without;
  peek = first;
  pop = rest;
  create_empty = refl;
  push_adds = λ h t p e. refl;
  push_fails = λ h t. always h;
  remove_removes = without-counts;
  peek_empty = peek_empty;
  peek_first = peek_first;
  pop_removes = pop_removes;
}
