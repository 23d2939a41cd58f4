-- ===== src/Registry/Example.antt =====
-- Asterisk's hash container as a list, and a few devices.
use wazo_libsccp.Common.{
  ℕ, ◌+◌, ◌≤◌, ◌≡◌, ◌==◌, refl, sym, Bool, true, false, List, [], ◌∷◌, Option, none, some, count,
  total, arith, Bool-cases, inl, inr, if◌then◌else◌, ap, ==_iff,
}
use wazo_libsccp.Registry.{Objects, Container, named}

abbrev pub without : List ℕ → ℕ → List ℕ
without [] a = []
without (b ∷ bs) a = if b == a then bs else b ∷ without bs a

abbrev pub search : (ℕ → List ℕ) → List ℕ → List ℕ → Option ℕ
search name [] n = none
search name (b ∷ bs) n = if named name n b then some b else search name bs n

-- There is no memory to link object 99.
abbrev pub cons : List ℕ → ℕ → Bool × List ℕ
cons bs a = if a == 99 then (false, bs) else (true, a ∷ bs)

pub cons_adds :
    (bs : List ℕ) (a : ℕ) (w : ℕ → ℕ)
    → (cons bs a).0 ≡ true
    → total w (cons bs a).1 ≡ w a + total w bs
cons_adds bs a w e = ground arith

pub cons_fails : (bs : List ℕ) (a : ℕ) → (cons bs a).0 ≡ false → (cons bs a).1 ≡ bs
cons_fails bs a e = ground arith

pub without_removes :
    (bs : List ℕ) (a : ℕ) (w : ℕ → ℕ)
    → 1 ≤ count (λ b. b == a) bs
    → total w bs ≡ w a + total w (without bs a)
without_removes [] a w h = absurd (omega arith)
without_removes (b ∷ bs) a w h = elim (Bool-cases (b == a)) [
  | inl e ↦ let m : w b ≡ w a = ap w ((==_iff b a).0 e) in ground (arith, m)
  | inr e ↦ let rest = without_removes bs a w (ground arith) in ground (arith, rest)
]

pub search-none :
    (name : ℕ → List ℕ) (bs : List ℕ) (n : List ℕ)
    → search name bs n ≡ none
    → count (named name n) bs ≡ 0
search-none name [] n e = refl
search-none name (b ∷ bs) n e = ground (arith, search-none name bs n)

pub search-some :
    (name : ℕ → List ℕ) (bs : List ℕ) (n : List ℕ) (a : ℕ)
    → search name bs n ≡ some a
    → (named name n a ≡ true) × (1 ≤ count (λ b. b == a) bs)
search-some name [] n a e = grind arith
search-some name (b ∷ bs) n a e = elim (Bool-cases (named name n b)) [
  | inl m ↦
      let i : b ≡ a = grind arith in (rw (sym i) m, let j = (==_iff b a).1 i in ground (arith, j))
  | inr m ↦
      let (found, h) =
        search-some name bs n a (let e' : search name bs n ≡ some a = grind arith in e') in
      (found, omega (arith, h))
]

abbrev pub lists : (name : ℕ → List ℕ) → Container name
lists name = record {
  C = List ℕ;
  alloc = [];
  elements = λ bs. bs;
  link = cons;
  unlink = without;
  find = search name;
  alloc_empty = refl;
  link_adds = cons_adds;
  link_fails = cons_fails;
  unlink_removes = without_removes;
  find_none = search-none name;
  find_some = search-some name;
}

-- Device 1 is a guest, device 2 is not; each has a line. The lines of device 3 are 30 and 99.
abbrev pub objects : Objects
objects = record {
  device_name = λ d. d ∷ [];
  is_guest = λ d. d == 1;
  device_lines = λ d. if d == 3 then 30 ∷ 99 ∷ [] else (d + 10) ∷ [];
  line_name = λ l. l ∷ [];
}
