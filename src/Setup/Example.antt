-- ===== src/Setup/Example.antt =====
-- Extension states as a list of slots, whose places are the ids of subscriptions, and a few
-- configurations.
use wazo_libsccp.Common.{
  ℕ, zero, suc, ◌+◌, ◌-◌, ◌≤◌, ◌≡◌, ◌==◌, refl, sym, ap, true, false, List, [], ◌∷◌, ◌++◌, Option,
  none, some, count, total, length, arith, Bool-cases, inl, inr, take, if◌then◌else◌, same_bytes_eq,
  ==_iff,
}
use wazo_libsccp.Setup.Types.{Configs, ext, Watch, is_watch, Hints, World}

abbrev pub Slots : Type 0
Slots = List (Option (List ℕ × List ℕ))

-- The subscriptions, with their places from `k` on.
abbrev pub enum : ℕ → Slots → List Watch
enum k [] = []
enum k (none ∷ s) = enum (k + 1) s
enum k (some (c, e) ∷ s) = record { id = k; context = c; extension = e } ∷ enum (k + 1) s

abbrev pub clear : ℕ → Slots → Slots
clear n [] = []
clear zero (o ∷ s) = none ∷ s
clear (suc n) (o ∷ s) = o ∷ clear n s

-- An empty extension has no state.
abbrev pub subscribe : Slots → (context extension : List ℕ) → Option ℕ × Slots
subscribe s c [] = (none, s)
subscribe s c (x ∷ e) = (some (length s), s ++ some (c, x ∷ e) ∷ [])

enum-snoc :
    (f : Watch → ℕ) (k : ℕ) (s : Slots) (c e : List ℕ)
    → total f (enum k (s ++ some (c, e) ∷ []))
      ≡ f (record { id = k + length s; context = c; extension = e }) + total f (enum k s)
enum-snoc f k [] c e = let i : k + 0 ≡ k = omega arith in rw i (omega arith)
enum-snoc f k (none ∷ s) c e =
    let i : k + suc (length s) ≡ k + 1 + length s = omega arith in rw i (enum-snoc f (k + 1) s c e)
enum-snoc f k (some (d, x) ∷ s) c e =
    let i : k + suc (length s) ≡ k + 1 + length s = omega arith in
    rw i (omega (arith, enum-snoc f (k + 1) s c e))

pub subscribe-none :
    (s : Slots) (c e : List ℕ) → (subscribe s c e).0 ≡ none → (subscribe s c e).1 ≡ s
subscribe-none s c [] e = refl
subscribe-none s c (x ∷ xs) e = absurd (cc)

pub subscribe-some :
    (s : Slots) (c e : List ℕ) (i : ℕ) (f : Watch → ℕ)
    → (subscribe s c e).0 ≡ some i
    → total f (enum 0 (subscribe s c e).1)
      ≡ f (record { id = i; context = c; extension = e }) + total f (enum 0 s)
subscribe-some s c [] i f e = absurd (cc)
subscribe-some s c (x ∷ xs) i f e =
    let n : 0 + length s ≡ i = ground arith in rw (sym n) (enum-snoc f 0 s c (x ∷ xs))

is_watch_eq : (x y : Watch) → is_watch x y ≡ true → x ≡ y
is_watch_eq x y e =
    let i = (==_iff x.id y.id).0 (ground arith) in
    let c = same_bytes_eq x.context y.context (ground arith) in
    let t = same_bytes_eq x.extension y.extension (ground arith) in
    λ j. record { id = i j; context = c j; extension = t j }

enum-clear :
    (x : Watch) (f : Watch → ℕ) (k : ℕ) (s : Slots)
    → 1 ≤ count (is_watch x) (enum k s)
    → (k ≤ x.id) × (total f (enum k s) ≡ f x + total f (enum k (clear (x.id - k) s)))
enum-clear x f k [] h = absurd (omega arith)
enum-clear x f k (none ∷ s) h =
    let (l, e) = enum-clear x f (k + 1) s h in
    let n : x.id - k ≡ suc (x.id - (k + 1)) = omega (arith, l) in (omega (arith, l), rw n e)
enum-clear x f k (some (c, t) ∷ s) h =
    elim (Bool-cases (is_watch x (record { id = k; context = c; extension = t }))) [
      | inl m ↦
          let q = is_watch_eq x (record { id = k; context = c; extension = t }) m in
          let i : x.id ≡ k = ap (λ y. y.id) q in
          let n : x.id - k ≡ 0 = omega (arith, i) in
          (omega (arith, i), rw n (ap (λ y. f y + total f (enum (k + 1) s)) (sym q)))
      | inr m ↦
          let (l, e) = enum-clear x f (k + 1) s (ground arith) in
          let n : x.id - k ≡ suc (x.id - (k + 1)) = omega (arith, l) in
          (omega (arith, l), rw n (omega (arith, e)))
    ]

pub unsubscribe_removes :
    (s : Slots) (x : Watch) (f : Watch → ℕ)
    → 1 ≤ count (is_watch x) (enum 0 s)
    → total f (enum 0 s) ≡ f x + total f (enum 0 (clear x.id s))
unsubscribe_removes s x f h =
    let (l, e) = enum-clear x f 0 s h in let n : x.id - 0 ≡ x.id = omega arith in rw n at e

abbrev pub slots : Hints
slots = record {
  H = Slots;
  state = λ s c e. ext 0;
  add = subscribe;
  del = λ s i. clear i s;
  watching = enum 0;
  add_none = subscribe-none;
  add_some = subscribe-some;
  del_removes = unsubscribe_removes;
}

-- Device configuration 1 has the line configuration 3 and the speed dials 4 and 5, and 2 has 6 in
-- the place of 4. The speed dials 4 and 6 show the state of extension 9.
abbrev pub configs : Configs
configs = record {
  device_cfg = λ d. record {
    guest = false;
    dateformat = 68 ∷ [];
    voicemail = 49 ∷ [];
    vmexten = 42 ∷ [];
    timezone = [];
    keepalive = 10;
    line_cfg = 3;
    speeddials_cfg = (if d == 1 then 4 else 6) ∷ 5 ∷ [];
  };
  line_cfg = λ l. record { name = l ∷ []; cid_num = 49 ∷ []; cid_name = []; context = 99 ∷ [] };
  speeddial_cfg = λ s. record {
    label = [];
    extension = (if s == 5 then 8 else 9) ∷ [];
    blf = if s == 5 then false else true;
  };
  max_extension = 80;
  copy_string = λ n s. take (n - 1) s;
}

-- There is memory for all.
abbrev pub before : World Slots
before = record {
  refs = λ a. 1;
  device_refs = 0;
  caps_refs = 0;
  mem = λ k. true;
  hints = some (7 ∷ [], 7 ∷ []) ∷ [];
  mwi_subs = 0;
}
