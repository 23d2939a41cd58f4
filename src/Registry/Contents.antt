-- ===== src/Registry/Contents.antt =====
-- sccp_device_registry.c: what an operation changes in the two containers and in the guest count.
use wazo_libsccp.Common.{
  ℕ, ◌+◌, ◌^◌, ◌≤◌, ◌<◌, ◌≡◌, ◌==◌, ◌⊎◌, refl, Bool, true, false, List, [], ◌∷◌, if◌then◌else◌,
  total, count, Bool-cases, inl, inr, arith,
}
use wazo_libsccp.Registry.{
  Objects, Container, Registry, added, not_added, unlink_all, link_lines, add_lines, add_device,
  remove_device, add_new,
}

-- The lines of the devices, weighed.
abbrev pub of_lines : Objects → (ℕ → ℕ) → ℕ → ℕ
of_lines O w d = total w (O.device_lines d)

-- 1 for those that pass a test.
abbrev pub indicator : (ℕ → Bool) → ℕ → ℕ
indicator p a = if p a then 1 else 0

abbrev pub is : ℕ → ℕ → Bool
is a b = b == a

pub self : (a : ℕ) → indicator (is a) a ≡ 1
self a = ground arith

pub count-total : (p : ℕ → Bool) (ls : List ℕ) → total (indicator p) ls ≡ count p ls
count-total p [] = refl
count-total p (l ∷ ls) = omega (arith, count-total p ls)

module _ {name : ℕ → List ℕ} (F : Container name) where
  -- What was linked on top of a container can be unlinked again.
  pub unlink_one :
      (c : F.C) (l : ℕ) (ls : List ℕ) (base : (ℕ → ℕ) → ℕ)
      → ((w : ℕ → ℕ) → total w (F.elements c) ≡ total w (l ∷ ls) + base w)
      → (w : ℕ → ℕ) → total w (F.elements (F.unlink c l)) ≡ total w ls + base w
  unlink_one c l ls base h w =
      let here : 1 ≤ count (is l) (F.elements c) =
        omega (arith, self l, count-total (is l) (F.elements c), h (indicator (is l))) in
      omega (arith, F.unlink_removes c l w here, h w)

module _ (O : Objects) (E : Container O.device_name) (F : Container O.line_name) where
  pub unlink_all-total :
      (c : F.C) (ls : List ℕ) (base : (ℕ → ℕ) → ℕ)
      → ((w : ℕ → ℕ) → total w (F.elements c) ≡ total w ls + base w)
      → (w : ℕ → ℕ) → total w (F.elements (unlink_all O E F c ls)) ≡ base w
  unfolding unlink_all
  unlink_all-total c [] base h w = omega (arith, h w)
  unlink_all-total c (l ∷ ls) base h w =
      unlink_all-total (F.unlink c l) ls base (unlink_one F c l ls base h) w

  link_lines-total :
      (c0 c : F.C) (linked ls : List ℕ)
      → ((w : ℕ → ℕ) → total w (F.elements c) ≡ total w linked + total w (F.elements c0))
      → (w : ℕ → ℕ)
      → (((link_lines O E F c linked ls).0 ≡ true)
          × (total w (F.elements (link_lines O E F c linked ls).1)
              ≡ total w ls + total w (F.elements c)))
        ⊎ (((link_lines O E F c linked ls).0 ≡ false)
            × (total w (F.elements (link_lines O E F c linked ls).1) ≡ total w (F.elements c0)))
  unfolding link_lines
  link_lines-total c0 c linked [] h w = inl (refl, omega arith)
  link_lines-total c0 c linked (l ∷ ls) h w = elim (Bool-cases (F.link c l).0) [
    | inl e ↦
        rw (link_lines, e)
          (let next =
              link_lines-total c0 (F.link c l).1 (l ∷ linked) ls
                (λ v. omega (arith, F.link_adds c l v e, h v)) w in
            elim next [
              | inl (ok, t) ↦ inl (ok, omega (arith, t, F.link_adds c l w e))
              | inr x ↦ inr x
            ])
    | inr e ↦
        rw (link_lines, e)
          (inr (
            refl,
            unlink_all-total (F.link c l).1 linked (λ v. total v (F.elements c0))
                (λ v. rw (F.link_fails c l e) (h v)) w,
          ))
  ]

  -- The same devices, lines and numbers, in an order of their own.
  pub record IsSame (r r' : Registry E.C F.C) : Type 0 where
    pub devices : (w : ℕ → ℕ) → total w (E.elements r'.devices) ≡ total w (E.elements r.devices)
    pub lines : (w : ℕ → ℕ) → total w (F.elements r'.lines) ≡ total w (F.elements r.lines)
    pub cur_guests : r'.cur_guests ≡ r.cur_guests
    pub max_guests : r'.max_guests ≡ r.max_guests

  -- The registry `r'` has the device `d` and its lines besides what `r` has.
  pub record Gains (r r' : Registry E.C F.C) (d : ℕ) : Type 0 where
    pub devices :
        (w : ℕ → ℕ) → total w (E.elements r'.devices) ≡ w d + total w (E.elements r.devices)
    pub lines :
        (w : ℕ → ℕ)
        → total w (F.elements r'.lines) ≡ total w (O.device_lines d) + total w (F.elements r.lines)
    pub cur_guests : r'.cur_guests ≡ indicator O.is_guest d + r.cur_guests
    pub max_guests : r'.max_guests ≡ r.max_guests

  pub Gains-has :
      (r r' : Registry E.C F.C) (d : ℕ)
      → Gains r r' d
      → 1 ≤ count (λ b. b == d) (E.elements r'.devices)
  Gains-has r r' d g = omega (
    arith,
    self d,
    count-total (λ b. b == d) (E.elements r'.devices),
    g.devices (indicator (is d)),
  )

  linked-total :
      (c : F.C) (ls : List ℕ)
      → (link_lines O E F c [] ls).0 ≡ true
      → (w : ℕ → ℕ)
      → total w (F.elements (link_lines O E F c [] ls).1) ≡ total w ls + total w (F.elements c)
  linked-total c ls e w = elim (link_lines-total c c [] ls (λ v. omega arith) w) [
    | inl (f, t) ↦ t
    | inr (f, t) ↦ absurd (grind (arith, f, e))
  ]

  refused-total :
      (c : F.C) (ls : List ℕ)
      → (link_lines O E F c [] ls).0 ≡ false
      → (w : ℕ → ℕ) → total w (F.elements (link_lines O E F c [] ls).1) ≡ total w (F.elements c)
  refused-total c ls e w = elim (link_lines-total c c [] ls (λ v. omega arith) w) [
    | inl (f, t) ↦ absurd (grind (arith, f, e))
    | inr (f, t) ↦ t
  ]

  unlinked-total :
      (c : E.C) (d : ℕ)
      → (E.link c d).0 ≡ true
      → (w : ℕ → ℕ) → total w (E.elements (E.unlink (E.link c d).1 d)) ≡ total w (E.elements c)
  unlinked-total c d e w =
      let gone =
        unlink_one E (E.link c d).1 d [] (λ v. total v (E.elements c))
          (λ v. omega (arith, E.link_adds c d v e)) w in
      omega (arith, gone)

  -- What `add_new` makes of a registry whose guests have room.
  pub add_new-outcome :
      (r : Registry E.C F.C) (d : ℕ)
      → indicator O.is_guest d + r.cur_guests < 2 ^ 32
      → (((add_new O E F r d).0 ≡ added) × Gains r (add_new O E F r d).1 d)
        ⊎ (((add_new O E F r d).0 ≡ not_added) × IsSame r (add_new O E F r d).1)
  unfolding add_new add_device add_lines remove_device
  add_new-outcome r d h = elim (Bool-cases (E.link r.devices d).0) [
    | inl e ↦ elim (Bool-cases (link_lines O E F r.lines [] (O.device_lines d)).0) [
      | inl f ↦ elim (Bool-cases (O.is_guest d)) [
        | inl g ↦
            rw (add_new, e, f, g)
              (inl (
                refl,
                record {
                  devices = λ w. E.link_adds r.devices d w e;
                  lines = linked-total r.lines (O.device_lines d) f;
                  cur_guests = ground arith;
                  max_guests = refl;
                },
              ))
        | inr g ↦
            rw (add_new, e, f, g)
              (inl (
                refl,
                record {
                  devices = λ w. E.link_adds r.devices d w e;
                  lines = linked-total r.lines (O.device_lines d) f;
                  cur_guests = ground arith;
                  max_guests = refl;
                },
              ))
      ]
      | inr f ↦
          rw (add_new, e, f)
            (inr (
              refl,
              record {
                devices = unlinked-total r.devices d e;
                lines = refused-total r.lines (O.device_lines d) f;
                cur_guests = refl;
                max_guests = refl;
              },
            ))
    ]
    | inr e ↦
        rw (add_new, e)
          (inr (
            refl,
            record {
              devices = λ w. rw (E.link_fails r.devices d e) refl;
              lines = λ w. refl;
              cur_guests = refl;
              max_guests = refl;
            },
          ))
  ]
