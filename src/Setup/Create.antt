-- ===== src/Setup/Create.antt =====
-- sccp_device.c: what the creation of a device takes, and gives back when an allocation fails.
use wazo_libsccp.Common.{
  ℕ, suc, ◌+◌, ◌≡◌, ◌==◌, inl, inr, refl, sym, ◌∙◌, Bool, true, false, List, [], ◌∷◌, Option, none,
  some, total, length, arith, Bool-cases, if◌then◌else◌,
}
use wazo_libsccp.Device.Core.{next_u32}
use wazo_libsccp.Setup.Types.{Configs, Speeddial, Line, World, Phone, spend}
use wazo_libsccp.Setup.Life.{
  Info, sccp_line_alloc, sccp_lines_deinit, release_device, alloc_device, after_speeddials,
  after_line, init_device, device_type_is_supported, sccp_device_create,
}
use wazo_libsccp.Setup.Speeddials.{
  sccp_speeddial_alloc, after_made, release_speeddial, alloc_each, sccp_speeddials_init,
}

abbrev pub one : ℕ → ℕ → ℕ
one a c = if a == c then 1 else 0

-- `w'` has these references more than `w`, and so many more to the device.
pub record Gains {H : Type 0} (w w' : World H) (f : ℕ → ℕ) (n k : ℕ) : Type 0 where
  pub refs : (a : ℕ) → w'.refs a ≡ w.refs a + f a
  pub device_refs : w'.device_refs ≡ w.device_refs + n
  pub caps_refs : w'.caps_refs ≡ w.caps_refs + k
  pub hints : w'.hints ≡ w.hints
  pub mwi_subs : w'.mwi_subs ≡ w.mwi_subs

-- The speed dials for these configurations, numbered on from two numbers, and not yet subscribed.
abbrev pub Numbered : (instance_ index : ℕ) → List ℕ → List Speeddial → Type 0
Numbered i index [] [] = Unit {0}
Numbered i index [] (sd ∷ sds) = ⊥
Numbered i index (c ∷ cs) [] = ⊥
Numbered i index (c ∷ cs) (sd ∷ sds) =
    (sd.cfg ≡ c)
    × (sd.refs ≡ 1)
    × (sd.instance_ ≡ i)
    × (sd.index ≡ index)
    × (sd.exten_state_cb_id ≡ none)
    × Numbered (next_u32 i) (next_u32 index) cs sds

module _ {H : Type 0} where
  release-Gains :
      (w w' : World H) (f : ℕ → ℕ) (n k : ℕ) (sd : Speeddial)
      → sd.refs ≡ 1
      → Gains w w' (λ a. f a + one a sd.cfg) (n + 1) k
      → Gains w (release_speeddial sd w') f n k
  unfolding release_speeddial
  release-Gains w w' f n k sd e g = rw e (record {
    refs = λ a. ground (arith, g.refs a);
    device_refs = omega (arith, g.device_refs);
    caps_refs = g.caps_refs;
    hints = g.hints;
    mwi_subs = g.mwi_subs;
  })

  pub Gains-eq :
      {w w' : World H} (f g : ℕ → ℕ) (n m k l : ℕ)
      → ((a : ℕ) → g a ≡ f a)
      → m ≡ n
      → l ≡ k
      → Gains w w' f n k
      → Gains w w' g m l
  Gains-eq f g n m k l e en ek p = record {
    refs = λ a. omega (arith, p.refs a, e a);
    device_refs = omega (arith, p.device_refs);
    caps_refs = omega (arith, p.caps_refs);
    hints = p.hints;
    mwi_subs = p.mwi_subs;
  }

  pub Gains-nothing : (w : World H) → Gains w w (λ a. 0) 0 0
  Gains-nothing w = record {
    refs = λ a. omega arith;
    device_refs = omega arith;
    caps_refs = omega arith;
    hints = refl;
    mwi_subs = refl;
  }

  pub Gains-spend : (w : World H) → Gains w (spend w) (λ a. 0) 0 0
  Gains-spend w =
      let g = Gains-nothing w in
      record {
        refs = g.refs;
        device_refs = g.device_refs;
        caps_refs = g.caps_refs;
        hints = refl;
        mwi_subs = refl;
      }

  -- Nothing is taken, or one reference to each configuration and one to the device for each.
  abbrev pub Dialled : (i index : ℕ) → List ℕ → World H → Option (List Speeddial) × World H → Type 0
  Dialled i index cs w (none, w') = Gains w w' (λ a. 0) 0 0
  Dialled i index cs w (some sds, w') =
      Numbered i index cs sds × Gains w w' (λ a. total (one a) cs) (length cs) 0

  abbrev Made : (c i index : ℕ) → World H → Option Speeddial × World H → Type 0
  Made c i index w (none, w') = Gains w w' (λ a. 0) 0 0
  Made c i index w (some sd, w') =
      Numbered i index (c ∷ []) (sd ∷ []) × Gains w w' (λ a. one a c) 1 0

  alloc-Made : (c i index : ℕ) (w : World H) → Made c i index w (sccp_speeddial_alloc c i index w)
  unfolding sccp_speeddial_alloc
  alloc-Made c i index w = elim (Bool-cases (w.mem 0)) [
    | inl m ↦ rw m (
      (refl, refl, refl, refl, refl, tt),
      record {
        refs = λ a. ground arith;
        device_refs = omega arith;
        caps_refs = omega arith;
        hints = refl;
        mwi_subs = refl;
      },
    )
    | inr m ↦ rw m (Gains-spend w)
  ]

  Gains-trans :
      (w w' w'' : World H) (f g : ℕ → ℕ) (n m k l : ℕ)
      → Gains w w' f n k
      → Gains w' w'' g m l
      → Gains w w'' (λ a. f a + g a) (n + m) (k + l)
  Gains-trans w w' w'' f g n m k l p q = record {
    refs = λ a. omega (arith, p.refs a, q.refs a);
    device_refs = omega (arith, p.device_refs, q.device_refs);
    caps_refs = omega (arith, p.caps_refs, q.caps_refs);
    hints = q.hints ∙ p.hints;
    mwi_subs = q.mwi_subs ∙ p.mwi_subs;
  }

  after_made-Dialled :
      (c i index : ℕ) (cs : List ℕ) (w : World H) (made : Option Speeddial × World H)
      (rest : Option (List Speeddial) × World H)
      → Made c i index w made
      → Dialled (next_u32 i) (next_u32 index) cs made.1 rest
      → Dialled i index (c ∷ cs) w (after_made made rest)
  unfolding after_made
  after_made-Dialled c i index cs w (none, w1) rest m d = m
  after_made-Dialled c i index cs w (some sd, w1) (some sds, w2) (num, m) (nums, d) = (
    (num.0, num.1, num.2, num.3, num.4, nums),
    Gains-eq _ _ (1 + length cs) (suc (length cs)) (0 + 0) 0 (λ a. refl) (omega arith) (omega arith)
        (Gains-trans w w1 w2 (λ a. one a c) (λ a. total (one a) cs) 1 (length cs) 0 0 m d),
  )
  after_made-Dialled c i index cs w (some sd, w1) (none, w2) (num, m) d =
      release-Gains w w2 (λ a. 0) 0 0 sd num.1
        (Gains-eq _ _ (1 + 0) (0 + 1) (0 + 0) 0 (λ a. rw num.0 (omega arith)) (omega arith)
          (omega arith) (Gains-trans w w1 w2 (λ a. one a c) (λ a. 0) 1 0 0 0 m d))

  pub alloc_each-Dialled :
      (i index : ℕ) (cs : List ℕ) (w : World H) → Dialled i index cs w (alloc_each i index cs w)
  unfolding alloc_each
  alloc_each-Dialled i index [] w = (tt, Gains-nothing w)
  alloc_each-Dialled i index (c ∷ cs) w =
      let made = sccp_speeddial_alloc c i index w in
      let rest = alloc_each-Dialled (next_u32 i) (next_u32 index) cs made.1 in
      after_made-Dialled c i index cs w made _ (alloc-Made c i index w) rest

  spent-Dialled :
      (i index : ℕ) (cs : List ℕ) (w : World H) (r : Option (List Speeddial) × World H)
      → Dialled i index cs (spend w) r
      → Dialled i index cs w r
  spent-Dialled i index cs w (none, w') g = record {
    refs = g.refs;
    device_refs = g.device_refs;
    caps_refs = g.caps_refs;
    hints = g.hints;
    mwi_subs = g.mwi_subs;
  }
  spent-Dialled i index cs w (some sds, w') (num, g) = (
    num,
    record {
      refs = g.refs;
      device_refs = g.device_refs;
      caps_refs = g.caps_refs;
      hints = g.hints;
      mwi_subs = g.mwi_subs;
    },
  )

  speeddials_init-Dialled :
      (cs : List ℕ) (i : ℕ) (w : World H) → Dialled i 1 cs w (sccp_speeddials_init cs i w)
  unfolding sccp_speeddials_init
  speeddials_init-Dialled [] i w = (tt, Gains-nothing w)
  speeddials_init-Dialled (c ∷ cs) i w = elim (Bool-cases (w.mem 0)) [
    | inl m ↦ rw m (spent-Dialled i 1 (c ∷ cs) w _ (alloc_each-Dialled i 1 (c ∷ cs) (spend w)))
    | inr m ↦ rw m (Gains-spend w)
  ]

-- A device's references to its configuration and its session.
abbrev pub own : (cfg session a : ℕ) → ℕ
own cfg session a = one a cfg + one a session

module _ {H : Type 0} (C : Configs) (cfg session : ℕ) where
  -- Nothing is taken, or what the phone holds: its configuration, its session, and the
  -- configurations of its line and of its speed dials; the line and the speed dials hold the device,
  -- and so does who created it.
  abbrev pub Created : World H → Option Phone × World H → Type 0
  Created w (none, w') = Gains w w' (λ a. 0) 0 0
  Created w (some p, w') =
      (p.cfg ≡ cfg)
      × (p.session ≡ session)
      × (p.line.cfg ≡ (C.device_cfg cfg).line_cfg)
      × (p.line.refs ≡ 1)
      × (p.calls ≡ 0)
      × (p.mwi_event_sub ≡ false)
      × Numbered 2 1 (C.device_cfg cfg).speeddials_cfg p.speeddials
      × Gains w w'
          (λ a.
            one a cfg
            + one a session
            + (one a (C.device_cfg cfg).line_cfg + total (one a) (C.device_cfg cfg).speeddials_cfg))
          (2 + length (C.device_cfg cfg).speeddials_cfg) 1

  abbrev Lined : World H → Option Line × World H → Type 0
  Lined w (none, w') = Gains w w' (λ a. 0) 0 0
  Lined w (some l, w') =
      (l.refs ≡ 1)
      × (l.cfg ≡ (C.device_cfg cfg).line_cfg)
      × Gains w w' (λ a. one a (C.device_cfg cfg).line_cfg) 1 0

  line_alloc-Lined : (w : World H) → Lined w (sccp_line_alloc C (C.device_cfg cfg).line_cfg 1 w)
  unfolding sccp_line_alloc
  line_alloc-Lined w = elim (Bool-cases (w.mem 0)) [
    | inl m ↦ rw m (
      refl,
      refl,
      record {
        refs = λ a. ground arith;
        device_refs = omega arith;
        caps_refs = omega arith;
        hints = refl;
        mwi_subs = refl;
      },
    )
    | inr m ↦ rw m (Gains-spend w)
  ]

  -- The device is freed, and gives back what it took itself.
  release-Gains-own :
      (w w' : World H)
      → w.device_refs ≡ 0
      → Gains w w' (own cfg session) 1 1
      → Gains w (release_device cfg session w') (λ a. 0) 0 0
  unfolding release_device
  release-Gains-own w w' z g =
      let e : w'.device_refs ≡ 1 = omega (arith, g.device_refs, z) in
      rw e (record {
        refs = λ a. ground (arith, g.refs a);
        device_refs = omega (arith, z);
        caps_refs = omega (arith, g.caps_refs);
        hints = g.hints;
        mwi_subs = g.mwi_subs;
      })

  deinit-Gains :
      (w w' : World H) (l : Line)
      → l.refs ≡ 1
      → Gains w w' (λ a. own cfg session a + one a l.cfg) 2 1
      → Gains w (sccp_lines_deinit l w') (own cfg session) 1 1
  unfolding sccp_lines_deinit
  deinit-Gains w w' l e g = rw e (record {
    refs = λ a. ground (arith, g.refs a);
    device_refs = omega (arith, g.device_refs);
    caps_refs = omega (arith, g.caps_refs);
    hints = g.hints;
    mwi_subs = g.mwi_subs;
  })

  after_speeddials-Created :
      (info : Info) (l : Line) (w w1 : World H) (r : Option (List Speeddial) × World H)
      → w.device_refs ≡ 0
      → l.refs ≡ 1
      → l.cfg ≡ (C.device_cfg cfg).line_cfg
      → Gains w w1 (λ a. own cfg session a + one a l.cfg) 2 1
      → Dialled 2 1 (C.device_cfg cfg).speeddials_cfg w1 r
      → Created w (after_speeddials C cfg session info l r)
  unfolding after_speeddials
  after_speeddials-Created info l w w1 (none, w2) z e c g d = release-Gains-own w _ z (
      deinit-Gains w w2 l e (
        Gains-eq _ _ (2 + 0) 2 (1 + 0) 1 (λ a. omega arith) (omega arith) (omega arith)
          (Gains-trans w w1 w2 _ _ 2 0 1 0 g d)))
  after_speeddials-Created info l w w1 (some sds, w2) z e c g (num, d) =
      let n = length (C.device_cfg cfg).speeddials_cfg in
      (
        refl,
        refl,
        c,
        e,
        refl,
        refl,
        num,
        Gains-eq _ _ (2 + n) (2 + n) (1 + 0) 1 (λ a. rw (sym c) (omega arith)) refl (omega arith)
            (Gains-trans w w1 w2 _ _ 2 n 1 0 g d),
      )

  after_line-Created :
      (info : Info) (w w1 : World H) (r : Option Line × World H)
      → w.device_refs ≡ 0
      → Gains w w1 (own cfg session) 1 1
      → Lined w1 r
      → Created w (after_line C cfg session info r)
  unfolding after_line
  after_line-Created info w w1 (none, w2) z g l = release-Gains-own w w2 z (
      Gains-eq _ _ (1 + 0) 1 (1 + 0) 1 (λ a. omega arith) (omega arith) (omega arith)
        (Gains-trans w w1 w2 _ _ 1 0 1 0 g l))
  after_line-Created info w w1 (some l, w2) z g (e, c, h) =
      after_speeddials-Created info l w w2
        (sccp_speeddials_init (C.device_cfg cfg).speeddials_cfg 2 w2) z e c
        (Gains-eq _ _ (1 + 1) 2 (1 + 0) 1 (λ a. rw c (omega arith)) (omega arith) (omega arith)
          (Gains-trans w w1 w2 _ _ 1 1 1 0 g h))
        (speeddials_init-Dialled (C.device_cfg cfg).speeddials_cfg 2 w2)

  abbrev Allocated : World H → Bool × World H → Type 0
  Allocated w (true, w') = Gains w w' (own cfg session) 1 1
  Allocated w (false, w') = Gains w w' (λ a. 0) 0 0

  alloc-Allocated : (w : World H) → w.device_refs ≡ 0 → Allocated w (alloc_device cfg session w)
  unfolding alloc_device
  alloc-Allocated w z = elim (Bool-cases (w.mem 0)) [
    | inr m ↦ rw m (Gains-spend w)
    | inl m ↦ elim (Bool-cases (w.mem 1)) [
      | inl n ↦
          rw (m, n)
            (record {
              refs = λ a. ground arith;
              device_refs = omega (arith, z);
              caps_refs = omega arith;
              hints = refl;
              mwi_subs = refl;
            })
      | inr n ↦
          rw (m, n)
            (record {
              refs = λ a. omega arith;
              device_refs = omega arith;
              caps_refs = omega arith;
              hints = refl;
              mwi_subs = refl;
            })
    ]
  ]

  after_alloc-Created :
      (info : Info) (w : World H) (r : Bool × World H)
      → w.device_refs ≡ 0
      → Allocated w r
      → Created w (if r.0 then init_device C cfg session info r.1 else (none, r.1))
  unfolding init_device
  after_alloc-Created info w (true, w1) z g =
      after_line-Created info w w1 (sccp_line_alloc C (C.device_cfg cfg).line_cfg 1 w1) z g
        (line_alloc-Lined w1)
  after_alloc-Created info w (false, w1) z g = g

  -- Creating a device that nothing refers to yet, whatever the allocations: either there is none and
  -- every reference count is what it was, or the device has the speed dials of its configuration,
  -- numbered from instance 2 and index 1 on, and exactly it, its line and its speed dials hold
  -- references.
  pub create-Created :
      (info : Info) (w : World H)
      → w.device_refs ≡ 0
      → Created w (sccp_device_create C (some cfg) (some session) (some info) w)
  unfolding sccp_device_create
  create-Created info w z = elim (Bool-cases (device_type_is_supported info.type)) [
    | inl e ↦ rw e (after_alloc-Created info w (alloc_device cfg session w) z (alloc-Allocated w z))
    | inr e ↦ rw e (Gains-nothing w)
  ]
