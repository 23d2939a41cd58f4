-- ===== src/Config/Lines.antt =====
-- sccp_config.c: the lines of a configuration after they were put in order.
use wazo_libsccp.Common.{
  ℕ, ◌≤◌, ◌≡◌, ◌==◌, refl, sym, ap, ◌∙◌, Bool, true, false, List, [], ◌∷◌, inl, inr, arith,
  Bool-cases, if◌then◌else◌, ==_iff, total-indicator, subst,
}
use wazo_libsccp.Registry.{Container}
use wazo_libsccp.Config.{Names}
use wazo_libsccp.Config.Build.{is_associated}
use wazo_libsccp.Config.Apply.{apply_line, apply_lines}
use wazo_libsccp.Config.Like.{Conf}
use wazo_libsccp.Config.Turn.{times}

module _ (N : Names) (E : Container N.device_name) (F : Container N.line_name)
    (G : Container N.speeddial_name) where
  abbrev pub linked_line : Conf N E F G → ℕ → ℕ
  linked_line c l = times l (F.elements c.lines_cfg)

  -- A turn of the callback leaves all but the line itself as it was; a line without a device leaves
  -- the container.
  record Swept (l : ℕ) (c c' : Conf N E F G) : Type 0 where
    pub device : c'.device ≡ c.device
    pub devices_cfg : c'.devices_cfg ≡ c.devices_cfg
    pub speeddials_cfg : c'.speeddials_cfg ≡ c.speeddials_cfg
    pub guest_device_cfg : c'.guest_device_cfg ≡ c.guest_device_cfg
    pub guest_internal : c'.guest_internal ≡ c.guest_internal
    pub others : (q : ℕ) → (q == l) ≡ false → c'.line q ≡ c.line q
    pub stays : (q : ℕ) → (q == l) ≡ false → linked_line c' q ≡ linked_line c q
    pub fewer : (q : ℕ) → linked_line c' q ≤ linked_line c q
    pub kept : 1 ≤ linked_line c' l → is_associated (c.line l) ≡ true

  apply_line-Swept :
      (l : ℕ) (c : Conf N E F G) → linked_line c l ≡ 1 → Swept l c (apply_line N E F G l c)
  unfolding apply_line
  apply_line-Swept l c once = elim (Bool-cases (is_associated (c.line l))) [
    | inl a ↦ rw a (record {
      device = refl;
      devices_cfg = refl;
      speeddials_cfg = refl;
      guest_device_cfg = refl;
      guest_internal = refl;
      others = λ q n. rw n refl;
      stays = λ q n. refl;
      fewer = λ q. omega arith;
      kept = λ h. a;
    })
    | inr a ↦
        let here : 1 ≤ linked_line c l = omega (arith, once) in
        let gone = λ (q : ℕ). F.unlink_removes c.lines_cfg l (λ b. if b == q then 1 else 0) here in
        let before = λ (q : ℕ). total-indicator (λ b. b == q) (F.elements c.lines_cfg) in
        let after =
          λ (q : ℕ). total-indicator (λ b. b == q) (F.elements (F.unlink c.lines_cfg l)) in
        rw a (record {
          device = refl;
          devices_cfg = refl;
          speeddials_cfg = refl;
          guest_device_cfg = refl;
          guest_internal = refl;
          others = λ q n. refl;
          stays = λ q n. ground (arith, gone q, before q, after q, n);
          fewer = λ q. omega (arith, gone q, before q, after q);
          kept = λ h.
              let e = gone l in
              let i = before l in
              let j = after l in
              let s : ◌≡◌ {A = ℕ} (if l == l then 1 else 0) 1 = ground arith in
              absurd (omega (arith, e, i, j, h, once, s));
        })
  ]

  -- Between two turns: the lines in `todo` are linked, once, and every other line that is linked
  -- has, or had, a device.
  pub record IsSweeping (assigned : ℕ → Bool) (todo : List ℕ) (c : Conf N E F G) : Type 0 where
    pub once_todo : (l : ℕ) → times l todo ≤ 1
    pub todo_linked : (l : ℕ) → 1 ≤ times l todo → linked_line c l ≡ 1
    pub unseen : (l : ℕ) → 1 ≤ times l todo → is_associated (c.line l) ≡ assigned l
    pub swept : (l : ℕ) → times l todo ≡ 0 → 1 ≤ linked_line c l → assigned l ≡ true

  module _ (assigned : ℕ → Bool) (l : ℕ) (ls : List ℕ) (c c' : Conf N E F G)
      (u : IsSweeping assigned (l ∷ ls) c) (t : Swept l c c') where
    not_l : (q : ℕ) → 1 ≤ times q ls → (q == l) ≡ false
    not_l q h = elim (Bool-cases (q == l)) [
      | inr e ↦ e
      | inl e ↦
          let i : q ≡ l = (==_iff q l).0 e in
          let o = u.once_todo q in absurd (ground (arith, o, h, i))
    ]

    turn-swept : (q : ℕ) → times q ls ≡ 0 → 1 ≤ linked_line c' q → assigned q ≡ true
    turn-swept q z h = elim (Bool-cases (q == l)) [
      | inl i ↦
          let e = (==_iff q l).0 i in
          let here : 1 ≤ times q (l ∷ ls) = ground (arith, e) in
          let kept = t.kept (subst (λ r. 1 ≤ linked_line c' r) e h) in
          sym (u.unseen q here) ∙ subst (λ r. is_associated (c.line r) ≡ true) (sym e) kept
      | inr i ↦
          let z' : times q (l ∷ ls) ≡ 0 = ground (arith, z, i) in
          let f = t.fewer q in u.swept q z' (omega (arith, f, h))
    ]

    turn-IsSweeping : IsSweeping assigned ls c'
    turn-IsSweeping = record {
      once_todo = λ q. ground (arith, u.once_todo q);
      todo_linked = λ q h. t.stays q (not_l q h) ∙ u.todo_linked q (ground (arith, h));
      unseen = λ q h. ap is_associated (t.others q (not_l q h)) ∙ u.unseen q (ground (arith, h));
      swept = turn-swept;
    }

  -- What the lines leave as it was.
  pub record Same (c c' : Conf N E F G) : Type 0 where
    pub device : c'.device ≡ c.device
    pub devices_cfg : c'.devices_cfg ≡ c.devices_cfg
    pub speeddials_cfg : c'.speeddials_cfg ≡ c.speeddials_cfg
    pub guest_device_cfg : c'.guest_device_cfg ≡ c.guest_device_cfg
    pub guest_internal : c'.guest_internal ≡ c.guest_internal

  pub apply_lines-IsSweeping :
      (assigned : ℕ → Bool) (ls : List ℕ) (c : Conf N E F G)
      → IsSweeping assigned ls c
      → IsSweeping assigned [] (apply_lines N E F G ls c) × Same c (apply_lines N E F G ls c)
  unfolding apply_lines
  apply_lines-IsSweeping assigned [] c u = (
    u,
    record {
      device = refl;
      devices_cfg = refl;
      speeddials_cfg = refl;
      guest_device_cfg = refl;
      guest_internal = refl;
    },
  )
  apply_lines-IsSweeping assigned (l ∷ ls) c u =
      let c' = apply_line N E F G l c in
      let t = apply_line-Swept l c (u.todo_linked l (ground arith)) in
      let (v, s) = apply_lines-IsSweeping assigned ls c' (turn-IsSweeping assigned l ls c c' u t) in
      (
        v,
        record {
          device = s.device ∙ t.device;
          devices_cfg = s.devices_cfg ∙ t.devices_cfg;
          speeddials_cfg = s.speeddials_cfg ∙ t.speeddials_cfg;
          guest_device_cfg = s.guest_device_cfg ∙ t.guest_device_cfg;
          guest_internal = s.guest_internal ∙ t.guest_internal;
        },
      )

  own_turn :
      (l : ℕ) (c : Conf N E F G)
      → is_associated (c.line l) ≡ true
      → (apply_line N E F G l c).lines_cfg ≡ c.lines_cfg
  unfolding apply_line
  own_turn l c a = rw a refl

  -- A line that was assigned stays, and none is linked more often.
  pub apply_lines-kept :
      (assigned : ℕ → Bool) (ls : List ℕ) (c : Conf N E F G) (l : ℕ)
      → IsSweeping assigned ls c
      → (assigned l ≡ true → linked_line c l ≤ linked_line (apply_lines N E F G ls c) l)
        × (linked_line (apply_lines N E F G ls c) l ≤ linked_line c l)
  unfolding apply_lines
  apply_lines-kept assigned [] c l u = (λ a. omega arith, omega arith)
  apply_lines-kept assigned (x ∷ ls) c l u =
      let c' = apply_line N E F G x c in
      let t = apply_line-Swept x c (u.todo_linked x (ground arith)) in
      let (stays, fewer) =
        apply_lines-kept assigned ls c' l (turn-IsSweeping assigned x ls c c' u t) in
      (
        λ a. elim (Bool-cases (l == x)) [
          | inl i ↦
              let e = (==_iff l x).0 i in
              let seen =
                subst (λ r. is_associated (c.line r) ≡ assigned r) e
                  (u.unseen l (ground (arith, e))) in
              let mine = own_turn x c (seen ∙ subst (λ r. assigned r ≡ true) e a) in
              let same = ap (λ y. times l (F.elements y)) mine in omega (arith, same, stays a)
          | inr i ↦ let same = t.stays l i in omega (arith, same, stays a)
        ],
        let one = t.fewer l in omega (arith, one, fewer),
      )
