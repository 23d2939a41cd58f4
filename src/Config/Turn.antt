-- ===== src/Config/Turn.antt =====
-- sccp_config.c: one turn of the callback that puts the devices of a configuration in order.
use wazo_libsccp.Common.{
  ℕ, ◌≤◌, ◌≡◌, ◌==◌, refl, sym, ap, ◌∙◌, Bool, true, false, List, [], some, inl, inr, ◌⊎◌, arith,
  Bool-cases, Option-cases, if◌then◌else◌, is_empty, ==_refl, count, total, total-indicator, subst,
}
use wazo_libsccp.Registry.{Container}
use wazo_libsccp.Config.{DeviceInternal, LineCfg, Names, at, inc}
use wazo_libsccp.Config.Build.{
  unlink_device, is_associated, sccp_device_cfg_build_line, after_line, find_speeddials,
}
use wazo_libsccp.Config.Apply.{cb_pre_apply_device_cfg, with_internal, kept_or_unlinked}
use wazo_libsccp.Config.Like.{Conf, release-Like, IsBuilt, Halved, after_line-Halved}

-- How often a pointer stands in a list.
abbrev pub times : ℕ → List ℕ → ℕ
times q = count (λ b. b == q)

-- The line that a device gets.
abbrev pub associate : ℕ → (ℕ → LineCfg) → ℕ → LineCfg
associate l = at l (λ x. record x { internal = some true })

module _ (N : Names) (E : Container N.device_name) (F : Container N.line_name)
    (G : Container N.speeddial_name) where
  -- What a turn does: it makes nothing of the other devices, it gives the device no line or one that
  -- had no device, and then the device is built, or it is not in the container any more.
  pub record Turned (d : ℕ) (i : DeviceInternal) (c c' : Conf N E F G) : Type 0 where
    pub guest_device_cfg : c'.guest_device_cfg ≡ c.guest_device_cfg
    pub guest_internal : c'.guest_internal ≡ c.guest_internal
    pub lines_cfg : c'.lines_cfg ≡ c.lines_cfg
    pub speeddials_cfg : c'.speeddials_cfg ≡ c.speeddials_cfg
    pub others : (q : ℕ) → (q == d) ≡ false → c'.device q ≡ c.device q
    pub fewer :
        (w : ℕ → ℕ) → total w (E.elements c'.devices_cfg) ≤ total w (E.elements c.devices_cfg)
    pub stays :
        (q : ℕ)
        → (q == d) ≡ false
        → times q (E.elements c'.devices_cfg) ≡ times q (E.elements c.devices_cfg)
    pub lined :
        ((c'.line ≡ c.line) × ((c'.device d).line_cfg ≡ (c.device d).line_cfg))
        ⊎ ((l : ℕ) × (is_associated (c.line l) ≡ false)
            × ((c'.device d).line_cfg ≡ some l)
            × (c'.line ≡ associate l c.line))
    pub fate : (times d (E.elements c'.devices_cfg) ≡ 0) ⊎ IsBuilt N E F G i c' (c'.device d)

  -- A device that is linked once is not linked afterwards.
  unlinked :
      (c : E.C) (d : ℕ)
      → times d (E.elements c) ≡ 1
      → ((w : ℕ → ℕ) → total w (E.elements (E.unlink c d)) ≤ total w (E.elements c))
        × (times d (E.elements (E.unlink c d)) ≡ 0)
        × ((q : ℕ)
            → (q == d) ≡ false
            → times q (E.elements (E.unlink c d)) ≡ times q (E.elements c))
  unlinked c d e =
      let gone = λ (w : ℕ → ℕ). E.unlink_removes c d w (omega (arith, e)) in
      let own : ◌≡◌ {A = ℕ} (if d == d then 1 else 0) 1 = ground arith in
      (
        λ w. omega (arith, gone w),
        omega (
          arith,
          gone (λ b. if b == d then 1 else 0),
          own,
          e,
          total-indicator (λ b. b == d) (E.elements c),
          total-indicator (λ b. b == d) (E.elements (E.unlink c d)),
        ),
        λ q n. ground (
          arith,
          gone (λ b. if b == q then 1 else 0),
          n,
          total-indicator (λ b. b == q) (E.elements c),
          total-indicator (λ b. b == q) (E.elements (E.unlink c d)),
        ),
      )

  unlink-Turned :
      (d : ℕ) (i : DeviceInternal) (c c1 : Conf N E F G)
      → times d (E.elements c.devices_cfg) ≡ 1
      → c1.devices_cfg ≡ c.devices_cfg
      → c1.lines_cfg ≡ c.lines_cfg
      → c1.speeddials_cfg ≡ c.speeddials_cfg
      → c1.guest_device_cfg ≡ c.guest_device_cfg
      → c1.guest_internal ≡ c.guest_internal
      → ((q : ℕ) → (q == d) ≡ false → c1.device q ≡ c.device q)
      → ((c1.line ≡ c.line) × ((c1.device d).line_cfg ≡ (c.device d).line_cfg))
        ⊎ ((l : ℕ) × (is_associated (c.line l) ≡ false)
            × ((c1.device d).line_cfg ≡ some l)
            × (c1.line ≡ associate l c.line))
      → Turned d i c (unlink_device N E F G d c1)
  unfolding unlink_device
  unlink-Turned d i c c1 once dv ln sd gd gi o lined =
      let cu = record c1 { devices_cfg = E.unlink c1.devices_cfg d } in
      let k = release-Like N E F G d cu in
      let (fewer, none_left, stays) = unlinked c.devices_cfg d once in
      record {
        guest_device_cfg = k.guest_device_cfg ∙ gd;
        guest_internal = k.guest_internal ∙ gi;
        lines_cfg = k.lines_cfg ∙ ln;
        speeddials_cfg = k.speeddials_cfg ∙ sd;
        others = λ q e. k.others q e ∙ o q e;
        fewer = λ w. rw (k.devices_cfg, dv) (fewer w);
        stays = λ q n. rw (k.devices_cfg, dv) (stays q n);
        lined = elim lined [
          | inl (a, b) ↦ inl (k.line ∙ a, k.line_cfg ∙ b)
          | inr (l, a, b, t) ↦ inr (l, a, k.line_cfg ∙ b, k.line ∙ t)
        ];
        fate = inl (rw (k.devices_cfg, dv) none_left);
      }

  -- The first half: no line, or a line that had no device.
  abbrev Lined : ℕ → List ℕ → Conf N E F G → Bool × Conf N E F G → Type 0
  Lined d name c (false, c') = c' ≡ c
  Lined d name c (true, c') =
      (l : ℕ) × (F.find c.lines_cfg name ≡ some l)
      × (is_associated (c.line l) ≡ false)
      × (c' ≡ record c {
        device = at d (λ x. record x { line_cfg = some l }) c.device;
        line = associate l c.line;
        line_refs = inc l c.line_refs;
      })

  build_line-Lined :
      (d : ℕ) (name : List ℕ) (c : Conf N E F G)
      → Lined d name c (sccp_device_cfg_build_line N E F G d name c)
  unfolding sccp_device_cfg_build_line
  build_line-Lined d name c = elim (Bool-cases (is_empty name)) [
    | inl e ↦ rw e refl
    | inr e ↦ elim (Option-cases (F.find c.lines_cfg name)) [
      | inl n ↦ rw (e, n) refl
      | inr (l, s) ↦ elim (Bool-cases (is_associated (c.line l))) [
        | inl a ↦ rw (e, s, a) refl
        | inr a ↦ rw (e, s, a) (l, s, a, refl)
      ]
    ]
  ]

  -- With a line, the second half.
  second-Turned :
      (d : ℕ) (i : DeviceInternal) (c c1 : Conf N E F G) (l : ℕ) (r : Bool × Conf N E F G)
      → times d (E.elements c.devices_cfg) ≡ 1
      → F.find c.lines_cfg i.line_name ≡ some l
      → is_associated (c.line l) ≡ false
      → c1 ≡ record c {
        device = at d (λ x. record x { line_cfg = some l }) c.device;
        line = associate l c.line;
        line_refs = inc l c.line_refs;
      }
      → Halved N E F G d i.speeddials c1 r
      → Turned d i c (kept_or_unlinked N E F G d r)
  unfolding kept_or_unlinked
  second-Turned d i c c1 l (false, c2) once f a e h =
      unlink-Turned d i c c2 once (h.devices_cfg ∙ ap (λ x. x.devices_cfg) e)
        (h.lines_cfg ∙ ap (λ x. x.lines_cfg) e) (h.speeddials_cfg ∙ ap (λ x. x.speeddials_cfg) e)
        (h.guest_device_cfg ∙ ap (λ x. x.guest_device_cfg) e)
        (h.guest_internal ∙ ap (λ x. x.guest_internal) e)
        (λ q n. h.others q n ∙ ap (λ x. x.device q) e ∙ rw n refl)
        (inr (
          l,
          a,
          h.line_cfg ∙ ap (λ x. (x.device d).line_cfg) e ∙ rw (==_refl d) refl,
          h.line ∙ ap (λ x. x.line) e,
        ))
  second-Turned d i c c1 l (true, c2) once f a e (h, sd, int) =
      let own : (c2.device d).line_cfg ≡ some l =
        h.line_cfg ∙ ap (λ x. (x.device d).line_cfg) e ∙ rw (==_refl d) refl in
      record {
        guest_device_cfg = h.guest_device_cfg ∙ ap (λ x. x.guest_device_cfg) e;
        guest_internal = h.guest_internal ∙ ap (λ x. x.guest_internal) e;
        lines_cfg = h.lines_cfg ∙ ap (λ x. x.lines_cfg) e;
        speeddials_cfg = h.speeddials_cfg ∙ ap (λ x. x.speeddials_cfg) e;
        others = λ q n. h.others q n ∙ ap (λ x. x.device q) e ∙ rw n refl;
        fewer = λ w. let same = h.devices_cfg ∙ ap (λ x. x.devices_cfg) e in rw same (omega arith);
        stays = λ q n. ap (λ x. times q (E.elements x)) (h.devices_cfg ∙ ap (λ x. x.devices_cfg) e);
        lined = inr (l, a, own, h.line ∙ ap (λ x. x.line) e);
        fate = inr (record {
          its_line = l;
          line_cfg = own;
          found = ap (λ x. F.find x i.line_name) (h.lines_cfg ∙ ap (λ x. x.lines_cfg) e) ∙ f;
          speeddials = sd ∙ ap (λ x. find_speeddials N E F G x i.speeddials) (sym h.speeddials_cfg);
          internal = int;
        });
      }

  both_halves-Turned :
      (size d : ℕ) (i : DeviceInternal) (c : Conf N E F G) (r : Bool × Conf N E F G)
      → times d (E.elements c.devices_cfg) ≡ 1
      → (c.device d).speeddials_cfg ≡ []
      → Lined d i.line_name c r
      → Turned d i c (kept_or_unlinked N E F G d (after_line N E F G size d i.speeddials r))
  unfolding kept_or_unlinked after_line
  both_halves-Turned size d i c (false, c1) once z e =
      unlink-Turned d i c c1 once (ap (λ x. x.devices_cfg) e) (ap (λ x. x.lines_cfg) e)
        (ap (λ x. x.speeddials_cfg) e) (ap (λ x. x.guest_device_cfg) e)
        (ap (λ x. x.guest_internal) e) (λ q n. ap (λ x. x.device q) e)
        (inl (ap (λ x. x.line) e, ap (λ x. (x.device d).line_cfg) e))
  both_halves-Turned size d i c (true, c1) once z (l, f, a, e) =
      let z1 = ap (λ x. (x.device d).speeddials_cfg) e ∙ rw (==_refl d) z in
      second-Turned d i c c1 l (after_line N E F G size d i.speeddials (true, c1)) once f a e
        (after_line-Halved N E F G size d i.speeddials c1 z1)

  internal-Turned :
      (size d : ℕ) (i : DeviceInternal) (c : Conf N E F G)
      → times d (E.elements c.devices_cfg) ≡ 1
      → (c.device d).speeddials_cfg ≡ []
      → Turned d i c (kept_or_unlinked N E F G d (with_internal N E F G size d (some i) c))
  unfolding with_internal
  internal-Turned size d i c once z =
      both_halves-Turned size d i c (sccp_device_cfg_build_line N E F G d i.line_name c) once z
        (build_line-Lined d i.line_name c)

  pub turn-Turned :
      (size d : ℕ) (i : DeviceInternal) (c : Conf N E F G)
      → times d (E.elements c.devices_cfg) ≡ 1
      → (c.device d).speeddials_cfg ≡ []
      → (c.device d).internal ≡ some i
      → Turned d i c (kept_or_unlinked N E F G d (cb_pre_apply_device_cfg N E F G size d c))
  unfolding cb_pre_apply_device_cfg
  turn-Turned size d i c once z e =
      subst (λ o. Turned d i c (kept_or_unlinked N E F G d (with_internal N E F G size d o c)))
        (sym e) (internal-Turned size d i c once z)
