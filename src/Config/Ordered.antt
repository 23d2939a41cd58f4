-- ===== src/Config/Ordered.antt =====
-- sccp_config.c: a configuration after its devices and its lines were put in order.
use wazo_libsccp.Common.{
  ℕ, ◌≤◌, ◌≡◌, refl, sym, ap, ◌∙◌, false, none, some, arith, if◌then◌else◌, count, total-indicator,
  subst,
}
use wazo_libsccp.Registry.{Container, named}
use wazo_libsccp.Config.{DeviceInternal, Names, device_cfg_name_guest}
use wazo_libsccp.Config.Build.{is_associated, find_speeddials}
use wazo_libsccp.Config.Apply.{pre_apply_devices_cfg, pre_apply_lines_cfg, apply_devices}
use wazo_libsccp.Config.Like.{Conf, IsBuilt}
use wazo_libsccp.Config.Turn.{times}
use wazo_libsccp.Config.Devices.{line_of, linked, IsRead, IsUnderway, apply_devices-IsUnderway}
use wazo_libsccp.Config.Lines.{linked_line, IsSweeping, apply_lines-IsSweeping, apply_lines-kept}
use wazo_libsccp.Config.Served.{HasMemory, NamesLine}
use wazo_libsccp.Config.Turns.{apply_devices-Serves}

module _ (N : Names) (E : Container N.device_name) (F : Container N.line_name)
    (G : Container N.speeddial_name) where
  abbrev pub guests : Conf N E F G → ℕ
  guests c = count (named N.device_name device_cfg_name_guest) (E.elements c.devices_cfg)

  -- A configuration that was read: devices and lines are linked once, no two devices have one name,
  -- no device has a line, and no line has a device.
  pub record IsPending (of_file : ℕ → DeviceInternal) (c : Conf N E F G) : Type 0 where
    pub once : (d : ℕ) → linked N E F G c d ≤ 1
    pub one_guest : guests c ≤ 1
    pub read : (d : ℕ) → 1 ≤ linked N E F G c d → IsRead N E F G of_file d c
    pub no_line : (d : ℕ) → line_of N E F G c d ≡ none
    pub free : (l : ℕ) → is_associated (c.line l) ≡ false
    pub once_line : (l : ℕ) → linked_line N E F G c l ≤ 1
    pub no_guest_yet : c.guest_device_cfg ≡ none

  -- After the devices and the lines, before the guest.
  pub record IsOrdered (of_file : ℕ → DeviceInternal) (c c' : Conf N E F G) : Type 0 where
    pub once : (d : ℕ) → linked N E F G c' d ≤ 1
    pub one_guest : guests c' ≤ 1
    pub built : (d : ℕ) → 1 ≤ linked N E F G c' d → IsBuilt N E F G (of_file d) c (c'.device d)
    pub alone : (d e l : ℕ) → line_of N E F G c' d ≡ some l → line_of N E F G c' e ≡ some l → d ≡ e
    pub once_line : (l : ℕ) → linked_line N E F G c' l ≤ 1
    pub lines :
        HasMemory N E F G c
        → (l : ℕ) → 1 ≤ linked_line N E F G c' l
        → (d : ℕ) × (line_of N E F G c' d ≡ some l) × (1 ≤ linked N E F G c' d)
    pub served :
        HasMemory N E F G c
        → (d l : ℕ) → 1 ≤ linked N E F G c d
        → NamesLine N E F G (of_file d) c l
        → 1 ≤ linked_line N E F G c l
        → (q : ℕ) × (line_of N E F G c' q ≡ some l)
          × (1 ≤ linked N E F G c' q)
          × (1 ≤ linked_line N E F G c' l)
    pub guest_device_cfg : c'.guest_device_cfg ≡ none
    pub guest_internal : c'.guest_internal ≡ c.guest_internal

  pending-IsUnderway :
      (of_file : ℕ → DeviceInternal) (c : Conf N E F G)
      → IsPending of_file c
      → IsUnderway N E F G of_file (E.elements c.devices_cfg) c
  pending-IsUnderway of_file c p = record {
    once = p.once;
    once_todo = p.once;
    todo_linked = λ d h. let o = p.once d in omega (arith, o, h);
    read = p.read;
    built = λ d z h. absurd (omega (arith, z, h));
    alone = λ d e l i j. let n = p.no_line d in absurd (cc);
    associated = λ d l i. let n = p.no_line d in absurd (cc);
    owned = λ l a. let n = p.free l in absurd (cc);
  }

  underway-IsSweeping :
      (of_file : ℕ → DeviceInternal) (c c1 : Conf N E F G)
      → IsPending of_file c
      → c1.lines_cfg ≡ c.lines_cfg
      → IsSweeping N E F G (λ l. is_associated (c1.line l)) (F.elements c1.lines_cfg) c1
  underway-IsSweeping of_file c c1 p e =
      let once = λ (l : ℕ). subst (λ x. times l (F.elements x) ≤ 1) (sym e) (p.once_line l) in
      record {
        once_todo = once;
        todo_linked = λ l h. let o = once l in omega (arith, o, h);
        unseen = λ l h. refl;
        swept = λ l z h. absurd (omega (arith, z, h));
      }

  IsBuilt-before :
      (i : DeviceInternal) (c c1 : Conf N E F G) (d : ℕ)
      → c1.lines_cfg ≡ c.lines_cfg
      → c1.speeddials_cfg ≡ c.speeddials_cfg
      → IsBuilt N E F G i c1 (c1.device d)
      → IsBuilt N E F G i c (c1.device d)
  IsBuilt-before i c c1 d l s b = record {
    its_line = b.its_line;
    line_cfg = b.line_cfg;
    found = ap (λ x. F.find x i.line_name) (sym l) ∙ b.found;
    speeddials = b.speeddials ∙ ap (λ x. find_speeddials N E F G x i.speeddials) s;
    internal = b.internal;
  }

  pub pending-IsOrdered :
      (of_file : ℕ → DeviceInternal) (size : ℕ) (c : Conf N E F G)
      → IsPending of_file c
      → IsOrdered of_file c (pre_apply_lines_cfg N E F G (pre_apply_devices_cfg N E F G size c))
  unfolding pre_apply_lines_cfg pre_apply_devices_cfg
  pending-IsOrdered of_file size c p =
      let c1 = apply_devices N E F G size (E.elements c.devices_cfg) c in
      let (u, l, s, g, i, f) =
        apply_devices-IsUnderway N E F G of_file size (E.elements c.devices_cfg) c
          (pending-IsUnderway of_file c p) in
      let (v, m) =
        apply_lines-IsSweeping N E F G (λ q. is_associated (c1.line q)) (F.elements c1.lines_cfg) c1
          (underway-IsSweeping of_file c c1 p l) in
      let stay = λ (q : ℕ).
        apply_lines-kept N E F G (λ r. is_associated (c1.line r)) (F.elements c1.lines_cfg) c1 q
          (underway-IsSweeping of_file c c1 p l) in
      let serve = λ (h : HasMemory N E F G c).
        apply_devices-Serves N E F G of_file size (E.elements c.devices_cfg) c
          (pending-IsUnderway of_file c p) h (λ k a. let f = p.free k in absurd (cc)) in
      let is_guest = named N.device_name device_cfg_name_guest in
      let same = λ (d : ℕ). ap (λ x. (x d).line_cfg) m.device in
      record {
        once = λ d. rw m.devices_cfg (u.once d);
        one_guest =
            let few : guests c1 ≤ 1 = omega (
              arith,
              p.one_guest,
              f (λ b. if is_guest b then 1 else 0),
              total-indicator is_guest (E.elements c.devices_cfg),
              total-indicator is_guest (E.elements c1.devices_cfg),
            ) in
            rw m.devices_cfg few;
        built = λ d h.
            let h' = rw m.devices_cfg at h in
            rw m.device (IsBuilt-before (of_file d) c c1 d l s (u.built d refl h'));
        alone = λ d e q i j. u.alone d e q (sym (same d) ∙ i) (sym (same e) ∙ j);
        once_line = λ q.
            let f = (stay q).1 in
            let o = p.once_line q in
            let e = ap (λ x. times q (F.elements x)) l in omega (arith, f, o, e);
        lines = λ h q z.
            let (d, o, k) = (serve h).0 q (v.swept q refl z) in (d, same d ∙ o, rw m.devices_cfg k);
        served = λ h d q z n y.
            let a = (serve h).2 d z q n in
            let (r, o, k) = (serve h).0 q a in
            let f = (stay q).0 a in
            let e = ap (λ x. times q (F.elements x)) l in
            (r, same r ∙ o, rw m.devices_cfg k, omega (arith, f, e, y));
        guest_device_cfg = m.guest_device_cfg ∙ g ∙ p.no_guest_yet;
        guest_internal = m.guest_internal ∙ i;
      }
