-- ===== src/Config/Applied.antt =====
-- sccp_config.c: a configuration that is applied, and what a search in it finds.
use wazo_libsccp.Common.{
  ℕ, ◌+◌, ◌≤◌, ◌≡◌, ◌==◌, refl, sym, ap, ◌∙◌, true, false, List, Option, none, some, inl, inr, ◌⊎◌,
  arith, Bool-cases, Option-cases, if◌then◌else◌, ==_refl, ==_iff, count, total, total-indicator,
  subst,
}
use wazo_libsccp.Registry.{Container, named}
use wazo_libsccp.Config.{DeviceInternal, Names, device_cfg_name_guest}
use wazo_libsccp.Config.Apply.{
  is_guest_on, pre_apply_config, pre_apply_devices_cfg, pre_apply_lines_cfg, pre_apply_general_cfg,
  sccp_cfg_find_device_or_guest, take_device, or_guest, unlink_guest, keep_guest, apply_guest,
}
use wazo_libsccp.Config.Like.{Conf, IsBuilt}
use wazo_libsccp.Config.Turn.{times}
use wazo_libsccp.Config.Devices.{line_of, linked}
use wazo_libsccp.Config.Lines.{linked_line}
use wazo_libsccp.Config.Guest.{Guested, keep_guest-Guested, unlink_guest-Left, unlink_guest-Unlined}
use wazo_libsccp.Config.Served.{HasMemory}
use wazo_libsccp.Config.Ordered.{guests, IsPending, IsOrdered, pending-IsOrdered}

module _ (N : Names) (E : Container N.device_name) (F : Container N.line_name)
    (G : Container N.speeddial_name) where
  -- A device that is looked up has the line and the speed dials that the file names for it, and no two
  -- devices have one line. With memory for every allocation, a line that is looked up is the line of a
  -- device that is looked up. No device has the guest's name; the
  -- guest, if there is one, was found by that name, and the file turns guests on.
  pub record IsApplied (of_file : ℕ → DeviceInternal) (c c' : Conf N E F G) : Type 0 where
    pub built : (d : ℕ) → 1 ≤ linked N E F G c' d → IsBuilt N E F G (of_file d) c (c'.device d)
    pub alone : (d e l : ℕ) → line_of N E F G c' d ≡ some l → line_of N E F G c' e ≡ some l → d ≡ e
    pub lines :
        HasMemory N E F G c
        → (l : ℕ) → 1 ≤ linked_line N E F G c' l
        → (d : ℕ) × (line_of N E F G c' d ≡ some l) × (1 ≤ linked N E F G c' d)
    pub no_guest : guests N E F G c' ≡ 0
    pub guest :
        (g : ℕ)
        → c'.guest_device_cfg ≡ some g
        → (is_guest_on c.guest_internal ≡ true)
          × (named N.device_name device_cfg_name_guest g ≡ true)
          × ((c'.device g).guest ≡ true)

  -- Without a device of the guest's name.
  without_guest :
      (of_file : ℕ → DeviceInternal) (c c' : Conf N E F G)
      → IsOrdered N E F G of_file c c'
      → E.find c'.devices_cfg device_cfg_name_guest ≡ none
      → IsApplied of_file c (record c' { guest_internal = none })
  without_guest of_file c c' o e = record {
    built = o.built;
    alone = o.alone;
    lines = o.lines;
    no_guest = E.find_none c'.devices_cfg device_cfg_name_guest e;
    guest = λ g h. let n = o.guest_device_cfg in absurd (cc);
  }

  module _ (of_file : ℕ → DeviceInternal) (c c1 c2 : Conf N E F G) (d : ℕ)
      (o : IsOrdered N E F G of_file c c1)
      (t : Guested N E F G (is_guest_on c1.guest_internal) d c1 c2)
      (found : named N.device_name device_cfg_name_guest d ≡ true)
      (here : 1 ≤ times d (E.elements c1.devices_cfg)) where
    gone :
        (w : ℕ → ℕ)
        → total w (E.elements c1.devices_cfg) ≡ w d + total w (E.elements c2.devices_cfg)
    gone w = rw t.devices_cfg (E.unlink_removes c1.devices_cfg d w here)

    fewer_linked : (q : ℕ) → linked N E F G c1 q ≡ (if d == q then 1 else 0) + linked N E F G c2 q
    fewer_linked q = omega (
      arith,
      gone (λ b. if b == q then 1 else 0),
      total-indicator (λ b. b == q) (E.elements c1.devices_cfg),
      total-indicator (λ b. b == q) (E.elements c2.devices_cfg),
    )

    still_linked : (q : ℕ) → 1 ≤ linked N E F G c2 q → (q == d) ≡ false
    still_linked q h = elim (Bool-cases (q == d)) [
      | inr n ↦ n
      | inl i ↦
          let e = (==_iff q d).0 i in
          let f = fewer_linked q in let one = o.once q in absurd (ground (arith, f, h, one, e))
    ]

    same_line : (q : ℕ) → line_of N E F G c2 q ≡ line_of N E F G c1 q
    same_line q = elim (Bool-cases (q == d)) [
      | inr n ↦ ap (λ x. x.line_cfg) (t.others q n)
      | inl i ↦
          subst (λ r. line_of N E F G c2 r ≡ line_of N E F G c1 r) (sym ((==_iff q d).0 i))
            t.line_cfg
    ]

    with_guest : IsApplied of_file c (record c2 { guest_internal = none })
    with_guest = record {
      built = λ q h.
          let n = still_linked q h in
          let f = fewer_linked q in
          subst (IsBuilt N E F G (of_file q) c) (sym (t.others q n))
            (o.built q (omega (arith, f, h)));
      alone = λ a b l i j. o.alone a b l (sym (same_line a) ∙ i) (sym (same_line b) ∙ j);
      lines = λ m l h.
          let f = t.fewer l in
          let (a, e, k) = o.lines m l (omega (arith, f, h)) in
          elim (Bool-cases (d == a)) [
            | inl i ↦
                let his = subst (λ r. line_of N E F G c1 r ≡ some l) (sym ((==_iff d a).0 i)) e in
                let z = t.unlined.gone l his (o.once_line l) in absurd (omega (arith, z, h))
            | inr i ↦ let g = fewer_linked a in (a, same_line a ∙ e, ground (arith, g, i, k))
          ];
      no_guest =
          let is_guest = named N.device_name device_cfg_name_guest in
          let g = gone (λ b. if is_guest b then 1 else 0) in
          let i = total-indicator is_guest (E.elements c1.devices_cfg) in
          let j = total-indicator is_guest (E.elements c2.devices_cfg) in
          let one = o.one_guest in let g' = rw found at g in omega (arith, g', i, j, one);
      guest = λ g h. elim t.guest [
        | inl e ↦ let n = o.guest_device_cfg in absurd (cc)
        | inr (on, e, fl) ↦
            let s : some d ≡ some g = sym e ∙ h in
            let i : d ≡ g = cc in
            (
              sym (ap is_guest_on o.guest_internal) ∙ on,
              subst (λ r. named N.device_name device_cfg_name_guest r ≡ true) i found,
              subst (λ r. (c2.device r).guest ≡ true) i fl,
            )
      ];
    }

  general-IsApplied :
      (of_file : ℕ → DeviceInternal) (c c1 : Conf N E F G)
      → IsOrdered N E F G of_file c c1
      → IsApplied of_file c (pre_apply_general_cfg N E F G c1)
  unfolding pre_apply_general_cfg apply_guest
  general-IsApplied of_file c c1 o =
      elim (Option-cases (E.find c1.devices_cfg device_cfg_name_guest)) [
        | inl e ↦ rw e (without_guest of_file c c1 o e)
        | inr (d, e) ↦
            let (found, here) = E.find_some c1.devices_cfg device_cfg_name_guest d e in
            rw e (
              with_guest of_file c c1
                (keep_guest N E F G (is_guest_on c1.guest_internal) d (unlink_guest N E F G d c1)) d
                o
                (keep_guest-Guested N E F G (is_guest_on c1.guest_internal) d c1 _
                  (unlink_guest-Left N E F G d c1) (unlink_guest-Unlined N E F G d c1))
                found here)
      ]

  pub pre_apply_config-IsApplied :
      (of_file : ℕ → DeviceInternal) (size : ℕ) (c : Conf N E F G)
      → IsPending N E F G of_file c
      → IsApplied of_file c (pre_apply_config N E F G size c)
  unfolding pre_apply_config
  pre_apply_config-IsApplied of_file size c p =
      general-IsApplied of_file c
        (pre_apply_lines_cfg N E F G (pre_apply_devices_cfg N E F G size c))
        (pending-IsOrdered N E F G of_file size c p)

  abbrev NoneNamed : Conf N E F G → List ℕ → Type 0
  NoneNamed c name = count (named N.device_name name) (E.elements c.devices_cfg) ≡ 0

  -- What a search for a name may answer.
  abbrev pub Found :
      (ℕ → DeviceInternal) → (c c' : Conf N E F G) → List ℕ → Option ℕ × Conf N E F G → Type 0
  Found of_file c c' name (none, r) = NoneNamed c' name × (c'.guest_device_cfg ≡ none)
  Found of_file c c' name (some d, r) =
      (r.device_refs d ≡ c'.device_refs d + 1)
      × (((named N.device_name name d ≡ true) × IsBuilt N E F G (of_file d) c (c'.device d))
          ⊎ (NoneNamed c' name
              × (is_guest_on c.guest_internal ≡ true)
              × ((c'.device d).guest ≡ true)))

  guest-Found :
      (of_file : ℕ → DeviceInternal) (c c' : Conf N E F G) (name : List ℕ) (o : Option ℕ)
      → IsApplied of_file c c'
      → NoneNamed c' name
      → c'.guest_device_cfg ≡ o
      → Found of_file c c' name (take_device N E F G o c')
  unfolding take_device
  guest-Found of_file c c' name none a z g = (z, g)
  guest-Found of_file c c' name (some d) a z g =
      let (on, n, fl) = a.guest d g in (rw (==_refl d) refl, inr (z, on, fl))

  name-Found :
      (of_file : ℕ → DeviceInternal) (c c' : Conf N E F G) (name : List ℕ) (o : Option ℕ)
      → IsApplied of_file c c'
      → E.find c'.devices_cfg name ≡ o
      → Found of_file c c' name (or_guest N E F G o c')
  unfolding or_guest
  name-Found of_file c c' name none a e =
      guest-Found of_file c c' name c'.guest_device_cfg a (E.find_none c'.devices_cfg name e) refl
  name-Found of_file c c' name (some d) a e =
      let (n, h) = E.find_some c'.devices_cfg name d e in
      (rw (==_refl d) refl, inl (n, a.built d h))

  -- A search in an applied configuration for a device of any name: it fails only if there is neither
  -- a device of that name nor a guest; else it takes one reference to what it finds, a device of that
  -- name, which is built, or, if there is none of that name, the guest, which the file turns on.
  pub find_device_or_guest-Found :
      (of_file : ℕ → DeviceInternal) (c c' : Conf N E F G) (name : List ℕ)
      → IsApplied of_file c c'
      → Found of_file c c' name (sccp_cfg_find_device_or_guest N E F G name c')
  unfolding sccp_cfg_find_device_or_guest
  find_device_or_guest-Found of_file c c' name a =
      name-Found of_file c c' name (E.find c'.devices_cfg name) a refl
