-- ===== src/Config/Complete.antt =====
-- sccp_config.c: what becomes of a line that the file names for a device while a configuration is put in
-- order.
use wazo_libsccp.Common.{
  ℕ, ◌≤◌, ◌≡◌, ◌==◌, sym, ap, ◌∙◌, true, none, some, inl, inr, ◌⊎◌, arith, Bool-cases, Option-cases,
  if◌then◌else◌, ==_iff, total-indicator, subst,
}
use wazo_libsccp.Registry.{Container, named}
use wazo_libsccp.Config.{DeviceInternal, Names, device_cfg_name_guest}
use wazo_libsccp.Config.Apply.{
  is_guest_on, pre_apply_config, pre_apply_devices_cfg, pre_apply_lines_cfg, pre_apply_general_cfg,
  unlink_guest, keep_guest, apply_guest,
}
use wazo_libsccp.Config.Like.{Conf}
use wazo_libsccp.Config.Turn.{times}
use wazo_libsccp.Config.Devices.{line_of, linked}
use wazo_libsccp.Config.Lines.{linked_line}
use wazo_libsccp.Config.Guest.{Guested, keep_guest-Guested, unlink_guest-Left, unlink_guest-Unlined}
use wazo_libsccp.Config.Ordered.{IsPending, pending-IsOrdered}
use wazo_libsccp.Config.Served.{HasMemory, NamesLine}

module _ (N : Names) (E : Container N.device_name) (F : Container N.line_name)
    (G : Container N.speeddial_name) where
  -- A line that is looked up, of a device that is looked up; or the line of the device of the guest's
  -- name, which is the guest if the file turns guests on.
  abbrev pub IsKept : (c c' : Conf N E F G) → ℕ → Type 0
  IsKept c c' l =
      (q : ℕ) × (line_of N E F G c' q ≡ some l)
      × (((1 ≤ linked N E F G c' q) × (1 ≤ linked_line N E F G c' l))
          ⊎ ((named N.device_name device_cfg_name_guest q ≡ true)
              × (is_guest_on c.guest_internal ≡ true → c'.guest_device_cfg ≡ some q)))

  guest-IsKept :
      (g q l : ℕ) (c c' : Conf N E F G)
      → Guested N E F G (is_guest_on c.guest_internal) g c c'
      → named N.device_name device_cfg_name_guest g ≡ true
      → 1 ≤ times g (E.elements c.devices_cfg)
      → ((a b k : ℕ) → line_of N E F G c a ≡ some k → line_of N E F G c b ≡ some k → a ≡ b)
      → line_of N E F G c q ≡ some l
      → 1 ≤ linked N E F G c q
      → 1 ≤ linked_line N E F G c l
      → IsKept c (record c' { guest_internal = none }) l
  guest-IsKept g q l c c' t f here alone o h k = elim (Bool-cases (q == g)) [
    | inl i ↦
        let e = sym ((==_iff q g).0 i) in
        (g, t.line_cfg ∙ subst (λ r. line_of N E F G c r ≡ some l) (sym e) o, inr (f, t.kept))
    | inr i ↦
        let other = λ (e : line_of N E F G c g ≡ some l).
          let same = alone q g l o e in absurd (ground (arith, same, i)) in
        let stays = t.unlined.stays l other in
        (
          q,
          ap (λ x. x.line_cfg) (t.others q i) ∙ o,
          inl (
            rw t.devices_cfg (
                ground (
                  arith,
                  E.unlink_removes c.devices_cfg g (λ b. if b == q then 1 else 0) here,
                  total-indicator (λ b. b == q) (E.elements c.devices_cfg),
                  total-indicator (λ b. b == q) (E.elements (E.unlink c.devices_cfg g)),
                  i,
                  h,
                )),
            omega (arith, stays, k),
          ),
        )
  ]

  general-IsKept :
      (q l : ℕ) (c : Conf N E F G)
      → ((a b k : ℕ) → line_of N E F G c a ≡ some k → line_of N E F G c b ≡ some k → a ≡ b)
      → line_of N E F G c q ≡ some l
      → 1 ≤ linked N E F G c q
      → 1 ≤ linked_line N E F G c l
      → IsKept c (pre_apply_general_cfg N E F G c) l
  unfolding pre_apply_general_cfg apply_guest
  general-IsKept q l c alone o h k =
      elim (Option-cases (E.find c.devices_cfg device_cfg_name_guest)) [
        | inl e ↦ rw e (q, o, inl (h, k))
        | inr (g, e) ↦
            let (found, here) = E.find_some c.devices_cfg device_cfg_name_guest g e in
            rw e (
              guest-IsKept g q l c
                (keep_guest N E F G (is_guest_on c.guest_internal) g (unlink_guest N E F G g c))
                (keep_guest-Guested N E F G (is_guest_on c.guest_internal) g c _
                  (unlink_guest-Left N E F G g c) (unlink_guest-Unlined N E F G g c))
                found here alone o h k)
      ]

  -- With memory for every allocation, when a configuration that was read is put in order, a line of
  -- the file that the file names for some device either stays, as the line of a device that stays,
  -- or is the line of the device of the guest's name, which becomes the guest's device if the file
  -- turns guests on.
  pub pre_apply_config-IsKept :
      (of_file : ℕ → DeviceInternal) (size : ℕ) (c : Conf N E F G) (d l : ℕ)
      → IsPending N E F G of_file c
      → HasMemory N E F G c
      → 1 ≤ linked N E F G c d
      → NamesLine N E F G (of_file d) c l
      → IsKept c (pre_apply_config N E F G size c) l
  unfolding pre_apply_config
  pre_apply_config-IsKept of_file size c d l p m h n =
      let c2 = pre_apply_lines_cfg N E F G (pre_apply_devices_cfg N E F G size c) in
      let r = pending-IsOrdered N E F G of_file size c p in
      let here = (F.find_some c.lines_cfg (of_file d).line_name l n.1).1 in
      let (q, o, k, y) = r.served m d l h n here in
      let (a, e, last) = general-IsKept q l c2 r.alone o k y in
      (
        a,
        e,
        elim last [
          | inl x ↦ inl x
          | inr (x, on) ↦ inr (x, λ z. on (ap is_guest_on r.guest_internal ∙ z))
        ],
      )
