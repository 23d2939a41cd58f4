-- ===== src/Config/Turns.antt =====
-- sccp_config.c: the lines of devices, over all turns, with memory for every allocation.
use wazo_libsccp.Common.{
  ℕ, ◌≤◌, ◌≡◌, ◌==◌, sym, ap, ◌∙◌, true, List, [], ◌∷◌, some, inl, inr, arith, Bool-cases, ==_iff,
  subst,
}
use wazo_libsccp.Registry.{Container}
use wazo_libsccp.Config.{DeviceInternal, Names}
use wazo_libsccp.Config.Build.{is_associated}
use wazo_libsccp.Config.Apply.{cb_pre_apply_device_cfg, kept_or_unlinked, apply_devices}
use wazo_libsccp.Config.Like.{Conf}
use wazo_libsccp.Config.Turn.{times, Turned, turn-Turned}
use wazo_libsccp.Config.Devices.{
  line_of, linked, IsUnderway, turn-IsUnderway, line_kept, line_same, has_line,
}
use wazo_libsccp.Config.Served.{HasMemory, NamesLine, Serves, turn-Serves}

module _ (N : Names) (E : Container N.device_name) (F : Container N.line_name)
    (G : Container N.speeddial_name) where
  -- Each line that is associated is that of a device that is linked.
  abbrev pub IsServed : Conf N E F G → Type 0
  IsServed c =
      (l : ℕ)
      → is_associated (c.line l) ≡ true
      → (q : ℕ) × (line_of N E F G c q ≡ some l) × (1 ≤ linked N E F G c q)

  module _ (of_file : ℕ → DeviceInternal) (d : ℕ) (ds : List ℕ) (c c' : Conf N E F G)
      (u : IsUnderway N E F G of_file (d ∷ ds) c) (t : Turned N E F G d (of_file d) c c')
      (v : Serves N E F G d (of_file d) c c') where
    served_before :
        IsServed c
        → (l : ℕ) → is_associated (c.line l) ≡ true
        → (q : ℕ) × (line_of N E F G c' q ≡ some l) × (1 ≤ linked N E F G c' q)
    served_before s l e =
        let (q, o, h) = s l e in
        let n = has_line N E F G of_file d ds c c' u t q l o in
        (q, line_same N E F G of_file d ds c c' u t q n ∙ o, omega (arith, h, t.stays q n))

    turn-IsServed : IsServed c → IsServed c'
    turn-IsServed s l e = elim t.lined [
      | inl (a, b) ↦ served_before s l (rw a at e)
      | inr (k, free, b, a) ↦ elim (Bool-cases (l == k)) [
        | inl i ↦
            let one = u.todo_linked d (ground arith) in
            (d, b ∙ ap (λ r. some r) (sym ((==_iff l k).0 i)), omega (arith, one, v.stays k b))
        | inr i ↦ let z = rw (a, i) at e in served_before s l z
      ]
    ]

  -- After all turns each line that was associated still is, and so is each line that the file names
  -- for a device whose turn came.
  pub apply_devices-Serves :
      (of_file : ℕ → DeviceInternal) (size : ℕ) (ds : List ℕ) (c : Conf N E F G)
      → IsUnderway N E F G of_file ds c
      → HasMemory N E F G c
      → IsServed c
      → let c' = apply_devices N E F G size ds c in
        IsServed c'
        × ((l : ℕ) → is_associated (c.line l) ≡ true → is_associated (c'.line l) ≡ true)
        × ((d : ℕ)
            → 1 ≤ times d ds
            → (l : ℕ) → NamesLine N E F G (of_file d) c l
            → is_associated (c'.line l) ≡ true)
  unfolding apply_devices
  apply_devices-Serves of_file size [] c u m s = (s, λ l e. e, λ d h l n. absurd (omega (arith, h)))
  apply_devices-Serves of_file size (d ∷ ds) c u m s =
      let c' = kept_or_unlinked N E F G d (cb_pre_apply_device_cfg N E F G size d c) in
      let r = u.read d (ground arith) in
      let t =
        turn-Turned N E F G size d (of_file d) c (u.todo_linked d (ground arith)) r.speeddials
          r.internal in
      let v = turn-Serves N E F G size d (of_file d) c m r.line_cfg r.speeddials r.internal in
      let (all, still, rest) =
        apply_devices-Serves of_file size ds c' (turn-IsUnderway N E F G of_file d ds c c' u t)
          v.memory (turn-IsServed of_file d ds c c' u t v s) in
      (
        all,
        λ l e. still l (line_kept N E F G of_file d ds c c' u t l e),
        λ q h l n. elim (Bool-cases (q == d)) [
          | inl i ↦
              let e = (==_iff q d).0 i in
              still l (v.taken l (subst (λ x. NamesLine N E F G (of_file x) c l) e n))
          | inr i ↦
              rest q (ground (arith, h, i)) l
                (n.0, ap (λ x. F.find x (of_file q).line_name) t.lines_cfg ∙ n.1)
        ],
      )
