-- ===== src/Config/Devices.antt =====
-- sccp_config.c: the devices of a configuration after they were put in order.
use wazo_libsccp.Common.{
  ℕ, ◌≤◌, ◌≡◌, ◌==◌, refl, sym, ap, ◌∙◌, true, false, List, [], ◌∷◌, Option, none, some, inl, inr,
  arith, Bool-cases, if◌then◌else◌, ==_refl, ==_iff, total, total-indicator, subst, if_both,
}
use wazo_libsccp.Registry.{Container}
use wazo_libsccp.Config.{DeviceInternal, Names}
use wazo_libsccp.Config.Build.{is_associated, find_speeddials}
use wazo_libsccp.Config.Apply.{cb_pre_apply_device_cfg, kept_or_unlinked, apply_devices}
use wazo_libsccp.Config.Like.{Conf, IsBuilt}
use wazo_libsccp.Config.Turn.{times, Turned, turn-Turned}

module _ (N : Names) (E : Container N.device_name) (F : Container N.line_name)
    (G : Container N.speeddial_name) where
  abbrev pub line_of : Conf N E F G → ℕ → Option ℕ
  line_of c d = (c.device d).line_cfg

  abbrev pub linked : Conf N E F G → ℕ → ℕ
  linked c d = times d (E.elements c.devices_cfg)

  -- A configuration as the handlers of options leave it: a device has its internal part, `named`,
  -- and neither a line nor speed dials.
  pub record IsRead (named : ℕ → DeviceInternal) (d : ℕ) (c : Conf N E F G) : Type 0 where
    pub speeddials : (c.device d).speeddials_cfg ≡ []
    pub line_cfg : (c.device d).line_cfg ≡ none
    pub internal : (c.device d).internal ≡ some (named d)

  -- Between two turns: the devices in `todo` are linked, once, and as the file has them; every other
  -- device that is linked is built. A line is associated exactly if a device has it, and no two
  -- devices have one line.
  pub record IsUnderway (named : ℕ → DeviceInternal) (todo : List ℕ) (c : Conf N E F G)
      : Type 0 where
    pub once : (d : ℕ) → linked c d ≤ 1
    pub once_todo : (d : ℕ) → times d todo ≤ 1
    pub todo_linked : (d : ℕ) → 1 ≤ times d todo → linked c d ≡ 1
    pub read : (d : ℕ) → 1 ≤ times d todo → IsRead named d c
    pub built :
        (d : ℕ) → times d todo ≡ 0 → 1 ≤ linked c d → IsBuilt N E F G (named d) c (c.device d)
    pub alone : (d e l : ℕ) → line_of c d ≡ some l → line_of c e ≡ some l → d ≡ e
    pub associated : (d l : ℕ) → line_of c d ≡ some l → is_associated (c.line l) ≡ true
    pub owned : (l : ℕ) → is_associated (c.line l) ≡ true → (d : ℕ) × (line_of c d ≡ some l)

  module _ (named : ℕ → DeviceInternal) (d : ℕ) (ds : List ℕ) (c c' : Conf N E F G)
      (u : IsUnderway named (d ∷ ds) c) (t : Turned N E F G d (named d) c c') where
    linked_fewer : (q : ℕ) → linked c' q ≤ linked c q
    linked_fewer q = omega (
      arith,
      t.fewer (λ b. if b == q then 1 else 0),
      total-indicator (λ b. b == q) (E.elements c'.devices_cfg),
      total-indicator (λ b. b == q) (E.elements c.devices_cfg),
    )

    pub not_d : (q : ℕ) → 1 ≤ times q ds → (q == d) ≡ false
    not_d q h = elim (Bool-cases (q == d)) [
      | inr e ↦ e
      | inl e ↦
          let i : q ≡ d = (==_iff q d).0 e in
          let o = u.once_todo q in absurd (ground (arith, o, h, i))
    ]

    no_line_yet : line_of c d ≡ none
    no_line_yet = (u.read d (ground arith)).line_cfg

    pub line_same : (q : ℕ) → (q == d) ≡ false → line_of c' q ≡ line_of c q
    line_same q e = ap (λ x. x.line_cfg) (t.others q e)

    -- A device that has a line before the turn is another one.
    pub has_line : (q l : ℕ) → line_of c q ≡ some l → (q == d) ≡ false
    has_line q l e = elim (Bool-cases (q == d)) [
      | inr n ↦ n
      | inl n ↦
          let i : q ≡ d = (==_iff q d).0 n in
          let z : line_of c q ≡ none = subst (λ r. line_of c r ≡ none) (sym i) no_line_yet in
          absurd (cc)
    ]

    -- The line that the device has after the turn had none before.
    got : (l : ℕ) → line_of c' d ≡ some l → is_associated (c.line l) ≡ false
    got l e = elim t.lined [
      | inl (a, b) ↦ let z = no_line_yet in absurd (cc)
      | inr (k, free, b, a) ↦
          let s : some k ≡ some l = sym b ∙ e in
          let i : k ≡ l = cc in subst (λ r. is_associated (c.line r) ≡ false) i free
    ]

    pub line_kept : (l : ℕ) → is_associated (c.line l) ≡ true → is_associated (c'.line l) ≡ true
    line_kept l e = elim t.lined [
      | inl (a, b) ↦ rw a e
      | inr (k, free, b, a) ↦
          rw a (if_both (λ x. is_associated x ≡ true) (l == k) _ (c.line l) refl e)
    ]

    line_got : (l : ℕ) → line_of c' d ≡ some l → is_associated (c'.line l) ≡ true
    line_got l e = elim t.lined [
      | inl (a, b) ↦ let z = no_line_yet in absurd (cc)
      | inr (k, free, b, a) ↦
          let s : some k ≡ some l = sym b ∙ e in let i : k ≡ l = cc in rw (a, i, ==_refl l) refl
    ]

    turn-alone : (x y l : ℕ) → line_of c' x ≡ some l → line_of c' y ≡ some l → x ≡ y
    turn-alone x y l e f = elim (Bool-cases (x == d)) [
      | inl i ↦ elim (Bool-cases (y == d)) [
        | inl j ↦ (==_iff x d).0 i ∙ sym ((==_iff y d).0 j)
        | inr j ↦
            let free = got l (subst (λ r. line_of c' r ≡ some l) ((==_iff x d).0 i) e) in
            let his = u.associated y l (sym (line_same y j) ∙ f) in absurd (cc)
      ]
      | inr i ↦ elim (Bool-cases (y == d)) [
        | inl j ↦
            let free = got l (subst (λ r. line_of c' r ≡ some l) ((==_iff y d).0 j) f) in
            let his = u.associated x l (sym (line_same x i) ∙ e) in absurd (cc)
        | inr j ↦ u.alone x y l (sym (line_same x i) ∙ e) (sym (line_same y j) ∙ f)
      ]
    ]

    turn-associated : (q l : ℕ) → line_of c' q ≡ some l → is_associated (c'.line l) ≡ true
    turn-associated q l e = elim (Bool-cases (q == d)) [
      | inl i ↦ line_got l (subst (λ r. line_of c' r ≡ some l) ((==_iff q d).0 i) e)
      | inr i ↦ line_kept l (u.associated q l (sym (line_same q i) ∙ e))
    ]

    still_owned : (l : ℕ) → is_associated (c.line l) ≡ true → (q : ℕ) × (line_of c' q ≡ some l)
    still_owned l e = let (q, o) = u.owned l e in (q, line_same q (has_line q l o) ∙ o)

    turn-owned : (l : ℕ) → is_associated (c'.line l) ≡ true → (q : ℕ) × (line_of c' q ≡ some l)
    turn-owned l e = elim t.lined [
      | inl (a, b) ↦ still_owned l (rw a at e)
      | inr (k, free, b, a) ↦ elim (Bool-cases (l == k)) [
        | inl i ↦ (d, b ∙ ap (λ r. some r) (sym ((==_iff l k).0 i)))
        | inr i ↦ let z = rw (a, i) at e in still_owned l z
      ]
    ]

    IsBuilt-other :
        (q : ℕ)
        → (q == d) ≡ false
        → IsBuilt N E F G (named q) c (c.device q)
        → IsBuilt N E F G (named q) c' (c'.device q)
    IsBuilt-other q n b = record {
      its_line = b.its_line;
      line_cfg = line_same q n ∙ b.line_cfg;
      found = ap (λ x. F.find x (named q).line_name) t.lines_cfg ∙ b.found;
      speeddials =
          ap (λ x. x.speeddials_cfg) (t.others q n)
          ∙ b.speeddials
          ∙ ap (λ x. find_speeddials N E F G x (named q).speeddials) (sym t.speeddials_cfg);
      internal = ap (λ x. x.internal) (t.others q n) ∙ b.internal;
    }

    IsRead-other : (q : ℕ) → (q == d) ≡ false → IsRead named q c → IsRead named q c'
    IsRead-other q n r = record {
      speeddials = ap (λ x. x.speeddials_cfg) (t.others q n) ∙ r.speeddials;
      line_cfg = line_same q n ∙ r.line_cfg;
      internal = ap (λ x. x.internal) (t.others q n) ∙ r.internal;
    }

    turn-IsBuilt :
        (q : ℕ) → times q ds ≡ 0 → 1 ≤ linked c' q → IsBuilt N E F G (named q) c' (c'.device q)
    turn-IsBuilt q z h = elim (Bool-cases (q == d)) [
      | inl i ↦
          let e = (==_iff q d).0 i in
          elim t.fate [
            | inl gone ↦
                let h' : 1 ≤ linked c' d = subst (λ r. 1 ≤ linked c' r) e h in
                absurd (omega (arith, gone, h'))
            | inr b ↦ subst (λ r. IsBuilt N E F G (named r) c' (c'.device r)) (sym e) b
          ]
      | inr i ↦
          let f = linked_fewer q in
          let z' : times q (d ∷ ds) ≡ 0 = ground (arith, z, i) in
          IsBuilt-other q i (u.built q z' (omega (arith, f, h)))
    ]

    pub turn-IsUnderway : IsUnderway named ds c'
    turn-IsUnderway = record {
      once = λ q. omega (arith, u.once q, linked_fewer q);
      once_todo = λ q. ground (arith, u.once_todo q);
      todo_linked = λ q h. t.stays q (not_d q h) ∙ u.todo_linked q (ground (arith, h));
      read = λ q h. IsRead-other q (not_d q h) (u.read q (ground (arith, h)));
      built = turn-IsBuilt;
      alone = turn-alone;
      associated = turn-associated;
      owned = turn-owned;
    }

  pub apply_devices-IsUnderway :
      (named : ℕ → DeviceInternal) (size : ℕ) (ds : List ℕ) (c : Conf N E F G)
      → IsUnderway named ds c
      → IsUnderway named [] (apply_devices N E F G size ds c)
        × ((apply_devices N E F G size ds c).lines_cfg ≡ c.lines_cfg)
        × ((apply_devices N E F G size ds c).speeddials_cfg ≡ c.speeddials_cfg)
        × ((apply_devices N E F G size ds c).guest_device_cfg ≡ c.guest_device_cfg)
        × ((apply_devices N E F G size ds c).guest_internal ≡ c.guest_internal)
        × ((w : ℕ → ℕ)
            → total w (E.elements (apply_devices N E F G size ds c).devices_cfg)
              ≤ total w (E.elements c.devices_cfg))
  unfolding apply_devices
  apply_devices-IsUnderway named size [] c u = (u, refl, refl, refl, refl, λ w. omega arith)
  apply_devices-IsUnderway named size (d ∷ ds) c u =
      let c' = kept_or_unlinked N E F G d (cb_pre_apply_device_cfg N E F G size d c) in
      let r = u.read d (ground arith) in
      let t =
        turn-Turned N E F G size d (named d) c (u.todo_linked d (ground arith)) r.speeddials
          r.internal in
      let (v, l, s, g, i, f) =
        apply_devices-IsUnderway named size ds c' (turn-IsUnderway named d ds c c' u t) in
      (
        v,
        l ∙ t.lines_cfg,
        s ∙ t.speeddials_cfg,
        g ∙ t.guest_device_cfg,
        i ∙ t.guest_internal,
        λ w. omega (arith, f w, t.fewer w),
      )
