-- ===== src/Config/Guest.antt =====
-- sccp_config.c: the device that is named after guests leaves a configuration.
use wazo_libsccp.Common.{
  ℕ, ◌≤◌, ◌≡◌, ◌==◌, refl, sym, subst, ap, ◌∙◌, Bool, true, false, List, [], ◌∷◌, Option, none,
  some, inl, inr, ◌⊎◌, arith, Bool-cases, if◌then◌else◌, ==_refl, ==_iff, total-indicator,
}
use wazo_libsccp.Registry.{Container}
use wazo_libsccp.Config.{Names, inc}
use wazo_libsccp.Config.Build.{unlink_device, unlink_line, release_device_cfg, is_linked}
use wazo_libsccp.Config.Apply.{unlink_guest, unlink_its_line, keep_guest}
use wazo_libsccp.Config.Like.{Conf, release-Like}
use wazo_libsccp.Config.Turn.{times}
use wazo_libsccp.Config.Lines.{linked_line}

module _ (N : Names) (E : Container N.device_name) (F : Container N.line_name)
    (G : Container N.speeddial_name) where
  -- Without the device `d`, which keeps its line.
  pub record Left (d : ℕ) (c c' : Conf N E F G) : Type 0 where
    pub devices_cfg : c'.devices_cfg ≡ E.unlink c.devices_cfg d
    pub others : (q : ℕ) → (q == d) ≡ false → c'.device q ≡ c.device q
    pub line_cfg : (c'.device d).line_cfg ≡ (c.device d).line_cfg
    pub fewer : (l : ℕ) → linked_line N E F G c' l ≤ linked_line N E F G c l
    pub guest_device_cfg : c'.guest_device_cfg ≡ c.guest_device_cfg

  is_linked-times : (a : ℕ) (bs : List ℕ) → is_linked a bs ≡ true → 1 ≤ times a bs
  is_linked-times a [] e = absurd (cc)
  is_linked-times a (b ∷ bs) e = elim (Bool-cases (b == a)) [
    | inl i ↦ ground (arith, i)
    | inr i ↦ let h = is_linked-times a bs (rw i at e) in ground (arith, i, h)
  ]

  not_linked : (a : ℕ) (bs : List ℕ) → is_linked a bs ≡ false → times a bs ≡ 0
  not_linked a [] e = refl
  not_linked a (b ∷ bs) e = elim (Bool-cases (b == a)) [
    | inl i ↦ let x = rw i at e in absurd (cc)
    | inr i ↦ let h = not_linked a bs (rw i at e) in ground (arith, i, h)
  ]

  -- Of the lines only that one goes.
  its_line :
      (o : Option ℕ) (c : Conf N E F G) (l : ℕ)
      → ((o ≡ some l → ⊥)
          → linked_line N E F G (unlink_its_line N E F G o c) l ≡ linked_line N E F G c l)
        × (o ≡ some l
            → linked_line N E F G c l ≤ 1
            → linked_line N E F G (unlink_its_line N E F G o c) l ≡ 0)
  unfolding unlink_its_line unlink_line
  its_line none c l = (λ n. refl, λ e. absurd (cc))
  its_line (some k) c l = elim (Bool-cases (is_linked k (F.elements c.lines_cfg))) [
    | inr e ↦ rw e (
      λ n. refl,
      λ i h.
          let j : k ≡ l = cc in
          subst (λ r. times r (F.elements c.lines_cfg) ≡ 0) j
            (not_linked k (F.elements c.lines_cfg) e),
    )
    | inl e ↦
        let gone =
          F.unlink_removes c.lines_cfg k (λ b. if b == l then 1 else 0)
            (is_linked-times k (F.elements c.lines_cfg) e) in
        let before = total-indicator (λ b. b == l) (F.elements c.lines_cfg) in
        let after = total-indicator (λ b. b == l) (F.elements (F.unlink c.lines_cfg k)) in
        rw e (
          λ n.
              let other : (k == l) ≡ false = elim (Bool-cases (k == l)) [
                | inr x ↦ x
                | inl x ↦ absurd (n (ap (λ r. some r) ((==_iff k l).0 x)))
              ] in
              ground (arith, gone, before, after, other),
          λ i h.
              let j : k ≡ l = cc in
              let own : (k == l) ≡ true = subst (λ r. (k == r) ≡ true) j (==_refl k) in
              ground (arith, gone, before, after, own, h),
        )
  ]

  -- The line goes only from its container.
  line-Left :
      (d : ℕ) (o : Option ℕ) (c c1 : Conf N E F G)
      → Left d c c1
      → Left d c (unlink_its_line N E F G o c1)
  unfolding unlink_its_line unlink_line
  line-Left d none c c1 t = t
  line-Left d (some l) c c1 t = elim (Bool-cases (is_linked l (F.elements c1.lines_cfg))) [
    | inr e ↦ rw e t
    | inl e ↦ rw e (record {
      devices_cfg = t.devices_cfg;
      others = t.others;
      line_cfg = t.line_cfg;
      fewer = λ q. omega (
        arith,
        t.fewer q,
        F.unlink_removes c1.lines_cfg l (λ b. if b == q then 1 else 0)
            (is_linked-times l (F.elements c1.lines_cfg) e),
        total-indicator (λ b. b == q) (F.elements c1.lines_cfg),
        total-indicator (λ b. b == q) (F.elements (F.unlink c1.lines_cfg l)),
      );
      guest_device_cfg = t.guest_device_cfg;
    })
  ]

  pub unlink_guest-Left : (d : ℕ) (c : Conf N E F G) → Left d c (unlink_guest N E F G d c)
  unfolding unlink_guest unlink_device
  unlink_guest-Left d c =
      let cu = record c {
        device_refs = inc d c.device_refs;
        devices_cfg = E.unlink c.devices_cfg d;
      } in
      let k = release-Like N E F G d cu in
      line-Left d _ c (release_device_cfg N E F G d cu) (record {
        devices_cfg = k.devices_cfg;
        others = k.others;
        line_cfg = k.line_cfg;
        fewer = λ l. let e = ap F.elements k.lines_cfg in rw e (omega arith);
        guest_device_cfg = k.guest_device_cfg;
      })

  -- The guest's line is not linked any more, and every other line is as it was.
  pub record Unlined (d : ℕ) (c c' : Conf N E F G) : Type 0 where
    pub stays :
        (l : ℕ)
        → ((c.device d).line_cfg ≡ some l → ⊥)
        → linked_line N E F G c' l ≡ linked_line N E F G c l
    pub gone :
        (l : ℕ)
        → (c.device d).line_cfg ≡ some l
        → linked_line N E F G c l ≤ 1
        → linked_line N E F G c' l ≡ 0

  pub unlink_guest-Unlined : (d : ℕ) (c : Conf N E F G) → Unlined d c (unlink_guest N E F G d c)
  unfolding unlink_guest unlink_device
  unlink_guest-Unlined d c =
      let cu = record c {
        device_refs = inc d c.device_refs;
        devices_cfg = E.unlink c.devices_cfg d;
      } in
      let k = release-Like N E F G d cu in
      let c1 = release_device_cfg N E F G d cu in
      let same = λ (l : ℕ). ap (λ x. times l (F.elements x)) k.lines_cfg in
      record {
        stays =
            λ l n. (its_line (c1.device d).line_cfg c1 l).0 (λ e. n (sym k.line_cfg ∙ e)) ∙ same l;
        gone = λ l e h.
            (its_line (c1.device d).line_cfg c1 l).1 (k.line_cfg ∙ e)
              (let s = same l in omega (arith, s, h));
      }

  -- Whether the guest's device is kept or given up.
  pub record Guested (on : Bool) (d : ℕ) (c c' : Conf N E F G) : Type 0 where
    pub devices_cfg : c'.devices_cfg ≡ E.unlink c.devices_cfg d
    pub others : (q : ℕ) → (q == d) ≡ false → c'.device q ≡ c.device q
    pub line_cfg : (c'.device d).line_cfg ≡ (c.device d).line_cfg
    pub fewer : (l : ℕ) → linked_line N E F G c' l ≤ linked_line N E F G c l
    pub guest :
        (c'.guest_device_cfg ≡ c.guest_device_cfg)
        ⊎ ((on ≡ true) × (c'.guest_device_cfg ≡ some d) × ((c'.device d).guest ≡ true))
    pub kept : on ≡ true → c'.guest_device_cfg ≡ some d
    pub unlined : Unlined d c c'

  pub keep_guest-Guested :
      (on : Bool) (d : ℕ) (c c1 : Conf N E F G)
      → Left d c c1
      → Unlined d c c1
      → Guested on d c (keep_guest N E F G on d c1)
  unfolding keep_guest
  keep_guest-Guested true d c c1 t v = record {
    devices_cfg = t.devices_cfg;
    others = λ q n. rw n (t.others q n);
    line_cfg = rw (==_refl d) t.line_cfg;
    fewer = t.fewer;
    guest = inr (refl, refl, rw (==_refl d) refl);
    kept = λ e. refl;
    unlined = record { stays = v.stays; gone = v.gone };
  }
  keep_guest-Guested false d c c1 t v =
      let k = release-Like N E F G d c1 in
      record {
        devices_cfg = k.devices_cfg ∙ t.devices_cfg;
        others = λ q n. k.others q n ∙ t.others q n;
        line_cfg = k.line_cfg ∙ t.line_cfg;
        fewer = λ l. let e = ap F.elements k.lines_cfg in rw e (t.fewer l);
        guest = inl (k.guest_device_cfg ∙ t.guest_device_cfg);
        kept = λ e. absurd (cc);
        unlined = record {
          stays = λ l n. ap (λ x. times l (F.elements x)) k.lines_cfg ∙ v.stays l n;
          gone = λ l e h. ap (λ x. times l (F.elements x)) k.lines_cfg ∙ v.gone l e h;
        };
      }
