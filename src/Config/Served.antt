-- ===== src/Config/Served.antt =====
-- sccp_config.c: with memory for every allocation, each line that a device of the file names is the
-- line of a device that is kept.
use wazo_libsccp.Common.{
  ℕ, suc, ◌≡◌, ◌==◌, refl, sym, ap, ◌∙◌, Bool, true, false, List, [], none, some, inl, inr,
  Bool-cases, Option-cases, if_both, is_empty, ==_refl, subst,
}
use wazo_libsccp.Registry.{Container}
use wazo_libsccp.Config.{DeviceInternal, Names, at, inc}
use wazo_libsccp.Config.Build.{
  sccp_device_cfg_free_internal, sccp_device_cfg_destructor, release_device_cfg, unlink_device,
  is_associated, sccp_device_cfg_build_line, find_speeddials, sccp_device_cfg_build_speeddials,
  sccp_device_cfg_norm_voicemail, after_line,
}
use wazo_libsccp.Config.Apply.{with_internal, cb_pre_apply_device_cfg, kept_or_unlinked}
use wazo_libsccp.Config.Like.{Conf, Like, release-Like, Halved, after_line-Halved}
use wazo_libsccp.Config.Turn.{times, associate}
use wazo_libsccp.Config.Devices.{line_of, linked}

module _ (N : Names) (E : Container N.device_name) (F : Container N.line_name)
    (G : Container N.speeddial_name) where
  abbrev pub HasMemory : Conf N E F G → Type 0
  HasMemory c = (k : ℕ) → c.mem k ≡ true

  -- The line that the file names for a device.
  abbrev pub NamesLine : DeviceInternal → Conf N E F G → ℕ → Type 0
  NamesLine i c l = (is_empty i.line_name ≡ false) × (F.find c.lines_cfg i.line_name ≡ some l)

  -- What a turn does with memory: a device that gets a line stays, and the line that the file names
  -- for it has a device then.
  pub record Serves (d : ℕ) (i : DeviceInternal) (c c' : Conf N E F G) : Type 0 where
    pub memory : HasMemory c'
    pub stays : (l : ℕ) → line_of N E F G c' d ≡ some l → linked N E F G c' d ≡ linked N E F G c d
    pub taken : (l : ℕ) → NamesLine i c l → is_associated (c'.line l) ≡ true

  release-mem : (d : ℕ) (c : Conf N E F G) → (release_device_cfg N E F G d c).mem ≡ c.mem
  unfolding release_device_cfg sccp_device_cfg_destructor sccp_device_cfg_free_internal
  release-mem d c =
      let P : Conf N E F G → Type 0 = λ x. x.mem ≡ c.mem in
      if_both P (c.device_refs d == 1) _ _ refl refl

  unlinked-Serves :
      (d : ℕ) (i : DeviceInternal) (c : Conf N E F G)
      → HasMemory c
      → line_of N E F G c d ≡ none
      → ((l : ℕ) → NamesLine i c l → is_associated (c.line l) ≡ true)
      → Serves d i c (unlink_device N E F G d c)
  unfolding unlink_device
  unlinked-Serves d i c m z t =
      let cu = record c { devices_cfg = E.unlink c.devices_cfg d } in
      let k = release-Like N E F G d cu in
      record {
        memory = λ n. ap (λ f. f n) (release-mem d cu) ∙ m n;
        stays = λ l e. let no_ = sym e ∙ k.line_cfg ∙ z in absurd (cc);
        taken = λ l n. ap (λ f. is_associated (f l)) k.line ∙ t l n;
      }

  build_speeddials-all :
      (d : ℕ) (names : List (List ℕ)) (c : Conf N E F G)
      → HasMemory c
      → let r = sccp_device_cfg_build_speeddials N E F G d names c in (r.0 ≡ true) × HasMemory r.1
  unfolding sccp_device_cfg_build_speeddials
  build_speeddials-all d names c m =
      let P : Bool × Conf N E F G → Type 0 = λ r. (r.0 ≡ true) × HasMemory r.1 in
      rw (m 0) (
        if_both P (is_empty (find_speeddials N E F G c.speeddials_cfg names)) (true, c) _ (refl, m)
          (refl, λ k. m (suc k)))

  norm_voicemail-mem :
      (size d : ℕ) (c : Conf N E F G)
      → (sccp_device_cfg_norm_voicemail N E F G size d c).mem ≡ c.mem
  unfolding sccp_device_cfg_norm_voicemail
  norm_voicemail-mem size d c = elim (Option-cases (c.device d).line_cfg) [
    | inl e ↦ rw (e, sccp_device_cfg_norm_voicemail) refl
    | inr (l, e) ↦ rw (e, sccp_device_cfg_norm_voicemail) refl
  ]

  after_line-all :
      (size d : ℕ) (names : List (List ℕ)) (c : Conf N E F G)
      → HasMemory c
      → let r = after_line N E F G size d names (true, c) in (r.0 ≡ true) × HasMemory r.1
  unfolding after_line sccp_device_cfg_free_internal
  after_line-all size d names c m =
      let (ok, more) = build_speeddials-all d names c m in
      let b = sccp_device_cfg_build_speeddials N E F G d names c in
      rw ok (refl, λ k. ap (λ f. f k) (norm_voicemail-mem size d b.1) ∙ more k)

  kept : (d : ℕ) (r : Bool × Conf N E F G) → r.0 ≡ true → r.1 ≡ kept_or_unlinked N E F G d r
  unfolding kept_or_unlinked
  kept d (true, c) e = refl
  kept d (false, c) e = absurd (cc)

  Halved-Like :
      (d : ℕ) (names : List (List ℕ)) (c : Conf N E F G) (r : Bool × Conf N E F G)
      → Halved N E F G d names c r
      → Like N E F G d c r.1
  Halved-Like d names c (true, c') h = h.0
  Halved-Like d names c (false, c') h = h

  -- A device that gets its line.
  built-Serves :
      (size d l : ℕ) (i : DeviceInternal) (c : Conf N E F G)
      → HasMemory c
      → (c.device d).speeddials_cfg ≡ []
      → F.find c.lines_cfg i.line_name ≡ some l
      → Serves d i c (
          kept_or_unlinked N E F G d (
            after_line N E F G size d i.speeddials (
              true,
              record c {
                device = at d (λ x. record x { line_cfg = some l }) c.device;
                line = associate l c.line;
                line_refs = inc l c.line_refs;
              },
            )))
  built-Serves size d l i c m z s =
      let c1 = record c {
        device = at d (λ x. record x { line_cfg = some l }) c.device;
        line = associate l c.line;
        line_refs = inc l c.line_refs;
      } in
      let r = after_line N E F G size d i.speeddials (true, c1) in
      let (ok, more) = after_line-all size d i.speeddials c1 m in
      let h =
        Halved-Like d i.speeddials c1 r
          (after_line-Halved N E F G size d i.speeddials c1 (rw (==_refl d) z)) in
      subst (Serves d i c) (kept d r ok) (record {
        memory = more;
        stays = λ q e. ap (λ x. times d (E.elements x)) h.devices_cfg;
        taken = λ q n.
            let j = sym s ∙ n.1 in
            let k : l ≡ q = cc in
            subst (λ a. is_associated (r.1.line a) ≡ true) k
              (ap (λ f. is_associated (f l)) h.line ∙ rw (==_refl l) refl);
      })

  internal-Serves :
      (size d : ℕ) (i : DeviceInternal) (c : Conf N E F G)
      → HasMemory c
      → line_of N E F G c d ≡ none
      → (c.device d).speeddials_cfg ≡ []
      → Serves d i c (kept_or_unlinked N E F G d (with_internal N E F G size d (some i) c))
  unfolding with_internal sccp_device_cfg_build_line kept_or_unlinked after_line
  internal-Serves size d i c m none_yet z = elim (Bool-cases (is_empty i.line_name)) [
    | inl e ↦ rw e (unlinked-Serves d i c m none_yet (λ l n. let f = n.0 in absurd (cc)))
    | inr e ↦ elim (Option-cases (F.find c.lines_cfg i.line_name)) [
      | inl f ↦ rw (e, f) (unlinked-Serves d i c m none_yet (λ l n. let g = n.1 in absurd (cc)))
      | inr (l, s) ↦ elim (Bool-cases (is_associated (c.line l))) [
        | inl a ↦
            rw (e, s, a)
              (unlinked-Serves d i c m none_yet (λ q n.
                let j = sym s ∙ n.1 in
                let k : l ≡ q = cc in subst (λ r. is_associated (c.line r) ≡ true) k a))
        | inr a ↦ rw (e, s, a) (built-Serves size d l i c m z s)
      ]
    ]
  ]

  pub turn-Serves :
      (size d : ℕ) (i : DeviceInternal) (c : Conf N E F G)
      → HasMemory c
      → line_of N E F G c d ≡ none
      → (c.device d).speeddials_cfg ≡ []
      → (c.device d).internal ≡ some i
      → Serves d i c (kept_or_unlinked N E F G d (cb_pre_apply_device_cfg N E F G size d c))
  unfolding cb_pre_apply_device_cfg
  turn-Serves size d i c m n z e =
      subst (λ o. Serves d i c (kept_or_unlinked N E F G d (with_internal N E F G size d o c)))
        (sym e) (internal-Serves size d i c m n z)
