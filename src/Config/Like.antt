-- ===== src/Config/Like.antt =====
-- sccp_config.c: what the steps that put a device of a configuration in order change.
use wazo_libsccp.Common.{
  ℕ, ◌≡◌, ◌==◌, refl, sym, ◌∙◌, Bool, true, false, List, [], ◌∷◌, none, some, inl, inr, Bool-cases,
  Option-cases, if◌then◌else◌, if_both, is_empty, ==_refl,
}
use wazo_libsccp.Registry.{Container}
use wazo_libsccp.Config.{DeviceInternal, DeviceCfg, Names, at}
use wazo_libsccp.Config.Options.{norm_voicemail}
use wazo_libsccp.Config.Build.{
  Config, sccp_device_cfg_free_internal, sccp_device_cfg_destructor, release_device_cfg,
  find_speeddials, sccp_device_cfg_build_speeddials, sccp_device_cfg_norm_voicemail, after_line,
}

nil_of_empty : (xs : List ℕ) → is_empty xs ≡ true → xs ≡ []
nil_of_empty [] e = refl
nil_of_empty (x ∷ xs) e = absurd (cc)

module _ (N : Names) (E : Container N.device_name) (F : Container N.line_name)
    (G : Container N.speeddial_name) where
  abbrev pub Conf : Type 0
  Conf = Config N E F G

  -- Only the device `d`, references and memory may differ, and its line is the same.
  pub record Like (d : ℕ) (c c' : Conf) : Type 0 where
    pub guest_device_cfg : c'.guest_device_cfg ≡ c.guest_device_cfg
    pub guest_internal : c'.guest_internal ≡ c.guest_internal
    pub devices_cfg : c'.devices_cfg ≡ c.devices_cfg
    pub lines_cfg : c'.lines_cfg ≡ c.lines_cfg
    pub speeddials_cfg : c'.speeddials_cfg ≡ c.speeddials_cfg
    pub line : c'.line ≡ c.line
    pub others : (q : ℕ) → (q == d) ≡ false → c'.device q ≡ c.device q
    pub line_cfg : (c'.device d).line_cfg ≡ (c.device d).line_cfg

  pub Like-trans : (d : ℕ) (c c' c'' : Conf) → Like d c c' → Like d c' c'' → Like d c c''
  Like-trans d c c' c'' p q = record {
    guest_device_cfg = q.guest_device_cfg ∙ p.guest_device_cfg;
    guest_internal = q.guest_internal ∙ p.guest_internal;
    devices_cfg = q.devices_cfg ∙ p.devices_cfg;
    lines_cfg = q.lines_cfg ∙ p.lines_cfg;
    speeddials_cfg = q.speeddials_cfg ∙ p.speeddials_cfg;
    line = q.line ∙ p.line;
    others = λ r e. q.others r e ∙ p.others r e;
    line_cfg = q.line_cfg ∙ p.line_cfg;
  }

  Like-refl : (d : ℕ) (c : Conf) → Like d c c
  Like-refl d c = record {
    guest_device_cfg = refl;
    guest_internal = refl;
    devices_cfg = refl;
    lines_cfg = refl;
    speeddials_cfg = refl;
    line = refl;
    others = λ q e. refl;
    line_cfg = refl;
  }

  -- Other references, and other memory.
  Like-refs :
      (d : ℕ) (c : Conf) (i j k : ℕ → ℕ) (m : ℕ → Bool)
      → Like d c (record c { device_refs = i; line_refs = j; speeddial_refs = k; mem = m })
  Like-refs d c i j k m = record {
    guest_device_cfg = refl;
    guest_internal = refl;
    devices_cfg = refl;
    lines_cfg = refl;
    speeddials_cfg = refl;
    line = refl;
    others = λ q e. refl;
    line_cfg = refl;
  }

  -- An assignment to the device that leaves its line.
  Like-at :
      (d : ℕ) (c : Conf) (f : DeviceCfg → DeviceCfg)
      → ((x : DeviceCfg) → (f x).line_cfg ≡ x.line_cfg)
      → Like d c (record c { device = at d f c.device })
  Like-at d c f e = record {
    guest_device_cfg = refl;
    guest_internal = refl;
    devices_cfg = refl;
    lines_cfg = refl;
    speeddials_cfg = refl;
    line = refl;
    others = λ q n. rw n refl;
    line_cfg = rw (==_refl d) (e (c.device d));
  }

  free_internal-Like : (d : ℕ) (c : Conf) → Like d c (sccp_device_cfg_free_internal N E F G d c)
  unfolding sccp_device_cfg_free_internal
  free_internal-Like d c = Like-at d c (λ x. record x { internal = none }) (λ x. refl)

  norm_voicemail-Like :
      (size d : ℕ) (c : Conf) → Like d c (sccp_device_cfg_norm_voicemail N E F G size d c)
  unfolding sccp_device_cfg_norm_voicemail
  norm_voicemail-Like size d c = elim (Option-cases (c.device d).line_cfg) [
    | inl e ↦ rw (e, sccp_device_cfg_norm_voicemail) (Like-refl d c)
    | inr (l, e) ↦
        rw (e, sccp_device_cfg_norm_voicemail)
          (Like-at d c
            (λ x. record x { voicemail = norm_voicemail size x.voicemail (c.line l).context })
            (λ x. refl))
  ]

  build_speeddials-Like :
      (d : ℕ) (names : List (List ℕ)) (c : Conf)
      → Like d c (sccp_device_cfg_build_speeddials N E F G d names c).1
  unfolding sccp_device_cfg_build_speeddials
  build_speeddials-Like d names c =
      let P : Bool × Conf → Type 0 = λ r. Like d c r.1 in
      if_both P (is_empty (find_speeddials N E F G c.speeddials_cfg names)) (true, c) _
        (Like-refl d c)
        (if_both P (c.mem 0) _ _
          (Like-trans d c
            (record c {
              device =
                  at d
                    (λ x. record x {
                      speeddials_cfg = find_speeddials N E F G c.speeddials_cfg names;
                    })
                    c.device;
            })
            _
            (Like-at d c
              (λ x. record x { speeddials_cfg = find_speeddials N E F G c.speeddials_cfg names })
              (λ x. refl))
            (Like-refs d _ _ _ _ _))
          (Like-refs d c _ _ _ _))

  pub release-Like : (d : ℕ) (c : Conf) → Like d c (release_device_cfg N E F G d c)
  unfolding release_device_cfg sccp_device_cfg_destructor
  release-Like d c =
      if_both (Like d c) (c.device_refs d == 1) _ _
        (Like-trans d c (sccp_device_cfg_free_internal N E F G d c) _ (free_internal-Like d c)
          (Like-refs d _ _ _ _ _))
        (Like-refs d c _ _ _ _)

  -- What a device that is built has, with what the file named.
  pub record IsBuilt (i : DeviceInternal) (c : Conf) (x : DeviceCfg) : Type 0 where
    pub its_line : ℕ
    pub line_cfg : x.line_cfg ≡ some its_line
    pub found : F.find c.lines_cfg i.line_name ≡ some its_line
    pub speeddials : x.speeddials_cfg ≡ find_speeddials N E F G c.speeddials_cfg i.speeddials
    pub internal : x.internal ≡ none

  -- The speed dials of a device that had none.
  built_speeddials :
      (d : ℕ) (names : List (List ℕ)) (c : Conf)
      → (c.device d).speeddials_cfg ≡ []
      → (sccp_device_cfg_build_speeddials N E F G d names c).0 ≡ true
      → ((sccp_device_cfg_build_speeddials N E F G d names c).1.device d).speeddials_cfg
        ≡ find_speeddials N E F G c.speeddials_cfg names
  unfolding sccp_device_cfg_build_speeddials
  built_speeddials d names c z t =
      let found = find_speeddials N E F G c.speeddials_cfg names in
      elim (Bool-cases (is_empty found)) [
        | inl e ↦ rw e (z ∙ sym (nil_of_empty found e))
        | inr e ↦ elim (Bool-cases (c.mem 0)) [
          | inl m ↦ rw (e, m, ==_refl d) refl
          | inr m ↦ let f = rw (e, m) at t in absurd (cc)
        ]
      ]

  -- What the second half of the work on a device makes of it.
  abbrev pub Halved : (d : ℕ) → List (List ℕ) → Conf → Bool × Conf → Type 0
  Halved d names c (false, c') = Like d c c'
  Halved d names c (true, c') =
      Like d c c'
      × ((c'.device d).speeddials_cfg ≡ find_speeddials N E F G c.speeddials_cfg names)
      × ((c'.device d).internal ≡ none)

  norm_voicemail-speeddials :
      (size d : ℕ) (c : Conf)
      → ((sccp_device_cfg_norm_voicemail N E F G size d c).device d).speeddials_cfg
        ≡ (c.device d).speeddials_cfg
  unfolding sccp_device_cfg_norm_voicemail
  norm_voicemail-speeddials size d c = elim (Option-cases (c.device d).line_cfg) [
    | inl e ↦ rw (e, sccp_device_cfg_norm_voicemail) refl
    | inr (l, e) ↦ rw (e, sccp_device_cfg_norm_voicemail, ==_refl d) refl
  ]

  freed :
      (d : ℕ) (c : Conf)
      → (((sccp_device_cfg_free_internal N E F G d c).device d).speeddials_cfg
          ≡ (c.device d).speeddials_cfg)
        × (((sccp_device_cfg_free_internal N E F G d c).device d).internal ≡ none)
  unfolding sccp_device_cfg_free_internal
  freed d c = (rw (==_refl d) refl, rw (==_refl d) refl)

  finished-Halved :
      (size d : ℕ) (names : List (List ℕ)) (c : Conf) (r : Bool × Conf)
      → Like d c r.1
      → (r.0 ≡ true
          → (r.1.device d).speeddials_cfg ≡ find_speeddials N E F G c.speeddials_cfg names)
      → Halved d names c (
          if r.0
          then (
            true,
            sccp_device_cfg_free_internal N E F G d
                (sccp_device_cfg_norm_voicemail N E F G size d r.1),
          )
          else (false, r.1))
  finished-Halved size d names c (false, c') l s = l
  finished-Halved size d names c (true, c') l s =
      let c'' = sccp_device_cfg_norm_voicemail N E F G size d c' in
      let (sd, int) = freed d c'' in
      (
        Like-trans d c c'' _ (Like-trans d c c' c'' l (norm_voicemail-Like size d c'))
            (free_internal-Like d c''),
        sd ∙ norm_voicemail-speeddials size d c' ∙ s refl,
        int,
      )

  pub after_line-Halved :
      (size d : ℕ) (names : List (List ℕ)) (c : Conf)
      → (c.device d).speeddials_cfg ≡ []
      → Halved d names c (after_line N E F G size d names (true, c))
  unfolding after_line
  after_line-Halved size d names c z =
      finished-Halved size d names c (sccp_device_cfg_build_speeddials N E F G d names c)
        (build_speeddials-Like d names c) (built_speeddials d names c z)
