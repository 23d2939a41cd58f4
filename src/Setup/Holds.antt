-- ===== src/Setup/Holds.antt =====
-- sccp_device.c: what a device holds outside itself, from its creation to its end.
use wazo_libsccp.Common.{
  ℕ, ◌+◌, ◌-◌, ◌≡◌, inl, inr, refl, sym, ◌∙◌, Bool, true, false, List, [], ◌∷◌, Option, some, total,
  length, arith, Bool-cases, if◌then◌else◌, ◌&&◌, is_empty, Option-cases, if_both, subst,
}
use wazo_libsccp.Device.Types.{Device, DbKey}
use wazo_libsccp.Device.Core.{next_u32, sccp_device_unlock}
use wazo_libsccp.Setup.Types.{Configs, Speeddial, World, Phone, Watch, Hints}
use wazo_libsccp.Setup.Speeddials.{
  sccp_speeddials_destroy, sccp_speeddials_on_registration_success,
  sccp_speeddial_del_extension_state_cb, sccp_speeddial_add_extension_state_cb,
}
use wazo_libsccp.Setup.Life.{subscribe_mwi, unsubscribe_mwi}
use wazo_libsccp.Setup.Register.{context_of, sccp_device_on_registration_success, register_locked}
use wazo_libsccp.Setup.Create.{one, own, Numbered, Created}
use wazo_libsccp.Setup.Watches.{Tracks, Unsubscribed, watched, register-Tracks}

abbrev pub configs_of : ℕ → List Speeddial → ℕ
configs_of a sds = total (λ sd. one a sd.cfg) sds

-- Nobody else holds the speed dials.
abbrev pub Own : List Speeddial → Type 0
Own [] = Unit {0}
Own (sd ∷ sds) = (sd.refs ≡ 1) × Own sds

abbrev pub mailbox : Bool → ℕ
mailbox true = 1
mailbox false = 0

module _ (Q : Hints) (C : Configs) where
  -- Beyond what there was in `base`: the references of the device, of its line, which its calls hold
  -- too, and of its speed dials, one for who created it, the format capabilities, a subscription to the mailbox if the
  -- device knows of one, and those of its speed dials.
  pub record Holds (base : World Q.H) (p : Phone) (w : World Q.H) : Type 0 where
    pub refs :
        (a : ℕ)
        → w.refs a
          ≡ base.refs a + (own p.cfg p.session a + (one a p.line.cfg + configs_of a p.speeddials))
    pub device_refs : w.device_refs ≡ 2 + length p.speeddials
    pub caps_refs : w.caps_refs ≡ base.caps_refs + 1
    pub line : p.line.refs ≡ 1 + p.calls
    pub each : Own p.speeddials
    pub mwi : w.mwi_subs ≡ base.mwi_subs + mailbox p.mwi_event_sub
    pub tracks : Tracks Q C base.hints (context_of Q C p) p.speeddials w.hints

  Numbered-configs :
      (i index : ℕ) (cs : List ℕ) (sds : List Speeddial) (a : ℕ)
      → Numbered i index cs sds
      → (configs_of a sds ≡ total (one a) cs) × (length sds ≡ length cs)
  Numbered-configs i index [] [] a n = (refl, refl)
  Numbered-configs i index [] (sd ∷ sds) a n = elim n [ ]
  Numbered-configs i index (c ∷ cs) [] a n = elim n [ ]
  Numbered-configs i index (c ∷ cs) (sd ∷ sds) a (e, r, x, y, z, n) =
      let (p, q) = Numbered-configs (next_u32 i) (next_u32 index) cs sds a n in
      (rw e (omega (arith, p)), omega (arith, q))

  Numbered-Own :
      (i index : ℕ) (cs : List ℕ) (sds : List Speeddial)
      → Numbered i index cs sds
      → Own sds × Unsubscribed sds
  Numbered-Own i index [] [] n = (tt, tt)
  Numbered-Own i index [] (sd ∷ sds) n = elim n [ ]
  Numbered-Own i index (c ∷ cs) [] n = elim n [ ]
  Numbered-Own i index (c ∷ cs) (sd ∷ sds) (e, r, x, y, z, n) =
      let (p, q) = Numbered-Own (next_u32 i) (next_u32 index) cs sds n in ((r, p), (z, q))

  Unsubscribed-Tracks :
      (h : Q.H) (context : List ℕ) (sds : List Speeddial)
      → Unsubscribed sds
      → Tracks Q C h context sds h
  Unsubscribed-Tracks h context [] u = record { watches = λ f. omega arith; flagged = tt }
  Unsubscribed-Tracks h context (sd ∷ sds) (n, u) =
      let t = Unsubscribed-Tracks h context sds u in
      record { watches = λ f. rw n (omega (arith, t.watches f)); flagged = (rw n tt, t.flagged) }

  pub Created-Holds :
      (cfg session : ℕ) (w w' : World Q.H) (p : Phone)
      → w.device_refs ≡ 0
      → Created C cfg session w (some p, w')
      → Holds w p w' × Unsubscribed p.speeddials × (p.mwi_event_sub ≡ false)
  Created-Holds cfg session w w' p z (c, s, l, r, v, m, n, g) =
      let (o, u) = Numbered-Own 2 1 (C.device_cfg cfg).speeddials_cfg p.speeddials n in
      (
        record {
          refs = λ a.
              let (k, j) =
                Numbered-configs 2 1 (C.device_cfg cfg).speeddials_cfg p.speeddials a n in
              rw (c, s, l, k) (g.refs a);
          device_refs =
              let (k, j) =
                Numbered-configs 2 1 (C.device_cfg cfg).speeddials_cfg p.speeddials 0 n in
              omega (arith, g.device_refs, z, j);
          caps_refs = g.caps_refs;
          line = omega (arith, r, v);
          each = o;
          mwi = rw (m, g.mwi_subs) (omega arith);
          tracks = rw g.hints (Unsubscribed-Tracks w.hints (context_of Q C p) p.speeddials u);
        },
        u,
        m,
      )

  -- All but the extension states and the memory.
  pub record Keeps (w w' : World Q.H) : Type 0 where
    pub refs : w'.refs ≡ w.refs
    pub device_refs : w'.device_refs ≡ w.device_refs
    pub caps_refs : w'.caps_refs ≡ w.caps_refs
    pub mwi_subs : w'.mwi_subs ≡ w.mwi_subs

  Keeps-trans : (w w' w'' : World Q.H) → Keeps w w' → Keeps w' w'' → Keeps w w''
  Keeps-trans w w' w'' p q = record {
    refs = q.refs ∙ p.refs;
    device_refs = q.device_refs ∙ p.device_refs;
    caps_refs = q.caps_refs ∙ p.caps_refs;
    mwi_subs = q.mwi_subs ∙ p.mwi_subs;
  }

  same :
      (w w' : World Q.H)
      → w'.refs ≡ w.refs
      → w'.device_refs ≡ w.device_refs
      → w'.caps_refs ≡ w.caps_refs
      → w'.mwi_subs ≡ w.mwi_subs
      → Keeps w w'
  same w w' a b c d = record { refs = a; device_refs = b; caps_refs = c; mwi_subs = d }

  -- The same speed dials, but for their subscriptions and what these say.
  abbrev Alike : List Speeddial → List Speeddial → Type 0
  Alike [] [] = Unit {0}
  Alike [] (t ∷ ts) = ⊥
  Alike (s ∷ ss) [] = ⊥
  Alike (s ∷ ss) (t ∷ ts) = (t.cfg ≡ s.cfg) × (t.refs ≡ s.refs) × Alike ss ts

  Alike-refl : (ss : List Speeddial) → Alike ss ss
  Alike-refl [] = tt
  Alike-refl (s ∷ ss) = (refl, refl, Alike-refl ss)

  Alike-Own : (ss ts : List Speeddial) → Alike ss ts → Own ss → Own ts
  Alike-Own [] [] a o = tt
  Alike-Own [] (t ∷ ts) a o = elim a [ ]
  Alike-Own (s ∷ ss) [] a o = elim a [ ]
  Alike-Own (s ∷ ss) (t ∷ ts) (c, r, a) (o, os) = (r ∙ o, Alike-Own ss ts a os)

  Alike-configs :
      (ss ts : List Speeddial) (a : ℕ)
      → Alike ss ts
      → (configs_of a ts ≡ configs_of a ss) × (length ts ≡ length ss)
  Alike-configs [] [] a l = (refl, refl)
  Alike-configs [] (t ∷ ts) a l = elim l [ ]
  Alike-configs (s ∷ ss) [] a l = elim l [ ]
  Alike-configs (s ∷ ss) (t ∷ ts) a (c, r, l) =
      let (p, q) = Alike-configs ss ts a l in (rw c (omega (arith, p)), omega (arith, q))

  register-Alike :
      (context : List ℕ) (sds : List Speeddial) (w : World Q.H)
      → Alike sds (sccp_speeddials_on_registration_success Q C context sds w).0
        × Keeps w (sccp_speeddials_on_registration_success Q C context sds w).1
  unfolding sccp_speeddials_on_registration_success
  register-Alike context [] w = (tt, same w w refl refl refl refl)
  register-Alike context (sd ∷ sds) w = elim (Bool-cases (C.speeddial_cfg sd.cfg).blf) [
    | inl e ↦
        let w1 = (sccp_speeddial_add_extension_state_cb Q C context sd w).1 in
        let (a, k) = register-Alike context sds w1 in
        rw e ((refl, refl, a), Keeps-trans w w1 _ (same w w1 refl refl refl refl) k)
    | inr e ↦ let (a, k) = register-Alike context sds w in rw e ((refl, refl, a), k)
  ]

  del-Keeps :
      (sd : Speeddial) (w : World Q.H) → Keeps w (sccp_speeddial_del_extension_state_cb Q C sd w)
  unfolding sccp_speeddial_del_extension_state_cb
  del-Keeps sd w = elim (Option-cases sd.exten_state_cb_id) [
    | inl n ↦ rw n (same w w refl refl refl refl)
    | inr (i, e) ↦ rw e (same w _ refl refl refl refl)
  ]

  pub destroy-Keeps :
      (sds : List Speeddial) (w : World Q.H) → Keeps w (sccp_speeddials_destroy Q C sds w)
  unfolding sccp_speeddials_destroy
  destroy-Keeps [] w = same w w refl refl refl refl
  destroy-Keeps (sd ∷ sds) w =
      let w1 =
        if (C.speeddial_cfg sd.cfg).blf
        then sccp_speeddial_del_extension_state_cb Q C sd w
        else w in
      Keeps-trans w w1 _
        (if_both (Keeps w) (C.speeddial_cfg sd.cfg).blf _ w (del-Keeps sd w)
          (same w w refl refl refl refl))
        (destroy-Keeps sds w1)

  Unsubscribed-watched :
      (f : Watch → ℕ) (context : List ℕ) (sds : List Speeddial)
      → Unsubscribed sds
      → total (watched C f context) sds ≡ 0
  Unsubscribed-watched f context [] u = refl
  Unsubscribed-watched f context (sd ∷ sds) (n, u) =
      rw n (omega (arith, Unsubscribed-watched f context sds u))

  dials-Holds :
      (base : World Q.H) (p : Phone) (w : World Q.H)
      → Unsubscribed p.speeddials
      → Holds base p w
      → Holds base
          (record p {
            speeddials =
                (sccp_speeddials_on_registration_success Q C (context_of Q C p) p.speeddials w).0;
          })
          (sccp_speeddials_on_registration_success Q C (context_of Q C p) p.speeddials w).1
  dials-Holds base p w u h =
      let (a, k) = register-Alike (context_of Q C p) p.speeddials w in
      let t = register-Tracks Q C (context_of Q C p) p.speeddials w u in
      record {
        refs = λ b. let (x, y) = Alike-configs _ _ b a in rw (k.refs, x) (h.refs b);
        device_refs =
            let (x, y) = Alike-configs _ _ 0 a in omega (arith, k.device_refs, y, h.device_refs);
        caps_refs = omega (arith, k.caps_refs, h.caps_refs);
        line = h.line;
        each = Alike-Own _ _ a h.each;
        mwi = omega (arith, k.mwi_subs, h.mwi);
        tracks = record {
          watches = λ f. omega (
            arith,
            t.watches f,
            h.tracks.watches f,
            Unsubscribed-watched f (context_of Q C p) p.speeddials u,
          );
          flagged = t.flagged;
        };
      }

  pub device-Holds :
      (base : World Q.H) (p : Phone) (w : World Q.H) (d : Device)
      → Holds base p w
      → Holds base (record p { device = d }) w
  device-Holds base p w d h = record {
    refs = h.refs;
    device_refs = h.device_refs;
    caps_refs = h.caps_refs;
    line = h.line;
    each = h.each;
    mwi = h.mwi;
    tracks = h.tracks;
  }

  mailbox-Holds :
      (base : World Q.H) (p : Phone) (w : World Q.H) (b : Bool) (n : ℕ)
      → n ≡ base.mwi_subs + mailbox b
      → Holds base p w
      → Holds base (record p { mwi_event_sub = b }) (record w { mwi_subs = n })
  mailbox-Holds base p w b n e h = record {
    refs = h.refs;
    device_refs = h.device_refs;
    caps_refs = h.caps_refs;
    line = h.line;
    each = h.each;
    mwi = e;
    tracks = h.tracks;
  }

  subscribe-Holds :
      (base : World Q.H) (topic subscribed : Bool) (p : Phone) (w : World Q.H)
      → p.mwi_event_sub ≡ false
      → Holds base p w
      → Holds base (subscribe_mwi C topic subscribed p w).0 (subscribe_mwi C topic subscribed p w).1
        × ((subscribe_mwi C topic subscribed p w).0.speeddials ≡ p.speeddials)
  unfolding subscribe_mwi
  subscribe-Holds base topic subscribed p w m h =
      let P : Phone × World Q.H → Type 0 =
        λ r. Holds base r.0 r.1 × (r.0.speeddials ≡ p.speeddials) in
      let z = rw m at (h.mwi) in
      if_both P (is_empty (C.device_cfg p.cfg).voicemail) (p, w) _ (h, refl)
        (if_both P (topic && subscribed) _ _
          (mailbox-Holds base p w true (w.mwi_subs + 1) (omega (arith, z)) h, refl)
          (if_both P topic _ (p, w) (mailbox-Holds base p w false w.mwi_subs z h, refl) (h, refl)))

  pub unsubscribe-Holds :
      (base : World Q.H) (p : Phone) (w : World Q.H)
      → Holds base p w
      → Holds base (unsubscribe_mwi p w).0 (unsubscribe_mwi p w).1
        × ((unsubscribe_mwi p w).0.mwi_event_sub ≡ false)
  unfolding unsubscribe_mwi
  unsubscribe-Holds base p w h = elim (Bool-cases p.mwi_event_sub) [
    | inl e ↦
        let z = rw e at (h.mwi) in
        simp e (mailbox-Holds base p w false (w.mwi_subs - 1) (omega (arith, z)) h, refl)
    | inr e ↦ simp e (h, refl)
  ]

  -- A registration, whatever Asterisk's database and mailboxes answer.
  pub registration-Holds :
      (base : World Q.H) (ast_db_get : DbKey → Option (List ℕ)) (inbox : Option ℕ)
      (topic subscribed : Bool) (p : Phone) (w : World Q.H)
      → Unsubscribed p.speeddials
      → p.mwi_event_sub ≡ false
      → Holds base p w
      → Holds base
          (sccp_device_on_registration_success Q C ast_db_get inbox topic subscribed p w).0
          (sccp_device_on_registration_success Q C ast_db_get inbox topic subscribed p w).1
  unfolding sccp_device_on_registration_success
  registration-Holds base db inbox topic subscribed p w u m h =
      let p0 = record p { device = sccp_device_unlock (register_locked Q C db inbox p) } in
      let (h', e) =
        subscribe-Holds base topic subscribed p0 w m (device-Holds base p w p0.device h) in
      dials-Holds base _ _ (subst Unsubscribed (sym e) u) h'
