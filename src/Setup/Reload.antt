-- ===== src/Setup/Reload.antt =====
-- sccp_device.c: what a device holds outside itself after a reload of its configuration, and after
-- its end.
use wazo_libsccp.Common.{
  ℕ, ◌+◌, ◌≡◌, refl, sym, ap, ◌∙◌, true, List, [], ◌∷◌, Option, none, some, total, length, arith,
  Bool-cases, inl, inr, same_bytes_eq,
}
use wazo_libsccp.Setup.Types.{Configs, Speeddial, Line, World, Phone, Hints, ref, unref}
use wazo_libsccp.Setup.Speeddials.{sccp_speeddials_apply_config, sccp_speeddials_test_apply_config}
use wazo_libsccp.Setup.Life.{
  sccp_lines_test_apply_config, sccp_device_test_apply_config, apply_config,
  sccp_device_reload_config,
}
use wazo_libsccp.Setup.Register.{context_of}
use wazo_libsccp.Setup.Create.{one, own}
use wazo_libsccp.Setup.Watches.{apply-watches}
use wazo_libsccp.Setup.Holds.{Holds, Own, configs_of, device-Holds}

-- A reference exchanged for another.
swap-refs :
    {H : Type 0} (w : World H) (old new a k : ℕ)
    → w.refs a ≡ k + one a old
    → (ref new (unref old w)).refs a ≡ k + one a new
swap-refs w old new a k e = ground arith

-- The references move from the old configurations of the speed dials to the new ones.
apply-refs :
    {H : Type 0} (C : Configs) (sds : List Speeddial) (cs : List ℕ) (w : World H) (a k : ℕ)
    → sccp_speeddials_test_apply_config C sds cs ≡ true
    → w.refs a ≡ k + configs_of a sds
    → (sccp_speeddials_apply_config sds cs w).1.refs a
      ≡ k + configs_of a (sccp_speeddials_apply_config sds cs w).0
unfolding sccp_speeddials_apply_config sccp_speeddials_test_apply_config
apply-refs C [] cs w a k t e = e
apply-refs C (sd ∷ sds) [] w a k t e = e
apply-refs C (sd ∷ sds) (c ∷ cs) w a k t e =
    let here = swap-refs w sd.cfg c a (k + configs_of a sds) (omega (arith, e)) in
    let rest =
      apply-refs C sds cs (ref c (unref sd.cfg w)) a (k + one a c) (ground arith)
        (omega (arith, here)) in
    omega (arith, rest)

-- What else the new configuration of the speed dials leaves as it was.
record Rest {H : Type 0} (sds ts : List Speeddial) (w w' : World H) : Type 0 where
  pub size : length ts ≡ length sds
  pub each : Own sds → Own ts
  pub device_refs : w'.device_refs ≡ w.device_refs
  pub caps_refs : w'.caps_refs ≡ w.caps_refs
  pub hints : w'.hints ≡ w.hints
  pub mwi_subs : w'.mwi_subs ≡ w.mwi_subs

apply-Rest :
    {H : Type 0} (sds : List Speeddial) (cs : List ℕ) (w : World H)
    → Rest sds (sccp_speeddials_apply_config sds cs w).0 w (sccp_speeddials_apply_config sds cs w).1
unfolding sccp_speeddials_apply_config
apply-Rest [] cs w = record {
  size = refl;
  each = λ o. o;
  device_refs = refl;
  caps_refs = refl;
  hints = refl;
  mwi_subs = refl;
}
apply-Rest (sd ∷ sds) [] w = record {
  size = refl;
  each = λ o. o;
  device_refs = refl;
  caps_refs = refl;
  hints = refl;
  mwi_subs = refl;
}
apply-Rest (sd ∷ sds) (c ∷ cs) w =
    let r = apply-Rest sds cs (ref c (unref sd.cfg w)) in
    record {
      size = omega (arith, r.size);
      each = λ o. (o.0, r.each o.1);
      device_refs = r.device_refs;
      caps_refs = r.caps_refs;
      hints = r.hints;
      mwi_subs = r.mwi_subs;
    }

same_context :
    (C : Configs) (l : Line) (new : ℕ)
    → sccp_lines_test_apply_config C l new ≡ true
    → (C.line_cfg (C.device_cfg new).line_cfg).context ≡ (C.line_cfg l.cfg).context
unfolding sccp_lines_test_apply_config
same_context C l new t = sym (
    same_bytes_eq (C.line_cfg l.cfg).context (C.line_cfg (C.device_cfg new).line_cfg).context
      (ground arith))

tested :
    (C : Configs) (p : Phone) (new : ℕ)
    → sccp_device_test_apply_config C p new ≡ true
    → (sccp_lines_test_apply_config C p.line new ≡ true)
      × (sccp_speeddials_test_apply_config C p.speeddials (C.device_cfg new).speeddials_cfg ≡ true)
unfolding sccp_device_test_apply_config
tested C p new t = (ground arith, ground arith)

module _ (Q : Hints) (C : Configs) where
  apply_refs :
      (base : World Q.H) (p : Phone) (new : ℕ) (w : World Q.H) (a : ℕ)
      → sccp_speeddials_test_apply_config C p.speeddials (C.device_cfg new).speeddials_cfg ≡ true
      → w.refs a
        ≡ base.refs a + (own p.cfg p.session a + (one a p.line.cfg + configs_of a p.speeddials))
      → (apply_config C p new w).1.refs a
        ≡ base.refs a
          + (own new p.session a
              + (one a (C.device_cfg new).line_cfg
                  + configs_of a (apply_config C p new w).0.speeddials))
  unfolding apply_config
  apply_refs base p new w a dials e =
      let l = (C.device_cfg new).line_cfg in
      let cs = (C.device_cfg new).speeddials_cfg in
      let w0 = ref new (unref p.cfg w) in
      let k = base.refs a + one a p.session in
      let k0 = k + one a p.line.cfg + configs_of a p.speeddials in
      let s0 = swap-refs w p.cfg new a k0 (omega (arith, e)) in
      let k1 = k + one a new + configs_of a p.speeddials in
      let s1 = swap-refs w0 p.line.cfg l a k1 (omega (arith, s0)) in
      let s2 =
        apply-refs C p.speeddials cs (ref l (unref p.line.cfg w0)) a (k + one a new + one a l) dials
          (omega (arith, s1)) in
      omega (arith, s2)

  apply-Holds :
      (base : World Q.H) (p : Phone) (new : ℕ) (w : World Q.H)
      → sccp_device_test_apply_config C p new ≡ true
      → Holds Q C base p w
      → Holds Q C base (apply_config C p new w).0 (apply_config C p new w).1
  unfolding apply_config
  apply-Holds base p new w t h =
      let l = (C.device_cfg new).line_cfg in
      let cs = (C.device_cfg new).speeddials_cfg in
      let w0 = ref new (unref p.cfg w) in
      let w1 = ref l (unref p.line.cfg w0) in
      let (lines, dials) = tested C p new t in
      let r = apply-Rest p.speeddials cs w1 in
      let c = same_context C p.line new lines in
      record {
        refs = λ a. apply_refs base p new w a dials (h.refs a);
        device_refs = omega (arith, r.device_refs, r.size, h.device_refs);
        caps_refs = omega (arith, r.caps_refs, h.caps_refs);
        line = h.line;
        each = r.each h.each;
        mwi = omega (arith, r.mwi_subs, h.mwi);
        tracks = record {
          watches = λ f.
              let (same, fl) =
                apply-watches C f (context_of Q C p) p.speeddials cs w1 dials h.tracks.flagged in
              rw (r.hints, c)
                (h.tracks.watches f ∙ ap (λ n. n + total f (Q.watching base.hints)) (sym same));
          flagged =
              (apply-watches C (λ x. 0) (context_of Q C p) p.speeddials cs w1 dials
                h.tracks.flagged).1;
        };
      }

  -- A reload, whether the new configuration is taken over, asks for a reset, or is null: the device
  -- holds what its present configuration says, no reference more and none less, and each
  -- subscription of a speed dial is still for the present extension in the present context.
  pub reload-Holds :
      (base : World Q.H) (p : Phone) (new : Option ℕ) (w : World Q.H)
      → Holds Q C base p w
      → Holds Q C base
          (sccp_device_reload_config C p new w).1
          (sccp_device_reload_config C p new w).2
  unfolding sccp_device_reload_config
  reload-Holds base p none w h = h
  reload-Holds base p (some new) w h = elim (Bool-cases (sccp_device_test_apply_config C p new)) [
    | inl t ↦ rw t (apply-Holds base p new w t h)
    | inr t ↦ rw t (device-Holds Q C base p w _ h)
  ]
