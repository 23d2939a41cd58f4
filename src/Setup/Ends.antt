-- ===== src/Setup/Ends.antt =====
-- sccp_device.c: the whole life of a device, seen from what it holds outside itself.
use wazo_libsccp.Common.{
  ℕ, zero, suc, ◌+◌, ◌-◌, ◌≡◌, refl, sym, ap, ap₂, ◌∙◌, if_eq, Bool, false, List, [], ◌∷◌, Option,
  none, some, total, length, arith, subst, get_elem?,
}
use wazo_libsccp.Device.Types.{Device, DbKey}
use wazo_libsccp.Setup.Types.{Configs, ExtState, Speeddial, Line, World, Phone, Watch, Hints, unref}
use wazo_libsccp.Setup.Speeddials.{sccp_speeddials_deinit, sccp_speeddials_destroy}
use wazo_libsccp.Setup.Life.{
  Info, sccp_lines_deinit, release_device, unsubscribe_mwi, sccp_device_create,
  sccp_device_reload_config,
}
use wazo_libsccp.Setup.Register.{
  context_of, sccp_device_on_registration_success, sccp_device_destroy, on_extension_state_change,
  set_exten_state, tell,
}
use wazo_libsccp.Setup.Create.{one, own, Created, create-Created}
use wazo_libsccp.Setup.Watches.{Flagged, watched, destroy-watching}
use wazo_libsccp.Setup.Holds.{
  Holds, Own, configs_of, mailbox, Created-Holds, registration-Holds, device-Holds, destroy-Keeps,
}
use wazo_libsccp.Setup.Reload.{reload-Holds}

-- What happens to a device between its registration and its end: its calls change, after which
-- `calls` subchannels are alive, its configuration is reloaded, and a speed dial hears of its
-- extension's state.
pub data Turn : Type 0 where
  acts : (Device → Device) → (calls : ℕ) → Turn
  reloads : Option ℕ → Turn
  hears : (speeddial : ℕ) → ExtState → Turn

-- What was there before is there again.
pub record Restored (Q : Hints) (base w : World Q.H) : Type 0 where
  pub refs : (a : ℕ) → w.refs a ≡ base.refs a
  pub device_refs : w.device_refs ≡ 0
  pub caps_refs : w.caps_refs ≡ base.caps_refs
  pub mwi_subs : w.mwi_subs ≡ base.mwi_subs
  pub watches : (f : Watch → ℕ) → total f (Q.watching w.hints) ≡ total f (Q.watching base.hints)

module _ (Q : Hints) (C : Configs) where
  unfoldable pub turn : Turn → Phone × World Q.H → Phone × World Q.H
  unfolding sccp_device_reload_config on_extension_state_change
  turn (acts f n) (p, w) =
      (record p { device = f p.device; calls = n; line = record p.line { refs = 1 + n } }, w)
  turn (reloads new) (p, w) = let (ok, p', w') = sccp_device_reload_config C p new w in (p', w')
  turn (hears n s) (p, w) = (on_extension_state_change C n s p, w)

  unfoldable pub turns : List Turn → Phone × World Q.H → Phone × World Q.H
  unfolding turn
  turns [] r = r
  turns (t ∷ ts) r = turns ts (turn t r)

  -- The registration, then what happens, then the end, and the last reference is given back.
  unfoldable pub live :
      (DbKey → Option (List ℕ))
      → (inbox : Option ℕ) → (topic subscribed : Bool) → List Turn
      → Phone × World Q.H
      → World Q.H
  unfolding turns sccp_device_on_registration_success sccp_device_destroy release_device
  live ast_db_get inbox topic subscribed ts (p, w) =
      let r =
        turns ts (sccp_device_on_registration_success Q C ast_db_get inbox topic subscribed p w) in
      let (p', w') = sccp_device_destroy Q C r.0 r.1 in release_device p'.cfg p'.session w'

  heard_same :
      (f : Watch → ℕ) (c : List ℕ) (n : ℕ) (s : ExtState) (sds : List Speeddial) (a : ℕ)
      → (total (watched C f c) (set_exten_state n s sds) ≡ total (watched C f c) sds)
        × (configs_of a (set_exten_state n s sds) ≡ configs_of a sds)
        × (length (set_exten_state n s sds) ≡ length sds)
  unfolding set_exten_state
  heard_same f c n s [] a = (refl, refl, refl)
  heard_same f c zero s (sd ∷ sds) a = (refl, refl, refl)
  heard_same f c (suc n) s (sd ∷ sds) a =
      let (x, y, z) = heard_same f c n s sds a in
      (omega (arith, x), omega (arith, y), omega (arith, z))

  heard_kept :
      (n : ℕ) (s : ExtState) (sds : List Speeddial)
      → (Own sds → Own (set_exten_state n s sds))
        × (Flagged C sds → Flagged C (set_exten_state n s sds))
  unfolding set_exten_state
  heard_kept n s [] = (λ o. o, λ g. g)
  heard_kept zero s (sd ∷ sds) = (λ o. o, λ g. g)
  heard_kept (suc n) s (sd ∷ sds) =
      let (x, y) = heard_kept n s sds in (λ o. (o.0, x o.1), λ g. (g.0, y g.1))

  heard-Holds :
      (base : World Q.H) (n : ℕ) (s : ExtState) (p : Phone) (w : World Q.H)
      → Holds Q C base p w
      → Holds Q C base (record p { speeddials = set_exten_state n s p.speeddials }) w
  heard-Holds base n s p w h =
      let (x, y) = heard_kept n s p.speeddials in
      record {
        refs = λ a. let (i, j, k) = heard_same (λ q. 0) [] n s p.speeddials a in rw j (h.refs a);
        device_refs =
            let (i, j, k) = heard_same (λ q. 0) [] n s p.speeddials 0 in
            omega (arith, k, h.device_refs);
        caps_refs = h.caps_refs;
        line = h.line;
        each = x h.each;
        mwi = h.mwi;
        tracks = record {
          watches = λ f.
              let (i, j, k) = heard_same f (context_of Q C p) n s p.speeddials 0 in
              rw i (h.tracks.watches f);
          flagged = y h.tracks.flagged;
        };
      }

  told-Holds :
      (base : World Q.H) (p : Phone) (w : World Q.H) (o : Option Speeddial)
      → Holds Q C base p w
      → Holds Q C base (tell C p o) w
  unfolding tell
  told-Holds base p w none h = h
  told-Holds base p w (some sd) h = device-Holds Q C base p w _ h

  turn-Holds :
      (base : World Q.H) (t : Turn) (p : Phone) (w : World Q.H)
      → Holds Q C base p w
      → Holds Q C base (turn t (p, w)).0 (turn t (p, w)).1
  unfolding turn on_extension_state_change
  turn-Holds base (acts f n) p w h = record {
    refs = h.refs;
    device_refs = h.device_refs;
    caps_refs = h.caps_refs;
    line = refl;
    each = h.each;
    mwi = h.mwi;
    tracks = h.tracks;
  }
  turn-Holds base (reloads new) p w h = reload-Holds Q C base p new w h
  turn-Holds base (hears n s) p w h =
      let p' = record p { speeddials = set_exten_state n s p.speeddials } in
      let h' = heard-Holds base n s p w h in told-Holds base p' w (get_elem? p'.speeddials n) h'

  turns-Holds :
      (base : World Q.H) (ts : List Turn) (p : Phone) (w : World Q.H)
      → Holds Q C base p w
      → Holds Q C base (turns ts (p, w)).0 (turns ts (p, w)).1
  unfolding turns
  turns-Holds base [] p w h = h
  turns-Holds base (t ∷ ts) p w h =
      turns-Holds base ts (turn t (p, w)).0 (turn t (p, w)).1 (turn-Holds base t p w h)

  deinit_dials :
      (sds : List Speeddial) (w : World Q.H) (n : ℕ)
      → Own sds
      → w.device_refs ≡ n + length sds
      → ((a k : ℕ) → w.refs a ≡ k + configs_of a sds → (sccp_speeddials_deinit sds w).refs a ≡ k)
        × ((sccp_speeddials_deinit sds w).device_refs ≡ n)
        × ((sccp_speeddials_deinit sds w).caps_refs ≡ w.caps_refs)
        × ((sccp_speeddials_deinit sds w).mwi_subs ≡ w.mwi_subs)
        × ((sccp_speeddials_deinit sds w).hints ≡ w.hints)
  unfolding sccp_speeddials_deinit
  deinit_dials [] w n o d = (λ a k e. omega (arith, e), omega (arith, d), refl, refl, refl)
  deinit_dials (sd ∷ sds) w n (o, os) d =
      let w' = unref sd.cfg (record w { device_refs = w.device_refs - 1 }) in
      let (r, i, j, k, l) = deinit_dials sds w' n os (omega (arith, d)) in
      rw o ((λ a m e. r a m (ground (arith, e))), i, j, k, l)

  unsubscribed :
      (p : Phone) (w : World Q.H)
      → unsubscribe_mwi p w ≡ (
        record p { mwi_event_sub = false },
        record w { mwi_subs = w.mwi_subs - mailbox p.mwi_event_sub },
      )
  unfolding unsubscribe_mwi
  unsubscribed p w =
      if_eq p.mwi_event_sub _ (p, w) _
        (λ e.
          ap
            (λ b.
              (record p { mwi_event_sub = false }, record w { mwi_subs = w.mwi_subs - mailbox b }))
            (sym e))
        (λ e.
          let z : w.mwi_subs ≡ w.mwi_subs - mailbox p.mwi_event_sub =
            let o : w.mwi_subs ≡ w.mwi_subs - mailbox false = omega arith in
            o ∙ ap (λ b. w.mwi_subs - mailbox b) (sym e) in
          ap₂ (λ b n. (record p { mwi_event_sub = b }, record w { mwi_subs = n })) e z)

  deinit_line :
      (l : Line) (w : World Q.H)
      → l.refs ≡ 1
      → sccp_lines_deinit l w ≡ unref l.cfg (record w { device_refs = w.device_refs - 1 })
  unfolding sccp_lines_deinit
  deinit_line l w e = rw e refl

  -- The last reference frees the device.
  freed-Restored :
      (base w : World Q.H) (cfg session : ℕ)
      → ((a : ℕ) → w.refs a ≡ base.refs a + own cfg session a)
      → w.device_refs ≡ 1
      → w.caps_refs ≡ base.caps_refs + 1
      → w.mwi_subs ≡ base.mwi_subs
      → ((f : Watch → ℕ) → total f (Q.watching w.hints) ≡ total f (Q.watching base.hints))
      → Restored Q base (release_device cfg session w)
  unfolding release_device
  freed-Restored base w cfg session r d c m t = rw d (record {
    refs = λ a. ground (arith, r a);
    device_refs = omega arith;
    caps_refs = omega (arith, c);
    mwi_subs = m;
    watches = t;
  })

  -- Its line and its speed dials go before.
  deinit-Restored :
      (base w : World Q.H) (p : Phone)
      → Own p.speeddials
      → p.line.refs ≡ 1
      → ((a : ℕ)
          → w.refs a
            ≡ base.refs a
              + (own p.cfg p.session a + (one a p.line.cfg + configs_of a p.speeddials)))
      → w.device_refs ≡ 2 + length p.speeddials
      → w.caps_refs ≡ base.caps_refs + 1
      → w.mwi_subs ≡ base.mwi_subs
      → ((f : Watch → ℕ) → total f (Q.watching w.hints) ≡ total f (Q.watching base.hints))
      → Restored Q base (
          release_device p.cfg p.session
            (sccp_speeddials_deinit p.speeddials (sccp_lines_deinit p.line w)))
  deinit-Restored base w p o l r d c m t =
      let w' = unref p.line.cfg (record w { device_refs = w.device_refs - 1 }) in
      let (dr, dd, dc, dm, dh) = deinit_dials p.speeddials w' 1 o (omega (arith, d)) in
      rw (deinit_line p.line w l) (
        freed-Restored base (sccp_speeddials_deinit p.speeddials w') p.cfg p.session
          (λ a. dr a (base.refs a + own p.cfg p.session a) (ground (arith, r a))) dd (dc ∙ c)
          (dm ∙ m) (λ f. rw dh (t f)))

  -- The end of a device, from what it holds.
  destroyed-Restored :
      (base : World Q.H) (p : Phone) (w : World Q.H)
      → Holds Q C base p w
      → p.calls ≡ 0
      → Restored Q base (
          release_device
            (sccp_device_destroy Q C p w).0.cfg
            (sccp_device_destroy Q C p w).0.session
            (sccp_device_destroy Q C p w).1)
  unfolding sccp_device_destroy
  destroyed-Restored base p w h none_left =
      let w1 = sccp_speeddials_destroy Q C p.speeddials w in
      let k = destroy-Keeps Q C p.speeddials w in
      rw (unsubscribed p w1) (
        deinit-Restored base (record w1 { mwi_subs = w1.mwi_subs - mailbox p.mwi_event_sub }) p
          h.each (omega (arith, h.line, none_left)) (λ a. rw k.refs (h.refs a))
          (k.device_refs ∙ h.device_refs) (k.caps_refs ∙ h.caps_refs)
          (omega (arith, k.mwi_subs, h.mwi))
          (destroy-watching Q C base.hints (context_of Q C p) p.speeddials w h.tracks))

  -- A device that was created, registered and destroyed, whatever the allocations and Asterisk
  -- answered, however its calls changed, if none is alive when it is destroyed, and however often its
  -- configuration was reloaded and its extensions changed state in between: the reference counts of
  -- the configurations, the session, the capabilities and the device, the subscription to the mailbox
  -- and the subscriptions to extension states are what they were before.
  pub live-Restored :
      (cfg session : ℕ) (info : Info) (w w' : World Q.H) (p : Phone)
      (ast_db_get : DbKey → Option (List ℕ)) (inbox : Option ℕ) (topic subscribed : Bool)
      (ts : List Turn)
      → w.device_refs ≡ 0
      → sccp_device_create C (some cfg) (some session) (some info) w ≡ (some p, w')
      → (turns ts
          (sccp_device_on_registration_success Q C ast_db_get inbox topic subscribed p w')).0.calls
        ≡ 0
      → Restored Q w (live ast_db_get inbox topic subscribed ts (p, w'))
  unfolding live
  live-Restored cfg session info w w' p db inbox topic subscribed ts z e none_left =
      let created = subst (Created C cfg session w) e (create-Created C cfg session info w z) in
      let (h, u, m) = Created-Holds Q C cfg session w w' p z created in
      let h' = registration-Holds Q C w db inbox topic subscribed p w' u m h in
      destroyed-Restored w _ _ (turns-Holds w ts _ _ h') none_left
