-- ===== src/Setup/Watches.antt =====
-- sccp_device.c: the subscriptions to extension states that the speed dials of a device have.
use wazo_libsccp.Common.{
  ℕ, ◌+◌, ◌≤◌, ◌≡◌, refl, sym, ap, ap₂, Bool, true, ◌&&◌, List, [], ◌∷◌, Option, none, some, total,
  total-indicator, count, inl, inr, arith, Bool-cases, Option-cases, if◌then◌else◌, same_bytes_refl,
  same_bytes_eq, ==_refl,
}
use wazo_libsccp.Setup.Types.{
  ref, unref, Configs, SpeeddialCfg, Speeddial, Watch, is_watch, Hints, World,
}
use wazo_libsccp.Setup.Speeddials.{
  sccp_speeddial_add_extension_state_cb, sccp_speeddials_on_registration_success,
  sccp_speeddials_destroy, sccp_speeddial_del_extension_state_cb, sccp_speeddials_test_apply_config,
  sccp_speeddials_apply_config, test_speeddial,
}

abbrev pub weigh : (Watch → ℕ) → (context extension : List ℕ) → Option ℕ → ℕ
weigh f c e none = 0
weigh f c e (some i) = f (record { id = i; context = c; extension = e })

-- What a speed dial is subscribed to: its extension, in the context of the line.
abbrev pub watched : Configs → (Watch → ℕ) → (context : List ℕ) → Speeddial → ℕ
watched C f c sd = weigh f c (C.speeddial_cfg sd.cfg).extension sd.exten_state_cb_id

abbrev pub NoneOr : Bool → Option ℕ → Type 0
NoneOr b none = Unit {0}
NoneOr b (some i) = b ≡ true

-- Only speed dials with the flag `blf` are subscribed.
abbrev pub Flagged : Configs → List Speeddial → Type 0
Flagged C [] = Unit {0}
Flagged C (sd ∷ sds) = NoneOr (C.speeddial_cfg sd.cfg).blf sd.exten_state_cb_id × Flagged C sds

abbrev pub Unsubscribed : List Speeddial → Type 0
Unsubscribed [] = Unit {0}
Unsubscribed (sd ∷ sds) = (sd.exten_state_cb_id ≡ none) × Unsubscribed sds

module _ (Q : Hints) (C : Configs) where
  -- The subscriptions are those there were, and one for each subscribed speed dial.
  pub record Tracks (base : Q.H) (context : List ℕ) (sds : List Speeddial) (h : Q.H) : Type 0 where
    pub watches :
        (f : Watch → ℕ)
        → total f (Q.watching h) ≡ total (watched C f context) sds + total f (Q.watching base)
    pub flagged : Flagged C sds

  add-NoneOr : (b : Bool) (o : Option ℕ) → b ≡ true → NoneOr b o
  add-NoneOr b none e = tt
  add-NoneOr b (some i) e = e

  add-weigh :
      (h : Q.H) (c e : List ℕ) (f : Watch → ℕ)
      → total f (Q.watching (Q.add h c e).1) ≡ weigh f c e (Q.add h c e).0 + total f (Q.watching h)
  add-weigh h c e f = elim (Option-cases (Q.add h c e).0) [
    | inl n ↦ rw (n, Q.add_none h c e n) (omega arith)
    | inr (i, s) ↦ rw s (Q.add_some h c e i f s)
  ]

  pub register-Tracks :
      (context : List ℕ) (sds : List Speeddial) (w : World Q.H)
      → Unsubscribed sds
      → Tracks w.hints context
          (sccp_speeddials_on_registration_success Q C context sds w).0
          (sccp_speeddials_on_registration_success Q C context sds w).1.hints
  unfolding sccp_speeddials_on_registration_success
  register-Tracks context [] w u = record { watches = λ f. omega arith; flagged = tt }
  register-Tracks context (sd ∷ sds) w (n, u) = elim (Bool-cases (C.speeddial_cfg sd.cfg).blf) [
    | inl e ↦
        let ih =
          register-Tracks context sds (sccp_speeddial_add_extension_state_cb Q C context sd w).1
            u in
        rw e (record {
          watches = λ f.
              omega (
                arith,
                ih.watches f,
                add-weigh w.hints context (C.speeddial_cfg sd.cfg).extension f,
              );
          flagged = (add-NoneOr (C.speeddial_cfg sd.cfg).blf _ e, ih.flagged);
        })
    | inr e ↦
        let ih = register-Tracks context sds w u in
        rw e (record {
          watches = λ f. rw n (omega (arith, ih.watches f));
          flagged = (rw n tt, ih.flagged);
        })
  ]

  is_watch_refl : (x : Watch) → is_watch x x ≡ true
  is_watch_refl x = rw (==_refl x.id, same_bytes_refl x.context, same_bytes_refl x.extension) refl

  count_own :
      (base h : Q.H) (x : Watch) (n : ℕ)
      → total (λ y. if is_watch x y then 1 else 0) (Q.watching h)
        ≡ (if is_watch x x then 1 else 0) + n
      → 1 ≤ count (is_watch x) (Q.watching h)
  count_own base h x n e =
      let own = is_watch_refl x in
      let e' = total-indicator (is_watch x) (Q.watching h) in ground (arith, own, e, e')

  same_without :
      (sd : Speeddial) (w : World Q.H)
      → sd.exten_state_cb_id ≡ none
      → (if (C.speeddial_cfg sd.cfg).blf then sccp_speeddial_del_extension_state_cb Q C sd w else w)
        ≡ w
  unfolding sccp_speeddial_del_extension_state_cb
  same_without sd w n = rw n (ground arith)

  destroy_one :
      (base : Q.H) (context : List ℕ) (sd : Speeddial) (sds : List Speeddial) (w : World Q.H)
      → Tracks base context (sd ∷ sds) w.hints
      → Tracks base context sds
          (if (C.speeddial_cfg sd.cfg).blf
            then sccp_speeddial_del_extension_state_cb Q C sd w
            else w).hints
  unfolding sccp_speeddial_del_extension_state_cb
  destroy_one base context sd sds w t = elim (Option-cases sd.exten_state_cb_id) [
    | inl n ↦ rw (same_without sd w n) (record {
      watches = λ f. let e = rw n at (t.watches f) in omega (arith, e);
      flagged = t.flagged.1;
    })
    | inr (i, s) ↦
        let blf : (C.speeddial_cfg sd.cfg).blf ≡ true = rw s at (t.flagged.0) in
        let x : Watch = record {
          id = i;
          context = context;
          extension = (C.speeddial_cfg sd.cfg).extension;
        } in
        let e : (f : Watch → ℕ)
            → total f (Q.watching w.hints)
              ≡ f x + (total (watched C f context) sds + total f (Q.watching base)) =
          λ f. let e' = rw s at (t.watches f) in omega (arith, e') in
        let here = count_own base w.hints x _ (e (λ y. if is_watch x y then 1 else 0)) in
        rw (blf, s)
          (record {
            watches = λ f. omega (arith, e f, Q.del_removes w.hints x f here);
            flagged = t.flagged.1;
          })
  ]

  pub destroy-watching :
      (base : Q.H) (context : List ℕ) (sds : List Speeddial) (w : World Q.H)
      → Tracks base context sds w.hints
      → (f : Watch → ℕ)
      → total f (Q.watching (sccp_speeddials_destroy Q C sds w).hints) ≡ total f (Q.watching base)
  unfolding sccp_speeddials_destroy
  destroy-watching base context [] w t f = omega (arith, t.watches f)
  destroy-watching base context (sd ∷ sds) w t f =
      destroy-watching base context sds
        (if (C.speeddial_cfg sd.cfg).blf then sccp_speeddial_del_extension_state_cb Q C sd w else w)
        (destroy_one base context sd sds w t) f

-- What the test of one speed dial finds out.
test-blf :
    (old new : SpeeddialCfg)
    → test_speeddial old new ≡ true
    → old.blf ≡ true
    → (new.blf ≡ true) × (old.extension ≡ new.extension)
unfolding test_speeddial
test-blf old new e b =
    let n : new.blf ≡ true = ground arith in
    (n, same_bytes_eq old.extension new.extension (ground (arith, n)))

same_watch :
    (C : Configs) (f : Watch → ℕ) (context : List ℕ) (old new : ℕ) (o : Option ℕ)
    → test_speeddial (C.speeddial_cfg old) (C.speeddial_cfg new) ≡ true
    → NoneOr (C.speeddial_cfg old).blf o
    → (weigh f context (C.speeddial_cfg new).extension o
        ≡ weigh f context (C.speeddial_cfg old).extension o)
      × NoneOr (C.speeddial_cfg new).blf o
same_watch C f context old new none e b = (refl, tt)
same_watch C f context old new (some i) e b =
    let (n, x) = test-blf (C.speeddial_cfg old) (C.speeddial_cfg new) e b in
    (ap (λ t. weigh f context t (some i)) (sym x), n)

both : (a b : Bool) → (a && b) ≡ true → (a ≡ true) × (b ≡ true)
both a b e = ground arith

pub apply-watches :
    {H : Type 0} (C : Configs) (f : Watch → ℕ) (context : List ℕ) (sds : List Speeddial)
    (cs : List ℕ) (w : World H)
    → sccp_speeddials_test_apply_config C sds cs ≡ true
    → Flagged C sds
    → (total (watched C f context) (sccp_speeddials_apply_config sds cs w).0
        ≡ total (watched C f context) sds)
      × Flagged C (sccp_speeddials_apply_config sds cs w).0
unfolding sccp_speeddials_test_apply_config sccp_speeddials_apply_config
apply-watches C f context [] cs w e g = (refl, g)
apply-watches C f context (sd ∷ sds) [] w e g = (refl, g)
apply-watches C f context (sd ∷ sds) (c ∷ cs) w e (b, g) =
    let (t, r) = both _ _ e in
    let (x, b') = same_watch C f context sd.cfg c sd.exten_state_cb_id t b in
    let (y, g') = apply-watches C f context sds cs (ref c (unref sd.cfg w)) r g in
    (ap₂ (λ (m n : ℕ). m + n) x y, (b', g'))
