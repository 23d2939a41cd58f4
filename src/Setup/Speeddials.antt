-- ===== src/Setup/Speeddials.antt =====
-- sccp_device.c: the speed dials of a device, from sccp_speeddial_destructor to
-- sccp_speeddials_apply_config.
use wazo_libsccp.Common.{
  ℕ, ◌+◌, ◌-◌, ◌%◌, ◌^◌, ◌==◌, Bool, true, false, ◌&&◌, not, List, [], ◌∷◌, Option, none, some,
  if◌then◌else◌, get_elem?, same_bytes,
}
use wazo_libsccp.Device.Types.{BlfStatus, blf_unknown, blf_idle, blf_inuse, blf_alerting}
use wazo_libsccp.Device.Core.{next_u32}
use wazo_libsccp.Setup.Types.{
  SpeeddialCfg, Configs, ExtState, ext_removed, ext_deactivated, ext, Speeddial, Hints, World, ref,
  unref, spend,
}

-- `a->blf != b->blf`
abbrev pub same_flag : Bool → Bool → Bool
same_flag true b = b
same_flag false b = not b

-- What `ao2_ref(device, -1)` and the destructor of a speed dial do; the device is not freed here,
-- since its session holds it.
unfoldable pub sccp_speeddial_destructor : {H : Type 0} → Speeddial → World H → World H
sccp_speeddial_destructor sd w = unref sd.cfg (record w { device_refs = w.device_refs - 1 })

-- `ao2_ref(sd, -1)`
unfoldable pub release_speeddial : {H : Type 0} → Speeddial → World H → World H
unfolding sccp_speeddial_destructor
release_speeddial sd w = if sd.refs == 1 then sccp_speeddial_destructor sd w else w

unfoldable pub sccp_speeddial_alloc :
    {H : Type 0} → (cfg instance_ index : ℕ) → World H → Option Speeddial × World H
sccp_speeddial_alloc cfg i index w =
    if w.mem 0
    then (
      some (record {
        refs = 1;
        cfg = cfg;
        instance_ = i;
        index = index;
        exten_state_cb_id = none;
        exten_state = ext 0;
      }),
      ref cfg (record (spend w) { device_refs = w.device_refs + 1 }),
    )
    else (none, spend w)

-- What a turn of the loop of sccp_speeddials_init makes of the later turns. On a failure there the
-- speed dial of this turn is released.
unfoldable pub keep_made :
    {H : Type 0} → Speeddial → Option (List Speeddial) × World H → Option (List Speeddial) × World H
unfolding release_speeddial
keep_made sd (some sds, w) = (some (sd ∷ sds), w)
keep_made sd (none, w) = (none, release_speeddial sd w)

-- A turn: what was allocated, and the later turns.
unfoldable pub after_made :
    {H : Type 0}
    → Option Speeddial × World H
    → Option (List Speeddial) × World H
    → Option (List Speeddial) × World H
unfolding keep_made
after_made (none, w) rest = (none, w)
after_made (some sd, w) rest = keep_made sd rest

-- The loop of sccp_speeddials_init, with the release of the speed dials made so far, the last one
-- first.
unfoldable pub alloc_each :
    {H : Type 0} → (instance_ index : ℕ) → List ℕ → World H → Option (List Speeddial) × World H
unfolding after_made sccp_speeddial_alloc
alloc_each i index [] w = (some [], w)
alloc_each i index (c ∷ cs) w =
    let made = sccp_speeddial_alloc c i index w in
    let rest = alloc_each (next_u32 i) (next_u32 index) cs made.1 in after_made made rest

-- The speed dials, `none` for -1. The array is an allocation of its own.
unfoldable pub sccp_speeddials_init :
    {H : Type 0} → List ℕ → (instance_ : ℕ) → World H → Option (List Speeddial) × World H
unfolding alloc_each
sccp_speeddials_init [] i w = (some [], w)
sccp_speeddials_init (c ∷ cs) i w =
    if w.mem 0 then alloc_each i 1 (c ∷ cs) (spend w) else (none, spend w)

unfoldable pub sccp_speeddials_deinit : {H : Type 0} → List Speeddial → World H → World H
unfolding release_speeddial
sccp_speeddials_deinit [] w = w
sccp_speeddials_deinit (sd ∷ sds) w = sccp_speeddials_deinit sds (release_speeddial sd w)

-- `state & AST_EXTENSION_INUSE`, then the values RINGING, UNAVAILABLE, BUSY, ONHOLD and NOT_INUSE. The
-- types 7940 and 7960 are 8 and 7.
unfoldable pub extstate_ast2sccp : (device_type : ℕ) → ExtState → BlfStatus
extstate_ast2sccp type ext_deactivated = blf_unknown
extstate_ast2sccp type ext_removed = blf_unknown
extstate_ast2sccp type (ext mask) =
    if mask % 2 == 1
    then blf_inuse
    else if mask == 8
    then (if (type == 8) then blf_inuse else if type == 7 then blf_inuse else blf_alerting)
    else if mask == 4
    then blf_unknown
    else if mask == 2
    then blf_inuse
    else if mask == 16
    then blf_inuse
    else if mask == 0
    then blf_idle
    else blf_unknown

unfoldable pub sccp_speeddial_status : Configs → (device_type : ℕ) → Speeddial → BlfStatus
unfolding extstate_ast2sccp
sccp_speeddial_status C type sd =
    if (C.speeddial_cfg sd.cfg).blf then extstate_ast2sccp type sd.exten_state else blf_unknown

module _ (Q : Hints) (C : Configs) where
  -- `context` is that of the default line.
  unfoldable pub sccp_speeddial_add_extension_state_cb :
      (context : List ℕ) → Speeddial → World Q.H → Speeddial × World Q.H
  sccp_speeddial_add_extension_state_cb context sd w =
      let exten = (C.speeddial_cfg sd.cfg).extension in
      let (id, h) = Q.add w.hints context exten in
      (
        record sd { exten_state = Q.state w.hints context exten; exten_state_cb_id = id },
        record w { hints = h },
      )

  unfoldable pub sccp_speeddial_del_extension_state_cb : Speeddial → World Q.H → World Q.H
  sccp_speeddial_del_extension_state_cb sd w = elim sd.exten_state_cb_id [
    | none ↦ w
    | some id ↦ record w { hints = Q.del w.hints id }
  ]

  unfoldable pub sccp_speeddials_on_registration_success :
      (context : List ℕ) → List Speeddial → World Q.H → List Speeddial × World Q.H
  unfolding sccp_speeddial_add_extension_state_cb
  sccp_speeddials_on_registration_success context [] w = ([], w)
  sccp_speeddials_on_registration_success context (sd ∷ sds) w =
      let (sd', w1) =
        if (C.speeddial_cfg sd.cfg).blf
        then sccp_speeddial_add_extension_state_cb context sd w
        else (sd, w) in
      let (sds', w2) = sccp_speeddials_on_registration_success context sds w1 in (sd' ∷ sds', w2)

  unfoldable pub sccp_speeddials_destroy : List Speeddial → World Q.H → World Q.H
  unfolding sccp_speeddial_del_extension_state_cb
  sccp_speeddials_destroy [] w = w
  sccp_speeddials_destroy (sd ∷ sds) w =
      sccp_speeddials_destroy sds
        (if (C.speeddial_cfg sd.cfg).blf then sccp_speeddial_del_extension_state_cb sd w else w)

unfoldable pub sccp_speeddials_get_by_instance : List Speeddial → ℕ → Option Speeddial
sccp_speeddials_get_by_instance [] i = none
sccp_speeddials_get_by_instance (sd ∷ sds) i =
    if sd.instance_ == i then some sd else sccp_speeddials_get_by_instance sds i

-- The difference is one of `uint32_t`s.
unfoldable pub sccp_speeddials_get_by_index : List Speeddial → ℕ → Option Speeddial
sccp_speeddials_get_by_index sds index = get_elem? sds ((index + 2 ^ 32 - 1) % 2 ^ 32)

-- One turn of the loop of sccp_speeddials_test_apply_config.
unfoldable pub test_speeddial : SpeeddialCfg → SpeeddialCfg → Bool
test_speeddial old new =
    if not (same_bytes old.label new.label)
    then false
    else if not (same_flag old.blf new.blf)
    then false
    else if new.blf && not (same_bytes old.extension new.extension)
    then false
    else true

-- The counts differ, or the loop; a list that ends before the other has another count.
unfoldable pub sccp_speeddials_test_apply_config : Configs → List Speeddial → List ℕ → Bool
unfolding test_speeddial
sccp_speeddials_test_apply_config C [] [] = true
sccp_speeddials_test_apply_config C [] (c ∷ cs) = false
sccp_speeddials_test_apply_config C (sd ∷ sds) [] = false
sccp_speeddials_test_apply_config C (sd ∷ sds) (c ∷ cs) =
    test_speeddial (C.speeddial_cfg sd.cfg) (C.speeddial_cfg c)
    && sccp_speeddials_test_apply_config C sds cs

-- The two arrays have one length when this is called; past the end of the new one nothing is read.
unfoldable pub sccp_speeddials_apply_config :
    {H : Type 0} → List Speeddial → List ℕ → World H → List Speeddial × World H
sccp_speeddials_apply_config [] cs w = ([], w)
sccp_speeddials_apply_config (sd ∷ sds) [] w = (sd ∷ sds, w)
sccp_speeddials_apply_config (sd ∷ sds) (c ∷ cs) w =
    let (sds', w') = sccp_speeddials_apply_config sds cs (ref c (unref sd.cfg w)) in
    (record sd { cfg = c } ∷ sds', w')
