-- ===== src/Setup/Life.antt =====
-- sccp_device.c: the line of a device, then its creation, registration, reload and destruction, and
-- the requests of the phone for data that its configuration has.
use wazo_libsccp.Common.{
  ℕ, ◌+◌, ◌-◌, ◌==◌, Bool, true, false, ◌&&◌, not, List, [], ◌∷◌, Option, none, some, is_empty,
  if◌then◌else◌, same_bytes,
}
use wazo_libsccp.Device.Types.{Device, Subchan, cfwd_inactive, recv_closed, state_new, reset, soft}
use wazo_libsccp.Device.Core.{send, sccp_device_unlock}
use wazo_libsccp.Device.Calls.{sccp_device_is_idle}
use wazo_libsccp.Setup.Types.{Configs, Speeddial, Line, World, Phone, ref, unref, spend, config_of}
use wazo_libsccp.Setup.Speeddials.{
  sccp_speeddials_init, sccp_speeddials_test_apply_config, sccp_speeddials_apply_config, same_flag,
}

-- struct sccp_device_info, and the memory that the model of a device needs.
pub record Info : Type 0 where
  pub type : ℕ
  pub proto_version : ℕ
  pub time : ℕ
  pub heap : ℕ → Subchan
  pub item_size : ℕ

-- The enumerators of enum sccp_device_type that the switch lists.
abbrev pub device_types : List ℕ
device_types =
    20000 ∷ 369 ∷ 307 ∷ 30007 ∷ 30002 ∷ 365 ∷ 348 ∷ 431 ∷ 8 ∷ 115 ∷ 309 ∷ 434 ∷ 435 ∷ 7 ∷ 30018
    ∷ 404 ∷ 436 ∷ 30006 ∷ 119 ∷ 118 ∷ 437 ∷ 586 ∷ 585 ∷ 30016 ∷ []

unfoldable pub one_of : List ℕ → ℕ → Bool
one_of [] t = false
one_of (u ∷ us) t = if u == t then true else one_of us t

unfoldable pub device_type_is_supported : ℕ → Bool
unfolding one_of
device_type_is_supported t = one_of device_types t

-- A new device, whose memory is zeroed.
unfoldable pub new_device : Configs → Info → (cfg : ℕ) → Line → Device
new_device C info cfg line = record {
  heap = info.heap;
  subchans = [];
  next_ptr = 0;
  active_subchan = none;
  nolock_tasks = record { containers = []; item_size = info.item_size };
  serial_callid = info.time;
  callfwd_id = 0;
  callfwd = cfwd_inactive;
  recv_chan_status = recv_closed;
  device_state = state_new;
  dnd = false;
  reset_on_idle = false;
  fault = false;
  proto_version = info.proto_version;
  exten = [];
  last_exten = [];
  callfwd_exten = [];
  cfg = config_of C line.instance_ cfg line.cfg;
  mem = λ k. true;
  out = [];
}

abbrev pub phone_with : Configs → Info → (cfg session : ℕ) → Line → List Speeddial → Phone
phone_with C info cfg session line sds = record {
  cfg = cfg;
  session = session;
  line = line;
  speeddials = sds;
  mwi_event_sub = false;
  calls = 0;
  type = info.type;
  device = new_device C info cfg line;
}

module _ {H : Type 0} where
  unfoldable pub sccp_line_destructor : Line → World H → World H
  sccp_line_destructor l w = unref l.cfg (record w { device_refs = w.device_refs - 1 })

  unfoldable pub sccp_line_alloc : Configs → (cfg instance_ : ℕ) → World H → Option Line × World H
  sccp_line_alloc C cfg i w =
      if w.mem 0
      then (
        some (record { refs = 1; cfg = cfg; instance_ = i; name = (C.line_cfg cfg).name }),
        ref cfg (record (spend w) { device_refs = w.device_refs + 1 }),
      )
      else (none, spend w)

  -- `ao2_ref(lines->line, -1)`: a line that calls still hold is not freed.
  unfoldable pub sccp_lines_deinit : Line → World H → World H
  unfolding sccp_line_destructor
  sccp_lines_deinit l w = if l.refs == 1 then sccp_line_destructor l w else w

  -- What is left of it: the queue and the lock are freed.
  unfoldable pub sccp_device_destructor : (cfg session : ℕ) → World H → World H
  sccp_device_destructor cfg session w =
      unref cfg (unref session (record w { caps_refs = w.caps_refs - 1 }))

  -- `ao2_ref(device, -1)`
  unfoldable pub release_device : (cfg session : ℕ) → World H → World H
  unfolding sccp_device_destructor
  release_device cfg session w =
      let w' = record w { device_refs = w.device_refs - 1 } in
      if w.device_refs == 1 then sccp_device_destructor cfg session w' else w'

  -- The allocations of the capabilities and of the device, which has one reference.
  unfoldable pub alloc_device : (cfg session : ℕ) → World H → Bool × World H
  alloc_device cfg session w =
      if w.mem 0
      then (if w.mem 1
          then (
            true,
            ref cfg (
                ref session
                  (record (spend (spend w)) { caps_refs = w.caps_refs + 1; device_refs = 1 })),
          )
          else (false, record (spend (spend w)) { caps_refs = w.caps_refs + 1 - 1 }))
      else (false, spend w)

  -- What follows the speed dials, and what follows the line.
  unfoldable pub after_speeddials :
      Configs
      → (cfg session : ℕ) → Info
      → Line
      → Option (List Speeddial) × World H
      → Option Phone × World H
  unfolding sccp_lines_deinit release_device new_device
  after_speeddials C cfg session info l (some sds, w) =
      (some (phone_with C info cfg session l sds), w)
  after_speeddials C cfg session info l (none, w) =
      (none, release_device cfg session (sccp_lines_deinit l w))

  unfoldable pub after_line :
      Configs → (cfg session : ℕ) → Info → Option Line × World H → Option Phone × World H
  unfolding after_speeddials sccp_speeddials_init release_device
  after_line C cfg session info (none, w) = (none, release_device cfg session w)
  after_line C cfg session info (some l, w) =
      after_speeddials C cfg session info l
        (sccp_speeddials_init (C.device_cfg cfg).speeddials_cfg 2 w)

  -- Once the device is allocated: the line of instance 1, then the speed dials from instance 2 on.
  unfoldable pub init_device : Configs → (cfg session : ℕ) → Info → World H → Option Phone × World H
  unfolding sccp_line_alloc after_line
  init_device C cfg session info w =
      after_line C cfg session info (sccp_line_alloc C (C.device_cfg cfg).line_cfg 1 w)

  -- Null arguments are `none`.
  unfoldable pub sccp_device_create :
      Configs → (cfg session : Option ℕ) → Option Info → World H → Option Phone × World H
  unfolding alloc_device init_device device_type_is_supported
  sccp_device_create C none session info w = (none, w)
  sccp_device_create C (some cfg) none info w = (none, w)
  sccp_device_create C (some cfg) (some session) none w = (none, w)
  sccp_device_create C (some cfg) (some session) (some info) w =
      let (ok, w1) = alloc_device cfg session w in
      if device_type_is_supported info.type
      then (if ok then init_device C cfg session info w1 else (none, w1))
      else (none, w)

  -- `topic` and `subscribed` are what ast_mwi_topic and stasis_subscribe_pool answer.
  unfoldable pub subscribe_mwi :
      Configs → (topic subscribed : Bool) → Phone → World H → Phone × World H
  subscribe_mwi C topic subscribed p w =
      if is_empty (C.device_cfg p.cfg).voicemail
      then (p, w)
      else if topic && subscribed
      then (record p { mwi_event_sub = true }, record w { mwi_subs = w.mwi_subs + 1 })
      else if topic
      then (record p { mwi_event_sub = false }, w)
      else (p, w)

  unfoldable pub unsubscribe_mwi : Phone → World H → Phone × World H
  unsubscribe_mwi p w =
      if p.mwi_event_sub
      then (record p { mwi_event_sub = false }, record w { mwi_subs = w.mwi_subs - 1 })
      else (p, w)

unfoldable pub sccp_lines_test_apply_config : Configs → Line → ℕ → Bool
sccp_lines_test_apply_config C l new =
    let old = C.line_cfg l.cfg in
    let cfg = C.line_cfg (C.device_cfg new).line_cfg in
    if not (same_bytes old.name cfg.name)
    then false
    else if not (same_bytes old.cid_num cfg.cid_num)
    then false
    else if not (same_bytes old.cid_name cfg.cid_name)
    then false
    else if not (same_bytes old.context cfg.context)
    then false
    else true

unfoldable pub sccp_device_test_apply_config : Configs → Phone → ℕ → Bool
unfolding sccp_lines_test_apply_config sccp_speeddials_test_apply_config
sccp_device_test_apply_config C p new =
    let old = C.device_cfg p.cfg in
    let cfg = C.device_cfg new in
    if not (same_flag old.guest cfg.guest)
    then false
    else if not (same_bytes old.dateformat cfg.dateformat)
    then false
    else if not (same_bytes old.voicemail cfg.voicemail)
    then false
    else if not (same_bytes old.timezone cfg.timezone)
    then false
    else if not (old.keepalive == cfg.keepalive)
    then false
    else if not (sccp_lines_test_apply_config C p.line new)
    then false
    else if not (sccp_speeddials_test_apply_config C p.speeddials cfg.speeddials_cfg)
    then false
    else true

module _ {H : Type 0} where
  unfoldable pub sccp_lines_apply_config : Configs → Line → ℕ → World H → Line × World H
  sccp_lines_apply_config C l new w =
      let cfg = (C.device_cfg new).line_cfg in (record l { cfg = cfg }, ref cfg (unref l.cfg w))

  -- From the second lock on. The calls read the new configuration from then on.
  unfoldable pub apply_config : Configs → Phone → ℕ → World H → Phone × World H
  unfolding sccp_lines_apply_config sccp_speeddials_apply_config
  apply_config C p new w =
      let (l, w1) = sccp_lines_apply_config C p.line new (ref new (unref p.cfg w)) in
      let (sds, w2) =
        sccp_speeddials_apply_config p.speeddials (C.device_cfg new).speeddials_cfg w1 in
      (
        record p {
          cfg = new;
          line = l;
          speeddials = sds;
          device = sccp_device_unlock (record p.device { cfg = config_of C l.instance_ new l.cfg });
        },
        w2,
      )

  unfoldable pub sccp_device_reload_config :
      Configs → Phone → Option ℕ → World H → Bool × Phone × World H
  unfolding sccp_device_test_apply_config apply_config
  sccp_device_reload_config C p none w = (false, p, w)
  sccp_device_reload_config C p (some new) w =
      if sccp_device_test_apply_config C p new
      then (let (p', w') = apply_config C p new w in (true, p', w'))
      else (
        true,
        record p {
          device = sccp_device_unlock (
              if sccp_device_is_idle p.device
              then send (reset soft) p.device
              else record p.device { reset_on_idle = true });
        },
        w,
      )
