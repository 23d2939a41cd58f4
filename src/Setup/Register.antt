-- ===== src/Setup/Register.antt =====
-- sccp_device.c: the registration and the end of a device, and the requests of the phone for data
-- that its configuration has.
use wazo_libsccp.Common.{
  ℕ, zero, suc, get_elem?, ◌+◌, ◌%◌, ◌==◌, ltb, Bool, false, List, [], ◌∷◌, Option, none, some,
  is_empty, if◌then◌else◌, length,
}
use wazo_libsccp.Device.Types.{
  Device, working, destroyed, reset, soft, devstate, unavailable, not_inuse, add_keepalive,
  session_stop, rtp_stop, rtp_destroy, queue_hangup, DbKey, register_ack, capabilities_req,
  voicemail_lamp, lamp_on, lamp_off, feature_status, line_status, speeddial_stat, button_template,
  config_status,
}
use wazo_libsccp.Device.Core.{◌▷◌, emit, send, modify, is_working, add_task, sccp_device_unlock}
use wazo_libsccp.Device.Forward.{
  init_dnd, init_callfwd, update_displaymessage, transmit_line_forward_status_res,
}
use wazo_libsccp.Device.Dial.{CallSetup, do_speeddial_action, handle_stimulus_voicemail}
use wazo_libsccp.Setup.Types.{Configs, ExtState, Speeddial, Line, Hints, World, Phone}
use wazo_libsccp.Setup.Speeddials.{
  sccp_speeddials_deinit, sccp_speeddials_destroy, sccp_speeddials_on_registration_success,
  sccp_speeddials_get_by_instance, sccp_speeddials_get_by_index, sccp_speeddial_status,
}
use wazo_libsccp.Setup.Life.{sccp_lines_deinit, subscribe_mwi, unsubscribe_mwi}

unfoldable pub sccp_subchannel_destroy : ℕ → Device → Device
unfolding add_task
sccp_subchannel_destroy p d = elim (d.heap p).channel [
  | some c ↦ (add_task (queue_hangup c) d).1
  | none ↦
      if (d.heap p).rtp
      then modify p (λ s. record s { rtp = false }) (d ▷ emit (rtp_stop p) ▷ emit (rtp_destroy p))
      else d
]

-- The loop of sccp_line_destroy; each subchannel leaves the list in its turn.
unfoldable pub destroy_subchans : List ℕ → Device → Device
unfolding sccp_subchannel_destroy
destroy_subchans [] d = d
destroy_subchans (p ∷ ps) d =
    destroy_subchans ps (record (sccp_subchannel_destroy p d) { subchans = ps })

unfoldable pub sccp_line_destroy : Device → Device
unfolding destroy_subchans
sccp_line_destroy d = emit (devstate unavailable) (destroy_subchans d.subchans d)

-- `inbox` is what ast_app_inboxcount says of new messages, `none` for -1.
unfoldable pub init_voicemail_lamp_state : (inbox : Option ℕ) → Device → Device
init_voicemail_lamp_state inbox d = if is_empty d.cfg.voicemail then d else elim inbox [
  | none ↦ d
  | some new_msgs ↦ send (voicemail_lamp (if new_msgs == 0 then lamp_off else lamp_on)) d
]

module _ (Q : Hints) (C : Configs) where
  abbrev pub context_of : Phone → List ℕ
  context_of p = (C.line_cfg p.line.cfg).context

  -- What is done under the lock.
  unfoldable pub register_locked : (DbKey → Option (List ℕ)) → (inbox : Option ℕ) → Phone → Device
  unfolding init_dnd init_callfwd init_voicemail_lamp_state update_displaymessage
  register_locked ast_db_get inbox p =
      let e =
        p.device
        ▷ send (register_ack (C.device_cfg p.cfg).dateformat (C.device_cfg p.cfg).keepalive)
        ▷ send capabilities_req
        ▷ init_dnd ast_db_get
        ▷ init_callfwd ast_db_get
        ▷ init_voicemail_lamp_state inbox
        ▷ update_displaymessage
        ▷ emit add_keepalive in
      emit (devstate not_inuse) (record e { device_state = working })

  unfoldable pub sccp_device_on_registration_success :
      (DbKey → Option (List ℕ))
      → (inbox : Option ℕ) → (topic subscribed : Bool) → Phone
      → World Q.H
      → Phone × World Q.H
  unfolding register_locked subscribe_mwi sccp_speeddials_on_registration_success
  sccp_device_on_registration_success ast_db_get inbox topic subscribed p w =
      let (p1, w1) =
        subscribe_mwi C topic subscribed
          (record p { device = sccp_device_unlock (register_locked ast_db_get inbox p) }) w in
      let (sds, w2) =
        sccp_speeddials_on_registration_success Q C (context_of p1) p1.speeddials w1 in
      (record p1 { speeddials = sds }, w2)

  -- What is done to the calls under the lock.
  unfoldable pub destroy_locked : Device → Device
  unfolding sccp_line_destroy
  destroy_locked d =
      let e = sccp_line_destroy d in
      record (if is_working e.device_state then send (reset soft) e else e) {
        device_state = destroyed;
      }

  unfoldable pub sccp_device_destroy : Phone → World Q.H → Phone × World Q.H
  unfolding sccp_speeddials_destroy unsubscribe_mwi sccp_lines_deinit sccp_speeddials_deinit
      destroy_locked
  sccp_device_destroy p w =
      let (p1, w1) = unsubscribe_mwi p (sccp_speeddials_destroy Q C p.speeddials w) in
      (
        record p1 { device = sccp_device_unlock (destroy_locked p1.device) },
        sccp_speeddials_deinit p1.speeddials (sccp_lines_deinit p1.line w1),
      )

unfoldable pub transmit_feature_status : Configs → Phone → Speeddial → Device → Device
unfolding sccp_speeddial_status
transmit_feature_status C p sd =
    send (
      feature_status sd.instance_ (sccp_speeddial_status C p.type sd)
        (C.speeddial_cfg sd.cfg).label)

-- The speed dial at a place of the array tells the phone its new state.
unfoldable pub set_exten_state : ℕ → ExtState → List Speeddial → List Speeddial
set_exten_state n s [] = []
set_exten_state zero s (sd ∷ sds) = record sd { exten_state = s } ∷ sds
set_exten_state (suc n) s (sd ∷ sds) = sd ∷ set_exten_state n s sds

-- The first line, then the speed dials while there is room in the array of 42.
unfoldable pub definitions : (n : ℕ) → List Speeddial → List (ℕ × ℕ)
definitions n [] = []
definitions n (sd ∷ sds) =
    let rest = definitions (n + 1) sds in if ltb n 42 then (21, sd.instance_ % 256) ∷ rest else []

unfoldable pub transmit_button_template_res : Phone → Device → Device
unfolding definitions
transmit_button_template_res p =
    send (button_template ((9, p.line.instance_ % 256) ∷ definitions 1 p.speeddials))

unfoldable pub transmit_config_status_res : Phone → Device → Device
transmit_config_status_res p = send (config_status 1 (length p.speeddials))

unfoldable pub handle_msg_feature_status_req : Configs → Phone → ℕ → Device → Device
unfolding transmit_feature_status sccp_speeddials_get_by_instance
handle_msg_feature_status_req C p i d = elim (sccp_speeddials_get_by_instance p.speeddials i) [
  | none ↦ emit session_stop d
  | some sd ↦ transmit_feature_status C p sd d
]

unfoldable pub sccp_lines_get_by_instance : Line → ℕ → Option Line
sccp_lines_get_by_instance l i = if l.instance_ == i then some l else none

unfoldable pub handle_msg_line_status_req : Configs → Phone → ℕ → Device → Device
unfolding sccp_lines_get_by_instance
handle_msg_line_status_req C p i d = elim (sccp_lines_get_by_instance p.line i) [
  | none ↦ emit session_stop d
  | some l ↦
      d
      ▷ send (line_status (C.line_cfg l.cfg).cid_name (C.line_cfg l.cfg).cid_num l.instance_)
      ▷ transmit_line_forward_status_res
]

unfoldable pub handle_msg_speeddial_status_req : Configs → Phone → ℕ → Device → Device
unfolding sccp_speeddials_get_by_index
handle_msg_speeddial_status_req C p index d =
    elim (sccp_speeddials_get_by_index p.speeddials index) [
      | none ↦ d
      | some sd ↦
          let cfg = C.speeddial_cfg sd.cfg in
          send (speeddial_stat sd.index cfg.extension cfg.label) d
    ]

unfoldable pub handle_stimulus_featurebutton : Configs → CallSetup → Phone → ℕ → Device → Device
unfolding do_speeddial_action sccp_speeddials_get_by_instance
handle_stimulus_featurebutton C setup p i d =
    elim (sccp_speeddials_get_by_instance p.speeddials i) [
      | none ↦ d
      | some sd ↦ do_speeddial_action setup (C.speeddial_cfg sd.cfg).extension d
    ]

unfoldable pub handle_stimulus_speeddial : Configs → CallSetup → Phone → ℕ → Device → Device
unfolding do_speeddial_action sccp_speeddials_get_by_index
handle_stimulus_speeddial C setup p index d =
    elim (sccp_speeddials_get_by_index p.speeddials index) [
      | none ↦ d
      | some sd ↦ do_speeddial_action setup (C.speeddial_cfg sd.cfg).extension d
    ]

unfoldable pub handle_msg_stimulus :
    Configs → CallSetup → Phone → (stimulus line_instance : ℕ) → Device → Device
unfolding handle_stimulus_featurebutton handle_stimulus_speeddial handle_stimulus_voicemail
handle_msg_stimulus C setup p stimulus i d =
    if stimulus == 21
    then handle_stimulus_featurebutton C setup p i d
    else if stimulus == 2
    then handle_stimulus_speeddial C setup p i d
    else if stimulus == 15
    then handle_stimulus_voicemail setup d
    else d

-- What the callback sends, for the speed dial that it is about.
unfoldable pub tell : Configs → Phone → Option Speeddial → Phone
unfolding transmit_feature_status
tell C p none = p
tell C p (some sd) = record p {
  device = sccp_device_unlock (transmit_feature_status C p sd p.device);
}

-- The callback of the speed dial at a place of the array.
unfoldable pub on_extension_state_change : Configs → ℕ → ExtState → Phone → Phone
unfolding tell set_exten_state
on_extension_state_change C n s p =
    let sds = set_exten_state n s p.speeddials in
    tell C (record p { speeddials = sds }) (get_elem? sds n)
