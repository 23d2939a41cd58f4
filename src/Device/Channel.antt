-- ===== src/Device/Channel.antt =====
-- sccp_device.c: what Asterisk asks of a device through its channels, and the timers of a device.
use wazo_libsccp.Common.{
  ℕ, Bool, true, false, not, ◌&&◌, List, Option, none, some, if◌then◌else◌, is_some, is_empty,
}
use wazo_libsccp.Device.Types.{
  Device, devstate, DevState, unavailable, not_inuse, inuse, ringing, rtp_stop, rtp_destroy,
  session_stop, ringer, ring_inside, callinfo, line_lamp, lamp_blink, ringin, connected, key_ringin,
  key_connected, incoming, DeviceState, connlost, destroyed, CfwdStatus, cfwd_inactive,
}
use wazo_libsccp.Device.Core.{
  ◌▷◌, emit, send, modify, sccp_device_unlock, transmit_subchan_callstate,
  transmit_subchan_selectsoftkeys, transmit_subchan_stop_tone,
  transmit_subchan_open_receive_channel,
}
use wazo_libsccp.Device.Calls.{
  is_ptr, sccp_line_new_subchannel, do_clear_subchannel, do_answer_options,
}
use wazo_libsccp.Device.Forward.{is_cfwd_active, set_callforward_from_device_exten}
use wazo_libsccp.Device.Dial.{CallSetup, sccp_subchannel_set_channel, start_the_call}

abbrev pub is_destroyed : DeviceState → Bool
is_destroyed destroyed = true
is_destroyed _ = false

abbrev pub is_cfwd_inactive : CfwdStatus → Bool
is_cfwd_inactive cfwd_inactive = true
is_cfwd_inactive _ = false

-- What a refused request says: the cause AST_CAUSE_BUSY, or nothing; and else where calls go to.
pub data Requested : Type 0 where
  busy_here refused : Requested
  accepted : (forward_to : Option (List ℕ)) → Requested

-- channel_tech_requester_locked, with the new subchannel.
unfoldable pub requester_subchan :
    (autoanswer : Bool) → Option ℕ → ℕ → Option ℕ × Device → Requested × Device
requester_subchan auto framing c (none, d) = (refused, d)
requester_subchan auto framing c (some p, d) =
    let (ok, e) = sccp_subchannel_set_channel framing c p d in
    if ok
    then (
      accepted (if is_cfwd_active d.callfwd then some d.callfwd_exten else none),
      (if auto then modify p (λ s. record s { autoanswer = true }) e else e),
    )
    else (refused, do_clear_subchannel p d)

-- `auto` tells whether the options ask for an automatic answer.
unfoldable pub channel_tech_requester_locked :
    (autoanswer : Bool) → Option ℕ → ℕ → Device → Requested × Device
unfolding requester_subchan
channel_tech_requester_locked auto framing c d =
    if is_destroyed d.device_state
    then (refused, d)
    else if d.dnd && is_cfwd_inactive d.callfwd
    then (busy_here, d)
    else requester_subchan auto framing c (sccp_line_new_subchannel incoming d)

unfoldable pub sccp_channel_tech_devicestate : Device → DevState
sccp_channel_tech_devicestate d =
    if is_destroyed d.device_state
    then unavailable
    else if is_empty d.subchans
    then not_inuse
    else inuse

-- The phone shows a call that comes in. `number` is that of the caller.
unfoldable pub show_ringin : List ℕ → ℕ → Device → Device
show_ringin number p d =
    let e = modify p (λ s. record s { state = ringin }) d in
    (if not (is_some d.active_subchan) && not (d.heap p).autoanswer
      then send (ringer ring_inside) e
      else e)
    ▷ transmit_subchan_callstate p ringin
    ▷ transmit_subchan_selectsoftkeys p key_ringin
    ▷ send (callinfo number d.cfg.cid_num d.cfg.line_instance (d.heap p).id (d.heap p).direction)
    ▷ send (line_lamp d.cfg.line_instance lamp_blink)

-- The call waits for an answer, or is answered at once.
unfoldable pub ring : List ℕ → ℕ → Device → Device
ring number p d =
    if (d.heap p).autoanswer
    then (do_answer_options true p (show_ringin number p d)).1
    else emit (devstate ringing) (show_ringin number p d)

unfoldable pub sccp_channel_tech_call : List ℕ → ℕ → Device → Bool × Device
unfolding ring
sccp_channel_tech_call number p d =
    if is_destroyed d.device_state
    then (false, sccp_device_unlock d)
    else if is_cfwd_active d.callfwd
    then (true, sccp_device_unlock d)
    else (true, sccp_device_unlock (ring number p d))

unfoldable pub hangup_destroyed : ℕ → Device → Device
hangup_destroyed p d =
    let e =
      if (d.heap p).rtp
      then d ▷ emit (rtp_stop p) ▷ emit (rtp_destroy p) ▷ modify p (λ s. record s { rtp = false })
      else d in
    modify p (λ s. record s { channel = none }) e

unfoldable pub sccp_channel_tech_hangup : ℕ → Device → Device
unfolding hangup_destroyed
sccp_channel_tech_hangup p d =
    sccp_device_unlock
      (if is_destroyed d.device_state then hangup_destroyed p d else do_clear_subchannel p d)

-- The device's part of an answer; the wait for the phone's address comes after.
unfoldable pub answer_locked : ℕ → Device → Device
answer_locked p d =
    let e = modify p (λ s. record s { state = connected }) d in
    let g = if (d.heap p).rtp then e else transmit_subchan_open_receive_channel p e in
    if is_ptr p d.active_subchan
    then g
      ▷ transmit_subchan_callstate p connected
      ▷ transmit_subchan_stop_tone p
      ▷ transmit_subchan_selectsoftkeys p key_connected
    else g

unfoldable pub sccp_channel_tech_answer : ℕ → Device → Bool × Device
unfolding answer_locked
sccp_channel_tech_answer p d =
    if is_destroyed d.device_state
    then (false, sccp_device_unlock d)
    else (true, sccp_device_unlock (answer_locked p d))

unfoldable pub on_dial_timeout : CallSetup → ℕ → Device → Device
on_dial_timeout setup p d = sccp_device_unlock (start_the_call setup p d).1

unfoldable pub on_fwd_timeout : Device → Device
on_fwd_timeout d = sccp_device_unlock (set_callforward_from_device_exten d)

abbrev pub on_keepalive_timeout : Device → Device
on_keepalive_timeout d = emit session_stop d

unfoldable pub sccp_device_on_connection_lost : Device → Device
sccp_device_on_connection_lost d = sccp_device_unlock (record d { device_state = connlost })
