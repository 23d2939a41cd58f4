-- ===== src/Device/Messages.antt =====
-- sccp_device.c: the messages of a phone that change its calls, and how a message gets to its handler.
-- The numbers in the messages are the host's, already turned from little endian.
use wazo_libsccp.Common.{
  ℕ, ◌+◌, ◌%◌, ◌==◌, leb, Bool, true, false, not, ◌||◌, List, none, some, if◌then◌else◌, is_some,
}
use wazo_libsccp.Device.Types.{
  Device, Effect, rtp_new, rtp_set_remote, add_dialtimeout, add_fwdtimeout, session_stop, tone,
  stop_tone, start_media_transmission, keep_alive_ack, tone_none, queue_unhold, queue_answer,
  queue_dtmf, offhook, ringout, ringin, RecvStatus, recv_closed, recv_opening, recv_opened,
  cfwd_inactive, cfwd_inputexten, cfwd_active,
}
use wazo_libsccp.Device.Core.{
  ◌▷◌, emit, emit_all, send, modify, is_state, is_working, add_task, sccp_device_unlock,
  sccp_device_set_fault,
}
use wazo_libsccp.Device.Calls.{
  sccp_lines_get_subchan, sccp_lines_get_next_subchan, do_hangup, do_answer_options,
  do_newcall_options,
}
use wazo_libsccp.Device.Forward.{append_digit_to_device_exten, set_callforward_from_device_exten}
use wazo_libsccp.Device.Dial.{
  CallSetup, start_the_call, handle_msg_enbloc_call, handle_stimulus_voicemail, do_speeddial_action,
}
use wazo_libsccp.Device.Softkeys.{Softkey, handle_msg_softkey_event}

-- The character of a button, a byte: 42 is `*`, 35 is `#`, and 48 is `0`.
abbrev pub digit_of : ℕ → ℕ
digit_of button = if button == 14 then 42 else if button == 15 then 35 else (48 + button) % 256

-- A digit for the active subchannel, which is dialled or has a channel.
unfoldable pub keypad_active : CallSetup → ℕ → ℕ → Device → Device
keypad_active setup digit a d =
    if is_state (d.heap a).state offhook
    then (let (len, e) = append_digit_to_device_exten digit d in
        let g = if len == 0 then e ▷ send (tone tone_none 0 0) ▷ send (stop_tone 0 0) else e in
        if digit == 35 then (start_the_call setup a g).1 else emit (add_dialtimeout a) g)
    else elim (d.heap a).channel [
      | none ↦ d
      | some c ↦
          if not (is_state (d.heap a).state ringout) || (d.heap a).ringout_progress
          then (add_task (queue_dtmf c digit) d).1
          else d
    ]

-- A digit of an extension to forward calls to.
unfoldable pub keypad_callfwd : ℕ → Device → Device
keypad_callfwd digit d =
    let e = (append_digit_to_device_exten digit d).1 in
    if digit == 35 then set_callforward_from_device_exten e else emit add_fwdtimeout e

unfoldable pub handle_msg_keypad_button : CallSetup → ℕ → Device → Device
unfolding keypad_active keypad_callfwd
handle_msg_keypad_button setup button d = elim d.active_subchan [
  | some a ↦ keypad_active setup (digit_of button) a d
  | none ↦ elim d.callfwd [
    | cfwd_inputexten ↦ keypad_callfwd (digit_of button) d
    | cfwd_inactive ↦ d
    | cfwd_active ↦ d
  ]
]

unfoldable pub handle_msg_onhook : ℕ → Device → Device
handle_msg_onhook call_instance d =
    elim (if d.proto_version == 11
      then sccp_lines_get_subchan call_instance d
      else d.active_subchan) [ none ↦ d | some p ↦ (do_hangup p d).1 ]

-- The handset is lifted: phones of version 11 on say which call they answer.
unfoldable pub offhook_v11 : (line_instance call_instance : ℕ) → Device → Device
offhook_v11 line call d =
    if line == 0 then (do_newcall_options false d).1 else elim (sccp_lines_get_subchan call d) [
      | none ↦ d
      | some p ↦ (do_answer_options false p d).1
    ]

unfoldable pub offhook_old : Device → Device
offhook_old d = elim (sccp_lines_get_next_subchan ringin d) [
  | some p ↦ (do_answer_options false p d).1
  | none ↦ if is_some d.active_subchan then d else (do_newcall_options false d).1
]

unfoldable pub handle_msg_offhook : (line_instance call_instance : ℕ) → Device → Device
unfolding offhook_v11 offhook_old
handle_msg_offhook line call d =
    if leb 11 d.proto_version then offhook_v11 line call d else offhook_old d

unfoldable pub sccp_subchannel_start_media_transmission : ℕ → Device → Device
sccp_subchannel_start_media_transmission p d =
    d ▷ emit (rtp_set_remote p) ▷ send (start_media_transmission (d.heap p).id (d.heap p).framing)

-- `created` tells whether ast_rtp_instance_new makes an instance.
unfoldable pub start_rtp : Bool → ℕ → Device → Device
unfolding sccp_subchannel_start_media_transmission
start_rtp created p d =
    if created
    then sccp_subchannel_start_media_transmission p
        (modify p (λ s. record s { rtp = true }) (emit (rtp_new p) d))
    else modify p (λ s. record s { rtp = false }) d

-- The media of the active subchannel, once the phone says where it listens.
unfoldable pub receive_media : Bool → ℕ → Device → Device
unfolding sccp_subchannel_start_media_transmission start_rtp
receive_media created a d =
    if (d.heap a).resuming
    then (let e =
          modify a (λ s. record s { resuming = false }) d
          ▷ sccp_subchannel_start_media_transmission a in
        elim (d.heap a).channel [ none ↦ e | some c ↦ (add_task (queue_unhold c) e).1 ])
    else start_rtp created a d

unfoldable pub opened_for : Bool → ℕ → Device → Device
unfolding receive_media
opened_for created a d =
    let e = receive_media created a d in
    elim (d.heap a).channel [ none ↦ e | some c ↦ (add_task (queue_answer c) e).1 ]

abbrev pub opened : RecvStatus → RecvStatus
opened recv_opening = recv_opened
opened recv_closed = recv_closed
opened recv_opened = recv_opened

unfoldable pub handle_msg_open_receive_channel_ack : Bool → (port : ℕ) → Device → Device
unfolding opened_for
handle_msg_open_receive_channel_ack created port d =
    let e = if port == 0 then sccp_device_set_fault d else d in
    let g = record e { recv_chan_status = opened d.recv_chan_status } in
    elim d.active_subchan [ none ↦ g | some a ↦ opened_for created a g ]

unfoldable pub handle_msg_keep_alive : Device → Device
handle_msg_keep_alive d = send keep_alive_ack d

-- The messages that change calls, by their ids. A speed dial comes with the extension that its index
-- has. A request for data comes with what is sent for it, which depends on the device: that of
-- speed dials, features, lines, buttons and the configuration is in Setup, and those for soft keys, the
-- time, the version and subscriptions are sent constants, or what Asterisk says. Other messages
-- are those that the code ignores, and the capabilities, which calls here do not read.
pub data PhoneMsg : Type 0 where
  keep_alive unregister other_message voicemail : PhoneMsg
  enbloc_call speeddial : List ℕ → PhoneMsg
  keypad_button : ℕ → PhoneMsg
  offhook_message : (line_instance call_instance : ℕ) → PhoneMsg
  onhook_message : (call_instance : ℕ) → PhoneMsg
  data_request : (Device → List Effect) → PhoneMsg
  softkey_event : Softkey → (line_instance call_instance : ℕ) → PhoneMsg
  open_receive_channel_ack : (port : ℕ) → PhoneMsg

-- What Asterisk answers while a message is handled.
pub record Outside : Type 0 where
  pub setup : CallSetup
  pub is_down : ℕ → Bool
  pub rtp_created : Bool

unfoldable pub handle_msg_state_common : Outside → PhoneMsg → Device → Device
unfolding emit_all
handle_msg_state_common w keep_alive d = handle_msg_keep_alive d
handle_msg_state_common w unregister d = emit session_stop d
handle_msg_state_common w other_message d = d
handle_msg_state_common w (data_request answer) d = emit_all (answer d) d
handle_msg_state_common w voicemail d = handle_stimulus_voicemail w.setup d
handle_msg_state_common w (enbloc_call exten) d = handle_msg_enbloc_call w.setup exten d
handle_msg_state_common w (speeddial exten) d = do_speeddial_action w.setup exten d
handle_msg_state_common w (keypad_button n) d = handle_msg_keypad_button w.setup n d
handle_msg_state_common w (offhook_message line call) d = handle_msg_offhook line call d
handle_msg_state_common w (onhook_message call) d = handle_msg_onhook call d
handle_msg_state_common w (softkey_event key line call) d =
    handle_msg_softkey_event w.setup w.is_down key line call d
handle_msg_state_common w (open_receive_channel_ack port) d =
    handle_msg_open_receive_channel_ack w.rtp_created port d

unfoldable pub sccp_device_handle_msg : Outside → PhoneMsg → Device → Device
unfolding handle_msg_state_common
sccp_device_handle_msg w m d =
    sccp_device_unlock (if is_working d.device_state then handle_msg_state_common w m d else d)
