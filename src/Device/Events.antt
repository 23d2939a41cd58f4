-- ===== src/Device/Events.antt =====
-- sccp_device.c: sccp_device_handle_msg, against the predicate of Valid.
use wazo_libsccp.Common.{ℕ, ◌==◌, leb, false, List, arith, Bool-cases, Option-cases, inl, inr, refl}
use wazo_libsccp.Device.Types.{Device, offhook, ringin}
use wazo_libsccp.Device.Core.{is_working}
use wazo_libsccp.Device.Calls.{sccp_lines_get_subchan, sccp_lines_get_next_subchan}
use wazo_libsccp.Device.Valid.{IsValid}
use wazo_libsccp.Device.Moves.{
  do_newcall_options-IsValid, do_hangup-IsValid, do_answer_options-IsValid,
}
use wazo_libsccp.Device.Safety.{SameCalls-IsValid, emit_all-SameCalls}
use wazo_libsccp.Device.Same.{SameLinks-IsValid, unlock-IsValid}
use wazo_libsccp.Device.Start.{start_the_call-IsValid, found-mem, active-mem}
use wazo_libsccp.Device.Dial.{
  CallSetup, handle_msg_enbloc_call, handle_stimulus_voicemail, do_speeddial_action,
}
use wazo_libsccp.Device.Keys.{newcall_to-IsValid, set-SameLinks, handle_msg_softkey_event-IsValid}
use wazo_libsccp.Device.Messages.{
  PhoneMsg, keep_alive, unregister, other_message, data_request, voicemail, enbloc_call, speeddial,
  keypad_button, offhook_message, onhook_message, softkey_event, open_receive_channel_ack, Outside,
  handle_msg_onhook, offhook_v11, offhook_old, handle_msg_offhook, handle_msg_state_common,
  sccp_device_handle_msg, handle_msg_keep_alive,
}
use wazo_libsccp.Device.Input.{keypad-IsValid, ack-IsValid}

enbloc-IsValid :
    (setup : CallSetup) (exten : List ℕ) (d : Device)
    → IsValid d
    → IsValid (handle_msg_enbloc_call setup exten d)
unfolding handle_msg_enbloc_call
enbloc-IsValid setup exten d v = elim (Option-cases (sccp_lines_get_next_subchan offhook d)) [
  | inl e ↦ rw (handle_msg_enbloc_call, e) v
  | inr (p, e) ↦
      rw (handle_msg_enbloc_call, e)
        (start_the_call-IsValid setup p _ v (found-mem _ d.heap d.subchans p e))
]

speeddial-IsValid :
    (setup : CallSetup) (exten : List ℕ) (d : Device)
    → IsValid d
    → IsValid (do_speeddial_action setup exten d)
unfolding do_speeddial_action
speeddial-IsValid setup exten d v =
    ground (arith, newcall_to-IsValid setup exten d v, SameLinks-IsValid (set-SameLinks exten d) v)

voicemail-IsValid :
    (setup : CallSetup) (d : Device) → IsValid d → IsValid (handle_stimulus_voicemail setup d)
unfolding handle_stimulus_voicemail
voicemail-IsValid setup d v = ground (arith, v, newcall_to-IsValid setup d.cfg.vmexten d v)

onhook-IsValid : (call : ℕ) (d : Device) → IsValid d → IsValid (handle_msg_onhook call d)
unfolding handle_msg_onhook
onhook-IsValid call d v = elim (Bool-cases (d.proto_version == 11)) [
  | inl e ↦ elim (Option-cases (sccp_lines_get_subchan call d)) [
    | inl n ↦ rw (handle_msg_onhook, e, n) v
    | inr (p, n) ↦
        rw (handle_msg_onhook, e, n) (do_hangup-IsValid p d v (found-mem _ d.heap d.subchans p n))
  ]
  | inr e ↦ elim (Option-cases d.active_subchan) [
    | inl n ↦ rw (handle_msg_onhook, e, n) v
    | inr (p, n) ↦ rw (handle_msg_onhook, e, n) (do_hangup-IsValid p d v (active-mem d p v n))
  ]
]

offhook-IsValid :
    (line call : ℕ) (d : Device) → IsValid d → IsValid (handle_msg_offhook line call d)
unfolding handle_msg_offhook offhook_v11 offhook_old
offhook-IsValid line call d v = elim (Bool-cases (leb 11 d.proto_version)) [
  | inl e ↦ rw e new
  | inr e ↦ rw e old
]
  where
    new : IsValid (offhook_v11 line call d)
    new = elim (Bool-cases (line == 0)) [
      | inl z ↦ rw (offhook_v11, z) (do_newcall_options-IsValid false d v)
      | inr s ↦ elim (Option-cases (sccp_lines_get_subchan call d)) [
        | inl n ↦ rw (offhook_v11, s, n) v
        | inr (p, n) ↦
            rw (offhook_v11, s, n)
              (do_answer_options-IsValid false p d v (found-mem _ d.heap d.subchans p n))
      ]
    ]

    old : IsValid (offhook_old d)
    old = elim (Option-cases (sccp_lines_get_next_subchan ringin d)) [
      | inl n ↦ rw (offhook_old, n) (ground (arith, v, do_newcall_options-IsValid false d v))
      | inr (p, n) ↦
          rw (offhook_old, n)
            (do_answer_options-IsValid false p d v (found-mem _ d.heap d.subchans p n))
    ]

common-IsValid :
    (w : Outside) (m : PhoneMsg) (d : Device) → IsValid d → IsValid (handle_msg_state_common w m d)
unfolding handle_msg_state_common handle_msg_keep_alive
common-IsValid w keep_alive d v = v
common-IsValid w unregister d v = v
common-IsValid w other_message d v = v
common-IsValid w (data_request answer) d v =
    SameCalls-IsValid
      (emit_all-SameCalls (answer d) d d (record {
        heap = refl;
        subchans = refl;
        next_ptr = refl;
        active_subchan = refl;
        recv_chan_status = refl;
        fault = refl;
      }))
      v
common-IsValid w voicemail d v = voicemail-IsValid w.setup d v
common-IsValid w (enbloc_call exten) d v = enbloc-IsValid w.setup exten d v
common-IsValid w (speeddial exten) d v = speeddial-IsValid w.setup exten d v
common-IsValid w (keypad_button n) d v = keypad-IsValid w.setup n d v
common-IsValid w (offhook_message line call) d v = offhook-IsValid line call d v
common-IsValid w (onhook_message call) d v = onhook-IsValid call d v
common-IsValid w (softkey_event key line call) d v =
    handle_msg_softkey_event-IsValid w.setup w.is_down key line call d v
common-IsValid w (open_receive_channel_ack port) d v = ack-IsValid w.rtp_created port d v

-- Whatever message the phone sends, and whatever Asterisk answers meanwhile, a valid device is valid
-- after the message.
pub sccp_device_handle_msg-IsValid :
    (w : Outside) (m : PhoneMsg) (d : Device) → IsValid d → IsValid (sccp_device_handle_msg w m d)
unfolding sccp_device_handle_msg
sccp_device_handle_msg-IsValid w m d v = elim (Bool-cases (is_working d.device_state)) [
  | inl e ↦ rw e (unlock-IsValid _ (common-IsValid w m d v))
  | inr e ↦ rw e (unlock-IsValid d v)
]
