-- ===== src/Device/Dial.antt =====
-- sccp_device.c: start_the_call, and what dials an extension that is known.
use wazo_libsccp.Common.{
  ℕ, ◌==◌, Bool, true, false, ◌&&◌, List, [], ◌∷◌, Option, none, some, if◌then◌else◌, is_empty,
}
use wazo_libsccp.Device.Types.{
  Device, remove_dialtimeout, pickup_channel, start_channel, dialed_number, callinfo, ringout,
  progress, offhook, key_ringout, key_connintransfer, tone_alert, cfwd_inactive, cfwd_inputexten,
  cfwd_active,
}
use wazo_libsccp.Device.Core.{
  ◌▷◌, emit, send, modify, add_task, sccp_device_unlock, transmit_subchan_callstate,
  transmit_subchan_selectsoftkeys, transmit_subchan_tone, transmit_subchan_stop_tone,
}
use wazo_libsccp.Device.Calls.{do_clear_subchannel, do_newcall_options, sccp_lines_get_next_subchan}
use wazo_libsccp.Device.Forward.{set_callforward}

-- What Asterisk answers when a call starts: the channel that alloc_channel makes, the framing of the
-- format that both sides speak if sccp_line_build_native_format_cap finds one, and the pickup extension.
pub record CallSetup : Type 0 where
  pub channel : Option ℕ
  pub framing : Option ℕ
  pub pickupexten : List ℕ

-- `!strcmp(a, b)`
abbrev pub same_text : List ℕ → List ℕ → Bool
same_text [] [] = true
same_text [] (y ∷ ys) = false
same_text (x ∷ xs) [] = false
same_text (x ∷ xs) (y ∷ ys) = x == y && same_text xs ys

unfoldable pub sccp_subchannel_set_channel : Option ℕ → ℕ → ℕ → Device → Bool × Device
sccp_subchannel_set_channel framing c p d = elim (d.heap p).channel [
  | some other ↦ (false, d)
  | none ↦ elim framing [
    | none ↦ (false, d)
    | some ms ↦ (true, modify p (λ s. record s { channel = some c; framing = ms }) d)
  ]
]

-- Near the end of start_the_call, the phone shows the call.
unfoldable pub show_ringout : ℕ → Device → Device
show_ringout p d =
    let e =
      modify p (λ s. record s { state = ringout }) d
      ▷ transmit_subchan_selectsoftkeys p
          (if (d.heap p).transferring then key_connintransfer else key_ringout)
      ▷ send (dialed_number d.exten d.cfg.line_instance (d.heap p).id)
      ▷ transmit_subchan_callstate p progress
      ▷ transmit_subchan_stop_tone p
      ▷ transmit_subchan_tone p tone_alert
      ▷ send
          (callinfo d.cfg.cid_num d.exten d.cfg.line_instance (d.heap p).id (d.heap p).direction) in
    record e { last_exten = d.exten; exten = [] }

-- At the end a task starts the call, or picks another up.
unfoldable pub show_the_call : List ℕ → ℕ → ℕ → Device → Device
unfolding show_ringout
show_the_call pickupexten c p d =
    (add_task (if same_text d.exten pickupexten then pickup_channel c else start_channel c)
      (show_ringout p d)).1

-- Part of start_the_call, with the device locked again and a channel.
unfoldable pub connect_channel : CallSetup → ℕ → ℕ → Device → Bool × Device
unfolding sccp_subchannel_set_channel show_the_call
connect_channel setup c p d =
    let (ok, e) = sccp_subchannel_set_channel setup.framing c p d in
    if ok
    then (true, show_the_call setup.pickupexten c p e)
    else (false, sccp_device_unlock (do_clear_subchannel p d))

unfoldable pub start_the_call : CallSetup → ℕ → Device → Bool × Device
unfolding connect_channel
start_the_call setup p d =
    let e = sccp_device_unlock (emit (remove_dialtimeout p) d) in
    elim setup.channel [ none ↦ (false, e) | some c ↦ connect_channel setup c p e ]

-- Three steps of several handlers: a new call with the speaker on, the extension, the call.
unfoldable pub newcall_to : CallSetup → List ℕ → Device → Device
unfolding start_the_call
newcall_to setup exten d =
    let (o, e) = do_newcall_options true d in
    elim o [
      | none ↦ e
      | some p ↦
          (start_the_call setup p
            (record e { exten = d.cfg.copy_string d.cfg.max_extension exten })).1
    ]

-- The argument is the extension of the speed dial.
unfoldable pub do_speeddial_action : CallSetup → List ℕ → Device → Device
unfolding newcall_to set_callforward
do_speeddial_action setup exten d = elim d.callfwd [
  | cfwd_inputexten ↦ set_callforward exten d
  | cfwd_inactive ↦ newcall_to setup exten d
  | cfwd_active ↦ newcall_to setup exten d
]

unfoldable pub handle_softkey_redial : CallSetup → Device → Device
unfolding newcall_to
handle_softkey_redial setup d = if is_empty d.last_exten then d else newcall_to setup d.last_exten d

unfoldable pub handle_stimulus_voicemail : CallSetup → Device → Device
unfolding newcall_to
handle_stimulus_voicemail setup d =
    if is_empty d.cfg.voicemail
    then d
    else if is_empty d.cfg.vmexten
    then d
    else newcall_to setup d.cfg.vmexten d

-- A final `#`, 35, is taken off.
abbrev pub without_hash : List ℕ → List ℕ
without_hash [] = []
without_hash (c ∷ []) = if c == 35 then [] else c ∷ []
without_hash (c ∷ d ∷ ds) = c ∷ without_hash (d ∷ ds)

unfoldable pub handle_msg_enbloc_call : CallSetup → List ℕ → Device → Device
unfolding start_the_call
handle_msg_enbloc_call setup extension d = elim (sccp_lines_get_next_subchan offhook d) [
  | none ↦ d
  | some p ↦
      let exten = without_hash (d.cfg.copy_string d.cfg.max_extension extension) in
      (start_the_call setup p (record d { exten = exten })).1
]
