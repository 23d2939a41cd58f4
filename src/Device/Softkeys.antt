-- ===== src/Device/Softkeys.antt =====
-- sccp_device.c: the soft keys of a phone that act on calls.
use wazo_libsccp.Common.{ℕ, ◌==◌, Bool, true, ◌||◌, Option, none, some, if◌then◌else◌}
use wazo_libsccp.Device.Types.{
  Device, speaker, speaker_on, offhook, key_dialintransfer, tone_dial, outgoing, transfer_attended,
}
use wazo_libsccp.Device.Core.{
  ◌▷◌, send, modify, add_task, transmit_subchan_callstate, transmit_subchan_selectsoftkeys,
  transmit_subchan_tone,
}
use wazo_libsccp.Device.Calls.{
  is_ptr, sccp_lines_get_subchan, do_hold, do_resume, do_hangup, do_newcall_options,
  do_answer_options, sccp_line_new_subchannel,
}
use wazo_libsccp.Device.Forward.{handle_softkey_dnd, handle_softkey_cfwdall, handle_softkey_bkspc}
use wazo_libsccp.Device.Dial.{CallSetup, handle_softkey_redial}

unfoldable pub handle_softkey_answer : ℕ → Device → Device
handle_softkey_answer id d = elim (sccp_lines_get_subchan id d) [
  | none ↦ d
  | some p ↦ (do_answer_options true p d).1
]

unfoldable pub handle_softkey_endcall : ℕ → Device → Device
handle_softkey_endcall id d = elim (sccp_lines_get_subchan id d) [
  | none ↦ d
  | some p ↦ (do_hangup p d).1
]

unfoldable pub handle_softkey_hold : Device → Device
handle_softkey_hold d = elim d.active_subchan [ none ↦ d | some a ↦ (do_hold a d).1 ]

unfoldable pub handle_softkey_newcall : Device → Device
handle_softkey_newcall d = (do_newcall_options true d).1

-- Another subchannel is active, or none.
unfoldable pub resume_other : ℕ → Device → Device
resume_other p d = elim d.active_subchan [
  | none ↦ do_resume p d
  | some a ↦ let (ok, e) = do_hold a d in if ok then do_resume p e else e
]

unfoldable pub handle_softkey_resume : ℕ → Device → Device
unfolding resume_other
handle_softkey_resume id d = elim (sccp_lines_get_subchan id d) [
  | none ↦ d
  | some p ↦ if is_ptr p d.active_subchan then d else resume_other p d
]

-- `q` is the subchannel of the consultation call, which is new, and `a` the one on hold.
unfoldable pub link_transfer : ℕ → Option ℕ × Device → Device
link_transfer a (none, d) = d
link_transfer a (some q, d) =
    let e =
      d
      ▷ modify q (λ s. record s { transferring = true })
      ▷ modify a (λ s. record s { related = some q })
      ▷ modify q (λ s. record s { related = some a }) in
    record e { active_subchan = some q }
    ▷ transmit_subchan_callstate q offhook
    ▷ transmit_subchan_selectsoftkeys q key_dialintransfer
    ▷ transmit_subchan_tone q tone_dial

-- The first press: the active call is held, and a consultation call opened.
unfoldable pub begin_transfer : ℕ → Device → Device
unfolding link_transfer
begin_transfer a d =
    let (ok, e) = do_hold a d in
    if ok
    then link_transfer a (sccp_line_new_subchannel outgoing (send (speaker speaker_on) e))
    else e

-- The second press: both channels are up, or nothing happens.
unfoldable pub end_transfer : (ℕ → Bool) → ℕ → ℕ → Device → Device
end_transfer is_down c q d = elim (d.heap q).channel [
  | none ↦ d
  | some r ↦ if is_down c || is_down r then d else (add_task (transfer_attended r c) d).1
]

-- `is_down` tells whether Asterisk has a channel in the state AST_STATE_DOWN.
unfoldable pub transfer_active : (ℕ → Bool) → ℕ → Device → Device
unfolding begin_transfer end_transfer
transfer_active is_down a d = elim (d.heap a).channel [
  | none ↦ d
  | some c ↦ elim (d.heap a).related [
    | none ↦ begin_transfer a d
    | some q ↦ end_transfer is_down c q d
  ]
]

unfoldable pub handle_softkey_transfer : (ℕ → Bool) → ℕ → Device → Device
unfolding transfer_active
handle_softkey_transfer is_down line_instance d =
    if d.cfg.line_instance == line_instance
    then elim d.active_subchan [ none ↦ d | some a ↦ transfer_active is_down a d ]
    else d

-- enum sccp_softkey_type, with any other value.
pub data Softkey : Type 0 where
  softkey_redial softkey_newcall softkey_hold softkey_trnsfer softkey_cfwdall softkey_bkspc
        softkey_endcall softkey_resume softkey_answer softkey_dnd softkey_other :
      Softkey

unfoldable pub handle_msg_softkey_event :
    CallSetup → (ℕ → Bool) → Softkey → (line_instance call_instance : ℕ) → Device → Device
handle_msg_softkey_event setup is_down softkey_dnd line call d = handle_softkey_dnd d
handle_msg_softkey_event setup is_down softkey_redial line call d = handle_softkey_redial setup d
handle_msg_softkey_event setup is_down softkey_newcall line call d = handle_softkey_newcall d
handle_msg_softkey_event setup is_down softkey_hold line call d = handle_softkey_hold d
handle_msg_softkey_event setup is_down softkey_trnsfer line call d =
    handle_softkey_transfer is_down line d
handle_msg_softkey_event setup is_down softkey_cfwdall line call d = handle_softkey_cfwdall d
handle_msg_softkey_event setup is_down softkey_bkspc line call d = handle_softkey_bkspc d
handle_msg_softkey_event setup is_down softkey_endcall line call d = handle_softkey_endcall call d
handle_msg_softkey_event setup is_down softkey_resume line call d = handle_softkey_resume call d
handle_msg_softkey_event setup is_down softkey_answer line call d = handle_softkey_answer call d
handle_msg_softkey_event setup is_down softkey_other line call d = d
