-- ===== src/Device/Forward.antt =====
-- sccp_device.c: call forwarding and the do-not-disturb state, with what is kept of them in Asterisk's
-- database. A text is a list of bytes, without the final 0.
use wazo_libsccp.Common.{
  ℕ, ◌-◌, ◌==◌, ltb, Bool, true, false, not, ◌&&◌, List, [], ◌∷◌, ◌++◌, Option, none, some,
  if◌then◌else◌, is_empty, take, length,
}
use wazo_libsccp.Device.Types.{
  Device, db_put, db_del, DbKey, dnd_device, cfwdall_device, cfwdall_line, remove_fwdtimeout,
  speaker, speaker_on, speaker_off, callstate, selectsoftkeys, forward_status, clear_message,
  display_message, offhook, onhook, key_callfwd, CfwdStatus, cfwd_inactive, cfwd_inputexten,
  cfwd_active,
}
use wazo_libsccp.Device.Core.{◌▷◌, emit, send, next_u32}

abbrev pub is_cfwd_active : CfwdStatus → Bool
is_cfwd_active cfwd_active = true
is_cfwd_active _ = false

-- The text of update_displaymessage.
unfoldable pub display_text : Device → List ℕ
display_text d =
    (if d.dnd then 128 ∷ 63 ∷ [] else [])
    ++ (32 ∷ 32 ∷ 32 ∷ 32 ∷ 32 ∷ [])
    ++ (if is_cfwd_active d.callfwd
        then 128 ∷ 5 ∷ 58 ∷ 32 ∷ take d.cfg.max_extension d.callfwd_exten
        else [])

unfoldable pub update_displaymessage : Device → Device
update_displaymessage d =
    send
      (if not d.dnd && not (is_cfwd_active d.callfwd)
        then clear_message
        else display_message (display_text d))
      d

abbrev pub transmit_line_forward_status_res : Device → Device
transmit_line_forward_status_res d =
    send
      (forward_status d.cfg.line_instance d.callfwd_exten
        (if is_cfwd_active d.callfwd then 1 else 0))
      d

unfoldable pub set_callforward : List ℕ → Device → Device
unfolding update_displaymessage
set_callforward exten d =
    let e = record d {
      callfwd = cfwd_active;
      callfwd_exten = d.cfg.copy_string d.cfg.max_extension exten;
    } in
    e
    ▷ emit remove_fwdtimeout
    ▷ emit (db_put cfwdall_device e.callfwd_exten)
    ▷ send (callstate onhook d.cfg.line_instance d.callfwd_id)
    ▷ transmit_line_forward_status_res
    ▷ send (speaker speaker_off)
    ▷ update_displaymessage

unfoldable pub set_callforward_from_device_exten : Device → Device
unfolding set_callforward
set_callforward_from_device_exten d = record (set_callforward d.exten d) { exten = [] }

unfoldable pub clear_callforward : Device → Device
unfolding update_displaymessage
clear_callforward d =
    record d { callfwd = cfwd_inactive; callfwd_exten = [] }
    ▷ emit (db_del cfwdall_device)
    ▷ transmit_line_forward_status_res
    ▷ update_displaymessage

unfoldable pub cancel_callforward_input : Device → Device
cancel_callforward_input d =
    record d { callfwd = cfwd_inactive; exten = [] }
    ▷ emit remove_fwdtimeout
    ▷ send (callstate onhook d.cfg.line_instance d.callfwd_id)
    ▷ send (speaker speaker_off)

unfoldable pub handle_softkey_bkspc : Device → Device
unfolding cancel_callforward_input
handle_softkey_bkspc d = elim d.callfwd [
  | cfwd_inputexten ↦ cancel_callforward_input d
  | cfwd_inactive ↦ d
  | cfwd_active ↦ d
]

unfoldable pub handle_softkey_cfwdall : Device → Device
unfolding cancel_callforward_input set_callforward_from_device_exten clear_callforward
handle_softkey_cfwdall d = elim d.callfwd [
  | cfwd_inactive ↦
      record d {
        callfwd_id = d.serial_callid;
        serial_callid = next_u32 d.serial_callid;
        callfwd = cfwd_inputexten;
      }
      ▷ send (callstate offhook d.cfg.line_instance d.serial_callid)
      ▷ send (selectsoftkeys d.cfg.line_instance d.serial_callid key_callfwd)
      ▷ send (speaker speaker_on)
  | cfwd_inputexten ↦
      if is_empty d.exten then cancel_callforward_input d else set_callforward_from_device_exten d
  | cfwd_active ↦ clear_callforward d
]

-- `"on"`
abbrev pub dnd_on : List ℕ
dnd_on = 111 ∷ 110 ∷ []

unfoldable pub handle_softkey_dnd : Device → Device
unfolding update_displaymessage
handle_softkey_dnd d = update_displaymessage (
    if d.dnd
    then emit (db_del dnd_device) (record d { dnd = false })
    else emit (db_put dnd_device dnd_on) (record d { dnd = true }))

-- The length before, and the new device. `exten` is an array of `max_extension` bytes, and a byte 0
-- written at its end changes no text.
unfoldable pub append_digit_to_device_exten : ℕ → Device → ℕ × Device
append_digit_to_device_exten digit d =
    let len = length d.exten in
    (
      len,
      if not (digit == 35) && not (digit == 0) && ltb len (d.cfg.max_extension - 1)
          then record d { exten = d.exten ++ digit ∷ [] }
          else d,
    )

-- ast_db_get, as an argument of what reads the database when the device registers.
unfoldable pub init_dnd : (DbKey → Option (List ℕ)) → Device → Device
init_dnd ast_db_get d = elim (ast_db_get dnd_device) [
  | some value ↦ record d { dnd = true }
  | none ↦ record d { dnd = false }
]

unfoldable pub init_callfwd : (DbKey → Option (List ℕ)) → Device → Device
unfolding set_callforward
init_callfwd ast_db_get d = elim (ast_db_get cfwdall_device) [
  | some exten ↦ set_callforward exten d
  | none ↦ elim (ast_db_get cfwdall_line) [
    | some exten ↦ emit (db_del cfwdall_line) (set_callforward exten d)
    | none ↦ d
  ]
]
