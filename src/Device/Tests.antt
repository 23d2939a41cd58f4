-- ===== src/Device/Tests.antt =====
-- Runs of a device on small inputs.
use wazo_libsccp.Common.{
  ℕ, ◌-◌, ◌≡◌, refl, true, false, List, [], ◌∷◌, ◌++◌, Option, none, some, arith, take, take_all,
  length-take,
}
use wazo_libsccp.Device.Types.{
  Device, Subchan, Config, queue_hold, DbKey, cfwdall_line, ringout, outgoing, recv_closed,
  cfwd_inactive, working, Effect, sends, stat_fault, reset, hard_restart, open_receive_channel,
}
use wazo_libsccp.Device.Core.{sccp_device_unlock, add_task}
use wazo_libsccp.Device.Calls.{new_subchan, do_clear_subchannel}
use wazo_libsccp.Device.Valid.{IsValid}
use wazo_libsccp.Device.Clear.{do_clear_subchannel-fault}
use wazo_libsccp.Device.Refs.{
  IsBalanced, add_task-IsBalanced, unlock-IsBalanced, executed, taken, returned,
}
use wazo_libsccp.Device.Kept.{
  Copies, IsKept, FwdOp, press_cfwdall, press_dnd, press_digit, fwd_run, fwd_run-IsKept,
  register_restores, stored,
}
use wazo_libsccp.Device.Forward.{
  handle_softkey_cfwdall, handle_softkey_dnd, append_digit_to_device_exten,
  set_callforward_from_device_exten, set_callforward, update_displaymessage, init_dnd, init_callfwd,
  is_cfwd_active,
}
use wazo_libsccp.Device.Messages.{Outside, keypad_button, sccp_device_handle_msg}
use wazo_libsccp.Device.Channel.{sccp_channel_tech_answer, sccp_channel_tech_hangup}
use wazo_libsccp.Device.Steps.{Steps, message, hangup, stop, next, Steps-IsValid}
use wazo_libsccp.Device.Held.{answer_held_faults}

abbrev config : Config
config = record {
  line_instance = 1;
  cid_num = 49 ∷ 48 ∷ 48 ∷ [];
  voicemail = [];
  vmexten = [];
  max_extension = 80;
  copy_string = λ n s. take (n - 1) s;
}

abbrev call_of : Option ℕ → ℕ → Subchan
call_of c p = record (new_subchan p outgoing) { channel = c; state = ringout }

-- A working device with the given subchannels, whose pointers are below 2.
abbrev device_with : List ℕ → Option ℕ → Device
device_with ps active = record {
  heap = call_of (some 7);
  subchans = ps;
  next_ptr = 2;
  active_subchan = active;
  nolock_tasks = record { containers = []; item_size = 32 };
  serial_callid = 1;
  callfwd_id = 0;
  callfwd = cfwd_inactive;
  recv_chan_status = recv_closed;
  device_state = working;
  dnd = false;
  reset_on_idle = false;
  fault = false;
  proto_version = 11;
  exten = [];
  last_exten = [];
  callfwd_exten = [];
  cfg = config;
  mem = λ k. true;
  out = [];
}

abbrev idle_device : Device
idle_device = device_with [] none

abbrev one_call : Device
one_call = device_with (1 ∷ []) (some 1)

abbrev held_call : Device
held_call = device_with (1 ∷ []) none

one_call-IsValid : IsValid one_call
one_call-IsValid = record {
  distinct = (refl, tt);
  allocated = (omega arith, tt);
  active_listed = refl;
  recv_has_active = refl;
  paired = λ p m. tt;
}

do_clear_subchannel-fault_example : (do_clear_subchannel 1 one_call).fault ≡ false
do_clear_subchannel-fault_example = do_clear_subchannel-fault 1 one_call one_call-IsValid refl

abbrev outside : Outside
outside = record {
  setup = record { channel = some 9; framing = some 20; pickupexten = [] };
  is_down = λ c. false;
  rtp_created = true;
}

-- The call is hung up, and then the user presses a key.
abbrev after_hangup : Device
after_hangup = sccp_channel_tech_hangup 1 one_call

abbrev two_steps : Steps one_call (sccp_device_handle_msg outside (keypad_button 5) after_hangup)
two_steps =
    next one_call after_hangup _ (hangup 1 one_call refl)
      (next after_hangup _ _ (message outside (keypad_button 5) after_hangup) (stop _))

Steps-IsValid_example : IsValid (sccp_device_handle_msg outside (keypad_button 5) after_hangup)
Steps-IsValid_example =
    Steps-IsValid one_call (sccp_device_handle_msg outside (keypad_button 5) after_hangup) two_steps
      one_call-IsValid

idle-IsBalanced : IsBalanced idle_device
idle-IsBalanced c = refl

held-IsBalanced : IsBalanced (add_task (queue_hold 7) idle_device).1
held-IsBalanced = add_task-IsBalanced (queue_hold 7) idle_device idle-IsBalanced

unlock-IsBalanced_example :
    (let e = sccp_device_unlock (add_task (queue_hold 7) idle_device).1 in
      (e.nolock_tasks.containers ≡ [])
      × (executed e.out ≡ queue_hold 7 ∷ [])
      × ((c : ℕ) → taken c e.out ≡ returned c e.out))
unfolding add_task sccp_device_unlock
unlock-IsBalanced_example =
    unlock-IsBalanced (add_task (queue_hold 7) idle_device).1 held-IsBalanced

config-Copies : Copies config
config-Copies = record {
  whole = λ s h. take_all 79 s (omega arith);
  room = λ s. ground (arith, length-take 79 s);
}

abbrev no_db : DbKey → Option (List ℕ)
no_db key = none

idle-IsKept : IsKept no_db idle_device
idle-IsKept = record { cfwd = refl; dnd = refl; fits = omega arith }

-- Calls are forwarded to 5, and the phone is not to be disturbed.
abbrev presses : List FwdOp
presses = press_cfwdall ∷ press_digit 53 ∷ press_cfwdall ∷ press_dnd ∷ []

fwd_run-IsKept_example : IsKept no_db (fwd_run presses idle_device)
fwd_run-IsKept_example = fwd_run-IsKept no_db presses idle_device config-Copies idle-IsKept

line_unused : stored (fwd_run presses idle_device).out no_db cfwdall_line ≡ none
unfolding handle_softkey_cfwdall handle_softkey_dnd append_digit_to_device_exten
    set_callforward_from_device_exten set_callforward update_displaymessage
line_unused = refl

register_restores_example :
    (let db = stored (fwd_run presses idle_device).out no_db in
      let e = init_callfwd db (init_dnd db idle_device) in
      (e.dnd ≡ (fwd_run presses idle_device).dnd)
      × (is_cfwd_active e.callfwd ≡ is_cfwd_active (fwd_run presses idle_device).callfwd)
      × (is_cfwd_active (fwd_run presses idle_device).callfwd ≡ true
          → e.callfwd_exten ≡ (fwd_run presses idle_device).callfwd_exten))
unfolding handle_softkey_dnd handle_softkey_cfwdall append_digit_to_device_exten
register_restores_example =
    register_restores no_db (fwd_run presses idle_device) idle_device config-Copies refl refl
      line_unused fwd_run-IsKept_example

answer_held_faults_example :
    let told = sends (open_receive_channel 1 0) ∷ [] in
    let b = (sccp_channel_tech_answer 1 held_call).1 in
    let e = sccp_channel_tech_hangup 1 b in
    (b.out ≡ told)
    × (e.fault ≡ true)
    × ((es : List Effect) × (e.out ≡ sends (reset hard_restart) ∷ stat_fault ∷ (es ++ told)))
answer_held_faults_example = answer_held_faults 1 held_call refl refl refl refl refl refl
