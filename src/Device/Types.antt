-- ===== src/Device/Types.antt =====
-- sccp_device.c and sccp_msg.h: the structures of a device, as far as its calls use them.
-- A pointer to a subchannel is a number, `heap` is what it points to, and `subchans` is the list of
-- the device's one line. `out` is what the device has told the outside, newest first: messages to the
-- phone, and calls into Asterisk and the session. Reference counts of subchannels are left out.
use wazo_libsccp.Common.{ℕ, Bool, List, Option}
use wazo_libsccp.Queue.{Queue}

-- enum sccp_state
pub data CallState : Type 0 where
  offhook onhook ringout ringin connected busy congestion hold callwait transfer park progress
        invalid :
      CallState

pub data Direction : Type 0 where
  incoming outgoing : Direction

pub data RecvStatus : Type 0 where
  recv_closed recv_opening recv_opened : RecvStatus

pub data CfwdStatus : Type 0 where
  cfwd_inactive cfwd_inputexten cfwd_active : CfwdStatus

pub data DeviceState : Type 0 where
  state_new working connlost destroyed : DeviceState

-- enum sccp_softkey_status
pub data Keydef : Type 0 where
  key_onhook key_connected key_onhold key_ringin key_offhook key_connintransfer key_callfwd
        key_dialintransfer key_ringout :
      Keydef

pub data Tone : Type 0 where
  tone_silence tone_dial tone_busy tone_alert tone_reorder tone_callwait tone_none : Tone

pub data SpeakerMode : Type 0 where
  speaker_on speaker_off : SpeakerMode

pub data RingerMode : Type 0 where
  ring_off ring_inside ring_outside ring_feature : RingerMode

pub data LampState : Type 0 where
  lamp_off lamp_on lamp_wink lamp_flash lamp_blink : LampState

-- enum sccp_blf_status
pub data BlfStatus : Type 0 where
  blf_unknown blf_idle blf_inuse blf_dnd blf_alerting : BlfStatus

pub data Reset : Type 0 where
  hard_restart soft : Reset

-- enum ast_device_state, the values that a line reports.
pub data DevState : Type 0 where
  unavailable not_inuse inuse ringing : DevState

-- The messages to the phone, with the arguments of the sccp_msg_* builders. A text is a list of
-- bytes. The codec of a media message is that of its subchannel.
pub data Msg : Type 0 where
  callstate : CallState → (instance_of call : ℕ) → Msg
  selectsoftkeys : (instance_of call : ℕ) → Keydef → Msg
  tone : Tone → (instance_of call : ℕ) → Msg
  stop_tone : (instance_of call : ℕ) → Msg
  speaker : SpeakerMode → Msg
  ringer : RingerMode → Msg
  line_lamp : (instance_of : ℕ) → LampState → Msg
  close_receive_channel : (call : ℕ) → Msg
  stop_media_transmission : (call : ℕ) → Msg
  open_receive_channel : (call framing : ℕ) → Msg
  start_media_transmission : (call framing : ℕ) → Msg
  clear_message : Msg
  display_message : List ℕ → Msg
  forward_status : (instance_of : ℕ) → List ℕ → (status : ℕ) → Msg
  dialed_number : List ℕ → (instance_of call : ℕ) → Msg
  callinfo : (from_number to_number : List ℕ) → (instance_of call : ℕ) → Direction → Msg
  reset : Reset → Msg
  keep_alive_ack : Msg
  register_ack : (dateformat : List ℕ) → (keepalive : ℕ) → Msg
  capabilities_req : Msg
  voicemail_lamp : LampState → Msg
  feature_status : (instance_of : ℕ) → BlfStatus → (label : List ℕ) → Msg
  line_status : (cid_name cid_num : List ℕ) → (instance_of : ℕ) → Msg
  speeddial_stat : (index : ℕ) → (extension label : List ℕ) → Msg
  button_template : (definitions : List (ℕ × ℕ)) → Msg
  config_status : (line_count speeddial_count : ℕ) → Msg

-- The tasks that wait until the device is unlocked. A channel is a number.
pub data NolockTask : Type 0 where
  transfer_attended : (to_transferee to_transfer_target : ℕ) → NolockTask
  queue_answer queue_hangup queue_hold queue_unhold pickup_channel start_channel :
      (channel : ℕ) → NolockTask
  queue_dtmf : (channel digit : ℕ) → NolockTask

-- The families of Asterisk's database, with the key: the name of the device or of its line.
pub data DbKey : Type 0 where
  dnd_device cfwdall_device cfwdall_line : DbKey

-- What the device does to the outside.
pub data Effect : Type 0 where
  sends : Msg → Effect
  devstate : DevState → Effect
  rtp_stop rtp_destroy rtp_new rtp_set_remote : (subchan : ℕ) → Effect
  db_put : DbKey → (value : List ℕ) → Effect
  db_del : DbKey → Effect
  add_dialtimeout remove_dialtimeout : (subchan : ℕ) → Effect
  add_fwdtimeout remove_fwdtimeout add_keepalive : Effect
  hangupcause_busy : (channel : ℕ) → Effect
  channel_ref channel_unref : (channel : ℕ) → Effect
  executes : NolockTask → Effect
  session_stop stat_fault stat_panic : Effect

-- struct sccp_subchannel, with its flags one by one.
pub record Subchan : Type 0 where
  pub direct_media_addr : Option ℕ
  pub channel : Option ℕ
  pub rtp : Bool
  pub related : Option ℕ
  pub id : ℕ
  pub framing : ℕ
  pub state : CallState
  pub direction : Direction
  pub ringout_progress : Bool
  pub resuming : Bool
  pub autoanswer : Bool
  pub transferring : Bool

-- The configuration that the calls read: of struct sccp_line, sccp_line_cfg and sccp_device_cfg. Of
-- Asterisk: AST_MAX_EXTENSION and ast_copy_string, which takes the room for a string with its final 0.
pub record Config : Type 0 where
  pub line_instance : ℕ
  pub cid_num : List ℕ
  pub voicemail : List ℕ
  pub vmexten : List ℕ
  pub max_extension : ℕ
  pub copy_string : ℕ → List ℕ → List ℕ

-- struct sccp_device. `mem k` tells whether the allocation after the next `k` ones succeeds.
pub record Device : Type 0 where
  pub heap : ℕ → Subchan
  pub subchans : List ℕ
  pub next_ptr : ℕ
  pub active_subchan : Option ℕ
  pub nolock_tasks : Queue NolockTask
  pub serial_callid : ℕ
  pub callfwd_id : ℕ
  pub callfwd : CfwdStatus
  pub recv_chan_status : RecvStatus
  pub device_state : DeviceState
  pub dnd : Bool
  pub reset_on_idle : Bool
  pub fault : Bool
  pub proto_version : ℕ
  pub exten : List ℕ
  pub last_exten : List ℕ
  pub callfwd_exten : List ℕ
  pub cfg : Config
  pub mem : ℕ → Bool
  pub out : List Effect
