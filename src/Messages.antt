-- ===== src/Messages.antt =====
-- sccp_msg.c, the builders of the messages whose fields are all 32-bit words, and of those without
-- fields, against the structures of sccp_msg.h. A message is its bytes, as sccp_session_transmit_msg
-- writes them: `htolel` of a number is its four bytes, the lowest first. The memset of
-- `prepare_msg` leaves 0 in the fields that a builder does not set.
pub mod Bytes
pub mod Read
mod Tests
use wazo_libsccp.Common.{
  ℕ, zero, suc, ◌+◌, ◌-◌, ◌*◌, ◌/◌, ◌%◌, ◌^◌, List, [], ◌∷◌, ◌++◌, take, drop,
}
use wazo_libsccp.Device.Core.{◌▷◌}

-- `htolel`
abbrev pub le32 : ℕ → List ℕ
le32 n = n % 256 ∷ n / 256 % 256 ∷ n / 65536 % 256 ∷ n / 16777216 % 256 ∷ []

abbrev pub zeros : ℕ → List ℕ
zeros zero = []
zeros (suc n) = 0 ∷ zeros n

-- The words length, reserved and id, for that many bytes of data.
abbrev pub header : ℕ → ℕ → List ℕ
header data_length id = le32 (data_length + 4) ++ (le32 0 ++ le32 id)

abbrev pub prepare_msg : ℕ → ℕ → List ℕ
prepare_msg data_length id = header data_length id ++ zeros data_length

-- `msg->data.….field = htolel(v)`, for the field that many bytes into `msg->data`.
abbrev pub set32 : ℕ → ℕ → List ℕ → List ℕ
set32 offset v msg = take (12 + offset) msg ++ (le32 v ++ drop (16 + offset) msg)

-- `callid ^ 0xFFFFFFFF`
abbrev pub party : ℕ → ℕ
party callid = 4294967295 - callid % 2 ^ 32

-- The calls of these builders, with their arguments in the source's order.
pub data Message : Type 0 where
  register_rej capabilities_req clear_message keep_alive_ack : Message
  callstate : (state line_instance callid : ℕ) → Message
  close_receive_channel stop_media_transmission : (callid : ℕ) → Message
  open_receive_channel : (callid packets capability : ℕ) → Message
  lamp_state : (stimulus instance_ indication : ℕ) → Message
  ringer_mode speaker_mode reset : (mode : ℕ) → Message
  select_softkeys : (line_instance callid softkey : ℕ) → Message
  stop_tone : (line_instance callid : ℕ) → Message
  tone : (tone_ line_instance callid : ℕ) → Message

-- The sizes of the structures, and the ids, are those of sccp_msg.h.
unfoldable pub sccp_msg_register_rej : List ℕ
sccp_msg_register_rej = prepare_msg 33 157

unfoldable pub sccp_msg_capabilities_req : List ℕ
sccp_msg_capabilities_req = prepare_msg 0 155

unfoldable pub sccp_msg_clear_message : List ℕ
sccp_msg_clear_message = prepare_msg 0 277

unfoldable pub sccp_msg_keep_alive_ack : List ℕ
sccp_msg_keep_alive_ack = prepare_msg 0 256

unfoldable pub sccp_msg_callstate : ℕ → ℕ → ℕ → List ℕ
sccp_msg_callstate state line callid =
    prepare_msg 24 273 ▷ set32 0 state ▷ set32 4 line ▷ set32 8 callid ▷ set32 12 0 ▷ set32 16 4

unfoldable pub sccp_msg_close_receive_channel : ℕ → List ℕ
sccp_msg_close_receive_channel callid =
    prepare_msg 12 262 ▷ set32 0 callid ▷ set32 4 (party callid) ▷ set32 8 callid

unfoldable pub sccp_msg_open_receive_channel : ℕ → ℕ → ℕ → List ℕ
sccp_msg_open_receive_channel callid packets capability =
    prepare_msg 120 261
    ▷ set32 0 callid
    ▷ set32 4 (party callid)
    ▷ set32 8 packets
    ▷ set32 12 capability
    ▷ set32 16 0
    ▷ set32 20 0
    ▷ set32 24 callid
    ▷ set32 88 10

unfoldable pub sccp_msg_lamp_state : ℕ → ℕ → ℕ → List ℕ
sccp_msg_lamp_state stimulus line indication =
    prepare_msg 12 134 ▷ set32 0 stimulus ▷ set32 4 line ▷ set32 8 indication

unfoldable pub sccp_msg_ringer_mode : ℕ → List ℕ
sccp_msg_ringer_mode mode = prepare_msg 20 133 ▷ set32 0 mode ▷ set32 4 1 ▷ set32 8 1

unfoldable pub sccp_msg_select_softkeys : ℕ → ℕ → ℕ → List ℕ
sccp_msg_select_softkeys line callid softkey =
    prepare_msg 16 272 ▷ set32 0 line ▷ set32 4 callid ▷ set32 8 softkey ▷ set32 12 4294967295

unfoldable pub sccp_msg_speaker_mode : ℕ → List ℕ
sccp_msg_speaker_mode mode = prepare_msg 4 136 ▷ set32 0 mode

unfoldable pub sccp_msg_stop_media_transmission : ℕ → List ℕ
sccp_msg_stop_media_transmission callid =
    prepare_msg 16 139 ▷ set32 0 callid ▷ set32 4 (party callid) ▷ set32 8 callid

unfoldable pub sccp_msg_stop_tone : ℕ → ℕ → List ℕ
sccp_msg_stop_tone line callid = prepare_msg 8 131 ▷ set32 0 line ▷ set32 4 callid

unfoldable pub sccp_msg_tone : ℕ → ℕ → ℕ → List ℕ
sccp_msg_tone tone_ line callid =
    prepare_msg 16 130 ▷ set32 0 tone_ ▷ set32 8 line ▷ set32 12 callid

unfoldable pub sccp_msg_reset : ℕ → List ℕ
sccp_msg_reset mode = prepare_msg 4 159 ▷ set32 0 mode

unfoldable pub bytes_of : Message → List ℕ
unfolding sccp_msg_register_rej sccp_msg_capabilities_req sccp_msg_clear_message
    sccp_msg_keep_alive_ack sccp_msg_callstate sccp_msg_close_receive_channel
    sccp_msg_open_receive_channel sccp_msg_lamp_state sccp_msg_ringer_mode sccp_msg_select_softkeys
    sccp_msg_speaker_mode sccp_msg_stop_media_transmission sccp_msg_stop_tone sccp_msg_tone
    sccp_msg_reset
bytes_of register_rej = sccp_msg_register_rej
bytes_of capabilities_req = sccp_msg_capabilities_req
bytes_of clear_message = sccp_msg_clear_message
bytes_of keep_alive_ack = sccp_msg_keep_alive_ack
bytes_of (callstate state line callid) = sccp_msg_callstate state line callid
bytes_of (close_receive_channel callid) = sccp_msg_close_receive_channel callid
bytes_of (stop_media_transmission callid) = sccp_msg_stop_media_transmission callid
bytes_of (open_receive_channel callid packets capability) =
    sccp_msg_open_receive_channel callid packets capability
bytes_of (lamp_state stimulus line indication) = sccp_msg_lamp_state stimulus line indication
bytes_of (ringer_mode mode) = sccp_msg_ringer_mode mode
bytes_of (speaker_mode mode) = sccp_msg_speaker_mode mode
bytes_of (reset mode) = sccp_msg_reset mode
bytes_of (select_softkeys line callid softkey) = sccp_msg_select_softkeys line callid softkey
bytes_of (stop_tone line callid) = sccp_msg_stop_tone line callid
bytes_of (tone tone_ line callid) = sccp_msg_tone tone_ line callid
