-- ===== src/Messages/Bytes.antt =====
-- sccp_msg.c: the bytes of the messages that are built, as the deserializer reads a stream.
use wazo_libsccp.Common.{
  ℕ, ◌^◌, ◌≤◌, ◌<◌, ◌≡◌, refl, ◌∙◌, ap, List, ◌++◌, length, false, take_le_append, drop_le_append,
  take_all, drop_all, length-append, arith, ltb,
}
use wazo_libsccp.Deserializer.{load32, total_len, min_total_len, max_total_len}
use wazo_libsccp.Deserializer.Frame.{message, frame}
use wazo_libsccp.Messages.{
  le32, Message, bytes_of, register_rej, capabilities_req, clear_message, keep_alive_ack, callstate,
  close_receive_channel, stop_media_transmission, open_receive_channel, lamp_state, ringer_mode,
  speaker_mode, reset, select_softkeys, stop_tone, tone, sccp_msg_register_rej,
  sccp_msg_capabilities_req, sccp_msg_clear_message, sccp_msg_keep_alive_ack, sccp_msg_callstate,
  sccp_msg_close_receive_channel, sccp_msg_open_receive_channel, sccp_msg_lamp_state,
  sccp_msg_ringer_mode, sccp_msg_select_softkeys, sccp_msg_speaker_mode,
  sccp_msg_stop_media_transmission, sccp_msg_stop_tone, sccp_msg_tone, sccp_msg_reset,
}

pub load32-le32 : (n : ℕ) (xs : List ℕ) → n < 2 ^ 32 → load32 (le32 n ++ xs) ≡ n
unfolding load32
load32-le32 n xs h = omega arith

-- A stream that begins with a whole message is read as that message.
whole-frame :
    (x rest : List ℕ)
    → total_len (load32 (x ++ rest)) ≡ length x
    → 12 ≤ length x
    → frame (x ++ rest) ≡ message x rest
unfolding frame
whole-frame x rest t h =
    let long : ltb (length (x ++ rest)) min_total_len ≡ false =
      ground (arith, length-append x rest) in
    let complete : ltb (length (x ++ rest)) (length x) ≡ false =
      ground (arith, length-append x rest) in
    let sound : ltb (length x) min_total_len ≡ false = ground arith in
    let front =
      take_le_append (length x) x rest (omega arith) ∙ take_all (length x) x (omega arith) in
    let back =
      drop_le_append (length x) x rest (omega arith)
      ∙ ap (λ l. l ++ rest) (drop_all (length x) x (omega arith)) in
    rw (frame, t, long, complete, sound, front, back) refl

-- The length that a built message says is the number of its bytes.
says-length :
    (m : Message) (rest : List ℕ)
    → (total_len (load32 (bytes_of m ++ rest)) ≡ length (bytes_of m))
      × (12 ≤ length (bytes_of m))
      × (length (bytes_of m) ≤ 796)
unfolding bytes_of sccp_msg_register_rej sccp_msg_capabilities_req sccp_msg_clear_message
    sccp_msg_keep_alive_ack sccp_msg_callstate sccp_msg_close_receive_channel
    sccp_msg_open_receive_channel sccp_msg_lamp_state sccp_msg_ringer_mode sccp_msg_select_softkeys
    sccp_msg_speaker_mode sccp_msg_stop_media_transmission sccp_msg_stop_tone sccp_msg_tone
    sccp_msg_reset load32
says-length register_rej rest = (refl, omega arith, omega arith)
says-length capabilities_req rest = (refl, omega arith, omega arith)
says-length clear_message rest = (refl, omega arith, omega arith)
says-length keep_alive_ack rest = (refl, omega arith, omega arith)
says-length (callstate a b c) rest = (refl, omega arith, omega arith)
says-length (close_receive_channel a) rest = (refl, omega arith, omega arith)
says-length (stop_media_transmission a) rest = (refl, omega arith, omega arith)
says-length (open_receive_channel a b c) rest = (refl, omega arith, omega arith)
says-length (lamp_state a b c) rest = (refl, omega arith, omega arith)
says-length (ringer_mode a) rest = (refl, omega arith, omega arith)
says-length (speaker_mode a) rest = (refl, omega arith, omega arith)
says-length (reset a) rest = (refl, omega arith, omega arith)
says-length (select_softkeys a b c) rest = (refl, omega arith, omega arith)
says-length (stop_tone a b) rest = (refl, omega arith, omega arith)
says-length (tone a b c) rest = (refl, omega arith, omega arith)

-- Each of these messages, whatever bytes follow it, is a frame of the stream, and it fits into a
-- `struct sccp_msg`.
pub whole :
    (m : Message) (rest : List ℕ)
    → (frame (bytes_of m ++ rest) ≡ message (bytes_of m) rest)
      × (length (bytes_of m) ≤ max_total_len)
whole m rest =
    let (says, long, short) = says-length m rest in (whole-frame (bytes_of m) rest says long, short)
