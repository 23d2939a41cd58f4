-- ===== src/Messages/Tests.antt =====
-- Messages that are built, byte by byte.
use wazo_libsccp.Common.{arith, some, ◌≡◌, ◌≤◌, refl, [], ◌∷◌, ◌++◌, length}
use wazo_libsccp.Deserializer.{max_total_len}
use wazo_libsccp.Deserializer.Frame.{frame, message}
use wazo_libsccp.Messages.{
  bytes_of, open_receive_channel, sccp_msg_open_receive_channel, sccp_msg_callstate,
}
use wazo_libsccp.Messages.Read.{read_msg, built-read}

callstate_test :
    sccp_msg_callstate 5 1 258
    ≡ 28 ∷ 0 ∷ 0 ∷ 0 ∷ 0 ∷ 0 ∷ 0 ∷ 0 ∷ 17 ∷ 1 ∷ 0 ∷ 0 ∷ 5 ∷ 0 ∷ 0 ∷ 0 ∷ 1 ∷ 0 ∷ 0 ∷ 0 ∷ 2 ∷ 1 ∷ 0
      ∷ 0 ∷ 0 ∷ 0 ∷ 0 ∷ 0 ∷ 4 ∷ 0 ∷ 0 ∷ 0 ∷ 0 ∷ 0 ∷ 0 ∷ 0 ∷ []
unfolding sccp_msg_callstate
callstate_test = refl

open_receive_channel_test : length (sccp_msg_open_receive_channel 7 20 4) ≡ 132
unfolding sccp_msg_open_receive_channel
open_receive_channel_test = refl

built-read_example :
    (frame (bytes_of (open_receive_channel 7 20 4) ++ 1 ∷ 2 ∷ [])
      ≡ message (bytes_of (open_receive_channel 7 20 4)) (1 ∷ 2 ∷ []))
    × (length (bytes_of (open_receive_channel 7 20 4)) ≤ max_total_len)
    × (read_msg (bytes_of (open_receive_channel 7 20 4)) ≡ some (open_receive_channel 7 20 4))
built-read_example =
    built-read (open_receive_channel 7 20 4) (1 ∷ 2 ∷ []) (omega arith, omega arith, omega arith)
