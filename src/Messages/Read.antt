-- ===== src/Messages/Read.antt =====
-- sccp_msg.h: how a phone reads the messages that sccp_msg.c builds, from the structures' members.
use wazo_libsccp.Common.{
  ℕ, ◌+◌, ◌^◌, ◌≤◌, ◌<◌, ◌≡◌, ◌==◌, ◌&&◌, refl, ap, ap₂, ◌∙◌, Bool, List, [], ◌∷◌, ◌++◌, Option,
  none, some, length, drop, get_elem?, if◌then◌else◌, true, arith, ==_refl,
}
use wazo_libsccp.Deserializer.{load32, max_total_len}
use wazo_libsccp.Deserializer.Frame.{message, frame}
use wazo_libsccp.Messages.{
  le32, party, Message, bytes_of, register_rej, capabilities_req, clear_message, keep_alive_ack,
  callstate, close_receive_channel, stop_media_transmission, open_receive_channel, lamp_state,
  ringer_mode, speaker_mode, reset, select_softkeys, stop_tone, tone, sccp_msg_register_rej,
  sccp_msg_capabilities_req, sccp_msg_clear_message, sccp_msg_keep_alive_ack, sccp_msg_callstate,
  sccp_msg_close_receive_channel, sccp_msg_open_receive_channel, sccp_msg_lamp_state,
  sccp_msg_ringer_mode, sccp_msg_select_softkeys, sccp_msg_speaker_mode,
  sccp_msg_stop_media_transmission, sccp_msg_stop_tone, sccp_msg_tone, sccp_msg_reset,
}
use wazo_libsccp.Messages.Bytes.{load32-le32, whole}

-- The numbers of 32 bits that a run of bytes holds.
unfoldable pub words_of : List ℕ → List ℕ
words_of (a ∷ b ∷ c ∷ d ∷ bs) = load32 (a ∷ b ∷ c ∷ d ∷ []) ∷ words_of bs
words_of _ = []

-- The word at a place of a structure.
abbrev word : ℕ → List ℕ → ℕ
word k ws = elim (get_elem? ws k) [ none ↦ 0 | some w ↦ w ]

-- Reading succeeds if the message has as many words as the structure of its id, and the words that
-- are not arguments of the builder are those that the phones want: the party's id is the
-- complement of the conference's, which comes twice.
abbrev of_party : List ℕ → (second : ℕ) → Bool
of_party ws second = (word 0 ws + word 1 ws == 4294967295) && (word second ws == word 0 ws)

abbrev if_so : Bool → Message → Option Message
if_so b m = if b then some m else none

unfoldable pub read_data : (id : ℕ) → List ℕ → Option Message
read_data id ws =
    let n = length ws in
    if id == 157
    then if_so (n == 8) register_rej
    else if id == 155
    then if_so (n == 0) capabilities_req
    else if id == 277
    then if_so (n == 0) clear_message
    else if id == 256
    then if_so (n == 0) keep_alive_ack
    else if id == 273
    then if_so ((n == 6) && (word 3 ws == 0) && (word 4 ws == 4))
        (callstate (word 0 ws) (word 1 ws) (word 2 ws))
    else if id == 262
    then if_so ((n == 3) && of_party ws 2) (close_receive_channel (word 0 ws))
    else if id == 139
    then if_so ((n == 4) && of_party ws 2) (stop_media_transmission (word 0 ws))
    else if id == 261
    then if_so ((n == 30) && of_party ws 6 && (word 22 ws == 10))
        (open_receive_channel (word 0 ws) (word 2 ws) (word 3 ws))
    else if id == 134
    then if_so (n == 3) (lamp_state (word 0 ws) (word 1 ws) (word 2 ws))
    else if id == 133
    then if_so ((n == 5) && (word 1 ws == 1) && (word 2 ws == 1)) (ringer_mode (word 0 ws))
    else if id == 136
    then if_so (n == 1) (speaker_mode (word 0 ws))
    else if id == 159
    then if_so (n == 1) (reset (word 0 ws))
    else if id == 272
    then if_so ((n == 4) && (word 3 ws == 4294967295))
        (select_softkeys (word 0 ws) (word 1 ws) (word 2 ws))
    else if id == 131
    then if_so (n == 2) (stop_tone (word 0 ws) (word 1 ws))
    else if id == 130
    then if_so (n == 4) (tone (word 0 ws) (word 2 ws) (word 3 ws))
    else none

-- The id is the third word, and the data follow it.
unfoldable pub read_words : List ℕ → Option Message
unfolding read_data
read_words ws = read_data (word 2 ws) (drop 3 ws)

abbrev pub read_msg : List ℕ → Option Message
read_msg bs = read_words (words_of bs)

abbrev AllWords : List ℕ → Type 0
AllWords [] = Unit {0}
AllWords (w ∷ ws) = (w < 2 ^ 32) × AllWords ws

abbrev bytes : List ℕ → List ℕ → List ℕ
bytes [] end = end
bytes (w ∷ ws) end = le32 w ++ bytes ws end

words_of-bytes : (ws end : List ℕ) → AllWords ws → words_of end ≡ [] → words_of (bytes ws end) ≡ ws
unfolding words_of
words_of-bytes [] end a e = e
words_of-bytes (w ∷ ws) end a e =
    ap₂ (λ x xs. x ∷ xs) (load32-le32 w [] a.0) (words_of-bytes ws end a.1 e)

party-sum : (c : ℕ) → c < 2 ^ 32 → (c + party c == 4294967295) ≡ true
party-sum c h = ground arith

party-small : (c : ℕ) → party c < 2 ^ 32
party-small c = omega arith

-- The arguments are of 32 bits.
abbrev pub InRange : Message → Type 0
InRange (callstate a b c) = (a < 2 ^ 32) × (b < 2 ^ 32) × (c < 2 ^ 32)
InRange (close_receive_channel a) = a < 2 ^ 32
InRange (stop_media_transmission a) = a < 2 ^ 32
InRange (open_receive_channel a b c) = (a < 2 ^ 32) × (b < 2 ^ 32) × (c < 2 ^ 32)
InRange (lamp_state a b c) = (a < 2 ^ 32) × (b < 2 ^ 32) × (c < 2 ^ 32)
InRange (ringer_mode a) = a < 2 ^ 32
InRange (speaker_mode a) = a < 2 ^ 32
InRange (reset a) = a < 2 ^ 32
InRange (select_softkeys a b c) = (a < 2 ^ 32) × (b < 2 ^ 32) × (c < 2 ^ 32)
InRange (stop_tone a b) = (a < 2 ^ 32) × (b < 2 ^ 32)
InRange (tone a b c) = (a < 2 ^ 32) × (b < 2 ^ 32) × (c < 2 ^ 32)
InRange _ = Unit {0}

read_back : (m : Message) → InRange m → read_msg (bytes_of m) ≡ some m
unfolding bytes_of sccp_msg_register_rej sccp_msg_capabilities_req sccp_msg_clear_message
    sccp_msg_keep_alive_ack sccp_msg_callstate sccp_msg_close_receive_channel
    sccp_msg_open_receive_channel sccp_msg_lamp_state sccp_msg_ringer_mode sccp_msg_select_softkeys
    sccp_msg_speaker_mode sccp_msg_stop_media_transmission sccp_msg_stop_tone sccp_msg_tone
    sccp_msg_reset words_of read_words load32
read_back register_rej r = refl
read_back capabilities_req r = refl
read_back clear_message r = refl
read_back keep_alive_ack r = refl
read_back (callstate a b c) (x, y, z) =
    ap read_words
      (words_of-bytes (28 ∷ 0 ∷ 273 ∷ a ∷ b ∷ c ∷ 0 ∷ 4 ∷ 0 ∷ []) [] (ground (arith, x, y, z)) refl)
read_back (close_receive_channel a) x =
    ap read_words (
      words_of-bytes (16 ∷ 0 ∷ 262 ∷ a ∷ party a ∷ a ∷ []) [] (ground (arith, x, party-small a))
        refl)
    ∙ rw (party-sum a x, ==_refl a) refl
read_back (stop_media_transmission a) x =
    ap read_words (
      words_of-bytes (20 ∷ 0 ∷ 139 ∷ a ∷ party a ∷ a ∷ 0 ∷ []) [] (ground (arith, x, party-small a))
        refl)
    ∙ rw (party-sum a x, ==_refl a) refl
read_back (open_receive_channel a b c) (x, y, z) =
    ap read_words (
      words_of-bytes
        (124
          ∷ 0
          ∷ 261
          ∷ a
          ∷ party a
          ∷ b
          ∷ c
          ∷ 0
          ∷ 0
          ∷ a
          ∷ 0
          ∷ 0
          ∷ 0
          ∷ 0
          ∷ 0
          ∷ 0
          ∷ 0
          ∷ 0
          ∷ 0
          ∷ 0
          ∷ 0
          ∷ 0
          ∷ 0
          ∷ 0
          ∷ 0
          ∷ 10
          ∷ 0
          ∷ 0
          ∷ 0
          ∷ 0
          ∷ 0
          ∷ 0
          ∷ 0
          ∷ [])
        [] (ground (arith, x, y, z, party-small a)) refl)
    ∙ rw (party-sum a x, ==_refl a) refl
read_back (lamp_state a b c) (x, y, z) =
    ap read_words (words_of-bytes (16 ∷ 0 ∷ 134 ∷ a ∷ b ∷ c ∷ []) [] (ground (arith, x, y)) refl)
read_back (ringer_mode a) x =
    ap read_words
      (words_of-bytes (24 ∷ 0 ∷ 133 ∷ a ∷ 1 ∷ 1 ∷ 0 ∷ 0 ∷ []) [] (ground (arith, x)) refl)
read_back (speaker_mode a) x =
    ap read_words (words_of-bytes (8 ∷ 0 ∷ 136 ∷ a ∷ []) [] (ground arith) refl)
read_back (reset a) x = ap read_words (words_of-bytes (8 ∷ 0 ∷ 159 ∷ a ∷ []) [] (ground arith) refl)
read_back (select_softkeys a b c) (x, y, z) =
    ap read_words (
      words_of-bytes (20 ∷ 0 ∷ 272 ∷ a ∷ b ∷ c ∷ 4294967295 ∷ []) [] (ground (arith, x, y, z)) refl)
read_back (stop_tone a b) (x, y) =
    ap read_words (words_of-bytes (12 ∷ 0 ∷ 131 ∷ a ∷ b ∷ []) [] (ground (arith, x)) refl)
read_back (tone a b c) (x, y, z) =
    ap read_words
      (words_of-bytes (20 ∷ 0 ∷ 130 ∷ a ∷ 0 ∷ b ∷ c ∷ []) [] (ground (arith, x, y)) refl)

-- Each message with arguments of 32 bits, whatever bytes follow it in the stream, comes out of it as
-- one frame that fits into a `struct sccp_msg`, and a reader that goes by the ids and the structures of
-- sccp_msg.h reads from it the same message with the same arguments.
pub built-read :
    (m : Message) (rest : List ℕ)
    → InRange m
    → (frame (bytes_of m ++ rest) ≡ message (bytes_of m) rest)
      × (length (bytes_of m) ≤ max_total_len)
      × (read_msg (bytes_of m) ≡ some m)
built-read m rest r = let (f, l) = whole m rest in (f, l, read_back m r)
