-- ===== src/Deserializer.antt =====
-- sccp_msg.c, the message deserializer: bytes from a socket into a buffer, and messages out of it.
-- The file descriptor is left out: what read(2) gives is an argument, `none` for -1 and the bytes
-- read otherwise. A byte is a number below 256. `letohl` on the host's `memcpy` of four bytes is the
-- little-endian number that they spell.
pub mod Frame
pub mod Bounds
pub mod Stream
pub mod Drain
pub mod Receive
mod Tests
use wazo_libsccp.Common.{
  ℕ, zero, suc, ◌+◌, ◌-◌, ◌*◌, ◌%◌, ◌^◌, ◌≡◌, List, [], ◌∷◌, ◌++◌, Option, none, some, length, take,
  drop, ltb, leb, ◌==◌, if◌then◌else◌,
}

-- sizeof(deserializer->buf)
abbrev pub buf_size : ℕ
buf_size = 3072

-- SCCP_MSG_MIN_TOTAL_LEN
abbrev pub min_total_len : ℕ
min_total_len = 12

-- SCCP_MSG_MAX_TOTAL_LEN: three header words, and `struct softkey_set_res_message`, the largest
-- member of the union: 3 * 4 + 16 * (16 + 16 * 2) + 4 bytes.
abbrev pub max_total_len : ℕ
max_total_len = 796

-- `size_t` arithmetic.
abbrev pub add_size : ℕ → ℕ → ℕ
add_size a b = (a + b) % 2 ^ 64

abbrev pub sub_size : ℕ → ℕ → ℕ
sub_size a b = (a + 2 ^ 64 - b) % 2 ^ 64

-- SCCP_MSG_TOTAL_LEN_FROM_LEN of a `uint32_t`: the sum is taken in 32 bits.
abbrev pub total_len : ℕ → ℕ
total_len n = (n + 8) % 2 ^ 32

-- `letohl` of the first four bytes; past the end of the array, 0.
unfoldable pub load32 : List ℕ → ℕ
load32 (a ∷ b ∷ c ∷ d ∷ xs) = a + 256 * b + 65536 * c + 16777216 * d
load32 _ = 0

pub record Deserializer : Type 0 where
  pub msg : List ℕ
  pub start : ℕ
  pub end : ℕ
  pub buf : List ℕ

pub data ReadRet : Type 0 where
  read_done read_failed read_full read_eof : ReadRet

pub data PopRet : Type 0 where
  popped nomsg malformed : PopRet

unfoldable pub init : Deserializer → Deserializer
init d = record d { start = 0; end = 0 }

-- `read(fd, &buf[end], bytes_left)` writes the bytes that it returns.
unfoldable pub fill : Deserializer → Option (List ℕ) → ReadRet × Deserializer
fill d none = (read_failed, d)
fill d (some []) = (read_eof, d)
fill d (some (b ∷ bs)) =
    let n = length (b ∷ bs) in
    (
      read_done,
      record d {
        buf = take d.end d.buf ++ ((b ∷ bs) ++ drop (d.end + n) d.buf);
        end = add_size d.end n;
      },
    )

unfoldable pub read : Deserializer → Option (List ℕ) → ReadRet × Deserializer
unfolding fill
read d got = if sub_size buf_size d.end == 0 then (read_full, d) else fill d got

-- The end of `pop`: the copy into `msg`, of which the rest keeps what it held, and the new start.
unfoldable pub deliver : Deserializer → ℕ → ℕ → PopRet × Option (List ℕ) × Deserializer
deliver d total copy =
    let m = take copy (drop d.start d.buf) ++ drop copy d.msg in
    let new_start = add_size d.start total in
    (
      popped,
      some m,
      if new_start == d.end
          then record d { msg = m; start = 0; end = 0 }
          else record d { msg = m; start = new_start },
    )

unfoldable pub pop : Deserializer → PopRet × Option (List ℕ) × Deserializer
pop d =
    let avail = sub_size d.end d.start in
    let total = total_len (load32 (drop d.start d.buf)) in
    if ltb avail min_total_len
    then (nomsg, none, d)
    else if ltb avail total
    then (nomsg, none, d)
    else if ltb total min_total_len
    then (malformed, none, d)
    else if ltb max_total_len total
    then (if leb total buf_size then deliver d total max_total_len else (malformed, none, d))
    else deliver d total total

-- What a loop of pops hands on, the result that ends it, and the deserializer then.
pub record Drained : Type 0 where
  pub msgs : List (List ℕ)
  pub last : PopRet
  pub state : Deserializer

handed_on : Option (List ℕ) → Option Drained → Option Drained
handed_on (some m) (some r) = some (record r { msgs = m ∷ r.msgs })
handed_on _ r = r

-- `while (!(ret = sccp_deserializer_pop(...)))` of `sccp_session_on_sock_events`, with fuel; `none`
-- means that the fuel ran out.
pub pop_all : ℕ → Deserializer → Option Drained
unfolding handed_on
pop_all zero d = none
pop_all (suc fuel) d =
    let (r, m, d') = pop d in
    elim r [
      | popped ↦ handed_on m (pop_all fuel d')
      | other ↦ some (record { msgs = []; last = other; state = d' })
    ]

-- One turn of the socket handler: a read, and the pops that follow a successful one.
pub receive : ℕ → Deserializer → List ℕ → Option Drained
receive fuel d bs =
    let (r, d') = read d (some bs) in
    elim r [
      | read_done ↦ pop_all fuel d'
      | _ ↦ some (record { msgs = []; last = nomsg; state = d' })
    ]

after_turn : Drained → Option Drained → Option Drained
after_turn r none = none
after_turn r (some t) = some (record t { msgs = r.msgs ++ t.msgs })

-- The turns for the byte sequences that arrive one after the other. A malformed message ends them.
pub receive_all : ℕ → Deserializer → List (List ℕ) → Option Drained
unfolding after_turn
receive_all fuel d [] = some (record { msgs = []; last = nomsg; state = d })
receive_all fuel d (c ∷ cs) = elim (receive fuel d c) [
  | none ↦ none
  | some r ↦ elim r.last [ nomsg ↦ after_turn r (receive_all fuel r.state cs) | _ ↦ some r ]
]
