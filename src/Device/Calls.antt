-- ===== src/Device/Calls.antt =====
-- sccp_device.c: the call operations, from do_hold to do_answer_options.
-- A returned 0 is `true` and -1 is `false`; a returned pointer is an option.
use wazo_libsccp.Common.{
  ℕ, suc, ◌+◌, ◌==◌, Bool, true, false, not, ◌&&◌, List, [], ◌∷◌, ◌++◌, Option, none, some,
  if◌then◌else◌, is_some, is_empty,
}
use wazo_libsccp.Device.Types.{
  Device, Subchan, devstate, not_inuse, inuse, rtp_stop, rtp_destroy, hangupcause_busy,
  remove_dialtimeout, queue_hangup, queue_hold, stop_media_transmission, speaker, speaker_on,
  speaker_off, ringer, ring_off, line_lamp, lamp_on, CallState, offhook, onhook, ringout, ringin,
  connected, hold, key_onhold, key_connected, key_offhook, tone_dial, Direction, outgoing,
}
use wazo_libsccp.Device.Core.{
  ◌▷◌, emit, send, modify, next_u32, is_state, is_recv_closed, add_task, sccp_device_set_fault,
  sccp_device_on_idle, transmit_subchan_callstate, transmit_subchan_selectsoftkeys,
  transmit_subchan_tone, transmit_subchan_stop_tone, transmit_close_receive_channel,
  transmit_subchan_open_receive_channel,
}

-- `p == device->active_subchan`
abbrev pub is_ptr : ℕ → Option ℕ → Bool
is_ptr p none = false
is_ptr p (some q) = p == q

-- The first subchannel of the line with a property, as by AST_LIST_TRAVERSE.
unfoldable pub first_with : (Subchan → Bool) → (ℕ → Subchan) → List ℕ → Option ℕ
first_with test heap [] = none
first_with test heap (p ∷ ps) = if test (heap p) then some p else first_with test heap ps

abbrev pub sccp_lines_get_subchan : ℕ → Device → Option ℕ
sccp_lines_get_subchan id d = first_with (λ s. s.id == id) d.heap d.subchans

abbrev pub sccp_lines_get_next_subchan : CallState → Device → Option ℕ
sccp_lines_get_next_subchan st d = first_with (λ s. is_state s.state st) d.heap d.subchans

-- AST_LIST_REMOVE
unfoldable pub remove : ℕ → List ℕ → List ℕ
remove p [] = []
remove p (q ∷ qs) = if q == p then qs else q ∷ remove p qs

abbrev pub sccp_device_is_idle : Device → Bool
sccp_device_is_idle d = is_empty d.subchans

-- What do_hold does once the channel is told.
unfoldable pub hold_subchan : ℕ → Device → Device
hold_subchan p d =
    let id = (d.heap p).id in
    let e =
      if (d.heap p).rtp
      then modify p (λ s. record s { direct_media_addr = none }) (emit (rtp_stop p) d)
      else d in
    let g =
      e
      ▷ transmit_subchan_callstate p hold
      ▷ transmit_subchan_selectsoftkeys p key_onhold
      ▷ send (speaker speaker_off)
      ▷ transmit_close_receive_channel id
      ▷ send (stop_media_transmission id) in
    record g { active_subchan = none }

-- `p` is the active subchannel; the callers have one.
unfoldable pub do_hold : ℕ → Device → Bool × Device
unfolding hold_subchan
do_hold p d = elim (d.heap p).channel [
  | none ↦ (true, hold_subchan p d)
  | some c ↦
      let (ok, e) = add_task (queue_hold c) d in if ok then (true, hold_subchan p e) else (false, e)
]

-- There is no active subchannel.
unfoldable pub do_resume : ℕ → Device → Device
do_resume p d =
    let e =
      d
      ▷ transmit_subchan_callstate p connected
      ▷ transmit_subchan_selectsoftkeys p key_connected
      ▷ send (speaker speaker_on) in
    let g =
      if (d.heap p).rtp
      then e
        ▷ modify p (λ s. record s { resuming = true })
        ▷ transmit_subchan_open_receive_channel p
      else e in
    record g { active_subchan = some p }

-- sccp_subchannel_alloc
abbrev pub new_subchan : ℕ → Direction → Subchan
new_subchan id dir = record {
  direct_media_addr = none;
  channel = none;
  rtp = false;
  related = none;
  id = id;
  framing = 0;
  state = offhook;
  direction = dir;
  ringout_progress = false;
  resuming = false;
  autoanswer = false;
  transferring = false;
}

-- The call number is taken also when there is no memory. The object is new, and goes to the end of the
-- line's list.
unfoldable pub sccp_line_new_subchannel : Direction → Device → Option ℕ × Device
sccp_line_new_subchannel dir d =
    let e = record d { serial_callid = next_u32 d.serial_callid; mem = λ k. d.mem (suc k) } in
    if d.mem 0
    then (
      some d.next_ptr,
      record (modify d.next_ptr (λ s. new_subchan d.serial_callid dir) e) {
        subchans = d.subchans ++ d.next_ptr ∷ [];
        next_ptr = d.next_ptr + 1;
      },
    )
    else (none, e)

-- The end of do_newcall_options, with a new subchannel.
unfoldable pub open_newcall : Bool → Option ℕ × Device → Option ℕ × Device
open_newcall speaker_opt (none, d) = (none, d)
open_newcall speaker_opt (some p, d) =
    let e =
      record d { active_subchan = some p }
      ▷ send (line_lamp d.cfg.line_instance lamp_on)
      ▷ transmit_subchan_callstate p offhook
      ▷ transmit_subchan_selectsoftkeys p key_offhook
      ▷ transmit_subchan_tone p tone_dial in
    (some p, emit (devstate inuse) (if speaker_opt then send (speaker speaker_on) e else e))

-- The middle of do_newcall_options: hold the active call, and open a new one.
unfoldable pub hold_then_newcall : Bool → Device → Option ℕ × Device
hold_then_newcall speaker_opt d = elim d.active_subchan [
  | none ↦ open_newcall speaker_opt (sccp_line_new_subchannel outgoing d)
  | some a ↦
      let (ok, e) = do_hold a d in
      if ok then open_newcall speaker_opt (sccp_line_new_subchannel outgoing e) else (none, e)
]

-- The flag is OPT_SPEAKER_ON.
unfoldable pub do_newcall_options : Bool → Device → Option ℕ × Device
unfolding hold_then_newcall open_newcall
do_newcall_options speaker_opt d =
    if is_some (sccp_lines_get_next_subchan ringout d)
    then (none, d)
    else elim (sccp_lines_get_next_subchan offhook d) [
      | some p ↦ (some p, d)
      | none ↦ hold_then_newcall speaker_opt d
    ]

-- do_clear_subchannel, part 1: the media, and what the phone shows of the call.
unfoldable pub clear_media : ℕ → Device → Device
clear_media p d =
    let id = (d.heap p).id in
    let e =
      if (d.heap p).rtp
      then (if is_ptr p d.active_subchan
          then d ▷ transmit_close_receive_channel id ▷ send (stop_media_transmission id)
          else d)
        ▷ emit (rtp_stop p)
        ▷ emit (rtp_destroy p)
        ▷ modify p (λ s. record s { rtp = false })
      else if is_ptr p d.active_subchan && not (is_recv_closed d.recv_chan_status)
      then transmit_close_receive_channel id d
      else d in
    e ▷ send (ringer ring_off) ▷ transmit_subchan_callstate p onhook ▷ transmit_subchan_stop_tone p

-- Part 2: the channel and the related subchannel are forgotten, on both sides.
unfoldable pub clear_links : ℕ → Device → Device
clear_links p d =
    let e = modify p (λ s. record s { channel = none }) d in
    elim (d.heap p).related [
      | none ↦ e
      | some q ↦
          e
          ▷ modify q (λ s. record s { related = none })
          ▷ modify p (λ s. record s { related = none })
    ]

-- Part 3: the subchannel leaves the line, and is no longer active.
unfoldable pub clear_list : ℕ → Device → Device
clear_list p d =
    let e = record d { subchans = remove p d.subchans } in
    let g =
      if sccp_device_is_idle e
      then e ▷ send (speaker speaker_off) ▷ emit (devstate not_inuse)
      else e in
    if is_ptr p g.active_subchan then record g { active_subchan = none } else g

-- Part 4: an idle device is checked, and reset if need be.
unfoldable pub clear_idle : Device → Device
unfolding sccp_device_set_fault sccp_device_on_idle
clear_idle d =
    if sccp_device_is_idle d
    then sccp_device_on_idle
        (if is_recv_closed d.recv_chan_status then d else sccp_device_set_fault d)
    else d

unfoldable pub do_clear_subchannel : ℕ → Device → Device
unfolding clear_media clear_links clear_list clear_idle
do_clear_subchannel p d = d ▷ clear_media p ▷ clear_links p ▷ clear_list p ▷ clear_idle

unfoldable pub do_hangup : ℕ → Device → Bool × Device
do_hangup p d =
    let e = emit (remove_dialtimeout p) (record d { exten = [] }) in
    elim (d.heap p).channel [
      | none ↦ (true, do_clear_subchannel p e)
      | some c ↦
          add_task (queue_hangup c)
            (if is_state (d.heap p).state ringin then emit (hangupcause_busy c) e else e)
    ]

-- The end of do_answer_options, when no other call is in the way.
unfoldable pub answer_subchan : Bool → ℕ → Device → Device
answer_subchan speaker_opt p d =
    let e = record d { active_subchan = some p } in
    (if speaker_opt then send (speaker speaker_on) e else e)
    ▷ send (ringer ring_off)
    ▷ transmit_subchan_callstate p offhook
    ▷ transmit_subchan_callstate p connected
    ▷ transmit_subchan_stop_tone p
    ▷ transmit_subchan_selectsoftkeys p key_connected
    ▷ transmit_subchan_open_receive_channel p
    ▷ modify p (λ s. record s { state = connected })
    ▷ emit (devstate inuse)

-- An active call that still rings out is hung up, whatever that returns; any other is held.
unfoldable pub make_room : Device → Bool × Device
make_room d = elim d.active_subchan [
  | none ↦ (true, d)
  | some a ↦ if is_state (d.heap a).state ringout then (true, (do_hangup a d).1) else do_hold a d
]

unfoldable pub do_answer_options : Bool → ℕ → Device → Bool × Device
unfolding answer_subchan make_room
do_answer_options speaker_opt p d =
    if not (is_some (d.heap p).channel)
    then (false, d)
    else if not (is_state (d.heap p).state ringin)
    then (false, d)
    else (let (ok, e) = make_room d in
        if ok then (true, answer_subchan speaker_opt p e) else (false, e))
