-- ===== src/Device/Moves.antt =====
-- sccp_device.c: do_newcall_options, do_hangup and do_answer_options, against the predicate of
-- Valid.
use wazo_libsccp.Common.{
  ℕ, ◌==◌, ◌≡◌, refl, sym, ap, ◌∙◌, Bool, true, false, List, [], ◌∷◌, some, is_some, arith,
  Bool-cases, Option-cases, inl, inr, ==_iff,
}
use wazo_libsccp.Device.Types.{
  Device, Direction, ringout, ringin, remove_dialtimeout, queue_hold, queue_hangup, Effect,
  outgoing,
}
use wazo_libsccp.Device.Core.{emit, is_state, state_code, transmit_subchan_open_receive_channel}
use wazo_libsccp.Device.Calls.{
  hold_subchan, do_hold, sccp_line_new_subchannel, open_newcall, hold_then_newcall,
  do_newcall_options, do_hangup, answer_subchan, make_room, do_answer_options,
}
use wazo_libsccp.Device.Valid.{IsValid, mem, mem-append, mem-remove, mem_or_null}
use wazo_libsccp.Device.Links.{Valid-activate, Valid-grow, Valid-links, Valid-at}
use wazo_libsccp.Device.Safety.{
  SameCalls, add_task-SameCalls, SameCalls-IsValid, do_hold-IsValid, open_newcall-IsValid,
}
use wazo_libsccp.Device.Clear.{do_clear_subchannel-IsValid, do_clear_subchannel-subchans}

pub new_subchannel-IsValid :
    (dir : Direction) (d : Device)
    → IsValid d
    → (let r = sccp_line_new_subchannel dir d in
        IsValid r.1 × (mem_or_null r.0 r.1.subchans ≡ true))
unfolding sccp_line_new_subchannel
new_subchannel-IsValid dir d v = elim (Bool-cases (d.mem 0)) [
  | inl ok ↦ rw ok (
    Valid-links (λ x. ground arith) (Valid-grow v),
    ground (arith, mem-append d.next_ptr d.subchans (d.next_ptr ∷ [])),
  )
  | inr full ↦ rw full (v, refl)
]

opened-IsValid :
    (b : Bool) (d : Device)
    → IsValid d
    → IsValid (open_newcall b (sccp_line_new_subchannel outgoing d)).1
opened-IsValid b d v =
    let n = new_subchannel-IsValid outgoing d v in
    open_newcall-IsValid b _ (sccp_line_new_subchannel outgoing d).1 n.0 n.1

pub hold_then_newcall-IsValid :
    (b : Bool) (d : Device) → IsValid d → IsValid (hold_then_newcall b d).1
unfolding hold_then_newcall
hold_then_newcall-IsValid b d v = elim (Option-cases d.active_subchan) [
  | inl e ↦ rw (hold_then_newcall, e) (opened-IsValid b d v)
  | inr (a, e) ↦ elim (Bool-cases (do_hold a d).0) [
    | inl ok ↦
        rw (hold_then_newcall, e, ok) (opened-IsValid b (do_hold a d).1 (do_hold-IsValid a d v))
    | inr bad ↦ rw (hold_then_newcall, e, bad) (do_hold-IsValid a d v)
  ]
]

-- Asking for a new call keeps a valid device valid, on every branch: an offhook subchannel is there,
-- a call rings out, the active call cannot be held, or there is no memory.
pub do_newcall_options-IsValid :
    (b : Bool) (d : Device) → IsValid d → IsValid (do_newcall_options b d).1
unfolding do_newcall_options
do_newcall_options-IsValid b d v = ground (arith, hold_then_newcall-IsValid b d v)

SameCalls-start :
    {x : List ℕ} {o : List Effect} {d e : Device}
    → SameCalls (record d { exten = x; out = o }) e
    → SameCalls d e
SameCalls-start s = record {
  heap = s.heap;
  subchans = s.subchans;
  next_ptr = s.next_ptr;
  active_subchan = s.active_subchan;
  recv_chan_status = s.recv_chan_status;
  fault = s.fault;
}

-- A hang-up of a subchannel with a channel: only the task is new.
hangup_queued : (c p : ℕ) (d : Device) → (d.heap p).channel ≡ some c → SameCalls d (do_hangup p d).1
unfolding do_hangup
hangup_queued c p d e = elim (Bool-cases (is_state (d.heap p).state ringin)) [
  | inl i ↦ rw (do_hangup, e, i) (SameCalls-start (add_task-SameCalls (queue_hangup c) _))
  | inr o ↦ rw (do_hangup, e, o) (SameCalls-start (add_task-SameCalls (queue_hangup c) _))
]

-- Hanging up a subchannel of the line keeps a valid device valid: it is cleared now if it has no
-- channel, and else when its channel hangs up.
pub do_hangup-IsValid :
    (p : ℕ) (d : Device) → IsValid d → mem p d.subchans ≡ true → IsValid (do_hangup p d).1
unfolding do_hangup
do_hangup-IsValid p d v m = elim (Option-cases (d.heap p).channel) [
  | inl e ↦ rw (do_hangup, e) (do_clear_subchannel-IsValid p _ v m)
  | inr (c, e) ↦ SameCalls-IsValid (hangup_queued c p d e) v
]

hangup_keeps_others :
    (q p : ℕ) (d : Device)
    → IsValid d
    → (q == p) ≡ false
    → mem q d.subchans ≡ true
    → mem q (do_hangup p d).1.subchans ≡ true
unfolding do_hangup
hangup_keeps_others q p d v ne m = elim (Option-cases (d.heap p).channel) [
  | inl e ↦
      rw
        (
          do_hangup,
          e,
          do_clear_subchannel-subchans p (emit (remove_dialtimeout p) (record d { exten = [] })),
        )
        (ground (arith, mem-remove q p d.subchans v.distinct))
  | inr (c, e) ↦ rw (hangup_queued c p d e).subchans m
]

pub hold_keeps_line : (p : ℕ) (d : Device) → (do_hold p d).1.subchans ≡ d.subchans
unfolding do_hold hold_subchan
hold_keeps_line p d = elim (Option-cases (d.heap p).channel) [
  | inl e ↦ rw (do_hold, e) (ground arith)
  | inr (c, e) ↦ rw (do_hold, e) (ground (arith, (add_task-SameCalls (queue_hold c) d).subchans))
]

-- The active call makes room for a ringing one, which stays on the line.
make_room_lem :
    (p : ℕ) (d : Device)
    → IsValid d
    → mem p d.subchans ≡ true
    → is_state (d.heap p).state ringin ≡ true
    → IsValid (make_room d).1 × (mem p (make_room d).1.subchans ≡ true)
unfolding make_room
make_room_lem p d v m rings = elim (Option-cases d.active_subchan) [
  | inl e ↦ rw (make_room, e) (v, m)
  | inr (a, e) ↦
      let listed : mem a d.subchans ≡ true =
        ap (λ o. mem_or_null o d.subchans) (sym e) ∙ v.active_listed in
      elim (Bool-cases (is_state (d.heap a).state ringout)) [
        | inl out ↦
            let other : (p == a) ≡ false = elim (Bool-cases (p == a)) [
              | inl hit ↦ ground (arith, ap (λ q. state_code (d.heap q).state) ((==_iff p a).0 hit))
              | inr miss ↦ miss
            ] in
            rw (make_room, e, out)
              (do_hangup-IsValid a d v listed, hangup_keeps_others p a d v other m)
        | inr idle ↦
            rw (make_room, e, idle) (do_hold-IsValid a d v, ap (mem p) (hold_keeps_line a d) ∙ m)
      ]
]

answer_subchan-IsValid :
    (b : Bool) (p : ℕ) (d : Device)
    → IsValid d
    → mem p d.subchans ≡ true
    → IsValid (answer_subchan b p d)
unfolding answer_subchan transmit_subchan_open_receive_channel
answer_subchan-IsValid b p d v m =
    Valid-at (ground arith) (ground arith) (ground arith) refl (λ x. ground arith)
      (Valid-activate v p (answer_subchan b p d).recv_chan_status m)

-- Answering a subchannel of the line keeps a valid device valid, whether the call in the way is hung
-- up, held, or cannot be held.
pub do_answer_options-IsValid :
    (b : Bool) (p : ℕ) (d : Device)
    → IsValid d
    → mem p d.subchans ≡ true
    → IsValid (do_answer_options b p d).1
unfolding do_answer_options
do_answer_options-IsValid b p d v m = elim (Bool-cases (is_some (d.heap p).channel)) [
  | inl c ↦ elim (Bool-cases (is_state (d.heap p).state ringin)) [
    | inl r ↦
        let room = make_room_lem p d v m r in
        elim (Bool-cases (make_room d).0) [
          | inl ok ↦ rw (c, r, ok) (answer_subchan-IsValid b p (make_room d).1 room.0 room.1)
          | inr bad ↦ rw (c, r, bad) room.0
        ]
    | inr quiet ↦ rw (c, quiet) v
  ]
  | inr unset ↦ rw unset v
]
