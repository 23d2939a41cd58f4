-- ===== src/Device/Safety.antt =====
-- sccp_device.c: do_hold, do_resume and queued tasks, against the predicate of Valid.
use wazo_libsccp.Common.{
  ℕ, ◌≡◌, Bool, true, false, List, [], ◌∷◌, Option, none, some, arith, Bool-cases, Option-cases,
  inl, inr,
}
use wazo_libsccp.Device.Types.{Device, recv_opening, NolockTask, queue_hold, Effect}
use wazo_libsccp.Device.Core.{
  emit, emit_all, refs, channels, is_recv_closed, add_task, add_nolock_task,
  transmit_subchan_open_receive_channel,
}
use wazo_libsccp.Device.Calls.{hold_subchan, do_hold, do_resume, open_newcall}
use wazo_libsccp.Device.Valid.{IsValid, mem, mem_or_null}
use wazo_libsccp.Device.Links.{Valid-hold, Valid-activate, Valid-links}

-- The lists and pointers of two devices are the same.
pub record SameCalls (d e : Device) : Type 0 where
  pub heap : e.heap ≡ d.heap
  pub subchans : e.subchans ≡ d.subchans
  pub next_ptr : e.next_ptr ≡ d.next_ptr
  pub active_subchan : e.active_subchan ≡ d.active_subchan
  pub recv_chan_status : e.recv_chan_status ≡ d.recv_chan_status
  pub fault : e.fault ≡ d.fault

pub emit_all-SameCalls :
    (es : List Effect) (d e : Device) → SameCalls d e → SameCalls d (emit_all es e)
unfolding emit_all
emit_all-SameCalls [] d e s = s
emit_all-SameCalls (x ∷ es) d e s = emit_all-SameCalls es d (emit x e) (record {
  heap = s.heap;
  subchans = s.subchans;
  next_ptr = s.next_ptr;
  active_subchan = s.active_subchan;
  recv_chan_status = s.recv_chan_status;
  fault = s.fault;
})

add_nolock_task-SameCalls : (t : NolockTask) (d : Device) → SameCalls d (add_nolock_task t d).1
unfolding add_nolock_task
add_nolock_task-SameCalls t d = ground arith

-- A task that waits, or the panic that comes in its place, changes no call.
pub add_task-SameCalls : (t : NolockTask) (d : Device) → SameCalls d (add_task t d).1
unfolding add_task
add_task-SameCalls t d = elim (Bool-cases (add_nolock_task t d).0) [
  | inl ok ↦ rw ok (emit_all-SameCalls (refs (channels t)) d _ (add_nolock_task-SameCalls t d))
  | inr bad ↦ rw bad (add_nolock_task-SameCalls t d)
]

pub SameCalls-IsValid : {d e : Device} → SameCalls d e → IsValid d → IsValid e
SameCalls-IsValid s v = rw (s.subchans, s.next_ptr, s.active_subchan, s.recv_chan_status, s.heap) v

-- The pointer fields after a step, and what they were.
hold_subchan-IsValid : (p : ℕ) (d : Device) → IsValid d → IsValid (hold_subchan p d)
unfolding hold_subchan
hold_subchan-IsValid p d v = elim (Bool-cases (d.heap p).rtp) [
  | inl r ↦ rw r (Valid-links (λ x. ground arith) (Valid-hold v))
  | inr n ↦ rw n (Valid-hold v)
]

pub do_hold-IsValid : (p : ℕ) (d : Device) → IsValid d → IsValid (do_hold p d).1
unfolding do_hold
do_hold-IsValid p d v = elim (Option-cases (d.heap p).channel) [
  | inl e ↦ rw (do_hold, e) (hold_subchan-IsValid p d v)
  | inr (c, e) ↦
      let w = SameCalls-IsValid (add_task-SameCalls (queue_hold c) d) v in
      elim (Bool-cases (add_task (queue_hold c) d).0) [
        | inl ok ↦ rw (do_hold, e, ok) (hold_subchan-IsValid p (add_task (queue_hold c) d).1 w)
        | inr bad ↦ rw (do_hold, e, bad) w
      ]
]

pub do_resume-IsValid :
    (p : ℕ) (d : Device) → IsValid d → mem p d.subchans ≡ true → IsValid (do_resume p d)
unfolding do_resume transmit_subchan_open_receive_channel
do_resume-IsValid p d v m = elim (Bool-cases (d.heap p).rtp) [
  | inl r ↦ elim (Bool-cases (is_recv_closed d.recv_chan_status)) [
    | inl c ↦ rw (r, c) (Valid-links (λ x. ground arith) (Valid-activate v p recv_opening m))
    | inr o ↦ rw (r, o) (Valid-links (λ x. ground arith) (Valid-activate v p _ m))
  ]
  | inr n ↦ rw n (Valid-activate v p _ m)
]

pub open_newcall-IsValid :
    (b : Bool) (o : Option ℕ) (d : Device)
    → IsValid d
    → mem_or_null o d.subchans ≡ true
    → IsValid (open_newcall b (o, d)).1
unfolding open_newcall
open_newcall-IsValid b none d v m = v
open_newcall-IsValid true (some p) d v m = Valid-activate v p _ m
open_newcall-IsValid false (some p) d v m = Valid-activate v p _ m
