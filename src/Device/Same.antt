-- ===== src/Device/Same.antt =====
-- sccp_device.c: steps that do not touch the pointers of a device.
use wazo_libsccp.Common.{ℕ, ◌≡◌, refl, ap, ◌∙◌, List, [], ◌∷◌, is_empty, Bool-cases, inl, inr}
use wazo_libsccp.Queue.{move_to, is_empty_queue}
use wazo_libsccp.Device.Types.{Device, NolockTask}
use wazo_libsccp.Device.Core.{unrefs, channels, exec_task, exec_nolock_tasks, sccp_device_unlock}
use wazo_libsccp.Device.Valid.{IsValid, related_of}
use wazo_libsccp.Device.Links.{Valid-at}
use wazo_libsccp.Device.Safety.{SameCalls, SameCalls-IsValid, emit_all-SameCalls}

-- The list, the pointers and the links of two devices are the same.
pub record SameLinks (d e : Device) : Type 0 where
  pub subchans : e.subchans ≡ d.subchans
  pub next_ptr : e.next_ptr ≡ d.next_ptr
  pub active_subchan : e.active_subchan ≡ d.active_subchan
  pub recv_chan_status : e.recv_chan_status ≡ d.recv_chan_status
  pub related : (x : ℕ) → related_of e x ≡ related_of d x

pub SameLinks-IsValid : {d e : Device} → SameLinks d e → IsValid d → IsValid e
SameLinks-IsValid s v =
    Valid-at s.subchans s.next_ptr s.active_subchan s.recv_chan_status s.related v

pub SameLinks-trans : {d e f : Device} → SameLinks d e → SameLinks e f → SameLinks d f
SameLinks-trans s t = record {
  subchans = t.subchans ∙ s.subchans;
  next_ptr = t.next_ptr ∙ s.next_ptr;
  active_subchan = t.active_subchan ∙ s.active_subchan;
  recv_chan_status = t.recv_chan_status ∙ s.recv_chan_status;
  related = λ x. t.related x ∙ s.related x;
}

pub SameCalls-SameLinks : {d e : Device} → SameCalls d e → SameLinks d e
SameCalls-SameLinks s = record {
  subchans = s.subchans;
  next_ptr = s.next_ptr;
  active_subchan = s.active_subchan;
  recv_chan_status = s.recv_chan_status;
  related = λ x. ap (λ h. (h x).related) s.heap;
}

exec_nolock_tasks-SameCalls :
    (ts : List NolockTask) (d e : Device) → SameCalls d e → SameCalls d (exec_nolock_tasks ts e)
unfolding exec_nolock_tasks exec_task
exec_nolock_tasks-SameCalls [] d e s = s
exec_nolock_tasks-SameCalls (t ∷ ts) d e s = exec_nolock_tasks-SameCalls ts d (exec_task t e) (
    emit_all-SameCalls (unrefs (channels t)) d _ (record {
      heap = s.heap;
      subchans = s.subchans;
      next_ptr = s.next_ptr;
      active_subchan = s.active_subchan;
      recv_chan_status = s.recv_chan_status;
      fault = s.fault;
    }))

pub unlock-SameCalls : (d : Device) → SameCalls d (sccp_device_unlock d)
unfolding sccp_device_unlock move_to is_empty_queue
unlock-SameCalls d = elim (Bool-cases (is_empty d.nolock_tasks.containers)) [
  | inl e ↦ rw (sccp_device_unlock, e) start
  | inr n ↦
      rw (sccp_device_unlock, n) (exec_nolock_tasks-SameCalls d.nolock_tasks.containers d _ moved)
]
  where
    start : SameCalls d d
    start = record {
      heap = refl;
      subchans = refl;
      next_ptr = refl;
      active_subchan = refl;
      recv_chan_status = refl;
      fault = refl;
    }

    moved : SameCalls d (record d {
      nolock_tasks = record { containers = []; item_size = d.nolock_tasks.item_size };
    })
    moved = record {
      heap = refl;
      subchans = refl;
      next_ptr = refl;
      active_subchan = refl;
      recv_chan_status = refl;
      fault = refl;
    }

-- The time without the lock does not touch the calls, if no other thread comes in between.
pub unlock-IsValid : (d : Device) → IsValid d → IsValid (sccp_device_unlock d)
unlock-IsValid d v = SameCalls-IsValid (unlock-SameCalls d) v
