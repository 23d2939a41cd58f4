-- ===== src/Device/Clear.antt =====
-- sccp_device.c: do_clear_subchannel, against the predicate of Valid, and the fault flag.
use wazo_libsccp.Common.{
  ℕ, ◌≡◌, refl, ap, ◌∙◌, true, false, ◌||◌, Option, none, if◌then◌else◌, is_some, arith, Bool-cases,
  Option-cases, inl, inr,
}
use wazo_libsccp.Device.Types.{Device}
use wazo_libsccp.Device.Core.{◌▷◌, is_recv_closed, sccp_device_on_idle, sccp_device_set_fault}
use wazo_libsccp.Device.Calls.{
  is_ptr, remove, clear_media, clear_links, clear_list, clear_idle, do_clear_subchannel,
}
use wazo_libsccp.Device.Valid.{IsValid, mem, related_of}
use wazo_libsccp.Device.Links.{unlinked, Valid-clear, Valid-at}

-- What clear_media leaves of the pointers.
pub record Cleared (p : ℕ) (d e : Device) : Type 0 where
  pub subchans : e.subchans ≡ d.subchans
  pub next_ptr : e.next_ptr ≡ d.next_ptr
  pub active_subchan : e.active_subchan ≡ d.active_subchan
  pub fault : e.fault ≡ d.fault
  pub related : (x : ℕ) → (e.heap x).related ≡ (d.heap x).related
  pub recv_active : is_ptr p d.active_subchan ≡ true → is_recv_closed e.recv_chan_status ≡ true
  pub recv_else : is_ptr p d.active_subchan ≡ false → e.recv_chan_status ≡ d.recv_chan_status

pub clear_media-Cleared : (p : ℕ) (d : Device) → Cleared p d (clear_media p d)
unfolding clear_media
clear_media-Cleared p d = elim (Bool-cases (d.heap p).rtp) [
  | inl r ↦ elim (Bool-cases (is_ptr p d.active_subchan)) [
    | inl a ↦
        rw (r, a)
          (record {
            subchans = refl;
            next_ptr = refl;
            active_subchan = refl;
            fault = refl;
            related = λ x. ground arith;
            recv_active = λ h. refl;
            recv_else = λ h. ground arith;
          })
    | inr n ↦
        rw (r, n)
          (record {
            subchans = refl;
            next_ptr = refl;
            active_subchan = refl;
            fault = refl;
            related = λ x. ground arith;
            recv_active = λ h. ground arith;
            recv_else = λ h. refl;
          })
  ]
  | inr nr ↦ elim (Bool-cases (is_ptr p d.active_subchan)) [
    | inl a ↦ elim (Bool-cases (is_recv_closed d.recv_chan_status)) [
      | inl c ↦
          rw (nr, a, c)
            (record {
              subchans = refl;
              next_ptr = refl;
              active_subchan = refl;
              fault = refl;
              related = λ x. refl;
              recv_active = λ h. c;
              recv_else = λ h. ground arith;
            })
      | inr o ↦
          rw (nr, a, o)
            (record {
              subchans = refl;
              next_ptr = refl;
              active_subchan = refl;
              fault = refl;
              related = λ x. refl;
              recv_active = λ h. refl;
              recv_else = λ h. ground arith;
            })
    ]
    | inr n ↦
        rw (nr, n)
          (record {
            subchans = refl;
            next_ptr = refl;
            active_subchan = refl;
            fault = refl;
            related = λ x. refl;
            recv_active = λ h. ground arith;
            recv_else = λ h. refl;
          })
  ]
]

clear_links-related :
    (p x : ℕ) (d : Device) → related_of (clear_links p d) x ≡ unlinked (related_of d) p x
unfolding clear_links
clear_links-related p x d = elim (Option-cases (related_of d p)) [
  | inl n ↦ rw (clear_links, n) (ground arith)
  | inr (q, e) ↦ rw (clear_links, e) (ground arith)
]

-- The steps before the check of an idle device.
abbrev pub cleared : ℕ → Device → Device
cleared p d = d ▷ clear_media p ▷ clear_links p ▷ clear_list p

-- What clear_links and clear_list leave of the pointers.
pub record Unlinked (p : ℕ) (d e : Device) : Type 0 where
  pub next_ptr : e.next_ptr ≡ d.next_ptr
  pub fault : e.fault ≡ d.fault
  pub related : (x : ℕ) → related_of e x ≡ unlinked (related_of d) p x
  pub recv : e.recv_chan_status ≡ d.recv_chan_status
  pub subchans : e.subchans ≡ remove p d.subchans
  pub active_subchan :
      e.active_subchan ≡ (if is_ptr p d.active_subchan then none else d.active_subchan)

clear_list-Unlinked : (p : ℕ) (d : Device) → Unlinked p d (clear_list p (clear_links p d))
unfolding clear_list clear_links
clear_list-Unlinked p d = record {
  next_ptr = ground arith;
  fault = ground arith;
  related = λ x. ground arith;
  recv = ground arith;
  subchans = ground arith;
  active_subchan = ground arith;
}

-- The two records together: the pointers before the check of an idle device.
pub cleared-Unlinked : (p : ℕ) (d : Device) → Unlinked p (clear_media p d) (cleared p d)
cleared-Unlinked p d = clear_list-Unlinked p (clear_media p d)

recv_covered :
    (p : ℕ) (d : Device)
    → IsValid d
    → (is_recv_closed (clear_media p d).recv_chan_status
        || is_some (if is_ptr p d.active_subchan then none else d.active_subchan))
      ≡ true
recv_covered p d v =
    let m = clear_media-Cleared p d in
    elim (Bool-cases (is_ptr p d.active_subchan)) [
      | inl a ↦ rw (m.recv_active a) refl
      | inr n ↦ rw (n, m.recv_else n) v.recv_has_active
    ]

unlinked_same :
    (p x : ℕ) {rel rel' : ℕ → Option ℕ}
    → ((y : ℕ) → rel' y ≡ rel y)
    → unlinked rel' p x ≡ unlinked rel p x
unlinked_same p x same = rw (same p, same x) refl

cleared-IsValid : (p : ℕ) (d : Device) → IsValid d → mem p d.subchans ≡ true → IsValid (cleared p d)
cleared-IsValid p d v mp =
    let m = clear_media-Cleared p d in
    let u = cleared-Unlinked p d in
    Valid-at (u.subchans ∙ ap (remove p) m.subchans) (u.next_ptr ∙ m.next_ptr)
      (u.active_subchan ∙ ap (λ a. if is_ptr p a then none else a) m.active_subchan) u.recv
      (λ x. u.related x ∙ unlinked_same p x m.related) (Valid-clear v p _ mp (recv_covered p d v))

clear_idle-IsValid : (d : Device) → IsValid d → IsValid (clear_idle d)
unfolding clear_idle sccp_device_on_idle sccp_device_set_fault
clear_idle-IsValid d v = ground arith

idle_fault : (d : Device) → IsValid d → (clear_idle d).fault ≡ d.fault
unfolding clear_idle sccp_device_on_idle sccp_device_set_fault
idle_fault d v = ground arith

-- A subchannel of the line of a valid device is cleared: the device is valid afterwards.
pub do_clear_subchannel-IsValid :
    (p : ℕ) (d : Device) → IsValid d → mem p d.subchans ≡ true → IsValid (do_clear_subchannel p d)
unfolding do_clear_subchannel
do_clear_subchannel-IsValid p d v m = clear_idle-IsValid (cleared p d) (cleared-IsValid p d v m)

-- Clearing a subchannel of the line of a valid device never takes the branch for a receive channel
-- that is open without a call: the fault flag, which hard-resets an idle phone, stays as it was.
pub do_clear_subchannel-fault :
    (p : ℕ) (d : Device)
    → IsValid d
    → mem p d.subchans ≡ true
    → (do_clear_subchannel p d).fault ≡ d.fault
unfolding do_clear_subchannel
do_clear_subchannel-fault p d v m =
    idle_fault (cleared p d) (cleared-IsValid p d v m)
    ∙ (cleared-Unlinked p d).fault
    ∙ (clear_media-Cleared p d).fault

idle_subchans : (e : Device) → (clear_idle e).subchans ≡ e.subchans
unfolding clear_idle sccp_device_on_idle sccp_device_set_fault
idle_subchans e = ground arith

pub do_clear_subchannel-subchans :
    (p : ℕ) (d : Device) → (do_clear_subchannel p d).subchans ≡ remove p d.subchans
unfolding do_clear_subchannel
do_clear_subchannel-subchans p d =
    idle_subchans (cleared p d)
    ∙ (cleared-Unlinked p d).subchans
    ∙ ap (remove p) (clear_media-Cleared p d).subchans
