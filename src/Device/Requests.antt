-- ===== src/Device/Requests.antt =====
-- sccp_device.c: the callbacks of Asterisk, against the predicate of Valid.
use wazo_libsccp.Common.{
  ℕ, ◌≡◌, refl, ap, ◌∙◌, Bool, true, not, ◌||◌, List, Option, none, some, is_some, arith,
  Bool-cases, Option-cases, inl, inr,
}
use wazo_libsccp.Device.Types.{Device, Subchan, Effect, incoming, connected, recv_opening}
use wazo_libsccp.Device.Core.{modify, is_recv_closed, transmit_subchan_open_receive_channel}
use wazo_libsccp.Device.Calls.{is_ptr, sccp_line_new_subchannel, do_clear_subchannel}
use wazo_libsccp.Device.Valid.{IsValid, mem, mem_or_null}
use wazo_libsccp.Device.Clear.{do_clear_subchannel-IsValid}
use wazo_libsccp.Device.Moves.{do_answer_options-IsValid, new_subchannel-IsValid}
use wazo_libsccp.Device.Same.{SameLinks, SameLinks-IsValid, unlock-IsValid}
use wazo_libsccp.Device.Dial.{sccp_subchannel_set_channel}
use wazo_libsccp.Device.Channel.{
  is_destroyed, requester_subchan, channel_tech_requester_locked, ring, show_ringin,
  sccp_channel_tech_call, hangup_destroyed, sccp_channel_tech_hangup, answer_locked,
  sccp_channel_tech_answer,
}

modified-SameLinks :
    (p : ℕ) (f : Subchan → Subchan) (o : List Effect) (d : Device)
    → ((s : Subchan) → (f s).related ≡ s.related)
    → SameLinks d (record (modify p f d) { out = o })
modified-SameLinks p f o d same = record {
  subchans = refl;
  next_ptr = refl;
  active_subchan = refl;
  recv_chan_status = refl;
  related = λ x. ground (arith, same (d.heap x));
}

show_ringin-SameLinks :
    (number : List ℕ) (p : ℕ) (d : Device) → SameLinks d (show_ringin number p d)
unfolding show_ringin
show_ringin-SameLinks number p d = record {
  subchans = ground arith;
  next_ptr = ground arith;
  active_subchan = ground arith;
  recv_chan_status = ground arith;
  related = λ x. ground arith;
}

ring-IsValid :
    (number : List ℕ) (p : ℕ) (d : Device)
    → IsValid d
    → mem p d.subchans ≡ true
    → IsValid (ring number p d)
unfolding ring
ring-IsValid number p d v m =
    let same = show_ringin-SameLinks number p d in
    let rung = SameLinks-IsValid same v in
    elim (Bool-cases (d.heap p).autoanswer) [
      | inl a ↦ rw a (
          do_answer_options-IsValid true p (show_ringin number p d) rung
            (ap (mem p) same.subchans ∙ m))
      | inr n ↦ rw n rung
    ]

pub call-IsValid :
    (number : List ℕ) (p : ℕ) (d : Device)
    → IsValid d
    → mem p d.subchans ≡ true
    → IsValid (sccp_channel_tech_call number p d).1
unfolding sccp_channel_tech_call
call-IsValid number p d v m =
    ground
      (arith, unlock-IsValid d v, unlock-IsValid (ring number p d) (ring-IsValid number p d v m))

hangup_destroyed-SameLinks : (p : ℕ) (d : Device) → SameLinks d (hangup_destroyed p d)
unfolding hangup_destroyed
hangup_destroyed-SameLinks p d = record {
  subchans = ground arith;
  next_ptr = ground arith;
  active_subchan = ground arith;
  recv_chan_status = ground arith;
  related = λ x. ground arith;
}

pub hangup-IsValid :
    (p : ℕ) (d : Device)
    → IsValid d
    → mem p d.subchans ≡ true
    → IsValid (sccp_channel_tech_hangup p d)
unfolding sccp_channel_tech_hangup
hangup-IsValid p d v m = elim (Bool-cases (is_destroyed d.device_state)) [
  | inl e ↦ rw e (unlock-IsValid _ (SameLinks-IsValid (hangup_destroyed-SameLinks p d) v))
  | inr e ↦ rw e (unlock-IsValid _ (do_clear_subchannel-IsValid p d v m))
]

requester_subchan-IsValid :
    (auto : Bool) (framing : Option ℕ) (c : ℕ) (o : Option ℕ) (d : Device)
    → IsValid d
    → mem_or_null o d.subchans ≡ true
    → IsValid (requester_subchan auto framing c (o, d)).1
unfolding requester_subchan sccp_subchannel_set_channel
requester_subchan-IsValid auto framing c none d v m = v
requester_subchan-IsValid auto framing c (some p) d v m = elim (Option-cases (d.heap p).channel) [
  | inl fresh ↦ elim (Option-cases framing) [
    | inl bad ↦ rw (sccp_subchannel_set_channel, fresh, bad) failed
    | inr (ms, good) ↦ elim (Bool-cases auto) [
      | inl a ↦
          rw (sccp_subchannel_set_channel, fresh, good, a)
            (SameLinks-IsValid
              (modified-SameLinks p (λ s. record s { autoanswer = true }) d.out (set ms)
                (λ s. refl))
              (given ms))
      | inr a ↦ rw (sccp_subchannel_set_channel, fresh, good, a) (given ms)
    ]
  ]
  | inr (other, used) ↦ rw (sccp_subchannel_set_channel, used) failed
]
  where
    set : ℕ → Device
    set ms = modify p (λ s. record s { channel = some c; framing = ms }) d

    given : (ms : ℕ) → IsValid (set ms)
    given ms =
        SameLinks-IsValid
          (modified-SameLinks p (λ s. record s { channel = some c; framing = ms }) d.out d
            (λ s. refl))
          v

    failed : IsValid (do_clear_subchannel p d)
    failed = do_clear_subchannel-IsValid p d v m

pub requester-IsValid :
    (auto : Bool) (framing : Option ℕ) (c : ℕ) (d : Device)
    → IsValid d
    → IsValid (channel_tech_requester_locked auto framing c d).1
unfolding channel_tech_requester_locked
requester-IsValid auto framing c d v =
    let n = new_subchannel-IsValid incoming d v in
    ground (
      arith,
      v,
      requester_subchan-IsValid auto framing c (sccp_line_new_subchannel incoming d).0
          (sccp_line_new_subchannel incoming d).1 n.0 n.1,
    )

-- The receive channel of the phone is opened for a subchannel that is not the active one: that is
-- what the condition excludes.
abbrev pub AnswersActive : ℕ → Device → Type 0
AnswersActive p d =
    ((d.heap p).rtp || not (is_recv_closed d.recv_chan_status) || is_some d.active_subchan) ≡ true

answer_locked-IsValid :
    (p : ℕ) (d : Device) → IsValid d → AnswersActive p d → IsValid (answer_locked p d)
unfolding answer_locked transmit_subchan_open_receive_channel
answer_locked-IsValid p d v c = elim (Bool-cases (is_ptr p d.active_subchan)) [
  | inl a ↦ elim (Bool-cases (d.heap p).rtp) [
    | inl r ↦ rw (a, r) connected_d
    | inr n ↦ elim (Bool-cases (is_recv_closed d.recv_chan_status)) [
      | inl k ↦ rw (a, n, k) (opening (ground arith))
      | inr k ↦ rw (a, n, k) connected_d
    ]
  ]
  | inr a ↦ elim (Bool-cases (d.heap p).rtp) [
    | inl r ↦ rw (a, r) connected_d
    | inr n ↦ elim (Bool-cases (is_recv_closed d.recv_chan_status)) [
      | inl k ↦ rw (a, n, k) (opening (ground arith))
      | inr k ↦ rw (a, n, k) connected_d
    ]
  ]
]
  where
    same : SameLinks d (modify p (λ s. record s { state = connected }) d)
    same = modified-SameLinks p (λ s. record s { state = connected }) d.out d (λ s. refl)

    connected_d : IsValid (modify p (λ s. record s { state = connected }) d)
    connected_d = SameLinks-IsValid same v

    opening :
        is_some d.active_subchan ≡ true
        → IsValid (record (modify p (λ s. record s { state = connected }) d) {
          recv_chan_status = recv_opening;
        })
    opening s = record {
      distinct = v.distinct;
      allocated = v.allocated;
      active_listed = v.active_listed;
      recv_has_active = s;
      paired = connected_d.paired;
    }

pub answer-IsValid :
    (p : ℕ) (d : Device) → IsValid d → AnswersActive p d → IsValid (sccp_channel_tech_answer p d).1
unfolding sccp_channel_tech_answer
answer-IsValid p d v c = elim (Bool-cases (is_destroyed d.device_state)) [
  | inl e ↦ rw e (unlock-IsValid d v)
  | inr e ↦ rw e (unlock-IsValid (answer_locked p d) (answer_locked-IsValid p d v c))
]
