-- ===== src/Device/Start.antt =====
-- sccp_device.c: start_the_call against the predicate of Valid, and searches of a line.
use wazo_libsccp.Common.{
  ℕ, ◌≡◌, refl, sym, ap, ◌∙◌, Bool, true, List, [], ◌∷◌, ◌++◌, Option, none, some, if◌then◌else◌,
  is_some, arith, Bool-cases, Option-cases, inl, inr,
}
use wazo_libsccp.Device.Types.{
  Device, Subchan, pickup_channel, start_channel, remove_dialtimeout, offhook, ringout, outgoing,
}
use wazo_libsccp.Device.Core.{modify, emit, sccp_device_unlock}
use wazo_libsccp.Device.Calls.{
  first_with, do_clear_subchannel, do_newcall_options, sccp_lines_get_next_subchan,
  hold_then_newcall, open_newcall, sccp_line_new_subchannel, do_hold,
}
use wazo_libsccp.Device.Valid.{IsValid, mem, mem_or_null, mem-append}
use wazo_libsccp.Device.Safety.{add_task-SameCalls}
use wazo_libsccp.Device.Clear.{do_clear_subchannel-IsValid}
use wazo_libsccp.Device.Dial.{
  CallSetup, same_text, sccp_subchannel_set_channel, show_the_call, show_ringout, connect_channel,
  start_the_call,
}
use wazo_libsccp.Device.Same.{
  SameLinks, SameLinks-IsValid, SameLinks-trans, SameCalls-SameLinks, unlock-IsValid,
  unlock-SameCalls,
}

show_the_call-SameLinks :
    (pickupexten : List ℕ) (c p : ℕ) (d : Device) → SameLinks d (show_the_call pickupexten c p d)
unfolding show_the_call show_ringout
show_the_call-SameLinks pickupexten c p d = SameLinks-trans before (
    SameCalls-SameLinks (
      add_task-SameCalls
        (if same_text d.exten pickupexten then pickup_channel c else start_channel c)
        (show_ringout p d)))
  where
    before : SameLinks d (show_ringout p d)
    before = record {
      subchans = refl;
      next_ptr = refl;
      active_subchan = refl;
      recv_chan_status = refl;
      related = λ x. ground arith;
    }

connect_channel-IsValid :
    (setup : CallSetup) (c p : ℕ) (d : Device)
    → IsValid d
    → mem p d.subchans ≡ true
    → IsValid (connect_channel setup c p d).1
unfolding connect_channel sccp_subchannel_set_channel
connect_channel-IsValid setup c p d v m = elim (Option-cases (d.heap p).channel) [
  | inl fresh ↦ elim (Option-cases setup.framing) [
    | inl bad ↦ rw (connect_channel, sccp_subchannel_set_channel, fresh, bad) failed
    | inr (ms, good) ↦
        rw (connect_channel, sccp_subchannel_set_channel, fresh, good)
          (SameLinks-IsValid
            (SameLinks-trans (set ms) (show_the_call-SameLinks setup.pickupexten c p _)) v)
  ]
  | inr (other, used) ↦ rw (connect_channel, sccp_subchannel_set_channel, used) failed
]
  where
    failed : IsValid (sccp_device_unlock (do_clear_subchannel p d))
    failed = unlock-IsValid (do_clear_subchannel p d) (do_clear_subchannel-IsValid p d v m)

    set : (ms : ℕ) → SameLinks d (modify p (λ s. record s { channel = some c; framing = ms }) d)
    set ms = record {
      subchans = refl;
      next_ptr = refl;
      active_subchan = refl;
      recv_chan_status = refl;
      related = λ x. ground arith;
    }

-- A call that starts, or fails to: the device stays valid.
pub start_the_call-IsValid :
    (setup : CallSetup) (p : ℕ) (d : Device)
    → IsValid d
    → mem p d.subchans ≡ true
    → IsValid (start_the_call setup p d).1
unfolding start_the_call
start_the_call-IsValid setup p d v m =
    let e = emit (remove_dialtimeout p) d in
    let w : IsValid (sccp_device_unlock e) = unlock-IsValid e v in
    elim (Option-cases setup.channel) [
      | inl none_e ↦ rw (start_the_call, none_e) w
      | inr (c, some_e) ↦
          rw (start_the_call, some_e)
            (connect_channel-IsValid setup c p (sccp_device_unlock e) w
              (ap (mem p) (unlock-SameCalls e).subchans ∙ m))
    ]

-- What a search of the line finds is on the line.
pub first_with-mem :
    (test : Subchan → Bool) (heap : ℕ → Subchan) (ps : List ℕ)
    → mem_or_null (first_with test heap ps) ps ≡ true
unfolding first_with
first_with-mem test heap [] = refl
first_with-mem test heap (p ∷ ps) = elim (Bool-cases (test (heap p))) [
  | inl e ↦ rw e (ground arith)
  | inr n ↦ rw n (mem_or_null-cons p (first_with test heap ps) ps (first_with-mem test heap ps))
]
  where
    mem_or_null-cons :
        (q : ℕ) (o : Option ℕ) (qs : List ℕ)
        → mem_or_null o qs ≡ true
        → mem_or_null o (q ∷ qs) ≡ true
    mem_or_null-cons q none qs h = refl
    mem_or_null-cons q (some r) qs h = ground arith

opened_listed :
    (b : Bool) (d : Device)
    → (let (o, e) = open_newcall b (sccp_line_new_subchannel outgoing d) in
        mem_or_null o e.subchans ≡ true)
unfolding open_newcall sccp_line_new_subchannel
opened_listed b d = elim (Bool-cases (d.mem 0)) [
  | inl ok ↦ elim (Bool-cases b) [ inl t ↦ rw (ok, t) at_end | inr f ↦ rw (ok, f) at_end ]
  | inr full ↦ rw full refl
]
  where
    at_end : mem d.next_ptr (d.subchans ++ d.next_ptr ∷ []) ≡ true
    at_end = ground (arith, mem-append d.next_ptr d.subchans (d.next_ptr ∷ []))

held_listed :
    (b : Bool) (d : Device)
    → (let (o, e) = hold_then_newcall b d in mem_or_null o e.subchans ≡ true)
unfolding hold_then_newcall
held_listed b d = elim (Option-cases d.active_subchan) [
  | inl e ↦ rw (hold_then_newcall, e) (opened_listed b d)
  | inr (a, e) ↦ elim (Bool-cases (do_hold a d).0) [
    | inl ok ↦ rw (hold_then_newcall, e, ok) (opened_listed b (do_hold a d).1)
    | inr bad ↦ rw (hold_then_newcall, e, bad) refl
  ]
]

-- The subchannel that a new call gets is on the line.
pub newcall-mem :
    (b : Bool) (d : Device)
    → (let (o, e) = do_newcall_options b d in mem_or_null o e.subchans ≡ true)
unfolding do_newcall_options
newcall-mem b d = elim (Bool-cases (is_some (sccp_lines_get_next_subchan ringout d))) [
  | inl e ↦ rw e refl
  | inr n ↦ elim (Option-cases (sccp_lines_get_next_subchan offhook d)) [
    | inl e ↦ rw (do_newcall_options, n, e) (held_listed b d)
    | inr (p, e) ↦
        rw (do_newcall_options, n, e)
          (ap (λ o. mem_or_null o d.subchans) (sym e) ∙ first_with-mem _ d.heap d.subchans)
  ]
]

pub found-mem :
    (test : Subchan → Bool) (heap : ℕ → Subchan) (ps : List ℕ) (p : ℕ)
    → first_with test heap ps ≡ some p
    → mem p ps ≡ true
found-mem test heap ps p e = ap (λ o. mem_or_null o ps) (sym e) ∙ first_with-mem test heap ps

pub active-mem :
    (d : Device) (p : ℕ) → IsValid d → d.active_subchan ≡ some p → mem p d.subchans ≡ true
active-mem d p v e = ap (λ o. mem_or_null o d.subchans) (sym e) ∙ v.active_listed
