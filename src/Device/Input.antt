-- ===== src/Device/Input.antt =====
-- sccp_device.c: handle_msg_keypad_button and handle_msg_open_receive_channel_ack, against the
-- predicate of Valid.
use wazo_libsccp.Common.{
  ℕ, ◌==◌, ◌≡◌, refl, ap, ◌∙◌, Bool, true, false, List, ◌∷◌, arith, Bool-cases, Option-cases, inl,
  inr,
}
use wazo_libsccp.Device.Types.{
  Device, Subchan, Effect, stat_fault, queue_unhold, queue_answer, queue_dtmf, RecvStatus,
  recv_closed, recv_opening, recv_opened, offhook,
}
use wazo_libsccp.Device.Core.{modify, is_state, is_recv_closed, sccp_device_set_fault}
use wazo_libsccp.Device.Valid.{IsValid, mem}
use wazo_libsccp.Device.Safety.{add_task-SameCalls, SameCalls-IsValid}
use wazo_libsccp.Device.Same.{SameLinks, SameLinks-IsValid, SameLinks-trans, SameCalls-SameLinks}
use wazo_libsccp.Device.Start.{start_the_call-IsValid, active-mem}
use wazo_libsccp.Device.Forward.{set_callforward_from_device_exten, append_digit_to_device_exten}
use wazo_libsccp.Device.Dial.{CallSetup}
use wazo_libsccp.Device.Keys.{set-SameLinks}
use wazo_libsccp.Device.Messages.{
  digit_of, keypad_active, keypad_callfwd, handle_msg_keypad_button, start_rtp, receive_media,
  opened_for, opened, handle_msg_open_receive_channel_ack, sccp_subchannel_start_media_transmission,
}

append-SameLinks : (digit : ℕ) (d : Device) → SameLinks d (append_digit_to_device_exten digit d).1
unfolding append_digit_to_device_exten
append-SameLinks digit d = ground arith

receive-SameLinks : (created : Bool) (a : ℕ) (d : Device) → SameLinks d (receive_media created a d)
unfolding receive_media start_rtp sccp_subchannel_start_media_transmission
receive-SameLinks created a d = elim (Bool-cases (d.heap a).resuming) [
  | inl r ↦ elim (Option-cases (d.heap a).channel) [
    | inl n ↦ rw (receive_media, r, n) (touched (λ s. record s { resuming = false }) (λ s. refl) _)
    | inr (c, e) ↦
        rw (receive_media, r, e)
          (SameLinks-trans (touched (λ s. record s { resuming = false }) (λ s. refl) _)
            (SameCalls-SameLinks (add_task-SameCalls (queue_unhold c) _)))
  ]
  | inr n ↦ elim (Bool-cases created) [
    | inl e ↦
        rw (receive_media, start_rtp, n, e) (touched (λ s. record s { rtp = true }) (λ s. refl) _)
    | inr e ↦
        rw (receive_media, start_rtp, n, e) (touched (λ s. record s { rtp = false }) (λ s. refl) _)
  ]
]
  where
    touched :
        (f : Subchan → Subchan)
        → ((s : Subchan) → (f s).related ≡ s.related)
        → (o : List Effect) → SameLinks d (record (modify a f d) { out = o })
    touched f same o = record {
      subchans = refl;
      next_ptr = refl;
      active_subchan = refl;
      recv_chan_status = refl;
      related = λ x. ground (arith, same (d.heap x));
    }

opened_for-IsValid :
    (created : Bool) (a : ℕ) (d : Device) → IsValid d → IsValid (opened_for created a d)
unfolding opened_for
opened_for-IsValid created a d v =
    let w = SameLinks-IsValid (receive-SameLinks created a d) v in
    elim (Option-cases (d.heap a).channel) [
      | inl n ↦ rw (opened_for, n) w
      | inr (c, e) ↦
          rw (opened_for, e)
            (SameCalls-IsValid (add_task-SameCalls (queue_answer c) (receive_media created a d)) w)
    ]

opened_closed : (r : RecvStatus) → is_recv_closed (opened r) ≡ is_recv_closed r
opened_closed recv_closed = refl
opened_closed recv_opening = refl
opened_closed recv_opened = refl

pub ack-IsValid :
    (created : Bool) (port : ℕ) (d : Device)
    → IsValid d
    → IsValid (handle_msg_open_receive_channel_ack created port d)
unfolding handle_msg_open_receive_channel_ack sccp_device_set_fault
ack-IsValid created port d v = elim (Bool-cases (port == 0)) [
  | inl z ↦ elim (Option-cases d.active_subchan) [
    | inl n ↦ rw (handle_msg_open_receive_channel_ack, n, z) (marked true (stat_fault ∷ d.out))
    | inr (a, e) ↦
        rw (handle_msg_open_receive_channel_ack, e, z)
          (opened_for-IsValid created a (mark true (stat_fault ∷ d.out))
            (marked true (stat_fault ∷ d.out)))
  ]
  | inr s ↦ elim (Option-cases d.active_subchan) [
    | inl n ↦ rw (handle_msg_open_receive_channel_ack, n, s) (marked d.fault d.out)
    | inr (a, e) ↦
        rw (handle_msg_open_receive_channel_ack, e, s)
          (opened_for-IsValid created a (mark d.fault d.out) (marked d.fault d.out))
  ]
]
  where
    mark : Bool → List Effect → Device
    mark f o = record d { recv_chan_status = opened d.recv_chan_status; fault = f; out = o }

    marked : (f : Bool) (o : List Effect) → IsValid (mark f o)
    marked f o = record {
      distinct = v.distinct;
      allocated = v.allocated;
      active_listed = v.active_listed;
      recv_has_active = rw (opened_closed d.recv_chan_status) v.recv_has_active;
      paired = v.paired;
    }

keypad_active-IsValid :
    (setup : CallSetup) (digit a : ℕ) (d : Device)
    → IsValid d
    → mem a d.subchans ≡ true
    → IsValid (keypad_active setup digit a d)
unfolding keypad_active
keypad_active-IsValid setup digit a d v m = elim (Bool-cases (is_state (d.heap a).state offhook)) [
  | inl off ↦ elim (Bool-cases (digit == 35)) [
    | inl h ↦ elim (Bool-cases ((append_digit_to_device_exten digit d).0 == 0)) [
      | inl z ↦ rw (off, h, z) (start_the_call-IsValid setup a _ grown listed)
      | inr n ↦ rw (off, h, n) (start_the_call-IsValid setup a _ grown listed)
    ]
    | inr o ↦ elim (Bool-cases ((append_digit_to_device_exten digit d).0 == 0)) [
      | inl z ↦ rw (off, o, z) grown
      | inr n ↦ rw (off, o, n) grown
    ]
  ]
  | inr on ↦ elim (Option-cases (d.heap a).channel) [
    | inl n ↦ rw (keypad_active, on, n) v
    | inr (c, e) ↦
        rw (keypad_active, on, e)
          (ground (arith, v, SameCalls-IsValid (add_task-SameCalls (queue_dtmf c digit) d) v))
  ]
]
  where
    grown : IsValid (append_digit_to_device_exten digit d).1
    grown = SameLinks-IsValid (append-SameLinks digit d) v

    listed : mem a (append_digit_to_device_exten digit d).1.subchans ≡ true
    listed = ap (mem a) (append-SameLinks digit d).subchans ∙ m

keypad_callfwd-IsValid : (digit : ℕ) (d : Device) → IsValid d → IsValid (keypad_callfwd digit d)
unfolding keypad_callfwd set_callforward_from_device_exten
keypad_callfwd-IsValid digit d v =
    let grown = SameLinks-IsValid (append-SameLinks digit d) v in
    elim (Bool-cases (digit == 35)) [
      | inl h ↦ rw h (
          SameLinks-IsValid
            (set-SameLinks (append_digit_to_device_exten digit d).1.exten
              (append_digit_to_device_exten digit d).1)
            grown)
      | inr o ↦ rw o grown
    ]

pub keypad-IsValid :
    (setup : CallSetup) (button : ℕ) (d : Device)
    → IsValid d
    → IsValid (handle_msg_keypad_button setup button d)
unfolding handle_msg_keypad_button
keypad-IsValid setup button d v = elim (Option-cases d.active_subchan) [
  | inl n ↦
      rw (handle_msg_keypad_button, n)
        (ground (arith, v, keypad_callfwd-IsValid (digit_of button) d v))
  | inr (a, e) ↦
      rw (handle_msg_keypad_button, e)
        (keypad_active-IsValid setup (digit_of button) a d v (active-mem d a v e))
]
