-- ===== src/Device/Held.antt =====
-- sccp_device.c: a called party answers a call that is on hold.
use wazo_libsccp.Common.{
  ℕ, ◌≡◌, refl, sym, ap, ◌∙◌, Bool, true, false, List, [], ◌∷◌, ◌++◌, append_assoc, none,
  Bool-cases, Option-cases, inl, inr, if◌then◌else◌, is_empty, arith, ==_refl,
}
use wazo_libsccp.Queue.{is_empty_queue}
use wazo_libsccp.Device.Types.{
  Device, Effect, sends, stat_fault, reset, hard_restart, open_receive_channel,
}
use wazo_libsccp.Device.Core.{
  sccp_device_unlock, sccp_device_set_fault, sccp_device_on_idle, is_recv_closed,
  transmit_subchan_open_receive_channel,
}
use wazo_libsccp.Device.Calls.{
  is_ptr, remove, do_clear_subchannel, clear_media, clear_links, clear_list, clear_idle,
}
use wazo_libsccp.Device.Clear.{cleared, Cleared, Unlinked, clear_media-Cleared, cleared-Unlinked}
use wazo_libsccp.Device.Channel.{
  is_destroyed, sccp_channel_tech_answer, answer_locked, sccp_channel_tech_hangup,
}

unlock_idle : (d : Device) → d.nolock_tasks.containers ≡ [] → sccp_device_unlock d ≡ d
unfolding sccp_device_unlock is_empty_queue
unlock_idle d e = rw e refl

idle_faults :
    (d : Device)
    → is_empty d.subchans ≡ true
    → is_recv_closed d.recv_chan_status ≡ false
    → (clear_idle d).fault ≡ true
unfolding clear_idle sccp_device_set_fault sccp_device_on_idle
idle_faults d e n = ground arith

idle_resets :
    (d : Device)
    → is_empty d.subchans ≡ true
    → is_recv_closed d.recv_chan_status ≡ false
    → ((clear_idle d).out ≡ sends (reset hard_restart) ∷ stat_fault ∷ d.out)
      × ((clear_idle d).nolock_tasks ≡ d.nolock_tasks)
unfolding clear_idle sccp_device_set_fault sccp_device_on_idle
idle_resets d e n = rw (e, n) (refl, refl)

-- What is sent for a subchannel without RTP that is not active.
media_sends :
    (p : ℕ) (d : Device)
    → (d.heap p).rtp ≡ false
    → is_ptr p d.active_subchan ≡ false
    → ((es : List Effect) × ((clear_media p d).out ≡ es ++ d.out))
      × ((clear_media p d).nolock_tasks ≡ d.nolock_tasks)
unfolding clear_media
media_sends p d r n = rw (r, n) ((_ ∷ _ ∷ _ ∷ [], refl), refl)

links_sends :
    (p : ℕ) (d : Device)
    → ((clear_links p d).out ≡ d.out) × ((clear_links p d).nolock_tasks ≡ d.nolock_tasks)
unfolding clear_links
links_sends p d = elim (Option-cases (d.heap p).related) [
  | inl e ↦ rw (e, clear_links) (refl, refl)
  | inr (q, e) ↦ rw (e, clear_links) (refl, refl)
]

list_sends :
    (p : ℕ) (d : Device)
    → ((es : List Effect) × ((clear_list p d).out ≡ es ++ d.out))
      × ((clear_list p d).nolock_tasks ≡ d.nolock_tasks)
unfolding clear_list
list_sends p d = elim (Bool-cases (is_empty (remove p d.subchans))) [
  | inl e ↦ elim (Bool-cases (is_ptr p d.active_subchan)) [
    | inl a ↦ rw (e, a) ((_ ∷ _ ∷ [], refl), refl)
    | inr a ↦ rw (e, a) ((_ ∷ _ ∷ [], refl), refl)
  ]
  | inr e ↦ elim (Bool-cases (is_ptr p d.active_subchan)) [
    | inl a ↦ rw (e, a) (([], refl), refl)
    | inr a ↦ rw (e, a) (([], refl), refl)
  ]
]

-- All of it, up to the check of an idle device.
cleared_sends :
    (p : ℕ) (d : Device)
    → (d.heap p).rtp ≡ false
    → is_ptr p d.active_subchan ≡ false
    → ((es : List Effect) × ((cleared p d).out ≡ es ++ d.out))
      × ((cleared p d).nolock_tasks ≡ d.nolock_tasks)
cleared_sends p d r n =
    let ((xs, e), t) = media_sends p d r n in
    let (f, u) = links_sends p (clear_media p d) in
    let ((ys, g), v) = list_sends p (clear_links p (clear_media p d)) in
    ((ys ++ xs, g ∙ ap (λ l. ys ++ l) (f ∙ e) ∙ sym (append_assoc ys xs d.out)), v ∙ u ∙ t)

-- A subchannel alone on the line, not active, is cleared while the receive channel is open.
clear_alone_faults :
    (p : ℕ) (d : Device)
    → d.subchans ≡ p ∷ []
    → d.active_subchan ≡ none
    → is_recv_closed d.recv_chan_status ≡ false
    → (d.heap p).rtp ≡ false
    → ((do_clear_subchannel p d).fault ≡ true)
      × ((do_clear_subchannel p d).nolock_tasks ≡ d.nolock_tasks)
      × ((es : List Effect) × ((do_clear_subchannel p d).out
            ≡ sends (reset hard_restart) ∷ stat_fault ∷ (es ++ d.out)))
unfolding do_clear_subchannel remove
clear_alone_faults p d alone idle receives no_rtp =
    let open_ = ap is_recv_closed (u.recv ∙ m.recv_else not_active) ∙ receives in
    let (sent, tasks) = idle_resets (cleared p d) gone open_ in
    let ((es, before), same) = cleared_sends p d no_rtp not_active in
    (
      idle_faults (cleared p d) gone open_,
      tasks ∙ same,
      (es, sent ∙ ap (λ l. sends (reset hard_restart) ∷ stat_fault ∷ l) before),
    )
  where
    m : Cleared p d (clear_media p d)
    m = clear_media-Cleared p d

    u : Unlinked p (clear_media p d) (cleared p d)
    u = cleared-Unlinked p d

    not_active : is_ptr p d.active_subchan ≡ false
    not_active = ap (is_ptr p) idle

    removed : remove p (p ∷ []) ≡ []
    removed = rw (==_refl p) refl

    gone : is_empty (cleared p d).subchans ≡ true
    gone = ap is_empty (u.subchans ∙ ap (remove p) (m.subchans ∙ alone) ∙ removed)

module _ (p : ℕ) (d : Device) where
  line_kept : (answer_locked p d).subchans ≡ d.subchans
  unfolding answer_locked transmit_subchan_open_receive_channel
  line_kept = ground arith

  active_kept : (answer_locked p d).active_subchan ≡ d.active_subchan
  unfolding answer_locked transmit_subchan_open_receive_channel
  active_kept = ground arith

  state_kept : (answer_locked p d).device_state ≡ d.device_state
  unfolding answer_locked transmit_subchan_open_receive_channel
  state_kept = ground arith

  tasks_kept : (answer_locked p d).nolock_tasks.containers ≡ d.nolock_tasks.containers
  unfolding answer_locked transmit_subchan_open_receive_channel
  tasks_kept = ground arith

  opens :
      (d.heap p).rtp ≡ false
      → is_recv_closed d.recv_chan_status ≡ true
      → is_recv_closed (answer_locked p d).recv_chan_status ≡ false
  unfolding answer_locked transmit_subchan_open_receive_channel
  opens n c = ground arith

  says :
      (d.heap p).rtp ≡ false
      → is_recv_closed d.recv_chan_status ≡ true
      → is_ptr p d.active_subchan ≡ false
      → (answer_locked p d).out
        ≡ sends (open_receive_channel (d.heap p).id (d.heap p).framing) ∷ d.out
  unfolding answer_locked transmit_subchan_open_receive_channel
  says n c a = rw (n, c, a, ==_refl p) refl

  still_no_rtp : (d.heap p).rtp ≡ false → ((answer_locked p d).heap p).rtp ≡ false
  unfolding answer_locked transmit_subchan_open_receive_channel
  still_no_rtp n = ground arith

-- A call that the user has put on hold while it still rang is the only one of the phone, it has no
-- RTP instance yet, and no receive channel is open. When the called party answers, the phone is told
-- to open one, though the call is not active; so when that call is hung up the device takes it for a
-- fault, and tells its phone to restart hard.
pub answer_held_faults :
    (p : ℕ) (d : Device)
    → is_destroyed d.device_state ≡ false
    → d.nolock_tasks.containers ≡ []
    → d.subchans ≡ p ∷ []
    → d.active_subchan ≡ none
    → (d.heap p).rtp ≡ false
    → is_recv_closed d.recv_chan_status ≡ true
    → (let told = sends (open_receive_channel (d.heap p).id (d.heap p).framing) ∷ d.out in
        let b = (sccp_channel_tech_answer p d).1 in
        let e = sccp_channel_tech_hangup p b in
        (b.out ≡ told)
        × (e.fault ≡ true)
        × ((es : List Effect) × (e.out ≡ sends (reset hard_restart) ∷ stat_fault ∷ (es ++ told))))
unfolding sccp_channel_tech_answer sccp_channel_tech_hangup
answer_held_faults p d here no_tasks alone idle no_rtp closed =
    let (faulty, tasks, (es, sent)) = end in
    let quiet =
      ap (λ q. q.containers) tasks
      ∙ ap (λ x. x.nolock_tasks.containers) answered
      ∙ tasks_kept p d
      ∙ no_tasks in
    let hung = unlock_idle (do_clear_subchannel p b) quiet in
    (
      told,
      rw (sccp_channel_tech_hangup, state) (ap (λ x. x.fault) hung ∙ faulty),
      (
        es,
        rw (sccp_channel_tech_hangup, state)
            (ap (λ x. x.out) hung
              ∙ sent
              ∙ ap (λ l. sends (reset hard_restart) ∷ stat_fault ∷ (es ++ l)) told),
      ),
    )
  where
    b : Device
    b = (sccp_channel_tech_answer p d).1

    outcome : Bool → Device
    outcome gone =
        let r : Bool × Device =
          if gone
          then (false, sccp_device_unlock d)
          else (true, sccp_device_unlock (answer_locked p d)) in
        r.1

    answered : b ≡ answer_locked p d
    answered = ap outcome here ∙ unlock_idle (answer_locked p d) (tasks_kept p d ∙ no_tasks)

    told : b.out ≡ sends (open_receive_channel (d.heap p).id (d.heap p).framing) ∷ d.out
    told = ap (λ x. x.out) answered ∙ says p d no_rtp closed (ap (is_ptr p) idle)

    state : is_destroyed b.device_state ≡ false
    state = ap (λ x. is_destroyed x.device_state) answered ∙ ap is_destroyed (state_kept p d) ∙ here

    end :
        ((do_clear_subchannel p b).fault ≡ true)
        × ((do_clear_subchannel p b).nolock_tasks ≡ b.nolock_tasks)
        × ((es : List Effect) × ((do_clear_subchannel p b).out
              ≡ sends (reset hard_restart) ∷ stat_fault ∷ (es ++ b.out)))
    end =
        clear_alone_faults p b (ap (λ x. x.subchans) answered ∙ line_kept p d ∙ alone)
          (ap (λ x. x.active_subchan) answered ∙ active_kept p d ∙ idle)
          (ap (λ x. is_recv_closed x.recv_chan_status) answered ∙ opens p d no_rtp closed)
          (ap (λ x. (x.heap p).rtp) answered ∙ still_no_rtp p d no_rtp)
