-- ===== src/Session/Refs.antt =====
-- sccp_session.c: the references to configurations that a session and its queue own.
use wazo_libsccp.Common.{
  if_both, ℕ, ◌+◌, ◌≡◌, ◌≢◌, ◌==◌, ◌⊎◌, inl, inr, refl, true, List, [], ◌∷◌, ◌++◌, Option, none,
  some, if◌then◌else◌, Option-cases, count, count-append, arith,
}
use wazo_libsccp.Queue.{Ret, done}
use wazo_libsccp.Queue.Sync.{SyncQueue, sync_put, sync_get_all, close}
use wazo_libsccp.Queue.Sync.Contents.{put-waiting, get_all-waiting, get_all-taken}
use wazo_libsccp.Session.{
  Env, World, SessionMsg, noop, reload_debug, reload_config, ref, unref, session_msg_destroy,
  queued, sccp_session_queue_msg, sccp_session_stop, sccp_session_reload_config,
  sccp_session_reload_debug,
}
use wazo_libsccp.Session.Handle.{
  sccp_session_update_debug, process_body, sccp_session_process_msg, process_all,
  sccp_session_on_queue_events, taken, empty_local_queue, Events, reload_device,
}
use wazo_libsccp.Session.Loop.{destroy_all, sccp_session_empty_queue, sccp_session_close_queue}
use wazo_libsccp.Session.Keeps.{
  Keeps-refl, owns, queue_refs, Keeps, after_result-Keeps, update_debug-Keeps, stopped-Keeps,
}

-- One if the message owns a reference to that configuration.
abbrev pub owned : ℕ → SessionMsg → ℕ
owned c m = if owns c m then 1 else 0

destroy-refs :
    (m : SessionMsg) (refs : ℕ → ℕ) (c k : ℕ)
    → refs c ≡ k + owned c m
    → session_msg_destroy m refs c ≡ k
unfolding session_msg_destroy
destroy-refs noop refs c k e = omega (arith, e)
destroy-refs reload_debug refs c k e = omega (arith, e)
destroy-refs (reload_config d) refs c k e = ground (arith, e)

destroy_all-refs :
    (ms : List SessionMsg) (refs : ℕ → ℕ) (c k : ℕ)
    → refs c ≡ k + count (owns c) ms
    → destroy_all ms refs c ≡ k
unfolding destroy_all
destroy_all-refs [] refs c k e = omega (arith, e)
destroy_all-refs (m ∷ ms) refs c k e =
    destroy_all-refs ms (session_msg_destroy m refs) c k
      (destroy-refs m refs c (k + count (owns c) ms) (omega (arith, e)))

module _ {V : Env} where
  -- The references of others, `base`, one for the session's own configuration, one for each
  -- message that waits, and those of the messages in hand: there are no others.
  abbrev pub IsBalanced : (ℕ → ℕ) → List SessionMsg → World V → Type 0
  IsBalanced base hand w =
      (c : ℕ)
      → w.refs c ≡ base c + (if w.cfg == c then 1 else 0) + queue_refs w c + count (owns c) hand

  pub Keeps-IsBalanced :
      (base : ℕ → ℕ) (hand : List SessionMsg) (w w' : World V)
      → Keeps w w'
      → IsBalanced base hand w
      → IsBalanced base hand w'
  Keeps-IsBalanced base hand w w' k b c = rw (k.cfg) (omega (arith, b c, k.refs c, k.queue c))

  queued-IsBalanced :
      (base : ℕ → ℕ) (w : World V) (m : SessionMsg) (r : Ret)
      (q : SyncQueue V.eventfd.Fd SessionMsg)
      → ((r ≡ done) × (q.q.containers ≡ w.sync_q.q.containers ++ m ∷ []))
        ⊎ ((r ≢ done) × (q.q.containers ≡ w.sync_q.q.containers))
      → IsBalanced base (m ∷ []) w
      → IsBalanced base [] (queued w m (r, q)).1
  unfolding queued
  queued-IsBalanced base w m done q (inl (r, e)) b c =
      let n = count-append (owns c) w.sync_q.q.containers (m ∷ []) in rw e (omega (arith, b c, n))
  queued-IsBalanced base w m done q (inr (r, e)) b c = absurd (r refl)
  queued-IsBalanced base w m _ q (inl (r, e)) b c = absurd (grind (arith, r))
  queued-IsBalanced base w m _ q (inr (r, e)) b c = rw e (
      omega (
        arith,
        b c,
        destroy-refs m w.refs c (base c + (if w.cfg == c then 1 else 0) + queue_refs w c)
            (omega (arith, b c)),
      ))

  -- A message that was not put is destroyed: putting it accounts for the reference that it owns.
  pub queue_msg-IsBalanced :
      (base : ℕ → ℕ) (w : World V) (m : SessionMsg)
      → IsBalanced base (m ∷ []) w
      → IsBalanced base [] (sccp_session_queue_msg w m).1
  unfolding sccp_session_queue_msg
  queue_msg-IsBalanced base w m b =
      let w' : World V = record w { system = (V.system.allocated w.system).1 } in
      let p = sync_put V.eventfd (V.system.allocated w.system).0 w.sync_q m in
      queued-IsBalanced base w' m p.0 p.1
        (put-waiting V.eventfd (V.system.allocated w.system).0 w.sync_q m) b

  destroyed-IsBalanced :
      (base : ℕ → ℕ) (hand : List SessionMsg) (w : World V) (m : SessionMsg)
      → IsBalanced base (m ∷ hand) w
      → IsBalanced base hand (record w { refs = session_msg_destroy m w.refs })
  destroyed-IsBalanced base hand w m b c =
      destroy-refs m w.refs c
        (base c + (if w.cfg == c then 1 else 0) + queue_refs w c + count (owns c) hand)
        (omega (arith, b c))

  pub reload_device-Keeps : (w : World V) (cfg : ℕ) (d : Option ℕ) → Keeps w (reload_device w cfg d)
  unfolding reload_device
  reload_device-Keeps w cfg none = Keeps-refl w
  reload_device-Keeps w cfg (some d) =
      elim (Option-cases (V.find_device_or_guest cfg (V.objects.device_name d))) [
        | inl e ↦ rw (reload_device, e) (stopped-Keeps w)
        | inr (device_cfg, e) ↦
            rw (reload_device, e)
              (after_result-Keeps w (V.api.reload_config w.all_devices d device_cfg))
      ]

  process_msg-IsBalanced :
      (base : ℕ → ℕ) (hand : List SessionMsg) (w : World V) (m : SessionMsg)
      → IsBalanced base (m ∷ hand) w
      → IsBalanced base hand (sccp_session_process_msg w m)
  unfolding sccp_session_process_msg process_body
  process_msg-IsBalanced base hand w noop b = λ c. omega (arith, b c)
  process_msg-IsBalanced base hand w reload_debug b =
      destroyed-IsBalanced base hand (sccp_session_update_debug w) reload_debug (
        Keeps-IsBalanced base (reload_debug ∷ hand) w (sccp_session_update_debug w)
          (update_debug-Keeps w) b)
  process_msg-IsBalanced base hand w (reload_config cfg) b =
      let w' : World V = record w { cfg = cfg; refs = ref cfg (unref w.cfg w.refs) } in
      let took : IsBalanced base (reload_config cfg ∷ hand) w' = λ c. ground (arith, b c) in
      destroyed-IsBalanced base hand (reload_device w' cfg w.device) (reload_config cfg) (
        Keeps-IsBalanced base (reload_config cfg ∷ hand) w' (reload_device w' cfg w.device)
          (reload_device-Keeps w' cfg w.device) took)

  process_all-IsBalanced :
      (base : ℕ → ℕ) (w : World V) (ms : List SessionMsg)
      → IsBalanced base ms w
      → IsBalanced base [] (process_all w ms)
  unfolding process_all
  process_all-IsBalanced base w [] b = b
  process_all-IsBalanced base w (m ∷ ms) b =
      process_all-IsBalanced base (sccp_session_process_msg w m) ms
        (process_msg-IsBalanced base ms w m b)

  -- Taking every message of the queue in hand.
  take_all-IsBalanced :
      (base : ℕ → ℕ) (w : World V)
      → IsBalanced base [] w
      → let r = sync_get_all V.eventfd (some empty_local_queue) w.sync_q in
        IsBalanced base (taken r.1) (record w { sync_q = r.2 })
  take_all-IsBalanced base w b c =
      let r = sync_get_all V.eventfd (some empty_local_queue) w.sync_q in
      let e = get_all-taken V.eventfd empty_local_queue w.sync_q in
      let (z, k) = get_all-waiting V.eventfd empty_local_queue w.sync_q in
      rw (e, z) (omega (arith, b c))

  pub queue_events-IsBalanced :
      (base : ℕ → ℕ) (w : World V) (events : Events)
      → IsBalanced base [] w
      → IsBalanced base [] (sccp_session_on_queue_events w events)
  unfolding sccp_session_on_queue_events
  queue_events-IsBalanced base w events b =
      let r = sync_get_all V.eventfd (some empty_local_queue) w.sync_q in
      let taken_all = process_all (record w { sync_q = r.2 }) (taken r.1) in
      let w1 = if events.pollin then taken_all else w in
      let b1 =
        if_both (IsBalanced base []) events.pollin taken_all w
          (process_all-IsBalanced base (record w { sync_q = r.2 }) (taken r.1)
            (take_all-IsBalanced base w b))
          b in
      if_both (IsBalanced base []) events.others (record w1 { stop = true }) w1 b1 b1

  pub empty_queue-IsBalanced :
      (base : ℕ → ℕ) (w : World V)
      → IsBalanced base [] w
      → IsBalanced base [] (sccp_session_empty_queue w)
  unfolding sccp_session_empty_queue
  empty_queue-IsBalanced base w b c =
      let r = sync_get_all V.eventfd (some empty_local_queue) w.sync_q in
      let w' : World V = record w { sync_q = r.2 } in
      let k = take_all-IsBalanced base w b c in
      let gone =
        destroy_all-refs (taken r.1) w.refs c
          (base c + (if w.cfg == c then 1 else 0) + queue_refs w' c) (omega (arith, k)) in
      omega (arith, gone)

  pub close_queue-IsBalanced :
      (base : ℕ → ℕ) (w : World V)
      → IsBalanced base [] w
      → IsBalanced base [] (sccp_session_close_queue w)
  unfolding sccp_session_close_queue close
  close_queue-IsBalanced base w b = b

  -- What other threads ask of a session.
  pub stop-IsBalanced :
      (base : ℕ → ℕ) (w : World V)
      → IsBalanced base [] w
      → IsBalanced base [] (sccp_session_stop w).1
  unfolding sccp_session_stop
  stop-IsBalanced base w b =
      queue_msg-IsBalanced base (record w { stop = true }) noop (λ c. omega (arith, b c))

  pub reload_config-IsBalanced :
      (base : ℕ → ℕ) (w : World V) (cfg : Option ℕ)
      → IsBalanced base [] w
      → IsBalanced base [] (sccp_session_reload_config w cfg).1
  unfolding sccp_session_reload_config
  reload_config-IsBalanced base w none b = b
  reload_config-IsBalanced base w (some cfg) b =
      queue_msg-IsBalanced base (record w { refs = ref cfg w.refs }) (reload_config cfg)
        (λ c. ground (arith, b c))

  pub reload_debug-IsBalanced :
      (base : ℕ → ℕ) (w : World V)
      → IsBalanced base [] w
      → IsBalanced base [] (sccp_session_reload_debug w).1
  unfolding sccp_session_reload_debug
  reload_debug-IsBalanced base w b =
      queue_msg-IsBalanced base w reload_debug (λ c. omega (arith, b c))
