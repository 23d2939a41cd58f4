-- ===== src/Session/Life.antt =====
-- sccp_session.c: a session from its creation to its destruction, with the calls of other threads
-- between its rounds.
use wazo_libsccp.Common.{
  ℕ, ◌≡◌, inl, inr, ap, subst, Bool, true, List, [], ◌∷◌, Option, none, some, if◌then◌else◌,
  Bool-cases, Option-cases, count, arith, if_both,
}
use wazo_libsccp.Queue.Sync.{create}
use wazo_libsccp.Task.{runner_create}
use wazo_libsccp.Session.{
  Env, World, SessionMsg, sccp_session_stop, sccp_session_reload_config, sccp_session_reload_debug,
}
use wazo_libsccp.Session.Handle.{
  sccp_session_update_debug, discard, after_device, empty_local_queue, Events, Poll, poll_failed,
  timed_out, ready,
}
use wazo_libsccp.Registry.{registry_remove}
use wazo_libsccp.Queue.Sync.Contents.{get_all-waiting, create-waiting}
use wazo_libsccp.Session.Loop.{
  new_world, give_up, round, stopped, on_queue, on_sock, run_tasks, end_run, Shared, Creation,
  sccp_session_create, sccp_session_destructor, sccp_session_empty_queue, sccp_session_close_queue,
}
use wazo_libsccp.Session.Keeps.{after_device-Keeps, owns}
use wazo_libsccp.Session.Moves.{IsStable, Returned}
use wazo_libsccp.Session.Sock.{sock_events-Stable, run_tasks-Stable}
use wazo_libsccp.Session.Refs.{
  IsBalanced, Keeps-IsBalanced, queue_events-IsBalanced, empty_queue-IsBalanced,
  close_queue-IsBalanced, stop-IsBalanced, reload_config-IsBalanced, reload_debug-IsBalanced,
}

-- What happens to a session: a round of its own thread, or a call of another thread.
pub data Act : Type 0 where
  rounds : ℕ → Poll → Option (List ℕ) → Act
  stops reloads_debug : Act
  reloads : Option ℕ → Act

module _ {V : Env} where
  unfoldable pub world_of : Option (Bool × World V) → Option (World V)
  world_of none = none
  world_of (some (ended, w)) = some w

  unfoldable pub act : World V → Act → Option (World V)
  unfolding world_of
  act w (rounds fuel p got) = world_of (round fuel w p got)
  act w stops = some (sccp_session_stop w).1
  act w reloads_debug = some (sccp_session_reload_debug w).1
  act w (reloads cfg) = some (sccp_session_reload_config w cfg).1

  unfoldable pub acts : World V → List Act → Option (World V)
  unfolding act
  acts w [] = some w
  acts w (a ∷ as_) = elim (act w a) [ none ↦ none | some w' ↦ acts w' as_ ]

module _ {V : Env} (I : World V → Type 0) (S : IsStable I) where
  stopped-Stable : (o : Option (World V)) → Returned I o → Returned (λ r. I r.1) (stopped o)
  unfolding stopped
  stopped-Stable none i = tt
  stopped-Stable (some w) i = i

  on_sock-Stable :
      (fuel : ℕ) (w : World V) (events : Option Events) (got : Option (List ℕ))
      → I w
      → Returned I (on_sock fuel w events got)
  unfolding on_sock
  on_sock-Stable fuel w none got i = i
  on_sock-Stable fuel w (some events) got i = sock_events-Stable I S fuel w events got i

  pub round-Stable :
      ((w : World V) (events : Option Events) → I w → I (on_queue w events))
      → (fuel : ℕ) (w : World V) (p : Poll) (got : Option (List ℕ)) → I w
      → Returned (λ r. I r.1) (round fuel w p got)
  unfolding round
  round-Stable Q fuel w poll_failed got i = i
  round-Stable Q fuel w timed_out got i =
      if_both (Returned (λ r. I r.1)) w.stop (some (true, w)) (stopped (run_tasks fuel w)) i
        (stopped-Stable (run_tasks fuel w) (run_tasks-Stable I S fuel w i))
  round-Stable Q fuel w (ready queue_events sock_events) got i =
      let w1 = on_queue w queue_events in
      let i1 = Q w queue_events i in
      let rest = stopped (on_sock fuel w1 sock_events got) in
      if_both (Returned (λ r. I r.1)) w.stop (some (true, w))
        (if w1.stop then some (true, w1) else rest) i
        (if_both (Returned (λ r. I r.1)) w1.stop (some (true, w1)) rest i1 (
          stopped-Stable (on_sock fuel w1 sock_events got)
            (on_sock-Stable fuel w1 sock_events got i1)))

  pub world_of-Stable :
      (o : Option (Bool × World V)) → Returned (λ r. I r.1) o → Returned I (world_of o)
  unfolding world_of
  world_of-Stable none i = tt
  world_of-Stable (some (b, w)) i = i

module _ {V : Env} where
  IsBalanced-IsStable : (base : ℕ → ℕ) → IsStable (IsBalanced {V = V} base [])
  IsBalanced-IsStable base = record {
    keeps = Keeps-IsBalanced base [];
    gains = λ w d e ok b. b;
    refuses = λ w d e b. b;
    releases = λ w d e b. b;
  }

  on_queue-IsBalanced :
      (base : ℕ → ℕ) (w : World V) (events : Option Events)
      → IsBalanced base [] w
      → IsBalanced base [] (on_queue w events)
  unfolding on_queue
  on_queue-IsBalanced base w none b = b
  on_queue-IsBalanced base w (some events) b = queue_events-IsBalanced base w events b

  act-IsBalanced :
      (base : ℕ → ℕ) (w : World V) (a : Act)
      → IsBalanced base [] w
      → Returned (IsBalanced base []) (act w a)
  unfolding act
  act-IsBalanced base w (rounds fuel p got) b =
      let I = IsBalanced {V = V} base [] in
      let S = IsBalanced-IsStable base in
      world_of-Stable I S (round fuel w p got)
        (round-Stable I S (on_queue-IsBalanced base) fuel w p got b)
  act-IsBalanced base w stops b = stop-IsBalanced base w b
  act-IsBalanced base w reloads_debug b = reload_debug-IsBalanced base w b
  act-IsBalanced base w (reloads cfg) b = reload_config-IsBalanced base w cfg b

  pub acts-Stable :
      (I : World V → Type 0)
      → ((w : World V) (a : Act) → I w → Returned I (act w a))
      → (as_ : List Act) (w : World V) → I w
      → Returned I (acts w as_)
  unfolding acts
  acts-Stable I step [] w i = i
  acts-Stable I step (a ∷ as_) w i = elim (Option-cases (act w a)) [
    | inl e ↦ rw (acts, e) tt
    | inr (w', e) ↦ rw (acts, e) (acts-Stable I step as_ w' (subst (Returned I) e (step w a i)))
  ]

  discard-IsBalanced :
      (base : ℕ → ℕ) (w : World V) (d : ℕ) → IsBalanced base [] w → IsBalanced base [] (discard w d)
  unfolding discard
  discard-IsBalanced base w d b =
      let r = V.api.destroy w.all_devices d in
      Keeps-IsBalanced base [] w (after_device w r) (after_device-Keeps w r) b

  give_up-IsBalanced :
      (base : ℕ → ℕ) (w : World V) (d : Option ℕ)
      → IsBalanced base [] w
      → IsBalanced base [] (give_up w d)
  unfolding give_up
  give_up-IsBalanced base w none b = b
  give_up-IsBalanced base w (some d) b =
      let reg = registry_remove V.objects V.devices V.lines w.registry (some d) in
      discard-IsBalanced base (record w { registry = reg }) d b

  end_run-IsBalanced :
      (base : ℕ → ℕ) (w : World V) → IsBalanced base [] w → IsBalanced base [] (end_run w)
  unfolding end_run
  end_run-IsBalanced base w b =
      let w1 = sccp_session_close_queue w in
      let w2 = sccp_session_empty_queue w1 in
      give_up-IsBalanced base w2 w2.device
        (empty_queue-IsBalanced base w1 (close_queue-IsBalanced base w b))

  destructor-refs :
      (base : ℕ → ℕ) (w : World V)
      → IsBalanced base [] w
      → (c : ℕ) → (sccp_session_destructor w).refs c ≡ base c
  unfolding sccp_session_destructor sccp_session_empty_queue
  destructor-refs base w b c =
      let empty = get_all-waiting V.eventfd empty_local_queue w.sync_q in
      let none_waits : count (owns c) (sccp_session_empty_queue w).sync_q.q.containers ≡ 0 =
        ap (λ ms. count (owns c) ms) empty.0 in
      ground (arith, empty_queue-IsBalanced base w b c, none_waits)

  create-IsBalanced :
      (g : Shared V) (c : Creation V.eventfd.Fd) (cfg : ℕ)
      → Returned (IsBalanced g.refs []) (sccp_session_create V g c (some cfg))
  unfolding sccp_session_create sccp_session_update_debug
  create-IsBalanced g c cfg =
      let I = IsBalanced {V = V} g.refs [] in
      elim (Bool-cases c.sock_ok) [
        | inr n ↦ rw (sccp_session_create, n) tt
        | inl y ↦ elim (Option-cases (create {A = SessionMsg} c.queue_allocated c.queue_fd 16)) [
          | inl e ↦ rw (sccp_session_create, y, e) tt
          | inr (q, e) ↦
              elim (Option-cases (runner_create V.heap c.runner_allocated c.heap_allocated 2)) [
                | inl f ↦ rw (sccp_session_create, y, e, f) tt
                | inr (runner, f) ↦
                    let w = sccp_session_update_debug (new_world V g cfg q runner) in
                    let b : IsBalanced {V = V} g.refs [] w = λ x.
                      let none_waits : count (owns x) q.q.containers ≡ 0 =
                        ap (λ ms. count (owns x) ms)
                          (create-waiting c.queue_allocated c.queue_fd q e) in
                      ground (arith, none_waits) in
                    rw (sccp_session_create, y, e, f)
                      (if_both (Returned I) c.allocated (some w) none b tt)
              ]
        ]
      ]

  -- A session that was created, whatever its rounds, the calls of other threads between them, the
  -- allocations, the device and the writes do, and whether or not it was run: once it is
  -- destroyed, each configuration has the number of references that it had before.
  pub session-refs :
      (g : Shared V) (c : Creation V.eventfd.Fd) (cfg : ℕ) (as_ : List Act) (w w' : World V)
      → sccp_session_create V g c (some cfg) ≡ some w
      → acts w as_ ≡ some w'
      → (x : ℕ)
      → ((sccp_session_destructor (end_run w')).refs x ≡ g.refs x)
        × ((sccp_session_destructor w').refs x ≡ g.refs x)
  session-refs g c cfg as_ w w' made lived x =
      let b : IsBalanced g.refs [] w =
        subst (Returned (IsBalanced g.refs [])) made (create-IsBalanced g c cfg) in
      let b' : IsBalanced g.refs [] w' =
        subst (Returned (IsBalanced g.refs [])) lived
          (acts-Stable (IsBalanced g.refs []) (act-IsBalanced g.refs) as_ w b) in
      (
        destructor-refs g.refs (end_run w') (end_run-IsBalanced g.refs w' b') x,
        destructor-refs g.refs w' b' x,
      )
