-- ===== src/Server/Released.antt =====
-- sccp_server.c: the references to configurations, through what happens to a server.
use wazo_libsccp.Common.{
  ℕ, ◌+◌, ◌≡◌, ◌==◌, inl, inr, refl, ap, subst, Bool, true, false, ◌&&◌, List, [], ◌∷◌, Option,
  none, some, if◌then◌else◌, Option-cases, count, arith, if_both, ltb,
}
use wazo_libsccp.Queue.{Ret, done, failed, closed, empty, inval}
use wazo_libsccp.Queue.Sync.{EventFd, sync_get_all, close, create}
use wazo_libsccp.Queue.Sync.Contents.{get_all-waiting, get_all-taken, create-waiting}
use wazo_libsccp.Session.{ref, unref}
use wazo_libsccp.Session.Moves.{Returned}
use wazo_libsccp.Session.Handle.{Events, empty_local_queue}
use wazo_libsccp.Server.{
  state_both, server_stop_sessions, server_join_sessions, Server, ServerMsg, started, reload_config,
  session_end, reload_debug, stop_server, Accept, taken, unlink, server_on_sock_events,
  start_session, accept_session, server_queue_msg, session_run, end_run, on_queue, on_sock, round,
  sccp_server_create, sccp_server_start, or_failed, sccp_server_reload_config,
  sccp_server_reload_debug, ask_to_stop, destroy_rest, Act, rounds, session_ends, starts, reloads,
  reloads_debug, asks_to_stop, act, acts,
}
use wazo_libsccp.Server.Refs.{
  owns, owned, destroy_msgs-refs, IsBalanced, like-IsBalanced, queue_msg-IsBalanced,
  on_queue-IsBalanced,
}

module _ (E : EventFd) where
  -- Sessions do not matter to the references.
  on_sock-same :
      (w : Server E.Fd) (events : Option Events) (a : Accept)
      → ((on_sock E w events a).refs ≡ w.refs)
        × ((on_sock E w events a).cfg ≡ w.cfg)
        × ((on_sock E w events a).sync_q ≡ w.sync_q)
  unfolding on_sock server_on_sock_events accept_session start_session
  on_sock-same w none a = (refl, refl, refl)
  on_sock-same w (some events) a = (ground arith, ground arith, ground arith)

  round-IsBalanced :
      (base : ℕ → ℕ) (w : Server E.Fd) (q s : Option Events) (a : Accept)
      → IsBalanced E base [] w
      → IsBalanced E base [] (round E w q s a).1
  unfolding round
  round-IsBalanced base w q s a b =
      let w1 = on_queue E w q in
      let w2 = on_sock E w1 s a in
      let b1 = on_queue-IsBalanced E base w q b in
      let (r, f, y) = on_sock-same w1 s a in
      if_both (λ (p : Bool × Server E.Fd). IsBalanced E base [] p.1) w1.stop (true, w1)
        (w2.stop, w2) b1 (like-IsBalanced E base [] w1 w2 r f y b1)

  or_failed-IsBalanced :
      (base : ℕ → ℕ) (p : Ret × Server E.Fd)
      → IsBalanced E base [] p.1
      → IsBalanced E base [] (or_failed E p).1
  or_failed-IsBalanced base (done, w) b = b
  or_failed-IsBalanced base (failed, w) b = b
  or_failed-IsBalanced base (closed, w) b = b
  or_failed-IsBalanced base (empty, w) b = b
  or_failed-IsBalanced base (inval, w) b = b

  -- A message that owns nothing.
  free-IsBalanced :
      (base : ℕ → ℕ) (w : Server E.Fd) (m : ServerMsg)
      → ((c : ℕ) → owned c m ≡ 0)
      → IsBalanced E base [] w
      → IsBalanced E base (m ∷ []) w
  free-IsBalanced base w m n b = record {
    refs = λ c. omega (arith, b.refs c, n c);
    closed_empty = b.closed_empty;
  }

  act-IsBalanced :
      (base : ℕ → ℕ) (w : Server E.Fd) (a : Act)
      → IsBalanced E base [] w
      → IsBalanced E base [] (act E w a)
  unfolding act session_run sccp_server_start sccp_server_reload_config sccp_server_reload_debug
      ask_to_stop
  act-IsBalanced base w (rounds q s a) b = round-IsBalanced base w q s a b
  act-IsBalanced base w (session_ends allocated s) b =
      let w' : Server E.Fd = record w { running = unlink s w.running } in
      if_both (IsBalanced E base []) (ltb 0 (count (λ t. t == s) w.running))
        (server_queue_msg E allocated w' (session_end s)).1 w
        (queue_msg-IsBalanced E base allocated w' (session_end s) (
          free-IsBalanced base w' (session_end s) (λ c. refl)
            (like-IsBalanced E base [] w w' refl refl refl b)))
        b
  act-IsBalanced base w (starts bound thread_started) b =
      let P : Ret × Server E.Fd → Type 0 = λ p. IsBalanced E base [] p.1 in
      let w' : Server E.Fd = record w { state = started; stop = false; sock_open = true } in
      state_both P w.state (if bound && thread_started then (done, w') else (failed, w)) (failed, w)
        (if_both P (bound && thread_started) (done, w') (failed, w)
          (like-IsBalanced E base [] w w' refl refl refl b) b)
        b
  act-IsBalanced base w (reloads allocated none) b = b
  act-IsBalanced base w (reloads allocated (some cfg)) b =
      let P : Ret × Server E.Fd → Type 0 = λ p. IsBalanced E base [] p.1 in
      let w' : Server E.Fd = record w { refs = ref cfg w.refs } in
      let p = server_queue_msg E allocated w' (reload_config cfg) in
      state_both P w.state (failed, w) (or_failed E p) b
        (or_failed-IsBalanced base p (
          queue_msg-IsBalanced E base allocated w' (reload_config cfg) (record {
            refs = λ c. let e = b.refs c in ground (arith, e);
            closed_empty = b.closed_empty;
          })))
  act-IsBalanced base w (reloads_debug allocated) b =
      let P : Ret × Server E.Fd → Type 0 = λ p. IsBalanced E base [] p.1 in
      let p = server_queue_msg E allocated w reload_debug in
      state_both P w.state (failed, w) (or_failed E p) b
        (or_failed-IsBalanced base p (
          queue_msg-IsBalanced E base allocated w reload_debug
            (free-IsBalanced base w reload_debug (λ c. refl) b)))
  act-IsBalanced base w (asks_to_stop allocated) b =
      state_both (IsBalanced E base []) w.state w (server_queue_msg E allocated w stop_server).1 b (
        queue_msg-IsBalanced E base allocated w stop_server
          (free-IsBalanced base w stop_server (λ c. refl) b))

  acts-IsBalanced :
      (base : ℕ → ℕ) (w : Server E.Fd) (as_ : List Act)
      → IsBalanced E base [] w
      → IsBalanced E base [] (acts E w as_)
  unfolding acts
  acts-IsBalanced base w [] b = b
  acts-IsBalanced base w (a ∷ as_) b =
      acts-IsBalanced base (act E w a) as_ (act-IsBalanced base w a b)

  end_run-IsBalanced :
      (base : ℕ → ℕ) (w : Server E.Fd)
      → IsBalanced E base [] w
      → IsBalanced E base [] (end_run E w) × ((end_run E w).sync_q.is_closed ≡ true)
  unfolding end_run close
  end_run-IsBalanced base w b =
      let q = record w.sync_q { is_closed = true } in
      let r = sync_get_all E (some empty_local_queue) q in
      let e = get_all-taken E empty_local_queue q in
      let (z, k) = get_all-waiting E empty_local_queue q in
      (
        record {
          refs = λ c.
              let none_waits : count (owns c) r.2.q.containers ≡ 0 =
                ap (λ ms. count (owns c) ms) z in
              let all : count (owns c) (taken r.1) ≡ count (owns c) w.sync_q.q.containers =
                ap (λ o. count (owns c) (taken o)) e in
              let gone =
                destroy_msgs-refs (taken r.1) w.refs c (base c + (if w.cfg == c then 1 else 0))
                  (omega (arith, b.refs c, all)) in
              omega (arith, gone, none_waits);
          closed_empty = λ o. z;
        },
        k,
      )

  create-IsBalanced :
      (base : ℕ → ℕ) (a b : Bool) (fd : Option E.Fd) (cfg : ℕ)
      → Returned (IsBalanced E base []) (sccp_server_create E a b fd cfg base)
  unfolding sccp_server_create
  create-IsBalanced base false b fd cfg = tt
  create-IsBalanced base true b fd cfg = elim (Option-cases (create {A = ServerMsg} b fd 16)) [
    | inl e ↦ rw (sccp_server_create, e) tt
    | inr (q, e) ↦
        let z = create-waiting b fd q e in
        rw (sccp_server_create, e)
          (record {
            refs = λ c.
                let none_waits : count (owns c) q.q.containers ≡ 0 =
                  ap (λ ms. count (owns c) ms) z in
                ground (arith, none_waits);
            closed_empty = λ o. z;
          })
  ]

  destroy_rest-refs :
      (base : ℕ → ℕ) (w : Server E.Fd)
      → IsBalanced E base [] w
      → w.sync_q.is_closed ≡ true
      → (c : ℕ) → (destroy_rest E w).refs c ≡ base c
  unfolding destroy_rest server_join_sessions server_stop_sessions
  destroy_rest-refs base w b o c =
      let none_waits : count (owns c) w.sync_q.q.containers ≡ 0 =
        ap (λ ms. count (owns c) ms) (b.closed_empty o) in
      let joined : Server E.Fd = server_join_sessions (server_stop_sessions w) in
      state_both (λ (v : Server E.Fd). unref v.cfg v.refs c ≡ base c) w.state w joined
        (ground (arith, b.refs c, none_waits)) (ground (arith, b.refs c, none_waits))

  -- A server that was created, whatever its rounds, its sessions and the calls of other threads do,
  -- and whatever the allocations: once its thread has ended and it is destroyed, each configuration
  -- has the number of references that it had before, as far as the server and its queue own them.
  pub server-refs :
      (base : ℕ → ℕ) (a b : Bool) (fd : Option E.Fd) (cfg : ℕ) (w : Server E.Fd) (as_ : List Act)
      → sccp_server_create E a b fd cfg base ≡ some w
      → (c : ℕ) → (destroy_rest E (end_run E (acts E w as_))).refs c ≡ base c
  server-refs base a b fd cfg w as_ e c =
      let made : IsBalanced E base [] w =
        subst (Returned (IsBalanced E base [])) e (create-IsBalanced base a b fd cfg) in
      let (ended, o) = end_run-IsBalanced base (acts E w as_) (acts-IsBalanced base w as_ made) in
      destroy_rest-refs base (end_run E (acts E w as_)) ended o c
