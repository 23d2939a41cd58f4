-- ===== src/Server/Joined.antt =====
-- sccp_server.c: the references to sessions, through what happens to a server.
use wazo_libsccp.Common.{
  ◌⊎◌, ◌≢◌, ℕ, ◌≤◌, ◌≡◌, ◌==◌, refl, sym, subst, Bool, true, false, ◌&&◌, List, [], ◌∷◌, ◌++◌, none,
  some, if◌then◌else◌, Bool-cases, inl, inr, count, count-append, arith, if_both, ltb,
}
use wazo_libsccp.Session.{ref}
use wazo_libsccp.Queue.{Ret, done, failed, closed, empty, inval}
use wazo_libsccp.Queue.Sync.{EventFd, SyncQueue, sync_put}
use wazo_libsccp.Queue.Sync.Contents.{put-waiting}
use wazo_libsccp.Server.{
  Server, started, by_state, state_both, ServerMsg, reload_config, session_end, reload_debug,
  stop_server, queued, server_queue_msg, session_run, end_run, on_queue, on_sock, round,
  sccp_server_start, or_failed, sccp_server_reload_config, sccp_server_reload_debug, ask_to_stop,
  destroy_rest, Act, rounds, session_ends, starts, reloads, reloads_debug, asks_to_stop, act, acts,
  stop_session, each, unlink, server_stop_sessions, server_join_sessions,
}
use wazo_libsccp.Server.Sessions.{
  is_own, is_release, unlink-count, each-count, join_each-release, join_each-own, ends, IsAccounted,
  on_queue-IsAccounted, on_sock-IsAccounted,
}

module _ (E : EventFd) where
  queued-IsAccounted :
      (w : Server E.Fd) (m : ServerMsg) (r : Ret) (q : SyncQueue E.Fd ServerMsg)
      → ((r ≡ done) × (q.q.containers ≡ w.sync_q.q.containers ++ m ∷ []))
        ⊎ ((r ≢ done) × (q.q.containers ≡ w.sync_q.q.containers))
      → IsAccounted E (m ∷ []) w
      → IsAccounted E [] (queued E w m (r, q)).1
  unfolding queued
  queued-IsAccounted w m done q (inl (r, e)) i = record {
    owned = i.owned;
    ending = λ s.
        let n = count-append (ends s) w.sync_q.q.containers (m ∷ []) in
        rw e (omega (arith, i.ending s, n));
  }
  queued-IsAccounted w m done q (inr (r, e)) i = absurd (r refl)
  queued-IsAccounted w m _ q (inl (r, e)) i = absurd (grind (arith, r))
  queued-IsAccounted w m _ q (inr (r, e)) i = record {
    owned = i.owned;
    ending = λ s. let f = i.ending s in rw e (ground (arith, f));
  }

  queue_msg-IsAccounted :
      (allocated : Bool) (w : Server E.Fd) (m : ServerMsg)
      → IsAccounted E (m ∷ []) w
      → IsAccounted E [] (server_queue_msg E allocated w m).1
  unfolding server_queue_msg
  queue_msg-IsAccounted allocated w m i =
      let p = sync_put E allocated w.sync_q m in
      queued-IsAccounted w m p.0 p.1 (put-waiting E allocated w.sync_q m) i

  or_failed-IsAccounted :
      (p : Ret × Server E.Fd) → IsAccounted E [] p.1 → IsAccounted E [] (or_failed E p).1
  or_failed-IsAccounted (done, w) i = i
  or_failed-IsAccounted (failed, w) i = i
  or_failed-IsAccounted (closed, w) i = i
  or_failed-IsAccounted (empty, w) i = i
  or_failed-IsAccounted (inval, w) i = i

  act-IsAccounted : (w : Server E.Fd) (a : Act) → IsAccounted E [] w → IsAccounted E [] (act E w a)
  unfolding act session_run sccp_server_start sccp_server_reload_config sccp_server_reload_debug
      ask_to_stop round
  act-IsAccounted w (rounds q s a) i =
      let w1 = on_queue E w q in
      let w2 = on_sock E w1 s a in
      let i1 = on_queue-IsAccounted E w q i in
      if_both (λ (p : Bool × Server E.Fd). IsAccounted E [] p.1) w1.stop (true, w1) (w2.stop, w2) i1
        (on_sock-IsAccounted E w1 s a i1)
  act-IsAccounted w (session_ends allocated s) i =
      elim (Bool-cases (ltb 0 (count (λ t. t == s) w.running))) [
        | inl e ↦
            let w' : Server E.Fd = record w { running = unlink s w.running } in
            let runs : 1 ≤ count (λ t. t == s) w.running = ground arith in
            let i' : IsAccounted E (session_end s ∷ []) w' = record {
              owned = i.owned;
              ending = λ t. omega (arith, i.ending t, unlink-count s t w.running runs);
            } in
            rw (act, session_run, e) (queue_msg-IsAccounted allocated w' (session_end s) i')
        | inr e ↦ rw (act, session_run, e) i
      ]
  act-IsAccounted w (starts bound thread_started) i =
      let P : Ret × Server E.Fd → Type 0 = λ p. IsAccounted E [] p.1 in
      let w' : Server E.Fd = record w { state = started; stop = false; sock_open = true } in
      state_both P w.state (if bound && thread_started then (done, w') else (failed, w)) (failed, w)
        (if_both P (bound && thread_started) (done, w') (failed, w)
          (record { owned = i.owned; ending = i.ending }) i)
        i
  act-IsAccounted w (reloads allocated none) i = i
  act-IsAccounted w (reloads allocated (some cfg)) i =
      let P : Ret × Server E.Fd → Type 0 = λ p. IsAccounted E [] p.1 in
      let w' : Server E.Fd = record w { refs = ref cfg w.refs } in
      let p = server_queue_msg E allocated w' (reload_config cfg) in
      state_both P w.state (failed, w) (or_failed E p) i
        (or_failed-IsAccounted p (
          queue_msg-IsAccounted allocated w' (reload_config cfg)
            (record { owned = i.owned; ending = λ s. omega (arith, i.ending s) })))
  act-IsAccounted w (reloads_debug allocated) i =
      let P : Ret × Server E.Fd → Type 0 = λ p. IsAccounted E [] p.1 in
      let p = server_queue_msg E allocated w reload_debug in
      state_both P w.state (failed, w) (or_failed E p) i
        (or_failed-IsAccounted p (
          queue_msg-IsAccounted allocated w reload_debug
            (record { owned = i.owned; ending = λ s. omega (arith, i.ending s) })))
  act-IsAccounted w (asks_to_stop allocated) i =
      state_both (IsAccounted E []) w.state w (server_queue_msg E allocated w stop_server).1 i (
        queue_msg-IsAccounted allocated w stop_server
          (record { owned = i.owned; ending = λ s. omega (arith, i.ending s) }))

  -- Through every round of the server's thread, every end of a session's thread, and the calls of
  -- other threads: each reference to a session that was owned either was given up or has its
  -- session in the list, and the list has at least the sessions whose threads run or whose ends
  -- wait.
  pub acts-IsAccounted :
      (w : Server E.Fd) (as_ : List Act) → IsAccounted E [] w → IsAccounted E [] (acts E w as_)
  unfolding acts
  acts-IsAccounted w [] i = i
  acts-IsAccounted w (a ∷ as_) i = acts-IsAccounted (act E w a) as_ (act-IsAccounted w a i)

  -- A started server, destroyed after its thread ended: each session was given up as often as it
  -- was owned.
  pub destroy-releases :
      (w : Server E.Fd) (as_ : List Act) (s : ℕ)
      → IsAccounted E [] w
      → (acts E w as_).state ≡ started
      → let out = (destroy_rest E (end_run E (acts E w as_))).out in
        count (is_release s) out ≡ count (is_own s) out
  unfolding destroy_rest end_run server_join_sessions server_stop_sessions
  destroy-releases w as_ s i e =
      let v = acts E w as_ in
      let i' = acts-IsAccounted w as_ i in
      let stopped_all = each stop_session v.srv_sessions v.out in
      let a = each-count stop_session (is_own s) v.srv_sessions v.out (λ t. refl) in
      let b = each-count stop_session (is_release s) v.srv_sessions v.out (λ t. refl) in
      let c = join_each-own s v.srv_sessions stopped_all in
      let d = join_each-release s v.srv_sessions stopped_all in
      let u = end_run E v in
      let y = server_join_sessions (server_stop_sessions u) in
      subst
        (λ st. count (is_release s) (by_state st u y).out ≡ count (is_own s) (by_state st u y).out)
        (sym e) (omega (arith, a, b, c, d, i'.owned s))
