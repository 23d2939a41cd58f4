-- ===== src/Session/Stops.antt =====
-- sccp_session.c: how a session is asked to stop.
use wazo_libsccp.Common.{ℕ, ◌≡◌, refl, ap, true, List, ◌∷◌, Option, some, if◌then◌else◌}
use wazo_libsccp.Queue.{Ret, done}
use wazo_libsccp.Queue.Sync.{SyncQueue, sync_put}
use wazo_libsccp.Session.{
  Env, World, SessionMsg, noop, queued, sccp_session_queue_msg, sccp_session_stop,
}
use wazo_libsccp.Session.Handle.{Poll, poll_failed, timed_out, ready}
use wazo_libsccp.Session.Loop.{
  round, stopped, run_tasks, on_queue, on_sock, session_rounds, end_run,
}

module _ {V : Env} where
  queued-stop :
      (w : World V) (m : SessionMsg) (r : Ret) (q : SyncQueue V.eventfd.Fd SessionMsg)
      → (queued w m (r, q)).1.stop ≡ w.stop
  unfolding queued
  queued-stop w m done q = refl
  queued-stop w m _ q = refl

  stop-stop : (w : World V) → (sccp_session_stop w).1.stop ≡ true
  unfolding sccp_session_stop sccp_session_queue_msg
  stop-stop w =
      let w' : World V = record w { stop = true; system = (V.system.allocated w.system).1 } in
      let p = sync_put V.eventfd (V.system.allocated w.system).0 w.sync_q noop in
      queued-stop w' noop p.0 p.1

  stopped-round :
      (fuel : ℕ) (w : World V) (p : Poll) (got : Option (List ℕ))
      → w.stop ≡ true
      → round fuel w p got ≡ some (true, w)
  unfolding round
  stopped-round fuel w poll_failed got e = refl
  stopped-round fuel w timed_out got e =
      ap (λ b. if b then some (true, w) else stopped (run_tasks fuel w)) e
  stopped-round fuel w (ready queue_events sock_events) got e =
      let w1 = on_queue w queue_events in
      ap
        (λ b.
          if b
          then some (true, w)
          else if w1.stop
          then some (true, w1)
          else stopped (on_sock fuel w1 sock_events got))
        e

  -- A session that was asked to stop, whatever was left in its queue and whether or not the request
  -- could be put there, ends in the next round that its poll begins.
  pub stop-ends :
      (fuel : ℕ) (w : World V) (p : Poll) (got : Option (List ℕ))
      (ps : List (Poll × Option (List ℕ)))
      → session_rounds fuel (sccp_session_stop w).1 ((p, got) ∷ ps)
        ≡ some (true, end_run (sccp_session_stop w).1)
  unfolding session_rounds
  stop-ends fuel w p got ps =
      rw (session_rounds, stopped-round fuel (sccp_session_stop w).1 p got (stop-stop w)) refl
