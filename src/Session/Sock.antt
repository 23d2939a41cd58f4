-- ===== src/Session/Sock.antt =====
-- sccp_session.c: statements that the session's thread keeps while it handles the events of its
-- socket and runs its tasks.
use wazo_libsccp.Common.{
  ℕ, ◌+◌, ◌==◌, inl, inr, true, List, Option, none, some, if◌then◌else◌, if_both,
}
use wazo_libsccp.Deserializer.{read, ReadRet, read_done, read_eof, read_full, read_failed}
use wazo_libsccp.Task.{Task, Runner, runner_run}
use wazo_libsccp.Task.Ends.{run_loop-keeps}
use wazo_libsccp.Session.{Call, Env, World, on_auth_timeout}
use wazo_libsccp.Session.Handle.{
  Events, after_device, notify, after_read, sccp_session_read_sock, byte_at,
}
use wazo_libsccp.Session.Loop.{
  handle_all, after_pops, sccp_session_on_sock_events, session_task, run_tasks,
}
use wazo_libsccp.Session.Keeps.{others-Keeps, stopped-Keeps, after_device-Keeps}
use wazo_libsccp.Session.Moves.{
  Returned, IsStable, stop_if-Stable, handle_all-Stable, after_pops-Stable,
}

module _ {V : Env} (I : World V → Type 0) (S : IsStable I) where
  notify-Stable :
      (entry : V.api.S → ℕ → List Call × V.api.S) (w : World V) (d : Option ℕ)
      → I w
      → I (notify entry w d)
  unfolding notify
  notify-Stable entry w none i = i
  notify-Stable entry w (some d) i =
      let r = entry w.all_devices d in S.keeps w (after_device w r) (after_device-Keeps w r) i

  after_read-Stable : (r : ReadRet) (w : World V) → I w → I (after_read r w).1
  unfolding after_read
  after_read-Stable read_done w i = notify-Stable V.api.on_data_read w w.device i
  after_read-Stable read_eof w i = notify-Stable V.api.on_connection_lost w w.device i
  after_read-Stable read_full w i = i
  after_read-Stable read_failed w i = i

  pub sock_events-Stable :
      (fuel : ℕ) (w : World V) (events : Events) (got : Option (List ℕ))
      → I w
      → Returned I (sccp_session_on_sock_events fuel w events got)
  unfolding sccp_session_on_sock_events sccp_session_read_sock
  sock_events-Stable fuel w events got i =
      let (r, de) = read w.deserializer got in
      let w' : World V = record w { deserializer = de } in
      let (ok, u) = after_read r w' in
      let i' : I u =
        after_read-Stable r w'
          (S.keeps w w' (others-Keeps w de w.debug w.task_runner w.all_devices w.system) i) in
      if_both (Returned I) events.pollin
        (if ok then after_pops events (handle_all fuel u) else some (record u { stop = true }))
        (some (if events.others then record w { stop = true } else w))
        (if_both (Returned I) ok (after_pops events (handle_all fuel u))
          (some (record u { stop = true }))
          (after_pops-Stable I S events (handle_all fuel u) (handle_all-Stable I S fuel u i'))
          (S.keeps u (record u { stop = true }) (stopped-Keeps u) i'))
        (stop_if-Stable I S events.others w i)

  session_task-Stable :
      (t : Task) (r : Runner V.heap.H) (w : World V) → I w → I (session_task t (r, w)).1
  unfolding session_task
  session_task-Stable t r w0 i0 =
      let w : World V = record w0 { task_runner = r } in
      let i : I w =
        S.keeps w0 w (others-Keeps w0 w0.deserializer w0.debug r w0.all_devices w0.system) i0 in
      let entry : V.api.S → ℕ → List Call × V.api.S =
        λ s d. V.api.timeout s d (byte_at 0 t.bytes) (byte_at 1 t.bytes) in
      if_both I (t.callback == on_auth_timeout) (record w { stop = true }) (notify entry w w.device)
        (S.keeps w (record w { stop = true }) (stopped-Keeps w) i)
        (notify-Stable entry w w.device i)

  pub run_tasks-Stable : (fuel : ℕ) (w : World V) → I w → Returned I (run_tasks fuel w)
  unfolding run_tasks runner_run
  run_tasks-Stable fuel w i =
      let (now, s) = V.system.now w.system in
      let w1 : World V = record w { system = s } in
      let i1 : I w1 =
        S.keeps w w1 (others-Keeps w w.deserializer w.debug w.task_runner w.all_devices s) i in
      elim (run_loop-keeps V.heap I session_task session_task-Stable fuel (now + 1000) w.task_runner
        w1 i1) [
          | inl e ↦ rw (run_tasks, runner_run, e) tt
          | inr (runner, w', e, i') ↦
              rw (run_tasks, runner_run, e)
                (S.keeps w' (record w' { task_runner = runner })
                  (others-Keeps w' w'.deserializer w'.debug runner w'.all_devices w'.system) i')
        ]
