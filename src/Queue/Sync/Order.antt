-- ===== src/Queue/Sync/Order.antt =====
-- sccp_queue.c, `struct sccp_sync_queue`: which items come out, and in which order.
use wazo_libsccp.Common.{◌≡◌, ◌∙◌, ap, sym, List, [], ◌∷◌, ◌++◌, append-nil, append_assoc, arith}
use wazo_libsccp.Queue.Sync.{EventFd, SyncQueue, sync_put, sync_get, sync_get_all, close}
use wazo_libsccp.Queue.Sync.Trace.{Op, puts, gets, gets_all, closes, step, run, waiting}

module _ (E : EventFd) {A : Type 0} where
  step_accounts :
      (s : SyncQueue E.Fd A) (o : Op A)
      → let t = step E s o in t.given_out ++ waiting E t.final ≡ waiting E s ++ t.taken_in
  unfolding step sync_put sync_get sync_get_all close
  step_accounts s (puts allocated x) = ground (arith, append-nil (waiting E s))
  step_accounts s gets = ground (arith, append-nil (waiting E s))
  step_accounts s (gets_all ret) = ground (arith, append-nil (waiting E s))
  step_accounts s closes = ground (arith, append-nil (waiting E s))

  -- Whatever the allocator and the descriptor do, what a run gave out, followed by what still waits,
  -- is what waited before, followed by what the puts that returned 0 took in: no item is lost,
  -- doubled or overtaken.
  pub run_accounts :
      (os : List (Op A)) (s : SyncQueue E.Fd A)
      → let t = run E s os in t.given_out ++ waiting E t.final ≡ waiting E s ++ t.taken_in
  unfolding run
  run_accounts [] s = sym (append-nil (waiting E s))
  run_accounts (o ∷ os) s =
      let t = step E s o in
      let rest = run E t.final os in
      append_assoc t.given_out rest.given_out (waiting E rest.final)
      ∙ ap (λ l. t.given_out ++ l) (run_accounts os t.final)
      ∙ sym (append_assoc t.given_out (waiting E t.final) rest.taken_in)
      ∙ ap (λ l. l ++ rest.taken_in) (step_accounts s o)
      ∙ append_assoc (waiting E s) t.taken_in rest.taken_in
