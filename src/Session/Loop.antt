-- ===== src/Session/Loop.antt =====
-- sccp_session.c: messages from the socket, the loop of sccp_session_run on the answers of poll(2),
-- its end, and the creation and destruction of a session.
use wazo_libsccp.Common.{
  ℕ, zero, suc, ◌==◌, Bool, true, false, ◌&&◌, not, List, [], ◌∷◌, Option, none, some,
  if◌then◌else◌, is_some, drop,
}
use wazo_libsccp.Queue.Sync.{SyncQueue, sync_get_all, create, close}
use wazo_libsccp.Deserializer.{PopRet, load32, init, pop, popped, malformed}
use wazo_libsccp.Task.{Task, Runner, runner_create, runner_run}
use wazo_libsccp.Registry.{Registry, registry_remove}
use wazo_libsccp.Messages.{zeros}
use wazo_libsccp.Session.{
  Env, World, SessionMsg, ref, unref, session_msg_destroy, on_auth_timeout, add_auth_timeout_task,
}
use wazo_libsccp.Session.Handle.{
  notify, Events, Poll, poll_failed, timed_out, ready, after_result, discard, taken,
  empty_local_queue, byte_at, end_name, sccp_session_update_debug, sccp_session_on_queue_events,
  sccp_session_read_sock, sccp_session_handle_msg_register,
}

-- Every message of a queue that is given up.
unfoldable pub destroy_all : List SessionMsg → (ℕ → ℕ) → ℕ → ℕ
unfolding session_msg_destroy
destroy_all [] refs = refs
destroy_all (m ∷ ms) refs = destroy_all ms (session_msg_destroy m refs)

module _ {V : Env} where
  unfoldable pub give_device : World V → Option ℕ → List ℕ → World V
  give_device w none m = w
  give_device w (some d) m = after_result w (V.api.handle_msg w.all_devices d m)

  -- The message as the device sees it: registration ends the name in place.
  unfoldable pub sccp_session_handle_msg : World V → List ℕ → World V
  unfolding give_device
  sccp_session_handle_msg w msg =
      let registers = not (is_some w.device) && (load32 (drop 8 msg) == 1) in
      let w' = if registers then sccp_session_handle_msg_register w msg else w in
      give_device w' w'.device (if registers then end_name msg else msg)

  -- The loop of pops, with fuel; `none` when it is used up. The result is what ended it.
  unfoldable pub handle_all : ℕ → World V → Option (PopRet × World V)
  unfolding sccp_session_handle_msg
  handle_all zero w = none
  handle_all (suc fuel) w =
      let (r, m, de) = pop w.deserializer in
      let w' = record w { deserializer = de } in
      elim r [
        | popped ↦ elim m [
          | none ↦ none
          | some msg ↦ handle_all fuel (sccp_session_handle_msg w' msg)
        ]
        | other ↦ some (other, w')
      ]

  -- The end of `sccp_session_on_sock_events`.
  unfoldable pub after_pops : Events → Option (PopRet × World V) → Option (World V)
  after_pops events none = none
  after_pops events (some (malformed, w)) = some (record w { stop = true })
  after_pops events (some (_, w)) = some (if events.others then record w { stop = true } else w)

  unfoldable pub sccp_session_on_sock_events :
      ℕ → World V → Events → Option (List ℕ) → Option (World V)
  unfolding handle_all after_pops
  sccp_session_on_sock_events fuel w events got =
      let (ok, w') = sccp_session_read_sock w got in
      if events.pollin
      then (if ok then after_pops events (handle_all fuel w') else some (record w' { stop = true }))
      else some (if events.others then record w { stop = true } else w)

  -- A callback of the task runner, with the runner that the session holds.
  unfoldable pub session_task : Task → Runner V.heap.H × World V → Runner V.heap.H × World V
  unfolding notify
  session_task t (runner, w0) =
      let w = record w0 { task_runner = runner } in
      let w' =
        if t.callback == on_auth_timeout
        then record w { stop = true }
        else notify (λ s d. V.api.timeout s d (byte_at 0 t.bytes) (byte_at 1 t.bytes)) w w.device in
      (w'.task_runner, w')

  unfoldable pub run_tasks : ℕ → World V → Option (World V)
  unfolding session_task
  run_tasks fuel w =
      let (now, s) = V.system.now w.system in
      elim (runner_run V.heap fuel session_task now (w.task_runner, record w { system = s })) [
        | none ↦ none
        | some (runner, w') ↦ some (record w' { task_runner = runner })
      ]

  -- One round of the loop: the answer of poll(2) and what read(2) then gives. The result is true
  -- when the loop goes to `end`.
  unfoldable pub on_queue : World V → Option Events → World V
  on_queue w none = w
  on_queue w (some events) = sccp_session_on_queue_events w events

  unfoldable pub on_sock : ℕ → World V → Option Events → Option (List ℕ) → Option (World V)
  unfolding sccp_session_on_sock_events
  on_sock fuel w none got = some w
  on_sock fuel w (some events) got = sccp_session_on_sock_events fuel w events got

  unfoldable pub stopped : Option (World V) → Option (Bool × World V)
  stopped none = none
  stopped (some w) = some (w.stop, w)

  unfoldable pub round : ℕ → World V → Poll → Option (List ℕ) → Option (Bool × World V)
  unfolding run_tasks on_queue on_sock stopped
  round fuel w poll_failed got = some (true, w)
  round fuel w timed_out got = if w.stop then some (true, w) else stopped (run_tasks fuel w)
  round fuel w (ready queue_events sock_events) got =
      let w1 = on_queue w queue_events in
      if w.stop
      then some (true, w)
      else if w1.stop
      then some (true, w1)
      else stopped (on_sock fuel w1 sock_events got)

  unfoldable pub sccp_session_close_queue : World V → World V
  sccp_session_close_queue w = record w { sync_q = close w.sync_q }

  unfoldable pub sccp_session_empty_queue : World V → World V
  unfolding destroy_all
  sccp_session_empty_queue w =
      let (_, q, sync_q) = sync_get_all V.eventfd (some empty_local_queue) w.sync_q in
      record w { sync_q = sync_q; refs = destroy_all (taken q) w.refs }

  -- The device leaves the registry, is destroyed, and its reference is given up.
  unfoldable pub give_up : World V → Option ℕ → World V
  unfolding discard
  give_up w none = w
  give_up w (some d) =
      let reg = registry_remove V.objects V.devices V.lines w.registry (some d) in
      record (discard (record w { registry = reg }) d) { device = none }

  -- `end:`
  unfoldable pub end_run : World V → World V
  unfolding sccp_session_close_queue sccp_session_empty_queue give_up
  end_run w = let w' = sccp_session_empty_queue (sccp_session_close_queue w) in give_up w' w'.device

  -- The rounds, until one goes to `end` or the answers are used up; the result is true when the
  -- session ended.
  unfoldable pub session_rounds :
      ℕ → World V → List (Poll × Option (List ℕ)) → Option (Bool × World V)
  unfolding round end_run
  session_rounds fuel w [] = some (false, w)
  session_rounds fuel w ((p, got) ∷ ps) = elim (round fuel w p got) [
    | none ↦ none
    | some (true, w') ↦ some (true, end_run w')
    | some (false, w') ↦ session_rounds fuel w' ps
  ]

  unfoldable pub sccp_session_run :
      ℕ → World V → List (Poll × Option (List ℕ)) → Option (Bool × World V)
  unfolding session_rounds
  sccp_session_run fuel w ps = session_rounds fuel (add_auth_timeout_task w).1 ps

  unfoldable pub sccp_session_destructor : World V → World V
  unfolding sccp_session_empty_queue
  sccp_session_destructor w =
      let w' = sccp_session_empty_queue w in record w' { refs = unref w'.cfg w'.refs }

-- What the calls into the system before the session's memory give: getsockname and setsockopt
-- succeed, the allocations of the queue, of the runner with its heap, and of the session.
pub record Creation (F : Type 0) : Type 0 where
  pub sock_ok : Bool
  pub queue_allocated : Bool
  pub queue_fd : Option F
  pub runner_allocated : Bool
  pub heap_allocated : Bool
  pub allocated : Bool

module _ (V : Env) where
  -- What sessions share.
  pub record Shared : Type 0 where
    pub registry : Registry V.devices.C V.lines.C
    pub refs : ℕ → ℕ
    pub all_devices : V.api.S
    pub system : V.system.S

  abbrev pub new_world : Shared → ℕ → SyncQueue V.eventfd.Fd SessionMsg → Runner V.heap.H → World V
  new_world g cfg q runner = record {
    deserializer = init (record { msg = zeros 796; start = 0; end = 0; buf = zeros 3072 });
    stop = false;
    debug = false;
    cfg = cfg;
    sync_q = q;
    task_runner = runner;
    device = none;
    registry = g.registry;
    refs = ref cfg g.refs;
    all_devices = g.all_devices;
    system = g.system;
    released = [];
  }

  -- The registry and the address are not null.
  unfoldable pub sccp_session_create : Shared → Creation V.eventfd.Fd → Option ℕ → Option (World V)
  sccp_session_create g c none = none
  sccp_session_create g c (some cfg) =
      if c.sock_ok
      then elim (create c.queue_allocated c.queue_fd 16) [
        | none ↦ none
        | some q ↦ elim (runner_create V.heap c.runner_allocated c.heap_allocated 2) [
          | none ↦ none
          | some runner ↦
              if c.allocated
              then some (sccp_session_update_debug (new_world g cfg q runner))
              else none
        ]
      ]
      else none
