-- ===== src/Session/Tests.antt =====
-- Runs of a session over lists, a counter, and a device that answers every message.
use wazo_libsccp.Common.{
  ℕ, suc, ◌≡◌, ◌⊎◌, refl, true, false, List, [], ◌∷◌, Option, none, some, arith, pos, length, ◌+◌,
}
use wazo_libsccp.Queue.{init}
use wazo_libsccp.Queue.Sync.{moved, create, sync_put, sync_get_all}
use wazo_libsccp.Task.{runner_create, runner_add, runner_remove, runner_run, run_loop}
use wazo_libsccp.Queue.Sync.Example.{counter}
use wazo_libsccp.Task.Example.{list_heap}
use wazo_libsccp.Registry.{registry_add}
use wazo_libsccp.Registry.Example.{lists, objects}
use wazo_libsccp.Messages.{prepare_msg}
use wazo_libsccp.Session.{
  sccp_session_queue_msg, session_calls, sccp_session_add_device_task, sccp_session_transmit_msg,
  Env, World, DeviceApi, System, transmit, add_task, sccp_session_stop, sccp_session_reload_config,
}
use wazo_libsccp.Session.Handle.{
  Events, sccp_session_on_queue_events, process_all, sccp_session_read_sock, after_read, notify,
  sccp_session_update_debug, ready, timed_out, sccp_session_handle_msg_register,
}
use wazo_libsccp.Deserializer.{pop, read, load32, deliver}
use wazo_libsccp.Session.Loop.{
  on_queue, on_sock, run_tasks, stopped, sccp_session_on_sock_events, handle_all,
  sccp_session_handle_msg, session_task, round, new_world, Shared, Creation, sccp_session_create,
  sccp_session_destructor, session_rounds, end_run,
}
use wazo_libsccp.Session.Life.{Act, reloads, rounds, acts, act, world_of, session-refs}
use wazo_libsccp.Session.Devices.{IsRegistered, acts-IsRegistered, Leaves, end_run-Leaves}
use wazo_libsccp.Session.Outcome.{created_for, Accepted, Refused, register-outcome}
use wazo_libsccp.Session.Stops.{stop-ends}

-- The devices' state counts the calls. Device 2 is created for configuration 20.
abbrev api : DeviceApi
api = record {
  S = ℕ;
  create = λ s cfg info. (some 2, suc s);
  destroy = λ s d. ([], suc s);
  on_registration_success =
      λ s d. (transmit (prepare_msg 4 129) ∷ add_task 7 0 (pos 30) ∷ [], suc s);
  on_data_read = λ s d. ([], suc s);
  on_connection_lost = λ s d. ([], suc s);
  handle_msg = λ s d m. (false, transmit (prepare_msg 4 256) ∷ [], suc s);
  reload_config = λ s d cfg. (false, [], suc s);
  timeout = λ s d c a. ([], suc s);
}

-- The clock goes on by a second at each reading.
abbrev system : System
system = record {
  S = ℕ;
  write = λ s bs. (moved (length bs), s);
  allocated = λ s. (true, s);
  now = λ s. (s, s + 1000000);
}

abbrev env : Env
env = record {
  objects = objects;
  devices = lists objects.device_name;
  lines = lists objects.line_name;
  eventfd = counter;
  heap = list_heap;
  api = api;
  system = system;
  find_device_or_guest = λ cfg name. some 20;
  debug_enabled = λ name. false;
  authtimeout = λ cfg. pos 2;
}

abbrev shared : Shared env
shared = record {
  registry = record { max_guests = 1; cur_guests = 0; devices = []; lines = [] };
  refs = λ c. 1;
  all_devices = 0;
  system = 0;
}

abbrev creation : Creation ℕ
creation = record {
  sock_ok = true;
  queue_allocated = true;
  queue_fd = some 0;
  runner_allocated = true;
  heap_allocated = true;
  allocated = true;
}

abbrev session : World env
session =
    new_world env shared 5
      (record { q = record { containers = []; item_size = 16 }; eventfd = 0; is_closed = false })
      (record { tasks = []; heap = []; data_size = 2 })

created : sccp_session_create env shared creation (some 5) ≡ some session
unfolding sccp_session_create create init runner_create sccp_session_update_debug
created = refl

-- A reload is asked for; then the session reads a registration of 64 bytes, and times out.
-- POLLIN alone.
abbrev data_in : Events
data_in = record { pollin = true; others = false }

abbrev script : List Act
script =
    reloads (some 6)
    ∷ rounds 3 (ready (some data_in) (some data_in)) (some (prepare_msg 52 1))
    ∷ rounds 3 timed_out none
    ∷ reloads (some 5)
    ∷ []

abbrev the : Option (World env) → World env
the none = session
the (some w) = w

lives : acts session script ≡ some (the (acts session script))
unfolding acts act world_of round on_queue on_sock run_tasks stopped sccp_session_on_queue_events
    process_all sccp_session_on_sock_events handle_all sccp_session_handle_msg
    sccp_session_handle_msg_register sccp_session_read_sock after_read notify session_task
    runner_run run_loop pop read sync_put sync_get_all sccp_session_reload_config
    sccp_session_queue_msg wazo_libsccp.Deserializer.init load32 deliver registry_add session_calls
    sccp_session_add_device_task sccp_session_transmit_msg runner_add runner_remove
lives = refl

session-refs_example :
    ((sccp_session_destructor (end_run (the (acts session script)))).refs 6 ≡ 1)
    × ((sccp_session_destructor (the (acts session script))).refs 6 ≡ 1)
session-refs_example =
    session-refs shared creation 5 script session (the (acts session script)) created lives 6

session-IsRegistered : IsRegistered session
session-IsRegistered = record {
  registry_valid = record {
    max_fits = omega arith;
    cur_fits = omega arith;
    guests = refl;
    names = λ n. omega arith;
    lines = λ w. omega arith;
  };
  device_in = λ d e. absurd (grind (arith, e));
}

acts-IsRegistered_example : IsRegistered (the (acts session script))
acts-IsRegistered_example =
    acts-IsRegistered script session (the (acts session script)) session-IsRegistered lives

end_run-Leaves_example :
    Leaves (the (acts session script)).device (end_run (the (acts session script)))
end_run-Leaves_example =
    end_run-Leaves (the (acts session script))
      (acts-IsRegistered script session (the (acts session script)) session-IsRegistered lives)

register-outcome_example :
    Accepted
      (created_for session (prepare_msg 52 1))
      session
      (sccp_session_handle_msg_register session (prepare_msg 52 1))
    ⊎ Refused
        (created_for session (prepare_msg 52 1))
        session
        (sccp_session_handle_msg_register session (prepare_msg 52 1))
register-outcome_example =
    register-outcome session (prepare_msg 52 1) refl (omega arith) (omega arith)

stop-ends_example :
    session_rounds 3 (sccp_session_stop session).1 ((timed_out, none) ∷ [])
    ≡ some (true, end_run (sccp_session_stop session).1)
stop-ends_example = stop-ends 3 session timed_out none []

stop_returns : (sccp_session_stop session).0 ≡ true
unfolding sccp_session_stop sccp_session_queue_msg sync_put
stop_returns = refl
