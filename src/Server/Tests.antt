-- ===== src/Server/Tests.antt =====
-- Runs of a server over an event file descriptor that is a counter.
use wazo_libsccp.Common.{
  ℕ, ◌≡◌, refl, true, false, List, [], ◌∷◌, Option, none, some, arith, count, ◌==◌, if◌then◌else◌,
}
use wazo_libsccp.Queue.{init}
use wazo_libsccp.Queue.Sync.{create, sync_put, sync_get_all}
use wazo_libsccp.Queue.Sync.Example.{counter}
use wazo_libsccp.Session.Handle.{Events}
use wazo_libsccp.Server.{
  Server, created, started, Accept, sccp_server_create, sccp_server_start, round, on_queue, on_sock,
  server_on_queue_events, server_on_sock_events, end_run, destroy_rest, Act, rounds, session_ends,
  starts, reloads, act, acts,
}
use wazo_libsccp.Server.Released.{server-refs}
use wazo_libsccp.Server.Sessions.{is_own, is_release, IsAccounted}
use wazo_libsccp.Server.Joined.{destroy-releases}

abbrev fresh : Server ℕ
fresh = record {
  state = created;
  stop = false;
  cfg = 5;
  sync_q = record {
    q = record { containers = []; item_size = 16 };
    eventfd = 0;
    is_closed = false;
  };
  srv_sessions = [];
  running = [];
  sock_open = false;
  refs = λ c. if c == 5 then 2 else 1;
  out = [];
}

abbrev data_in : Option Events
data_in = some (record { pollin = true; others = false })

abbrev connection : Accept
connection = record {
  accepted = true;
  session = some 40;
  srv_allocated = true;
  thread_started = true;
}

-- Session 40 is accepted, a reload is queued, and the session ends.
abbrev script : List Act
script =
    starts true true
    ∷ rounds none data_in connection
    ∷ reloads true (some 6)
    ∷ session_ends true 40
    ∷ rounds data_in none connection
    ∷ []

create_test : sccp_server_create counter true true (some 0) 5 (λ c. 1) ≡ some fresh
unfolding sccp_server_create create init
create_test = refl

server-refs_example :
    (destroy_rest counter (end_run counter (acts counter fresh script))).refs 6 ≡ 1
server-refs_example = server-refs counter (λ c. 1) true true (some 0) 5 fresh script create_test 6

fresh-IsAccounted : IsAccounted counter [] fresh
fresh-IsAccounted = record { owned = λ s. refl; ending = λ s. omega arith }

runs : (acts counter fresh script).state ≡ started
unfolding acts act sccp_server_start round on_queue on_sock server_on_queue_events sync_get_all
    server_on_sock_events sync_put
runs = refl

destroy-releases_example :
    let out = (destroy_rest counter (end_run counter (acts counter fresh script))).out in
    count (is_release 40) out ≡ count (is_own 40) out
destroy-releases_example = destroy-releases counter fresh script 40 fresh-IsAccounted runs
