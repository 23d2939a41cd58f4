-- ===== src/Server.antt =====
-- sccp_server.c: the server's thread, its queue, and the sessions that it started. A session with
-- its `struct server_session` is a number; what the server asks of sessions and threads is the
-- trace `out`, newest first. The outcomes of accept(2), of the allocations, of thread creation
-- and of the socket's calls are arguments. `running` lists the sessions whose threads have not
-- queued their end yet. TOS options and logs are left out.
pub mod Refs
pub mod Released
pub mod Sessions
pub mod Joined
mod Tests
use wazo_libsccp.Common.{
  ℕ, suc, ◌≡◌, ◌==◌, Bool, true, false, ◌&&◌, List, [], ◌∷◌, ◌++◌, Option, none, some,
  if◌then◌else◌, count, ltb,
}
use wazo_libsccp.Queue.{Queue, Ret, done, failed}
use wazo_libsccp.Queue.Sync.{EventFd, SyncQueue, sync_put, sync_get_all, create, close}
use wazo_libsccp.Session.{ref, unref}
use wazo_libsccp.Session.Handle.{Events, empty_local_queue}

pub data ServerState : Type 0 where
  created started : ServerState

-- What is done in each state.
abbrev pub by_state {ℓ} : {A : Type ℓ} → ServerState → (when_created when_started : A) → A
by_state created x y = x
by_state started x y = y

pub data ServerMsg : Type 0 where
  reload_config session_end : ℕ → ServerMsg
  reload_debug stop_server : ServerMsg

-- Calls of sccp_session_stop, sccp_session_reload_config and sccp_session_reload_debug; a join of a
-- session's thread; the reference to a session owned, from its creation, and given up.
pub data Out : Type 0 where
  own_session stop_session debug_session join_session release_session : ℕ → Out
  reload_session : ℕ → ℕ → Out

pub record Server (F : Type 0) : Type 0 where
  pub state : ServerState
  pub stop : Bool
  pub cfg : ℕ
  pub sync_q : SyncQueue F ServerMsg
  pub srv_sessions : List ℕ
  pub running : List ℕ
  pub sock_open : Bool
  -- The reference counts of configurations, which the server shares.
  pub refs : ℕ → ℕ
  pub out : List Out

-- What accept(2), sccp_session_create, the allocation of server_session_create and
-- ast_pthread_create give.
pub record Accept : Type 0 where
  pub accepted : Bool
  pub session : Option ℕ
  pub srv_allocated : Bool
  pub thread_started : Bool

unfoldable pub server_msg_destroy : ServerMsg → (ℕ → ℕ) → ℕ → ℕ
server_msg_destroy (reload_config cfg) refs = unref cfg refs
server_msg_destroy (session_end s) refs = refs
server_msg_destroy reload_debug refs = refs
server_msg_destroy stop_server refs = refs

unfoldable pub destroy_msgs : List ServerMsg → (ℕ → ℕ) → ℕ → ℕ
unfolding server_msg_destroy
destroy_msgs [] refs = refs
destroy_msgs (m ∷ ms) refs = destroy_msgs ms (server_msg_destroy m refs)

-- AST_LIST_REMOVE
abbrev pub unlink : ℕ → List ℕ → List ℕ
unlink s [] = []
unlink s (t ∷ ts) = if t == s then ts else t ∷ unlink s ts

-- One call for each session, in order, on the trace.
abbrev pub each : (ℕ → Out) → List ℕ → List Out → List Out
each f [] out = out
each f (s ∷ ss) out = each f ss (f s ∷ out)

abbrev pub taken : Option (Queue ServerMsg) → List ServerMsg
taken none = []
taken (some q) = q.containers

unfoldable pub join_each : List ℕ → List Out → List Out
join_each [] out = out
join_each (s ∷ ss) out = join_each ss (release_session s ∷ join_session s ∷ out)

module _ {F : Type 0} where
  -- `server_stop_sessions`, then `server_join_sessions`, which leaves no session.
  unfoldable pub server_stop_sessions : Server F → Server F
  server_stop_sessions w = record w { out = each stop_session w.srv_sessions w.out }

  unfoldable pub server_join_sessions : Server F → Server F
  unfolding join_each
  server_join_sessions w = record w { srv_sessions = []; out = join_each w.srv_sessions w.out }

  unfoldable pub server_reload_config : Server F → ℕ → Server F
  server_reload_config w cfg = record w {
    cfg = cfg;
    refs = ref cfg (unref w.cfg w.refs);
    out = each (λ s. reload_session s cfg) w.srv_sessions w.out;
  }

  unfoldable pub server_reload_debug : Server F → Server F
  server_reload_debug w = record w { out = each debug_session w.srv_sessions w.out }

  unfoldable pub server_on_session_end : Server F → ℕ → Server F
  server_on_session_end w s = record w {
    srv_sessions = unlink s w.srv_sessions;
    out = release_session s ∷ join_session s ∷ w.out;
  }

  unfoldable pub process_body : Server F → ServerMsg → Server F
  unfolding server_reload_config server_reload_debug server_on_session_end
  process_body w (reload_config cfg) = server_reload_config w cfg
  process_body w reload_debug = server_reload_debug w
  process_body w (session_end s) = server_on_session_end w s
  process_body w stop_server = record w { stop = true }

  unfoldable pub server_process_msg : Server F → ServerMsg → Server F
  unfolding process_body server_msg_destroy
  server_process_msg w msg =
      let w' = process_body w msg in record w' { refs = server_msg_destroy msg w'.refs }

  -- The loop of `server_on_queue_events`.
  unfoldable pub process_all : Server F → List ServerMsg → Server F
  unfolding server_process_msg
  process_all w [] = w
  process_all w (m ∷ ms) = process_all (server_process_msg w m) ms

  -- The session that accept(2) led to, if its thread could be started; what is refused is
  -- released, and a session that was not created has its socket closed.
  unfoldable pub start_session : Server F → ℕ → Bool → Bool → Server F
  start_session w s srv_allocated thread_started =
      let refused = record w { out = release_session s ∷ own_session s ∷ w.out } in
      if srv_allocated
      then (if thread_started
          then record w {
            srv_sessions = w.srv_sessions ++ s ∷ [];
            running = s ∷ w.running;
            out = own_session s ∷ w.out;
          }
          else refused)
      else refused

  abbrev pub after_events : Server F → Events → Server F
  after_events w events = if events.others then record w { stop = true } else w

  -- Only a session that was started goes on to the test for other events.
  unfoldable pub accept_session : Server F → Events → Option ℕ → Bool → Bool → Server F
  unfolding start_session
  accept_session w events none srv_allocated thread_started = w
  accept_session w events (some s) srv_allocated thread_started =
      let v = start_session w s srv_allocated thread_started in
      if srv_allocated && thread_started then after_events v events else v

  unfoldable pub server_on_sock_events : Server F → Events → Accept → Server F
  unfolding accept_session
  server_on_sock_events w events a =
      if events.pollin
      then (if a.accepted
          then accept_session w events a.session a.srv_allocated a.thread_started
          else record w { stop = true })
      else after_events w events

module _ (E : EventFd) where
  unfoldable pub queued :
      Server E.Fd → ServerMsg → Ret × SyncQueue E.Fd ServerMsg → Ret × Server E.Fd
  unfolding server_msg_destroy
  queued w msg (done, q) = (done, record w { sync_q = q })
  queued w msg (r, q) = (r, record w { sync_q = q; refs = server_msg_destroy msg w.refs })

  unfoldable pub server_queue_msg : Bool → Server E.Fd → ServerMsg → Ret × Server E.Fd
  unfolding queued
  server_queue_msg allocated w msg = queued w msg (sync_put E allocated w.sync_q msg)

  -- The end of a session's thread, `session_run`.
  unfoldable pub session_run : Bool → Server E.Fd → ℕ → Server E.Fd
  unfolding server_queue_msg
  session_run allocated w s =
      if ltb 0 (count (λ t. t == s) w.running)
      then (server_queue_msg allocated (record w { running = unlink s w.running })
          (session_end s)).1
      else w

  unfoldable pub server_on_queue_events : Server E.Fd → Events → Server E.Fd
  unfolding process_all
  server_on_queue_events w events =
      let (_, q, sync_q) = sync_get_all E (some empty_local_queue) w.sync_q in
      let w1 = if events.pollin then process_all (record w { sync_q = sync_q }) (taken q) else w in
      if events.others then record w1 { stop = true } else w1

  -- `end:` of `server_run`
  unfoldable pub end_run : Server E.Fd → Server E.Fd
  unfolding destroy_msgs
  end_run w =
      let (_, q, sync_q) = sync_get_all E (some empty_local_queue) (close w.sync_q) in
      record w { sock_open = false; sync_q = sync_q; refs = destroy_msgs (taken q) w.refs }

  unfoldable pub on_queue : Server E.Fd → Option Events → Server E.Fd
  on_queue w none = w
  on_queue w (some events) = server_on_queue_events w events

  unfoldable pub on_sock : Server E.Fd → Option Events → Accept → Server E.Fd
  on_sock w none a = w
  on_sock w (some events) a = server_on_sock_events w events a

  -- One round of the loop of `server_run`, with the events that poll(2) reports. The result is
  -- true when the loop goes to `end`.
  unfoldable pub round : Server E.Fd → Option Events → Option Events → Accept → Bool × Server E.Fd
  unfolding on_queue on_sock
  round w queue_events sock_events a =
      let w1 = on_queue w queue_events in
      let w2 = on_sock w1 sock_events a in if w1.stop then (true, w1) else (w2.stop, w2)

  -- The configuration and the registry are not null.
  unfoldable pub sccp_server_create : Bool → Bool → Option E.Fd → ℕ → (ℕ → ℕ) → Option (Server E.Fd)
  sccp_server_create allocated queue_allocated fd cfg refs =
      if allocated
      then elim (create queue_allocated fd 16) [
        | none ↦ none
        | some q ↦ some (record {
          state = created;
          stop = false;
          cfg = cfg;
          sync_q = q;
          srv_sessions = [];
          running = [];
          sock_open = false;
          refs = ref cfg refs;
          out = [];
        })
      ]
      else none

  -- socket(2) and bind(2) succeed, and the thread starts; it first resets `stop`.
  unfoldable pub sccp_server_start : Bool → Bool → Server E.Fd → Ret × Server E.Fd
  sccp_server_start bound thread_started w =
      by_state w.state
        (if bound && thread_started
          then (done, record w { state = started; stop = false; sock_open = true })
          else (failed, w))
        (failed, w)

  -- The results of the two: 0, or -1 for any failure.
  abbrev pub or_failed : Ret × Server E.Fd → Ret × Server E.Fd
  or_failed (done, w) = (done, w)
  or_failed (_, w) = (failed, w)

  unfoldable pub sccp_server_reload_config : Bool → Server E.Fd → Option ℕ → Ret × Server E.Fd
  unfolding server_queue_msg
  sccp_server_reload_config allocated w none = (failed, w)
  sccp_server_reload_config allocated w (some cfg) =
      by_state w.state (failed, w)
        (or_failed
          (server_queue_msg allocated (record w { refs = ref cfg w.refs }) (reload_config cfg)))

  unfoldable pub sccp_server_reload_debug : Bool → Server E.Fd → Ret × Server E.Fd
  unfolding server_queue_msg
  sccp_server_reload_debug allocated w =
      by_state w.state (failed, w) (or_failed (server_queue_msg allocated w reload_debug))

  -- `sccp_server_destroy` asks the server's thread to stop, and joins it.
  unfoldable pub ask_to_stop : Bool → Server E.Fd → Server E.Fd
  unfolding server_queue_msg
  ask_to_stop allocated w = by_state w.state w ((server_queue_msg allocated w stop_server).1)

  -- `sccp_server_destroy` from the join of the server's thread on.
  unfoldable pub destroy_rest : Server E.Fd → Server E.Fd
  unfolding server_stop_sessions server_join_sessions
  destroy_rest w =
      let w' = by_state w.state w (server_join_sessions (server_stop_sessions w)) in
      record w' { refs = unref w'.cfg w'.refs }

-- What happens to a server: a round of its thread, the end of a session's thread, the start, and
-- the calls of other threads, each with what the allocator answers.
pub data Act : Type 0 where
  rounds : Option Events → Option Events → Accept → Act
  session_ends : Bool → ℕ → Act
  starts : Bool → Bool → Act
  reloads : Bool → Option ℕ → Act
  reloads_debug asks_to_stop : Bool → Act

module _ (E : EventFd) where
  unfoldable pub act : Server E.Fd → Act → Server E.Fd
  unfolding round session_run sccp_server_start sccp_server_reload_config sccp_server_reload_debug
      ask_to_stop
  act w (rounds q s a) = (round E w q s a).1
  act w (session_ends allocated s) = session_run E allocated w s
  act w (starts bound thread_started) = (sccp_server_start E bound thread_started w).1
  act w (reloads allocated cfg) = (sccp_server_reload_config E allocated w cfg).1
  act w (reloads_debug allocated) = (sccp_server_reload_debug E allocated w).1
  act w (asks_to_stop allocated) = ask_to_stop E allocated w

  unfoldable pub acts : Server E.Fd → List Act → Server E.Fd
  unfolding act
  acts w [] = w
  acts w (a ∷ rest) = acts (act w a) rest

pub state_both {ℓ ℓ'} :
    {A : Type ℓ} (P : A → Type ℓ') (s : ServerState) (x y : A) → P x → P y → P (by_state s x y)
state_both P created x y p q = p
state_both P started x y p q = q
