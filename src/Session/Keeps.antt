-- ===== src/Session/Keeps.antt =====
-- sccp_session.c: what a device's calls into its session leave as it was.
use wazo_libsccp.Common.{
  ℕ, ◌≡◌, ◌==◌, refl, ◌∙◌, Bool, true, false, List, [], ◌∷◌, count, count-append, arith,
}
use wazo_libsccp.Queue.Sync.{sync_put}
use wazo_libsccp.Messages.{sccp_msg_register_rej}
use wazo_libsccp.Session.{
  Call, transmit, add_task, remove_task, stop_session, Env, World, SessionMsg, noop, reload_debug,
  reload_config, session_msg_destroy, queued, sccp_session_queue_msg, sccp_session_stop,
  session_add_task, sccp_session_add_device_task, sccp_session_remove_device_task,
  sccp_session_transmit_msg, session_call, session_calls,
}
use wazo_libsccp.Session.Handle.{
  sccp_session_update_debug, after_device, after_result, sccp_session_transmit_register_rej,
}
use wazo_libsccp.Deserializer.{Deserializer}
use wazo_libsccp.Task.{Runner}

-- The message owns a reference to that configuration.
abbrev pub owns : ℕ → SessionMsg → Bool
owns c (reload_config d) = d == c
owns c noop = false
owns c reload_debug = false

module _ {V : Env} where
  -- The references that the messages of the queue own.
  abbrev pub queue_refs : World V → ℕ → ℕ
  queue_refs w c = count (owns c) w.sync_q.q.containers

  -- From `w` to `w'`, a stop is not taken back, and neither the references nor who owns them, nor
  -- the device and the registry change.
  pub record Keeps (w w' : World V) : Type 0 where
    pub cfg : w'.cfg ≡ w.cfg
    pub device : w'.device ≡ w.device
    pub registry : w'.registry ≡ w.registry
    pub released : w'.released ≡ w.released
    pub refs : (c : ℕ) → w'.refs c ≡ w.refs c
    pub queue : (c : ℕ) → queue_refs w' c ≡ queue_refs w c
    pub is_closed : w'.sync_q.is_closed ≡ w.sync_q.is_closed
    pub stop : w.stop ≡ true → w'.stop ≡ true

  pub Keeps-trans : (w w' w'' : World V) → Keeps w w' → Keeps w' w'' → Keeps w w''
  Keeps-trans w w' w'' k l = record {
    cfg = l.cfg ∙ k.cfg;
    device = l.device ∙ k.device;
    registry = l.registry ∙ k.registry;
    released = l.released ∙ k.released;
    refs = λ c. l.refs c ∙ k.refs c;
    queue = λ c. l.queue c ∙ k.queue c;
    is_closed = l.is_closed ∙ k.is_closed;
    stop = λ e. l.stop (k.stop e);
  }

  -- The fields that `Keeps` does not speak of change.
  pub others-Keeps :
      (w : World V) (de : Deserializer) (debug : Bool) (runner : Runner V.heap.H) (a : V.api.S)
      (s : V.system.S)
      → Keeps w (record w {
        deserializer = de;
        debug = debug;
        task_runner = runner;
        all_devices = a;
        system = s;
      })
  others-Keeps w de debug runner a s = record {
    cfg = refl;
    device = refl;
    registry = refl;
    released = refl;
    refs = λ c. refl;
    queue = λ c. refl;
    is_closed = refl;
    stop = λ e. e;
  }

  pub Keeps-refl : (w : World V) → Keeps w w
  Keeps-refl w = others-Keeps w w.deserializer w.debug w.task_runner w.all_devices w.system

  pub stopped-Keeps : (w : World V) → Keeps w (record w { stop = true })
  stopped-Keeps w = record {
    cfg = refl;
    device = refl;
    registry = refl;
    released = refl;
    refs = λ c. refl;
    queue = λ c. refl;
    is_closed = refl;
    stop = λ e. refl;
  }

  put_noop-Keeps :
      (w : World V) (allocated : Bool)
      → Keeps w (queued w noop (sync_put V.eventfd allocated w.sync_q noop)).1
  unfolding queued session_msg_destroy sync_put
  put_noop-Keeps w allocated = record {
    cfg = ground arith;
    device = ground arith;
    registry = ground arith;
    released = ground arith;
    refs = λ c. ground arith;
    queue = λ c. ground (arith, count-append (owns c) w.sync_q.q.containers (noop ∷ []));
    is_closed = ground arith;
    stop = λ e. ground arith;
  }

  transmit-Keeps : (w : World V) (msg : List ℕ) → Keeps w (sccp_session_transmit_msg w msg).1
  unfolding sccp_session_transmit_msg
  transmit-Keeps w msg = record {
    cfg = ground arith;
    device = ground arith;
    registry = ground arith;
    released = ground arith;
    refs = λ c. ground arith;
    queue = λ c. ground arith;
    is_closed = ground arith;
    stop = λ e. ground arith;
  }

  stop-Keeps : (w : World V) → Keeps w (sccp_session_stop w).1
  unfolding sccp_session_stop sccp_session_queue_msg
  stop-Keeps w =
      let w1 : World V = record w { stop = true; system = (V.system.allocated w.system).1 } in
      let k = put_noop-Keeps w1 (V.system.allocated w.system).0 in
      record {
        cfg = k.cfg;
        device = k.device;
        registry = k.registry;
        released = k.released;
        refs = k.refs;
        queue = k.queue;
        is_closed = k.is_closed;
        stop = λ e. k.stop refl;
      }

  call-Keeps : (w : World V) (c : Call) → Keeps w (session_call w c)
  unfolding session_call sccp_session_add_device_task sccp_session_remove_device_task
      session_add_task
  call-Keeps w (transmit msg) = transmit-Keeps w msg
  call-Keeps w (add_task callback arg sec) =
      let w' = (sccp_session_add_device_task w callback arg sec).1 in
      others-Keeps w w.deserializer w.debug w'.task_runner w.all_devices w'.system
  call-Keeps w (remove_task callback arg) =
      let w' = sccp_session_remove_device_task w callback arg in
      others-Keeps w w.deserializer w.debug w'.task_runner w.all_devices w.system
  call-Keeps w stop_session = stop-Keeps w

  pub calls-Keeps : (w : World V) (cs : List Call) → Keeps w (session_calls w cs)
  unfolding session_calls
  calls-Keeps w [] = Keeps-refl w
  calls-Keeps w (c ∷ cs) =
      Keeps-trans w (session_call w c) (session_calls (session_call w c) cs) (call-Keeps w c)
        (calls-Keeps (session_call w c) cs)

  pub after_device-Keeps : (w : World V) (r : List Call × V.api.S) → Keeps w (after_device w r)
  after_device-Keeps w r =
      let w1 : World V = record w { all_devices = r.1 } in
      Keeps-trans w w1 (session_calls w1 r.0)
        (others-Keeps w w.deserializer w.debug w.task_runner r.1 w.system) (calls-Keeps w1 r.0)

  pub after_result-Keeps :
      (w : World V) (r : Bool × List Call × V.api.S) → Keeps w (after_result w r)
  after_result-Keeps w (true, calls, s) =
      let w' = after_device w (calls, s) in
      Keeps-trans w w' (record w' { stop = true }) (after_device-Keeps w (calls, s))
        (stopped-Keeps w')
  after_result-Keeps w (false, calls, s) = after_device-Keeps w (calls, s)

  pub update_debug-Keeps : (w : World V) → Keeps w (sccp_session_update_debug w)
  unfolding sccp_session_update_debug
  update_debug-Keeps w =
      let w' = sccp_session_update_debug w in
      others-Keeps w w.deserializer w'.debug w.task_runner w.all_devices w.system

  pub register_rej-Keeps : (w : World V) → Keeps w (sccp_session_transmit_register_rej w)
  unfolding sccp_session_transmit_register_rej
  register_rej-Keeps w = transmit-Keeps w sccp_msg_register_rej
