-- ===== src/Session/Handle.antt =====
-- sccp_session.c: what the session's thread does with its queue, its socket and its tasks; the
-- loop of sccp_session_run, on the answers of poll(2), and its end; creation and destruction.
use wazo_libsccp.Common.{
  ℕ, ◌==◌, Bool, true, false, List, [], ◌∷◌, ◌++◌, Option, none, some, if◌then◌else◌, take, drop,
}
use mathlib.Core.Option.{map}
use wazo_libsccp.Queue.{Queue}
use wazo_libsccp.Queue.Sync.{sync_get_all}
use wazo_libsccp.Deserializer.{load32, read, ReadRet, read_done, read_eof, read_full, read_failed}
use wazo_libsccp.Registry.{AddRet, added, registry_add}
use wazo_libsccp.Messages.{sccp_msg_register_rej}
use wazo_libsccp.Session.{
  Call, Info, Env, World, SessionMsg, noop, reload_debug, reload_config, ref, unref,
  session_msg_destroy, session_calls, remove_auth_timeout_task, sccp_session_transmit_msg,
}

-- The bytes of a C string before its end.
abbrev pub cstring : List ℕ → List ℕ
cstring [] = []
cstring (b ∷ bs) = if b == 0 then [] else b ∷ cstring bs

-- `name[sizeof(name)] = '\0'`: the byte after the name's sixteen.
abbrev pub end_name : List ℕ → List ℕ
end_name m = take 28 m ++ (0 ∷ drop 29 m)

abbrev pub byte_at : ℕ → List ℕ → ℕ
byte_at n m = elim (drop n m) [ [] ↦ 0 | b ∷ bs ↦ b ]

-- The fields of `struct register_message` that are read, on a little-endian host.
abbrev pub info_of : List ℕ → Info
info_of m = record {
  name = cstring (drop 12 (end_name m));
  type_code = load32 (drop 40 (end_name m));
  proto_version = byte_at 52 (end_name m);
}

abbrev pub empty_local_queue : {A : Type 0} → Queue A
empty_local_queue = record { containers = []; item_size = 0 }

-- The bits of `revents`: POLLIN, and any other.
pub record Events : Type 0 where
  pub pollin : Bool
  pub others : Bool

-- What poll(2) answers; a file descriptor without events has none.
pub data Poll : Type 0 where
  poll_failed timed_out : Poll
  ready : (queue_events : Option Events) → (sock_events : Option Events) → Poll

-- `sccp_sync_queue_get_all` into a queue of the caller's own.
abbrev pub taken : Option (Queue SessionMsg) → List SessionMsg
taken none = []
taken (some q) = q.containers

module _ {V : Env} where
  unfoldable pub sccp_session_update_debug : World V → World V
  sccp_session_update_debug w = record w {
    debug = V.debug_enabled (map V.objects.device_name w.device);
  }

  -- What an entry point of the device left, and the calls that it made.
  abbrev pub after_device : World V → List Call × V.api.S → World V
  after_device w r = session_calls (record w { all_devices = r.1 }) r.0

  -- The same, for one with a result: other than 0 stops the session.
  abbrev pub after_result : World V → Bool × List Call × V.api.S → World V
  after_result w r =
      let w' = after_device w (r.1, r.2) in if r.0 then record w' { stop = true } else w'

  -- The end of `process_reload_config`, for the session's device.
  unfoldable pub reload_device : World V → ℕ → Option ℕ → World V
  reload_device w cfg none = w
  reload_device w cfg (some d) = elim (V.find_device_or_guest cfg (V.objects.device_name d)) [
    | none ↦ record w { stop = true }
    | some device_cfg ↦ after_result w (V.api.reload_config w.all_devices d device_cfg)
  ]

  -- `sccp_socket_set_tos` changes nothing here.
  unfoldable pub process_reload_config : World V → ℕ → World V
  unfolding reload_device
  process_reload_config w cfg =
      reload_device (record w { cfg = cfg; refs = ref cfg (unref w.cfg w.refs) }) cfg w.device

  unfoldable pub process_body : World V → SessionMsg → World V
  unfolding process_reload_config sccp_session_update_debug
  process_body w noop = w
  process_body w (reload_config cfg) = process_reload_config w cfg
  process_body w reload_debug = sccp_session_update_debug w

  unfoldable pub sccp_session_process_msg : World V → SessionMsg → World V
  unfolding process_body session_msg_destroy
  sccp_session_process_msg w msg =
      let w' = process_body w msg in record w' { refs = session_msg_destroy msg w'.refs }

  -- The loop of `sccp_session_on_queue_events`.
  unfoldable pub process_all : World V → List SessionMsg → World V
  unfolding sccp_session_process_msg
  process_all w [] = w
  process_all w (m ∷ ms) = process_all (sccp_session_process_msg w m) ms

  unfoldable pub sccp_session_on_queue_events : World V → Events → World V
  unfolding process_all
  sccp_session_on_queue_events w events =
      let (_, q, sync_q) = sync_get_all V.eventfd (some empty_local_queue) w.sync_q in
      let w1 = if events.pollin then process_all (record w { sync_q = sync_q }) (taken q) else w in
      if events.others then record w1 { stop = true } else w1

  -- The device hears of it, if there is one.
  unfoldable pub notify : (V.api.S → ℕ → List Call × V.api.S) → World V → Option ℕ → World V
  notify entry w none = w
  notify entry w (some d) = after_device w (entry w.all_devices d)

  unfoldable pub after_read : ReadRet → World V → Bool × World V
  unfolding notify
  after_read read_done w = (true, notify V.api.on_data_read w w.device)
  after_read read_eof w = (false, notify V.api.on_connection_lost w w.device)
  after_read read_full w = (false, w)
  after_read read_failed w = (false, w)

  -- True for 0; what read(2) gave is an argument.
  unfoldable pub sccp_session_read_sock : World V → Option (List ℕ) → Bool × World V
  unfolding after_read
  sccp_session_read_sock w got =
      let (r, de) = read w.deserializer got in after_read r (record w { deserializer = de })

  unfoldable pub sccp_session_transmit_register_rej : World V → World V
  sccp_session_transmit_register_rej w = (sccp_session_transmit_msg w sccp_msg_register_rej).1

  -- `sccp_device_destroy`, and the reference to the device is given up.
  unfoldable pub discard : World V → ℕ → World V
  discard w d =
      let w' = after_device w (V.api.destroy w.all_devices d) in
      record w' { released = d ∷ w'.released }

  -- The registry took the device.
  unfoldable pub registered : World V → ℕ → World V
  unfolding remove_auth_timeout_task sccp_session_update_debug
  registered w d =
      let w' =
        sccp_session_update_debug (remove_auth_timeout_task (record w { device = some d })) in
      after_device w' (V.api.on_registration_success w'.all_devices d)

  -- By the registry's answer.
  unfoldable pub after_add : AddRet → World V → ℕ → World V
  unfolding registered discard sccp_session_transmit_register_rej
  after_add added w d = registered w d
  after_add _ w d = discard (sccp_session_transmit_register_rej w) d

  -- With the device that was created.
  unfoldable pub register_device : World V → ℕ → World V
  unfolding after_add
  register_device w d =
      let (r, reg) = registry_add V.objects V.devices V.lines w.registry (some d) in
      after_add r (record w { registry = reg }) d

  -- The session has no device.
  unfoldable pub sccp_session_handle_msg_register : World V → List ℕ → World V
  unfolding register_device sccp_session_transmit_register_rej
  sccp_session_handle_msg_register w0 msg =
      let w = record w0 { deserializer = record w0.deserializer { msg = end_name msg } } in
      let info = info_of msg in
      elim (V.find_device_or_guest w.cfg info.name) [
        | none ↦ sccp_session_transmit_register_rej w
        | some device_cfg ↦
            let (created, s) = V.api.create w.all_devices device_cfg info in
            let w' = record w { all_devices = s } in
            elim created [
              | none ↦ sccp_session_transmit_register_rej w'
              | some d ↦ register_device w' d
            ]
      ]
