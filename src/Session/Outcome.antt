-- ===== src/Session/Outcome.antt =====
-- sccp_session.c, sccp_session_handle_msg_register: the outcomes of a registration.
use wazo_libsccp.Common.{
  ℕ, ◌<◌, ◌^◌, ◌≡◌, ◌≢◌, ◌⊎◌, inl, inr, refl, ◌∙◌, sym, ap, subst, true, List, [], ◌∷◌, Option,
  none, some, Option-cases, arith,
}
use wazo_libsccp.Registry.{Registry, AddRet, added, not_added, already, maxguests}
use wazo_libsccp.Registry.Contents.{IsSame}
use wazo_libsccp.Registry.Restores.{registry_add-outcome, IsSame-refl}
use wazo_libsccp.Queue.{Ret, done}
use wazo_libsccp.Queue.Sync.{SyncQueue, sync_put}
use wazo_libsccp.Session.{
  Env, World, remove_auth_timeout_task, Call, transmit, add_task, remove_task, stop_session,
  SessionMsg, noop, queued, session_msg_destroy, session_call, session_calls, session_add_task,
  sccp_session_transmit_msg, sccp_session_add_device_task, sccp_session_remove_device_task,
  sccp_session_stop, sccp_session_queue_msg,
}
use wazo_libsccp.Session.Handle.{
  end_name, info_of, after_device, discard, registered, after_add, register_device,
  sccp_session_update_debug, sccp_session_handle_msg_register, sccp_session_transmit_register_rej,
}
use wazo_libsccp.Session.Keeps.{
  Keeps-trans, others-Keeps, after_device-Keeps, update_debug-Keeps, register_rej-Keeps,
}
use wazo_libsccp.Session.Moves.{add_of}

module _ {V : Env} where
  queued-devices :
      (w : World V) (r : Ret) (q : SyncQueue V.eventfd.Fd SessionMsg)
      → (queued w noop (r, q)).1.all_devices ≡ w.all_devices
  unfolding queued session_msg_destroy
  queued-devices w done q = refl
  queued-devices w _ q = refl

  call-devices : (w : World V) (c : Call) → (session_call w c).all_devices ≡ w.all_devices
  unfolding session_call sccp_session_transmit_msg sccp_session_add_device_task session_add_task
      sccp_session_remove_device_task sccp_session_stop sccp_session_queue_msg
  call-devices w (transmit msg) = ground arith
  call-devices w (add_task callback arg sec) = refl
  call-devices w (remove_task callback arg) = refl
  call-devices w stop_session =
      let p = sync_put V.eventfd (V.system.allocated w.system).0 w.sync_q noop in
      queued-devices (record w { stop = true; system = (V.system.allocated w.system).1 }) p.0 p.1

  calls-devices : (w : World V) (cs : List Call) → (session_calls w cs).all_devices ≡ w.all_devices
  unfolding session_calls
  calls-devices w [] = refl
  calls-devices w (c ∷ cs) = calls-devices (session_call w c) cs ∙ call-devices w c

  after_device-devices :
      (w : World V) (r : List Call × V.api.S) → (after_device w r).all_devices ≡ r.1
  after_device-devices w r = calls-devices (record w { all_devices = r.1 }) r.0

  -- The device that the code of devices creates for a registration, if the configuration has one of
  -- that name and it can be created.
  abbrev pub created_for : World V → List ℕ → Option ℕ
  created_for w msg = elim (V.find_device_or_guest w.cfg (info_of msg).name) [
    | none ↦ none
    | some device_cfg ↦ (V.api.create w.all_devices device_cfg (info_of msg)).0
  ]

  -- The registry took the device that was created, and it is the session's.
  pub record Accepted (made : Option ℕ) (w w' : World V) : Type 0 where
    pub d : ℕ
    pub created : made ≡ some d
    pub taken_in : (add_of w d).0 ≡ added
    pub device : w'.device ≡ some d
    pub registry : w'.registry ≡ (add_of w d).1
    pub released : w'.released ≡ w.released

  -- The session has no device, the registry has what it had, and a device that was created has
  -- been destroyed and given up, once, and no other.
  pub record Refused (made : Option ℕ) (w w' : World V) : Type 0 where
    pub device : w'.device ≡ none
    pub registry : IsSame V.objects V.devices V.lines w.registry w'.registry
    pub released :
        ((made ≡ none) × (w'.released ≡ w.released))
        ⊎ ((d : ℕ) × (made ≡ some d)
            × (w'.released ≡ d ∷ w.released)
            × ((s : V.api.S) × (w'.all_devices ≡ (V.api.destroy s d).1)))

  abbrev SameContents : (w : World V) (r : Registry V.devices.C V.lines.C) → Type 0
  SameContents w r = IsSame V.objects V.devices V.lines w.registry r

  rejected-Refused :
      (w w0 : World V)
      → w.device ≡ none
      → SameContents w0 w.registry
      → w.released ≡ w0.released
      → Refused none w0 (sccp_session_transmit_register_rej w)
  rejected-Refused w w0 e s r =
      let k = register_rej-Keeps w in
      record {
        device = k.device ∙ e;
        registry = subst (SameContents w0) (sym k.registry) s;
        released = inl (refl, k.released ∙ r);
      }

  discarded-Refused :
      (w w0 : World V) (d : ℕ)
      → w.device ≡ none
      → SameContents w0 w.registry
      → w.released ≡ w0.released
      → Refused (some d) w0 (discard (sccp_session_transmit_register_rej w) d)
  unfolding discard
  discarded-Refused w w0 d e s r =
      let u = sccp_session_transmit_register_rej w in
      let k = register_rej-Keeps w in
      let l = after_device-Keeps u (V.api.destroy u.all_devices d) in
      record {
        device = l.device ∙ (k.device ∙ e);
        registry = subst (SameContents w0) (sym (l.registry ∙ k.registry)) s;
        released = inr (
          d,
          refl,
          ap (λ ds. d ∷ ds) (l.released ∙ (k.released ∙ r)),
          (u.all_devices, after_device-devices u (V.api.destroy u.all_devices d)),
        );
      }

  registered-Accepted :
      (w w0 : World V) (d : ℕ)
      → (add_of w0 d).0 ≡ added
      → w.registry ≡ (add_of w0 d).1
      → w.released ≡ w0.released
      → Accepted (some d) w0 (registered w d)
  unfolding registered remove_auth_timeout_task
  registered-Accepted w w0 d ok reg rel =
      let w1 : World V = record w { device = some d } in
      let w2 = remove_auth_timeout_task w1 in
      let w3 = sccp_session_update_debug w2 in
      let r = V.api.on_registration_success w3.all_devices d in
      let k =
        Keeps-trans w1 w3 (after_device w3 r)
          (Keeps-trans w1 w2 w3
            (others-Keeps w1 w1.deserializer w1.debug w2.task_runner w1.all_devices w1.system)
            (update_debug-Keeps w2))
          (after_device-Keeps w3 r) in
      record {
        d = d;
        created = refl;
        taken_in = ok;
        device = k.device;
        registry = k.registry ∙ reg;
        released = k.released ∙ rel;
      }

  after_add-outcome :
      (r : AddRet) (w w0 : World V) (d : ℕ)
      → (add_of w0 d).0 ≡ r
      → w.registry ≡ (add_of w0 d).1
      → w.released ≡ w0.released
      → w.device ≡ none
      → (r ≢ added → SameContents w0 w.registry)
      → Accepted (some d) w0 (after_add r w d) ⊎ Refused (some d) w0 (after_add r w d)
  unfolding after_add
  after_add-outcome added w w0 d ok reg rel n s = inl (registered-Accepted w w0 d ok reg rel)
  after_add-outcome not_added w w0 d ok reg rel n s =
      inr (discarded-Refused w w0 d n (s (λ x. grind (arith, x))) rel)
  after_add-outcome already w w0 d ok reg rel n s =
      inr (discarded-Refused w w0 d n (s (λ x. grind (arith, x))) rel)
  after_add-outcome maxguests w w0 d ok reg rel n s =
      inr (discarded-Refused w w0 d n (s (λ x. grind (arith, x))) rel)

  refused-same :
      (w : World V) (d : ℕ)
      → w.registry.max_guests < 2 ^ 32
      → w.registry.cur_guests < 2 ^ 32
      → (add_of w d).0 ≢ added
      → SameContents w (add_of w d).1
  refused-same w d m c no_ =
      elim (registry_add-outcome V.objects V.devices V.lines w.registry d m c) [
        | inl (ok, free, g) ↦ absurd (no_ ok)
        | inr (no', s) ↦ s
      ]

  -- A registration message that a session without a device handles, whatever the configuration,
  -- the allocations and the registry say: either the registry takes the device that was created,
  -- which becomes the session's; or the session has no device, the registry holds what it held, and
  -- the device that was created, if there is one, is destroyed and its reference given up, once.
  pub register-outcome :
      (w : World V) (msg : List ℕ)
      → w.device ≡ none
      → w.registry.max_guests < 2 ^ 32
      → w.registry.cur_guests < 2 ^ 32
      → Accepted (created_for w msg) w (sccp_session_handle_msg_register w msg)
        ⊎ Refused (created_for w msg) w (sccp_session_handle_msg_register w msg)
  unfolding sccp_session_handle_msg_register register_device
  register-outcome w0 msg n m c =
      let w : World V = record w0 {
        deserializer = record w0.deserializer { msg = end_name msg };
      } in
      let unchanged = IsSame-refl V.objects V.devices V.lines w0.registry in
      elim (Option-cases (V.find_device_or_guest w.cfg (info_of msg).name)) [
        | inl f ↦
            rw (sccp_session_handle_msg_register, created_for, f)
              (inr (rejected-Refused w w0 n unchanged refl))
        | inr (device_cfg, f) ↦
            let made = V.api.create w.all_devices device_cfg (info_of msg) in
            let w' : World V = record w { all_devices = made.1 } in
            elim (Option-cases made.0) [
              | inl x ↦
                  rw (sccp_session_handle_msg_register, created_for, f, x)
                    (inr (rejected-Refused w' w0 n unchanged refl))
              | inr (d, x) ↦
                  rw (sccp_session_handle_msg_register, created_for, f, x)
                    (after_add-outcome (add_of w0 d).0 (record w' { registry = (add_of w0 d).1 }) w0
                      d refl refl refl n (refused-same w0 d m c))
            ]
      ]
