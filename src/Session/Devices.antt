-- ===== src/Session/Devices.antt =====
-- sccp_session.c with sccp_device_registry.c: the device of a session is in the registry.
use wazo_libsccp.Common.{
  ℕ, ◌≤◌, ◌≡◌, ◌≢◌, inl, inr, refl, ◌∙◌, sym, subst, true, List, [], ◌∷◌, Option, none, some,
  if◌then◌else◌, count, arith, if_both,
}
use wazo_libsccp.Queue.{Ret, done}
use wazo_libsccp.Queue.Sync.{SyncQueue, sync_put, sync_get_all}
use wazo_libsccp.Registry.{Registry, named, added, registry_remove}
use wazo_libsccp.Registry.Contents.{Gains-has, is}
use wazo_libsccp.Registry.Restores.{registry_add-outcome}
use wazo_libsccp.Registry.Names.{IsValid, registry_add-IsValid, IsSame-count}
use wazo_libsccp.Registry.Found.{registry_remove-IsValid, registry_remove-forgets}
use wazo_libsccp.Session.{
  queued, sccp_session_queue_msg, sccp_session_stop, sccp_session_reload_config,
  sccp_session_reload_debug, Env, World, SessionMsg, noop, reload_debug, reload_config, ref, unref,
}
use wazo_libsccp.Session.Life.{
  Act, rounds, stops, reloads, reloads_debug, act, acts, acts-Stable, round-Stable, world_of-Stable,
}
use wazo_libsccp.Session.Handle.{
  Events, taken, empty_local_queue, process_all, process_body, process_reload_config,
  sccp_session_process_msg, sccp_session_on_queue_events, discard,
}
use wazo_libsccp.Session.Loop.{
  round, give_up, on_queue, end_run, sccp_session_empty_queue, sccp_session_close_queue,
}
use wazo_libsccp.Session.Keeps.{update_debug-Keeps, after_device-Keeps}
use wazo_libsccp.Session.Refs.{reload_device-Keeps}
use wazo_libsccp.Session.Moves.{IsStable, Returned, add_of}

abbrev pub ValidRegistry : (V : Env) → Registry V.devices.C V.lines.C → Type 0
ValidRegistry V = IsValid V.objects V.devices V.lines

-- The device is one of the registry's.
abbrev pub IsIn : (V : Env) → ℕ → Registry V.devices.C V.lines.C → Type 0
IsIn V d r = 1 ≤ count (is d) (V.devices.elements r.devices)

module _ {V : Env} where
  -- The registry is well formed, and it has the session's device, if there is one.
  pub record IsRegistered (w : World V) : Type 0 where
    pub registry_valid : ValidRegistry V w.registry
    pub device_in : (d : ℕ) → w.device ≡ some d → IsIn V d w.registry

  -- Only the device and the registry matter.
  same-IsRegistered :
      (w w' : World V)
      → w'.registry ≡ w.registry
      → w'.device ≡ w.device
      → IsRegistered w
      → IsRegistered w'
  same-IsRegistered w w' r d i = record {
    registry_valid = subst (ValidRegistry V) (sym r) i.registry_valid;
    device_in = λ e f. subst (IsIn V e) (sym r) (i.device_in e (sym d ∙ f));
  }

  gains-IsRegistered :
      (w : World V) (d : ℕ)
      → (add_of w d).0 ≡ added
      → IsRegistered w
      → IsRegistered (record w { registry = (add_of w d).1; device = some d })
  gains-IsRegistered w d ok i = record {
    registry_valid =
        registry_add-IsValid V.objects V.devices V.lines w.registry (some d) i.registry_valid;
    device_in = λ e f.
        elim (registry_add-outcome V.objects V.devices V.lines w.registry d
          i.registry_valid.max_fits i.registry_valid.cur_fits) [
            | inl (ok', free, g) ↦
                let here = Gains-has V.objects V.devices V.lines w.registry (add_of w d).1 d g in
                let same : d ≡ e = grind (arith, f) in
                subst (λ x. IsIn V x (add_of w d).1) same here
            | inr (no_, s) ↦ absurd (no_ ok)
          ];
  }

  refuses-IsRegistered :
      (w : World V) (d : ℕ)
      → (add_of w d).0 ≢ added
      → IsRegistered w
      → IsRegistered (record w { registry = (add_of w d).1 })
  refuses-IsRegistered w d no_ i = record {
    registry_valid =
        registry_add-IsValid V.objects V.devices V.lines w.registry (some d) i.registry_valid;
    device_in = λ e f.
        elim (registry_add-outcome V.objects V.devices V.lines w.registry d
          i.registry_valid.max_fits i.registry_valid.cur_fits) [
            | inl (ok, free, g) ↦ absurd (no_ ok)
            | inr (no', s) ↦ omega (
              arith,
              i.device_in e f,
              IsSame-count V.objects V.devices V.lines w.registry (add_of w d).1 (is e) s,
            )
          ];
  }

  IsRegistered-IsStable : IsStable {V = V} IsRegistered
  IsRegistered-IsStable = record {
    keeps = λ w w' k i. same-IsRegistered w w' k.registry k.device i;
    gains = λ w d e ok i. gains-IsRegistered w d ok i;
    refuses = refuses-IsRegistered;
    releases = λ w d e i. same-IsRegistered w (record w { released = d ∷ w.released }) refl refl i;
  }

  process_msg-same :
      (w : World V) (m : SessionMsg)
      → ((sccp_session_process_msg w m).registry ≡ w.registry)
        × ((sccp_session_process_msg w m).device ≡ w.device)
  unfolding sccp_session_process_msg process_body process_reload_config
  process_msg-same w noop = (refl, refl)
  process_msg-same w reload_debug = let k = update_debug-Keeps w in (k.registry, k.device)
  process_msg-same w (reload_config cfg) =
      let w' : World V = record w { cfg = cfg; refs = ref cfg (unref w.cfg w.refs) } in
      let k = reload_device-Keeps w' cfg w.device in (k.registry, k.device)

  process_all-IsRegistered :
      (w : World V) (ms : List SessionMsg) → IsRegistered w → IsRegistered (process_all w ms)
  unfolding process_all
  process_all-IsRegistered w [] i = i
  process_all-IsRegistered w (m ∷ ms) i =
      let (r, d) = process_msg-same w m in
      process_all-IsRegistered (sccp_session_process_msg w m) ms
        (same-IsRegistered w (sccp_session_process_msg w m) r d i)

  on_queue-IsRegistered :
      (w : World V) (events : Option Events) → IsRegistered w → IsRegistered (on_queue w events)
  unfolding on_queue sccp_session_on_queue_events
  on_queue-IsRegistered w none i = i
  on_queue-IsRegistered w (some events) i =
      let r = sync_get_all V.eventfd (some empty_local_queue) w.sync_q in
      let w0 : World V = record w { sync_q = r.2 } in
      let processed = process_all w0 (taken r.1) in
      let w1 = if events.pollin then processed else w in
      let i1 =
        if_both IsRegistered events.pollin processed w
          (process_all-IsRegistered w0 (taken r.1) (same-IsRegistered w w0 refl refl i)) i in
      if_both IsRegistered events.others (record w1 { stop = true }) w1
        (same-IsRegistered w1 (record w1 { stop = true }) refl refl i1) i1

  queued-same :
      (w : World V) (m : SessionMsg) (r : Ret) (q : SyncQueue V.eventfd.Fd SessionMsg)
      → ((queued w m (r, q)).1.registry ≡ w.registry) × ((queued w m (r, q)).1.device ≡ w.device)
  unfolding queued
  queued-same w m done q = (refl, refl)
  queued-same w m _ q = (refl, refl)

  queue_msg-IsRegistered :
      (w : World V) (m : SessionMsg) → IsRegistered w → IsRegistered (sccp_session_queue_msg w m).1
  unfolding sccp_session_queue_msg
  queue_msg-IsRegistered w m i =
      let w' : World V = record w { system = (V.system.allocated w.system).1 } in
      let p = sync_put V.eventfd (V.system.allocated w.system).0 w.sync_q m in
      let (r, d) = queued-same w' m p.0 p.1 in same-IsRegistered w (queued w' m p).1 r d i

  act-IsRegistered : (w : World V) (a : Act) → IsRegistered w → Returned IsRegistered (act w a)
  unfolding act sccp_session_stop sccp_session_reload_config sccp_session_reload_debug
  act-IsRegistered w (rounds fuel p got) i =
      world_of-Stable IsRegistered IsRegistered-IsStable (round fuel w p got)
        (round-Stable IsRegistered IsRegistered-IsStable on_queue-IsRegistered fuel w p got i)
  act-IsRegistered w stops i =
      let w' : World V = record w { stop = true } in
      queue_msg-IsRegistered w' noop (same-IsRegistered w w' refl refl i)
  act-IsRegistered w reloads_debug i = queue_msg-IsRegistered w reload_debug i
  act-IsRegistered w (reloads none) i = i
  act-IsRegistered w (reloads (some cfg)) i =
      let w' : World V = record w { refs = ref cfg w.refs } in
      queue_msg-IsRegistered w' (reload_config cfg) (same-IsRegistered w w' refl refl i)

  -- Through every round of the session's thread, whatever the phone, the device, the allocations
  -- and the configuration do, and through the calls of other threads between the rounds: the
  -- registry stays well formed, and a device that the session has is in it.
  pub acts-IsRegistered :
      (as_ : List Act) (w w' : World V) → IsRegistered w → acts w as_ ≡ some w' → IsRegistered w'
  acts-IsRegistered as_ w w' i e =
      subst (Returned IsRegistered) e (acts-Stable IsRegistered act-IsRegistered as_ w i)

  -- Ended, with a device or without.
  pub record Leaves (d : Option ℕ) (w : World V) : Type 0 where
    pub no_device : w.device ≡ none
    pub registry_valid : ValidRegistry V w.registry
    pub gone :
        (e : ℕ)
        → d ≡ some e
        → count
            (named V.objects.device_name (V.objects.device_name e))
            (V.devices.elements w.registry.devices)
          ≡ 0

  give_up-Leaves :
      (w : World V) (d : Option ℕ) → w.device ≡ d → IsRegistered w → Leaves d (give_up w d)
  unfolding give_up discard
  give_up-Leaves w none n i = record {
    no_device = n;
    registry_valid = i.registry_valid;
    gone = λ e f. absurd (grind (arith, f));
  }
  give_up-Leaves w (some d) n i =
      let reg = registry_remove V.objects V.devices V.lines w.registry (some d) in
      let w1 : World V = record w { registry = reg } in
      let k = after_device-Keeps w1 (V.api.destroy w1.all_devices d) in
      let here = i.device_in d n in
      let removed =
        registry_remove-IsValid V.objects V.devices V.lines w.registry d here i.registry_valid in
      let forgotten =
        registry_remove-forgets V.objects V.devices V.lines w.registry d i.registry_valid here in
      record {
        no_device = refl;
        registry_valid = subst (ValidRegistry V) (sym k.registry) removed;
        gone = λ e f.
            let same : d ≡ e = grind (arith, f) in
            subst
              (λ r.
                count (named V.objects.device_name (V.objects.device_name e))
                  (V.devices.elements r.devices)
                ≡ 0)
              (sym k.registry)
              (subst
                (λ x.
                  count (named V.objects.device_name (V.objects.device_name x))
                    (V.devices.elements reg.devices)
                  ≡ 0)
                same forgotten);
      }

  -- After its end a session has no device, no registered device has the name of the device that it
  -- had, and the registry is well formed.
  pub end_run-Leaves : (w : World V) → IsRegistered w → Leaves w.device (end_run w)
  unfolding end_run sccp_session_empty_queue sccp_session_close_queue
  end_run-Leaves w i =
      let w1 = sccp_session_empty_queue (sccp_session_close_queue w) in
      give_up-Leaves w1 w1.device refl (same-IsRegistered w w1 refl refl i)
