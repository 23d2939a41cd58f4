-- ===== src/Session/Moves.antt =====
-- sccp_session.c: statements that the session's thread keeps while it reads its socket and runs its
-- tasks.
use wazo_libsccp.Common.{
  ℕ, zero, suc, ◌≡◌, ◌≢◌, ◌==◌, ◌⊎◌, inl, inr, refl, ◌∙◌, Bool, true, ◌&&◌, not, List, ◌∷◌, drop,
  Option, none, some, if◌then◌else◌, is_some, Bool-cases, Option-cases, arith, if_both,
}
use wazo_libsccp.Deserializer.{PopRet, load32, pop, popped, nomsg, malformed}
use wazo_libsccp.Registry.{Registry, AddRet, added, not_added, already, maxguests, registry_add}
use wazo_libsccp.Session.{Env, World, remove_auth_timeout_task}
use wazo_libsccp.Session.Handle.{
  Events, end_name, info_of, after_device, after_result, discard, after_add, registered,
  register_device, sccp_session_update_debug, sccp_session_handle_msg_register,
  sccp_session_transmit_register_rej,
}
use wazo_libsccp.Session.Loop.{give_device, sccp_session_handle_msg, handle_all, after_pops}
use wazo_libsccp.Session.Keeps.{
  Keeps, Keeps-trans, others-Keeps, stopped-Keeps, after_device-Keeps, after_result-Keeps,
  update_debug-Keeps, register_rej-Keeps,
}

-- It holds of the world that a computation returned, if it returned.
abbrev pub Returned : {A : Type 0} → (A → Type 0) → Option A → Type 0
Returned P none = Unit {0}
Returned P (some a) = P a

abbrev pub add_of : {V : Env} → World V → ℕ → AddRet × Registry V.devices.C V.lines.C
add_of {V = V} w d = registry_add V.objects V.devices V.lines w.registry (some d)

-- A statement that holds on through the calls of a device, through both outcomes of an addition to
-- the registry, and through the destruction of a device that the session does not have.
pub record IsStable {V : Env} (I : World V → Type 0) : Type 0 where
  pub keeps : (w w' : World V) → Keeps w w' → I w → I w'
  pub gains :
      (w : World V) (d : ℕ)
      → w.device ≡ none
      → (add_of w d).0 ≡ added
      → I w
      → I (record w { registry = (add_of w d).1; device = some d })
  pub refuses :
      (w : World V) (d : ℕ)
      → (add_of w d).0 ≢ added
      → I w
      → I (record w { registry = (add_of w d).1 })
  pub releases :
      (w : World V) (d : ℕ) → w.device ≡ none → I w → I (record w { released = d ∷ w.released })

PopRet-cases : (r : PopRet) → (r ≡ popped) ⊎ (r ≡ nomsg) ⊎ (r ≡ malformed)
PopRet-cases popped = inl refl
PopRet-cases nomsg = inr (inl refl)
PopRet-cases malformed = inr (inr refl)

registers_none : (d : Option ℕ) (b : Bool) → (not (is_some d) && b) ≡ true → d ≡ none
registers_none none b e = refl
registers_none (some d) b e = absurd (ground (arith, e))

module _ {V : Env} (I : World V → Type 0) (S : IsStable I) where
  registered-Stable : (w : World V) (d : ℕ) → I (record w { device = some d }) → I (registered w d)
  unfolding registered remove_auth_timeout_task
  registered-Stable w d i =
      let w1 : World V = record w { device = some d } in
      let w2 = remove_auth_timeout_task w1 in
      let w3 = sccp_session_update_debug w2 in
      let r = V.api.on_registration_success w3.all_devices d in
      S.keeps w1 (after_device w3 r)
        (Keeps-trans w1 w3 (after_device w3 r)
          (Keeps-trans w1 w2 w3
            (others-Keeps w1 w1.deserializer w1.debug w2.task_runner w1.all_devices w1.system)
            (update_debug-Keeps w2))
          (after_device-Keeps w3 r))
        i

  discard-Stable : (w : World V) (d : ℕ) → w.device ≡ none → I w → I (discard w d)
  unfolding discard
  discard-Stable w d e i =
      let w' = after_device w (V.api.destroy w.all_devices d) in
      let k = after_device-Keeps w (V.api.destroy w.all_devices d) in
      S.releases w' d (k.device ∙ e) (S.keeps w w' k i)

  refused-Stable :
      (w : World V) (d : ℕ)
      → w.device ≡ none
      → I w
      → I (discard (sccp_session_transmit_register_rej w) d)
  refused-Stable w d e i =
      let w' = sccp_session_transmit_register_rej w in
      let k = register_rej-Keeps w in discard-Stable w' d (k.device ∙ e) (S.keeps w w' k i)

  after_add-Stable :
      (r : AddRet) (w : World V) (d : ℕ)
      → w.device ≡ none
      → (r ≡ added → I (record w { device = some d }))
      → (r ≢ added → I w)
      → I (after_add r w d)
  unfolding after_add
  after_add-Stable added w d e yes_ no_ = registered-Stable w d (yes_ refl)
  after_add-Stable not_added w d e yes_ no_ = refused-Stable w d e (no_ (λ x. grind (arith, x)))
  after_add-Stable already w d e yes_ no_ = refused-Stable w d e (no_ (λ x. grind (arith, x)))
  after_add-Stable maxguests w d e yes_ no_ = refused-Stable w d e (no_ (λ x. grind (arith, x)))

  register_device-Stable : (w : World V) (d : ℕ) → w.device ≡ none → I w → I (register_device w d)
  unfolding register_device
  register_device-Stable w d e i =
      after_add-Stable (add_of w d).0 (record w { registry = (add_of w d).1 }) d e
        (λ r. S.gains w d e r i) (λ r. S.refuses w d r i)

  rejected-Stable : (w : World V) → I w → I (sccp_session_transmit_register_rej w)
  rejected-Stable w i = S.keeps w (sccp_session_transmit_register_rej w) (register_rej-Keeps w) i

  handle_msg_register-Stable :
      (w : World V) (msg : List ℕ)
      → w.device ≡ none
      → I w
      → I (sccp_session_handle_msg_register w msg)
  unfolding sccp_session_handle_msg_register
  handle_msg_register-Stable w0 msg e i0 =
      let w : World V = record w0 {
        deserializer = record w0.deserializer { msg = end_name msg };
      } in
      let i : I w =
        S.keeps w0 w (others-Keeps w0 w.deserializer w.debug w.task_runner w.all_devices w.system)
          i0 in
      elim (Option-cases (V.find_device_or_guest w.cfg (info_of msg).name)) [
        | inl f ↦ rw (sccp_session_handle_msg_register, f) (rejected-Stable w i)
        | inr (device_cfg, f) ↦
            let made = V.api.create w.all_devices device_cfg (info_of msg) in
            let w' : World V = record w { all_devices = made.1 } in
            let i' : I w' =
              S.keeps w w' (others-Keeps w w.deserializer w.debug w.task_runner made.1 w.system)
                i in
            elim (Option-cases made.0) [
              | inl m ↦ rw (sccp_session_handle_msg_register, f, m) (rejected-Stable w' i')
              | inr (d, m) ↦
                  rw (sccp_session_handle_msg_register, f, m) (register_device-Stable w' d e i')
            ]
      ]

  give_device-Stable : (w : World V) (d : Option ℕ) (m : List ℕ) → I w → I (give_device w d m)
  unfolding give_device
  give_device-Stable w none m i = i
  give_device-Stable w (some d) m i =
      let r = V.api.handle_msg w.all_devices d m in
      S.keeps w (after_result w r) (after_result-Keeps w r) i

  handle_msg-Stable : (w : World V) (msg : List ℕ) → I w → I (sccp_session_handle_msg w msg)
  unfolding sccp_session_handle_msg
  handle_msg-Stable w msg i =
      let b = not (is_some w.device) && (load32 (drop 8 msg) == 1) in
      let m = if b then end_name msg else msg in
      elim (Bool-cases b) [
        | inl e ↦
            let w' = sccp_session_handle_msg_register w msg in
            let i' =
              handle_msg_register-Stable w msg
                (registers_none w.device (load32 (drop 8 msg) == 1) e) i in
            rw (sccp_session_handle_msg, e) (give_device-Stable w' w'.device (end_name msg) i')
        | inr e ↦ rw (sccp_session_handle_msg, e) (give_device-Stable w w.device msg i)
      ]

  pub stop_if-Stable :
      (b : Bool) (w : World V) → I w → I (if b then record w { stop = true } else w)
  stop_if-Stable b w i =
      if_both I b (record w { stop = true }) w
        (S.keeps w (record w { stop = true }) (stopped-Keeps w) i) i

  -- However long the loop of pops runs.
  pub handle_all-Stable : (fuel : ℕ) (w : World V) → I w → Returned (λ r. I r.1) (handle_all fuel w)
  unfolding handle_all
  handle_all-Stable zero w i = tt
  handle_all-Stable (suc fuel) w i =
      let (r, m, de) = pop w.deserializer in
      let w' : World V = record w { deserializer = de } in
      let i' : I w' =
        S.keeps w w' (others-Keeps w de w.debug w.task_runner w.all_devices w.system) i in
      elim (PopRet-cases r) [
        | inl e ↦ elim (Option-cases m) [
          | inl f ↦ rw (handle_all, e, f) tt
          | inr (msg, f) ↦
              rw (handle_all, e, f)
                (handle_all-Stable fuel (sccp_session_handle_msg w' msg)
                  (handle_msg-Stable w' msg i'))
        ]
        | inr (inl e) ↦ rw (handle_all, e) i'
        | inr (inr e) ↦ rw (handle_all, e) i'
      ]

  pub after_pops-Stable :
      (events : Events) (o : Option (PopRet × World V))
      → Returned (λ r. I r.1) o
      → Returned I (after_pops events o)
  unfolding after_pops
  after_pops-Stable events none i = tt
  after_pops-Stable events (some (popped, w)) i = stop_if-Stable events.others w i
  after_pops-Stable events (some (nomsg, w)) i = stop_if-Stable events.others w i
  after_pops-Stable events (some (malformed, w)) i =
      S.keeps w (record w { stop = true }) (stopped-Keeps w) i
