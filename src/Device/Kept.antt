-- ===== src/Device/Kept.antt =====
-- sccp_device.c: call forwarding and do-not-disturb against what Asterisk's database holds.
use wazo_libsccp.Common.{
  ℕ, ◌<◌, ◌≡◌, refl, ap, ◌∙◌, Bool, true, false, List, [], ◌∷◌, Option, none, some, if◌then◌else◌,
  is_empty, length, arith, Bool-cases, ◌⊎◌, inl, inr,
}
use wazo_libsccp.Device.Types.{
  Device, Config, Effect, db_put, db_del, DbKey, dnd_device, cfwdall_device, cfwdall_line,
  CfwdStatus, cfwd_inactive, cfwd_inputexten, cfwd_active,
}
use wazo_libsccp.Device.Forward.{
  is_cfwd_active, update_displaymessage, set_callforward, set_callforward_from_device_exten,
  clear_callforward, cancel_callforward_input, handle_softkey_bkspc, handle_softkey_cfwdall,
  handle_softkey_dnd, append_digit_to_device_exten, init_dnd, init_callfwd, dnd_on,
}

-- What a user, or the timer of the input, does about call forwarding and not being disturbed.
pub data FwdOp : Type 0 where
  press_cfwdall press_bkspc press_dnd fwd_timeout : FwdOp
  press_digit : ℕ → FwdOp

abbrev pub fwd_step : FwdOp → Device → Device
fwd_step press_cfwdall d = handle_softkey_cfwdall d
fwd_step press_bkspc d = handle_softkey_bkspc d
fwd_step press_dnd d = handle_softkey_dnd d
fwd_step fwd_timeout d = set_callforward_from_device_exten d
fwd_step (press_digit n) d = (append_digit_to_device_exten n d).1

abbrev pub fwd_run : List FwdOp → Device → Device
fwd_run [] d = d
fwd_run (op ∷ ops) d = fwd_run ops (fwd_step op d)

abbrev same_key : DbKey → DbKey → Bool
same_key dnd_device dnd_device = true
same_key cfwdall_device cfwdall_device = true
same_key cfwdall_line cfwdall_line = true
same_key _ _ = false

-- The database after what the device did, newest first, from its content before.
abbrev pub stored : List Effect → (DbKey → Option (List ℕ)) → DbKey → Option (List ℕ)
stored [] db key = db key
stored (db_put k value ∷ es) db key = if same_key k key then some value else stored es db key
stored (db_del k ∷ es) db key = if same_key k key then none else stored es db key
stored (_ ∷ es) db key = stored es db key

-- ast_copy_string: a text that leaves room for the final 0 is copied as it is, and the copy always does.
pub record Copies (cfg : Config) : Type 0 where
  pub whole : (s : List ℕ) → length s < cfg.max_extension → cfg.copy_string cfg.max_extension s ≡ s
  pub room : (s : List ℕ) → length (cfg.copy_string cfg.max_extension s) < cfg.max_extension

-- The database says what the device says, and the extension fits its array.
pub record IsKept (db : DbKey → Option (List ℕ)) (d : Device) : Type 0 where
  pub cfwd :
      stored d.out db cfwdall_device
      ≡ (if is_cfwd_active d.callfwd then some d.callfwd_exten else none)
  pub dnd : stored d.out db dnd_device ≡ (if d.dnd then some dnd_on else none)
  pub fits : length d.callfwd_exten < d.cfg.max_extension

set-IsKept :
    (db : DbKey → Option (List ℕ)) (exten : List ℕ) (d : Device)
    → Copies d.cfg
    → IsKept db d
    → IsKept db (set_callforward exten d)
unfolding set_callforward update_displaymessage
set-IsKept db exten d c k = record { cfwd = refl; dnd = k.dnd; fits = c.room exten }

timeout-IsKept :
    (db : DbKey → Option (List ℕ)) (d : Device)
    → Copies d.cfg
    → IsKept db d
    → IsKept db (set_callforward_from_device_exten d)
unfolding set_callforward_from_device_exten
timeout-IsKept db d c k =
    let s = set-IsKept db d.exten d c k in record { cfwd = s.cfwd; dnd = s.dnd; fits = s.fits }

CfwdStatus-cases :
    (c : CfwdStatus) → (c ≡ cfwd_inactive) ⊎ ((c ≡ cfwd_inputexten) ⊎ (c ≡ cfwd_active))
CfwdStatus-cases cfwd_inactive = inl refl
CfwdStatus-cases cfwd_inputexten = inr (inl refl)
CfwdStatus-cases cfwd_active = inr (inr refl)

kept_as :
    {c c' : CfwdStatus} (x : List ℕ)
    → c ≡ c'
    → (if is_cfwd_active c then some x else none) ≡ (if is_cfwd_active c' then some x else none)
kept_as x e = ap (λ s. if is_cfwd_active s then some x else none) e

fits_some : {a b : ℕ} → a < b → 0 < b
fits_some h = omega arith

step-IsKept :
    (db : DbKey → Option (List ℕ)) (op : FwdOp) (d : Device)
    → Copies d.cfg
    → IsKept db d
    → IsKept db (fwd_step op d)
unfolding handle_softkey_cfwdall handle_softkey_bkspc handle_softkey_dnd
    set_callforward_from_device_exten append_digit_to_device_exten update_displaymessage
    clear_callforward cancel_callforward_input
step-IsKept db press_cfwdall d c k = elim (CfwdStatus-cases d.callfwd) [
  | inl e ↦
      rw (handle_softkey_cfwdall, e)
        (record { cfwd = k.cfwd ∙ kept_as d.callfwd_exten e; dnd = k.dnd; fits = k.fits })
  | inr (inl e) ↦ elim (Bool-cases (is_empty d.exten)) [
    | inl i ↦
        rw (handle_softkey_cfwdall, e, i)
          (record { cfwd = k.cfwd ∙ kept_as d.callfwd_exten e; dnd = k.dnd; fits = k.fits })
    | inr i ↦ rw (handle_softkey_cfwdall, e, i) (timeout-IsKept db d c k)
  ]
  | inr (inr e) ↦
      rw (handle_softkey_cfwdall, e) (record { cfwd = refl; dnd = k.dnd; fits = fits_some k.fits })
]
step-IsKept db press_bkspc d c k = elim (CfwdStatus-cases d.callfwd) [
  | inl e ↦ rw (handle_softkey_bkspc, e) k
  | inr (inl e) ↦
      rw (handle_softkey_bkspc, e)
        (record { cfwd = k.cfwd ∙ kept_as d.callfwd_exten e; dnd = k.dnd; fits = k.fits })
  | inr (inr e) ↦ rw (handle_softkey_bkspc, e) k
]
step-IsKept db press_dnd d c k = elim (Bool-cases d.dnd) [
  | inl e ↦ rw (handle_softkey_dnd, e) (record { cfwd = k.cfwd; dnd = refl; fits = k.fits })
  | inr e ↦ rw (handle_softkey_dnd, e) (record { cfwd = k.cfwd; dnd = refl; fits = k.fits })
]
step-IsKept db fwd_timeout d c k = timeout-IsKept db d c k
step-IsKept db (press_digit n) d c k = ground (arith, k)

step_cfg : (op : FwdOp) (d : Device) → (fwd_step op d).cfg ≡ d.cfg
unfolding handle_softkey_cfwdall handle_softkey_bkspc handle_softkey_dnd
    set_callforward_from_device_exten append_digit_to_device_exten update_displaymessage
    clear_callforward cancel_callforward_input
step_cfg press_cfwdall d = ground arith
step_cfg press_bkspc d = ground arith
step_cfg press_dnd d = ground arith
step_cfg fwd_timeout d = ground arith
step_cfg (press_digit n) d = ground arith

-- If the database says what the device says at first, it does so after any sequence of presses of the
-- keys CFwdALL, backspace, DND and of digits, and of timeouts of the input.
pub fwd_run-IsKept :
    (db : DbKey → Option (List ℕ)) (ops : List FwdOp) (d : Device)
    → Copies d.cfg
    → IsKept db d
    → IsKept db (fwd_run ops d)
fwd_run-IsKept db [] d c k = k
fwd_run-IsKept db (op ∷ ops) d c k =
    fwd_run-IsKept db ops (fwd_step op d) (rw (step_cfg op d) c) (step-IsKept db op d c k)

-- A device whose state is kept is replaced by a new one, with the same configuration, without a
-- forwarding and with none left on its line's key. When that one registers it reads back the same
-- do-not-disturb state, the same answer to whether calls are forwarded, and the same extension.
pub register_restores :
    (db : DbKey → Option (List ℕ)) (old fresh : Device)
    → Copies fresh.cfg
    → fresh.cfg ≡ old.cfg
    → fresh.callfwd ≡ cfwd_inactive
    → stored old.out db cfwdall_line ≡ none
    → IsKept db old
    → (let e = init_callfwd (stored old.out db) (init_dnd (stored old.out db) fresh) in
        (e.dnd ≡ old.dnd)
        × (is_cfwd_active e.callfwd ≡ is_cfwd_active old.callfwd)
        × (is_cfwd_active old.callfwd ≡ true → e.callfwd_exten ≡ old.callfwd_exten))
unfolding init_callfwd init_dnd set_callforward update_displaymessage
register_restores db old fresh c same idle line k =
    let copied : fresh.cfg.copy_string fresh.cfg.max_extension old.callfwd_exten
        ≡ old.callfwd_exten =
      c.whole old.callfwd_exten (rw same k.fits) in
    elim (Bool-cases old.dnd) [
      | inl u ↦ elim (Bool-cases (is_cfwd_active old.callfwd)) [
        | inl a ↦ rw (init_callfwd, k.cfwd, a, init_dnd, k.dnd, u) (refl, refl, λ h. copied)
        | inr a ↦
            rw (init_callfwd, k.cfwd, a, line, init_dnd, k.dnd, u, idle)
              (refl, refl, λ h. ground arith)
      ]
      | inr u ↦ elim (Bool-cases (is_cfwd_active old.callfwd)) [
        | inl a ↦ rw (init_callfwd, k.cfwd, a, init_dnd, k.dnd, u) (refl, refl, λ h. copied)
        | inr a ↦
            rw (init_callfwd, k.cfwd, a, line, init_dnd, k.dnd, u, idle)
              (refl, refl, λ h. ground arith)
      ]
    ]
