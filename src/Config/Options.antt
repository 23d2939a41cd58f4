-- ===== src/Config/Options.antt =====
-- sccp_config.c: the handlers of the options that have texts of their own, and the mailbox of a device.
use wazo_libsccp.Common.{
  ℕ, ◌-◌, ◌==◌, Bool, true, false, List, [], ◌∷◌, ◌++◌, Option, none, some, if◌then◌else◌, is_empty,
  take,
}
use wazo_libsccp.Config.{DeviceInternal, LineCfg, has_at}

-- The handlers of the options `line`, `speeddial` and `setvar`; `size` is the room for a name with its
-- final 0, and `allocated` tells whether there was memory.
unfoldable pub device_cfg_line_handler : (size : ℕ) → List ℕ → DeviceInternal → DeviceInternal
device_cfg_line_handler size value i = record i { line_name = take (size - 1) value }

unfoldable pub sccp_device_cfg_add_speeddial_name :
    (allocated : Bool) → (size : ℕ) → List ℕ → DeviceInternal → Bool × DeviceInternal
sccp_device_cfg_add_speeddial_name allocated size name i =
    if allocated
    then (true, record i { speeddials = i.speeddials ++ take (size - 1) name ∷ [] })
    else (false, i)

-- What stands before the first `=`, and behind it.
unfoldable pub split_equals : List ℕ → Option (List ℕ × List ℕ)
split_equals [] = none
split_equals (c ∷ cs) =
    let rest = split_equals cs in
    if c == 61 then some ([], cs) else elim rest [ none ↦ none | some (n, v) ↦ some (c ∷ n, v) ]

unfoldable pub line_cfg_setvar_handler : (allocated : Bool) → List ℕ → LineCfg → Bool × LineCfg
unfolding split_equals
line_cfg_setvar_handler allocated value l = elim (split_equals value) [
  | none ↦ (false, l)
  | some v ↦ if allocated then (true, record l { chanvars = v ∷ l.chanvars }) else (false, l)
]

unfoldable pub norm_voicemail : (size : ℕ) → (voicemail context : List ℕ) → List ℕ
unfolding has_at
norm_voicemail size voicemail context =
    if is_empty voicemail
    then []
    else if has_at voicemail
    then voicemail
    else take (size - 1) (voicemail ++ 64 ∷ context)
