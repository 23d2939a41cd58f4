-- ===== src/Setup/Types.antt =====
-- sccp_device.c: the parts of struct sccp_device that come from its configuration, and what they
-- hold outside the device. A pointer to a configuration is a number. A configuration that devices
-- read does not change, and its line is not null.
use wazo_libsccp.Common.{
  ℕ, suc, ◌+◌, ◌-◌, ◌≤◌, ◌≡◌, ◌==◌, Bool, List, Option, none, some, total, count, if◌then◌else◌,
  ◌&&◌, same_bytes,
}
use wazo_libsccp.Device.Types.{Device, Config}

-- struct sccp_speeddial_cfg, sccp_line_cfg and sccp_device_cfg of sccp_config.h, as devices read them.
pub record SpeeddialCfg : Type 0 where
  pub label : List ℕ
  pub extension : List ℕ
  pub blf : Bool

pub record LineCfg : Type 0 where
  pub name : List ℕ
  pub cid_num : List ℕ
  pub cid_name : List ℕ
  pub context : List ℕ

pub record DeviceCfg : Type 0 where
  pub guest : Bool
  pub dateformat : List ℕ
  pub voicemail : List ℕ
  pub vmexten : List ℕ
  pub timezone : List ℕ
  pub keepalive : ℕ
  pub line_cfg : ℕ
  pub speeddials_cfg : List ℕ

-- What the pointers point to, and of Asterisk AST_MAX_EXTENSION and ast_copy_string.
pub record Configs : Type 0 where
  pub device_cfg : ℕ → DeviceCfg
  pub line_cfg : ℕ → LineCfg
  pub speeddial_cfg : ℕ → SpeeddialCfg
  pub max_extension : ℕ
  pub copy_string : ℕ → List ℕ → List ℕ

-- enum ast_extension_states of asterisk/pbx.h: two negative values, and a mask of bits.
pub data ExtState : Type 0 where
  ext_removed ext_deactivated : ExtState
  ext : (mask : ℕ) → ExtState

-- struct sccp_speeddial, with its reference count. `exten_state_cb_id` is `none` for -1.
pub record Speeddial : Type 0 where
  pub refs : ℕ
  pub cfg : ℕ
  pub instance_ : ℕ
  pub index : ℕ
  pub exten_state_cb_id : Option ℕ
  pub exten_state : ExtState

-- struct sccp_line without its calls, with its reference count.
pub record Line : Type 0 where
  pub refs : ℕ
  pub cfg : ℕ
  pub instance_ : ℕ
  pub name : List ℕ

-- A subscription to an extension's state.
pub record Watch : Type 0 where
  pub id : ℕ
  pub context : List ℕ
  pub extension : List ℕ

abbrev pub is_watch : Watch → Watch → Bool
is_watch a b =
    (a.id == b.id) && same_bytes a.context b.context && same_bytes a.extension b.extension

-- ast_extension_state, ast_extension_state_add and ast_extension_state_del. An id names one
-- subscription, which a deletion ends.
pub record Hints : Type 1 where
  pub H : Type 0
  pub state : H → (context extension : List ℕ) → ExtState
  pub add : H → (context extension : List ℕ) → Option ℕ × H
  pub del : H → ℕ → H
  pub watching : H → List Watch
  pub add_none : (h : H) (c e : List ℕ) → (add h c e).0 ≡ none → (add h c e).1 ≡ h
  pub add_some :
      (h : H) (c e : List ℕ) (i : ℕ) (w : Watch → ℕ)
      → (add h c e).0 ≡ some i
      → total w (watching (add h c e).1)
        ≡ w (record { id = i; context = c; extension = e }) + total w (watching h)
  pub del_removes :
      (h : H) (x : Watch) (w : Watch → ℕ)
      → 1 ≤ count (is_watch x) (watching h)
      → total w (watching h) ≡ w x + total w (watching (del h x.id))

-- The reference counts of configurations and sessions, those of the device and of its format
-- capabilities, the allocations to come, the extension states, and the subscriptions to mailboxes.
pub record World (H : Type 0) : Type 0 where
  pub refs : ℕ → ℕ
  pub device_refs : ℕ
  pub caps_refs : ℕ
  pub mem : ℕ → Bool
  pub hints : H
  pub mwi_subs : ℕ

-- struct sccp_device; `device` is what its calls use. `calls` counts the subchannels that are alive,
-- in the line's list or still held by their channel: each holds a reference to the line.
pub record Phone : Type 0 where
  pub cfg : ℕ
  pub session : ℕ
  pub line : Line
  pub speeddials : List Speeddial
  pub mwi_event_sub : Bool
  pub calls : ℕ
  pub type : ℕ
  pub device : Device

abbrev pub ref : {H : Type 0} → ℕ → World H → World H
ref a w = record w { refs = λ b. if b == a then w.refs b + 1 else w.refs b }

abbrev pub unref : {H : Type 0} → ℕ → World H → World H
unref a w = record w { refs = λ b. if b == a then w.refs b - 1 else w.refs b }

-- An allocation, and what follows it.
abbrev pub spend : {H : Type 0} → World H → World H
spend w = record w { mem = λ k. w.mem (suc k) }

-- What the calls of a device read of its configuration.
abbrev pub config_of : Configs → (instance_ device_cfg line_cfg : ℕ) → Config
config_of C i c l = record {
  line_instance = i;
  cid_num = (C.line_cfg l).cid_num;
  voicemail = (C.device_cfg c).voicemail;
  vmexten = (C.device_cfg c).vmexten;
  max_extension = C.max_extension;
  copy_string = C.copy_string;
}
