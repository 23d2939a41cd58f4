-- ===== src/Config.antt =====
-- sccp_config.c: a configuration that was read from the file, and how it is put in order before it is
-- applied. A pointer to a configuration of a device, a line or a speed dial is a number; their names,
-- which do not change, are the parameter `Names`. Asterisk's containers are those of the registry.
-- What Asterisk's configuration framework calls are the handlers of options and pre_apply_config.
pub mod Options
pub mod Alloc
pub mod Build
pub mod Apply
pub mod Like
pub mod Turn
pub mod Devices
pub mod Lines
pub mod Guest
pub mod Ordered
pub mod Applied
pub mod Served
pub mod Turns
pub mod Complete
mod Tests
use wazo_libsccp.Common.{
  ℕ, suc, ◌+◌, ◌-◌, ◌≤◌, ◌==◌, Bool, true, false, ◌&&◌, ◌||◌, List, [], ◌∷◌, ◌++◌, Option, none,
  some, if◌then◌else◌, is_empty, is_some, take, count,
}
use wazo_libsccp.Registry.{Container}

-- struct sccp_device_cfg_internal: the names of the line and of the speed dials. The pointer of a
-- device_cfg_speeddial is temporary, and not kept here.
pub record DeviceInternal : Type 0 where
  pub line_name : List ℕ
  pub speeddials : List (List ℕ)

-- struct sccp_device_cfg, without the fields that Asterisk fills and nothing here reads. A null
-- array of speed dials is the empty one.
pub record DeviceCfg : Type 0 where
  pub voicemail : List ℕ
  pub guest : Bool
  pub line_cfg : Option ℕ
  pub speeddials_cfg : List ℕ
  pub internal : Option DeviceInternal

-- struct sccp_line_cfg; `internal` is the member `associated` of what its pointer points to.
pub record LineCfg : Type 0 where
  pub context : List ℕ
  pub chanvars : List (List ℕ × List ℕ)
  pub internal : Option Bool

pub record Names : Type 0 where
  pub device_name : ℕ → List ℕ
  pub line_name : ℕ → List ℕ
  pub speeddial_name : ℕ → List ℕ

-- struct sccp_cfg with struct sccp_general_cfg, what the pointers point to, the reference counts, and
-- the allocations to come. `guest_internal` is the member `guest` of sccp_general_cfg_internal.
pub record Cfg (D L S : Type 0) : Type 0 where
  pub guest_device_cfg : Option ℕ
  pub guest_internal : Option Bool
  pub devices_cfg : D
  pub lines_cfg : L
  pub speeddials_cfg : S
  pub device : ℕ → DeviceCfg
  pub line : ℕ → LineCfg
  pub device_refs : ℕ → ℕ
  pub line_refs : ℕ → ℕ
  pub speeddial_refs : ℕ → ℕ
  pub mem : ℕ → Bool

-- An assignment to what a number stands for.
abbrev pub at : {A : Type 0} → ℕ → (A → A) → (ℕ → A) → ℕ → A
at p f g q = if q == p then f (g q) else g q

abbrev pub inc : ℕ → (ℕ → ℕ) → ℕ → ℕ
inc p = at p (λ n. n + 1)

abbrev pub dec : ℕ → (ℕ → ℕ) → ℕ → ℕ
dec p = at p (λ n. n - 1)

unfoldable pub inc_all : List ℕ → (ℕ → ℕ) → ℕ → ℕ
inc_all [] g = g
inc_all (p ∷ ps) g = inc_all ps (inc p g)

unfoldable pub dec_all : List ℕ → (ℕ → ℕ) → ℕ → ℕ
dec_all [] g = g
dec_all (p ∷ ps) g = dec_all ps (dec p g)

-- `"guest"`
abbrev pub device_cfg_name_guest : List ℕ
device_cfg_name_guest = 103 ∷ 117 ∷ 101 ∷ 115 ∷ 116 ∷ []

unfoldable pub has_at : List ℕ → Bool
has_at [] = false
has_at (c ∷ cs) = if c == 64 then true else has_at cs
