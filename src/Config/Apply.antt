-- ===== src/Config/Apply.antt =====
-- sccp_config.c: a configuration is put in order, and looked up.
use wazo_libsccp.Common.{ℕ, Bool, true, false, List, [], ◌∷◌, Option, none, some, if◌then◌else◌}
use wazo_libsccp.Registry.{Container}
use wazo_libsccp.Config.{DeviceInternal, Names, at, inc, dec, device_cfg_name_guest}
use wazo_libsccp.Config.Build.{
  Config, release_device_cfg, unlink_device, unlink_line, is_associated, sccp_device_cfg_build_line,
  after_line,
}

abbrev pub is_guest_on : Option Bool → Bool
is_guest_on none = false
is_guest_on (some b) = b

module _ (N : Names) (E : Container N.device_name) (F : Container N.line_name)
    (G : Container N.speeddial_name) where
  unfoldable pub with_internal :
      (size d : ℕ) → Option DeviceInternal → Config N E F G → Bool × Config N E F G
  unfolding after_line sccp_device_cfg_build_line
  with_internal size d none c = (false, c)
  with_internal size d (some i) c =
      after_line N E F G size d i.speeddials (sccp_device_cfg_build_line N E F G d i.line_name c)

  -- `false` is CMP_MATCH: the device is unlinked. The internal part has not been freed before.
  unfoldable pub cb_pre_apply_device_cfg : (size d : ℕ) → Config N E F G → Bool × Config N E F G
  unfolding with_internal
  cb_pre_apply_device_cfg size d c = with_internal size d (c.device d).internal c

  unfoldable pub kept_or_unlinked : ℕ → Bool × Config N E F G → Config N E F G
  unfolding unlink_device
  kept_or_unlinked d (true, c) = c
  kept_or_unlinked d (false, c) = unlink_device N E F G d c

  -- The turns of ao2_callback, over what the container held at first.
  unfoldable pub apply_devices : (size : ℕ) → List ℕ → Config N E F G → Config N E F G
  unfolding kept_or_unlinked cb_pre_apply_device_cfg
  apply_devices size [] c = c
  apply_devices size (d ∷ ds) c =
      apply_devices size ds (kept_or_unlinked d (cb_pre_apply_device_cfg size d c))

  unfoldable pub pre_apply_devices_cfg : (size : ℕ) → Config N E F G → Config N E F G
  unfolding apply_devices
  pre_apply_devices_cfg size c = apply_devices size (E.elements c.devices_cfg) c

  -- cb_pre_apply_line_cfg, and the unlinking where it matches.
  unfoldable pub apply_line : ℕ → Config N E F G → Config N E F G
  apply_line l c =
      if is_associated (c.line l)
      then record c { line = at l (λ x. record x { internal = none }) c.line }
      else record c { lines_cfg = F.unlink c.lines_cfg l; line_refs = dec l c.line_refs }

  unfoldable pub apply_lines : List ℕ → Config N E F G → Config N E F G
  unfolding apply_line
  apply_lines [] c = c
  apply_lines (l ∷ ls) c = apply_lines ls (apply_line l c)

  unfoldable pub pre_apply_lines_cfg : Config N E F G → Config N E F G
  unfolding apply_lines
  pre_apply_lines_cfg c = apply_lines (F.elements c.lines_cfg) c

  unfoldable pub unlink_its_line : Option ℕ → Config N E F G → Config N E F G
  unfolding unlink_line
  unlink_its_line none c = c
  unlink_its_line (some l) c = unlink_line N E F G l c

  -- The guest's device, found with a reference, leaves the container, and its line too.
  unfoldable pub unlink_guest : ℕ → Config N E F G → Config N E F G
  unfolding unlink_device unlink_its_line
  unlink_guest d c =
      let c1 = unlink_device N E F G d (record c { device_refs = inc d c.device_refs }) in
      unlink_its_line (c1.device d).line_cfg c1

  -- The guest's device is kept if guests are allowed.
  unfoldable pub keep_guest : Bool → ℕ → Config N E F G → Config N E F G
  unfolding release_device_cfg
  keep_guest true d c = record c {
    guest_device_cfg = some d;
    device = at d (λ x. record x { guest = true }) c.device;
  }
  keep_guest false d c = release_device_cfg N E F G d c

  unfoldable pub apply_guest : Option ℕ → Config N E F G → Config N E F G
  unfolding unlink_guest keep_guest
  apply_guest none c = c
  apply_guest (some d) c = keep_guest (is_guest_on c.guest_internal) d (unlink_guest d c)

  unfoldable pub pre_apply_general_cfg : Config N E F G → Config N E F G
  unfolding apply_guest
  pre_apply_general_cfg c = record (apply_guest (E.find c.devices_cfg device_cfg_name_guest) c) {
    guest_internal = none;
  }

  unfoldable pub pre_apply_config : (size : ℕ) → Config N E F G → Config N E F G
  unfolding pre_apply_devices_cfg pre_apply_lines_cfg pre_apply_general_cfg
  pre_apply_config size c =
      pre_apply_general_cfg (pre_apply_lines_cfg (pre_apply_devices_cfg size c))

  -- With a reference more, if it is found.
  unfoldable pub take_device : Option ℕ → Config N E F G → Option ℕ × Config N E F G
  take_device none c = (none, c)
  take_device (some d) c = (some d, record c { device_refs = inc d c.device_refs })

  unfoldable pub or_guest : Option ℕ → Config N E F G → Option ℕ × Config N E F G
  unfolding take_device
  or_guest (some d) c = take_device (some d) c
  or_guest none c = take_device c.guest_device_cfg c

  unfoldable pub sccp_cfg_find_device : List ℕ → Config N E F G → Option ℕ × Config N E F G
  unfolding take_device
  sccp_cfg_find_device name c = take_device (E.find c.devices_cfg name) c

  unfoldable pub sccp_cfg_find_device_or_guest : List ℕ → Config N E F G → Option ℕ × Config N E F G
  unfolding or_guest
  sccp_cfg_find_device_or_guest name c = or_guest (E.find c.devices_cfg name) c

  unfoldable pub sccp_cfg_find_line : List ℕ → Config N E F G → Option ℕ × Config N E F G
  sccp_cfg_find_line name c = elim (F.find c.lines_cfg name) [
    | none ↦ (none, c)
    | some l ↦ (some l, record c { line_refs = inc l c.line_refs })
  ]
