-- ===== src/Config/Build.antt =====
-- sccp_config.c: the references of a configuration, and the line and the speed dials of a device.
use wazo_libsccp.Common.{
  ℕ, suc, ◌==◌, Bool, true, false, List, [], ◌∷◌, none, some, if◌then◌else◌, is_empty,
}
use wazo_libsccp.Registry.{Container}
use wazo_libsccp.Config.{LineCfg, Names, Cfg, at, inc, dec, inc_all, dec_all}
use wazo_libsccp.Config.Options.{norm_voicemail}

abbrev pub is_linked : ℕ → List ℕ → Bool
is_linked a [] = false
is_linked a (b ∷ bs) = if b == a then true else is_linked a bs

abbrev pub is_associated : LineCfg → Bool
is_associated l = elim l.internal [ none ↦ false | some a ↦ a ]

module _ (N : Names) (E : Container N.device_name) (F : Container N.line_name)
    (G : Container N.speeddial_name) where
  abbrev pub Config : Type 0
  Config = Cfg E.C F.C G.C

  unfoldable pub sccp_device_cfg_free_internal : ℕ → Config → Config
  sccp_device_cfg_free_internal d c = record c {
    device = at d (λ x. record x { internal = none }) c.device;
  }

  -- Its temporary list, its speed dials and its line are given up.
  unfoldable pub sccp_device_cfg_destructor : ℕ → Config → Config
  unfolding sccp_device_cfg_free_internal dec_all
  sccp_device_cfg_destructor d c =
      let c' = sccp_device_cfg_free_internal d c in
      record c' {
        speeddial_refs = dec_all (c.device d).speeddials_cfg c'.speeddial_refs;
        line_refs = elim (c.device d).line_cfg [
          | none ↦ c'.line_refs
          | some l ↦ dec l c'.line_refs
        ];
      }

  -- `ao2_ref(device_cfg, -1)`
  unfoldable pub release_device_cfg : ℕ → Config → Config
  unfolding sccp_device_cfg_destructor
  release_device_cfg d c =
      let c' = record c { device_refs = dec d c.device_refs } in
      if c.device_refs d == 1 then sccp_device_cfg_destructor d c' else c'

  -- `ao2_unlink(cfg->devices_cfg, device_cfg)`, for a device that is linked.
  unfoldable pub unlink_device : ℕ → Config → Config
  unfolding release_device_cfg
  unlink_device d c = release_device_cfg d (record c { devices_cfg = E.unlink c.devices_cfg d })

  -- `ao2_unlink(cfg->lines_cfg, line_cfg)`: nothing is done to a line that is not linked.
  unfoldable pub unlink_line : ℕ → Config → Config
  unlink_line l c =
      if is_linked l (F.elements c.lines_cfg)
      then record c { lines_cfg = F.unlink c.lines_cfg l; line_refs = dec l c.line_refs }
      else c

  -- The line is found with a reference, which the device keeps, or which is given back.
  unfoldable pub sccp_device_cfg_build_line : ℕ → (line_name : List ℕ) → Config → Bool × Config
  sccp_device_cfg_build_line d name c =
      if is_empty name then (false, c) else elim (F.find c.lines_cfg name) [
        | none ↦ (false, c)
        | some l ↦ if is_associated (c.line l) then (false, c) else (
          true,
          record c {
            device = at d (λ x. record x { line_cfg = some l }) c.device;
            line = at l (λ x. record x { internal = some true }) c.line;
            line_refs = inc l c.line_refs;
          },
        )
      ]

  -- The speed dials of these names, without those that there are not.
  unfoldable pub find_speeddials : G.C → List (List ℕ) → List ℕ
  find_speeddials s [] = []
  find_speeddials s (n ∷ ns) =
      let rest = find_speeddials s ns in elim (G.find s n) [ none ↦ rest | some a ↦ a ∷ rest ]

  -- The references that were found are given back when there is no memory for the array.
  unfoldable pub sccp_device_cfg_build_speeddials :
      ℕ → (names : List (List ℕ)) → Config → Bool × Config
  unfolding find_speeddials inc_all dec_all
  sccp_device_cfg_build_speeddials d names c =
      let found = find_speeddials c.speeddials_cfg names in
      let taken = inc_all found c.speeddial_refs in
      let c' = record c { mem = λ k. c.mem (suc k) } in
      if is_empty found
      then (true, c)
      else if c.mem 0
      then (
        true,
        record c' {
          device = at d (λ x. record x { speeddials_cfg = found }) c.device;
          speeddial_refs = taken;
        },
      )
      else (false, record c' { speeddial_refs = dec_all found taken })

  -- `size` is AST_MAX_MAILBOX_UNIQUEID. The line of a device that is built is not null.
  unfoldable pub sccp_device_cfg_norm_voicemail : (size d : ℕ) → Config → Config
  unfolding norm_voicemail
  sccp_device_cfg_norm_voicemail size d c = elim (c.device d).line_cfg [
    | none ↦ c
    | some l ↦ record c {
      device =
          at d (λ x. record x { voicemail = norm_voicemail size x.voicemail (c.line l).context })
            c.device;
    }
  ]

  -- What follows the line of a device: the speed dials, the mailbox, the end of the internal part.
  unfoldable pub after_line : (size d : ℕ) → (names : List (List ℕ)) → Bool × Config → Bool × Config
  unfolding sccp_device_cfg_build_speeddials sccp_device_cfg_norm_voicemail
      sccp_device_cfg_free_internal
  after_line size d names (false, c) = (false, c)
  after_line size d names (true, c) =
      let (ok, c') = sccp_device_cfg_build_speeddials d names c in
      if ok
      then (true, sccp_device_cfg_free_internal d (sccp_device_cfg_norm_voicemail size d c'))
      else (false, c')
