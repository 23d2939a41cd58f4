-- ===== src/Registry/Restores.antt =====
-- sccp_device_registry.c: an addition that fails, and an addition that is taken back.
use wazo_libsccp.Common.{
  ℕ, ◌^◌, ◌<◌, ◌≡◌, ◌≢◌, ◌⊎◌, refl, true, ◌&&◌, some, leb, count, Option-cases, Bool-cases, inl,
  inr, arith,
}
use wazo_libsccp.Registry.{Objects, Container, Registry, added, named, registry_add}
use wazo_libsccp.Registry.Contents.{IsSame, Gains, add_new-outcome}

module _ (O : Objects) (E : Container O.device_name) (F : Container O.line_name) where
  pub IsSame-refl : (r : Registry E.C F.C) → IsSame O E F r r
  IsSame-refl r = record {
    devices = λ w. refl;
    lines = λ w. refl;
    cur_guests = refl;
    max_guests = refl;
  }

  -- The device was new, and a guest had room.
  abbrev pub WasFree : Registry E.C F.C → ℕ → Type 0
  WasFree r d =
      (count (named O.device_name (O.device_name d)) (E.elements r.devices) ≡ 0)
      × (O.is_guest d ≡ true → r.cur_guests < r.max_guests)

  -- Whatever the allocations and the registry's contents: an addition returns 0, and then the
  -- device's name was free, a guest had room, and the registry gains the device, its lines and, for
  -- a guest, one guest; or it returns a code other than 0, and the registry holds the same devices
  -- and lines and the same numbers as before, lines that had been linked included.
  pub registry_add-outcome :
      (r : Registry E.C F.C) (d : ℕ)
      → r.max_guests < 2 ^ 32
      → r.cur_guests < 2 ^ 32
      → (((registry_add O E F r (some d)).0 ≡ added)
          × WasFree r d
          × Gains O E F r (registry_add O E F r (some d)).1 d)
        ⊎ (((registry_add O E F r (some d)).0 ≢ added)
            × IsSame O E F r (registry_add O E F r (some d)).1)
  unfolding registry_add
  registry_add-outcome r d m c = elim (Bool-cases (O.is_guest d && leb r.max_guests r.cur_guests)) [
    | inl g ↦ rw (registry_add, g) (inr ((λ e. grind (arith, e)), IsSame-refl r))
    | inr g ↦ elim (Option-cases (E.find r.devices (O.device_name d))) [
      | inr (other, e) ↦ rw (registry_add, g, e) (inr ((λ e. grind (arith, e)), IsSame-refl r))
      | inl e ↦ elim (add_new-outcome O E F r d (ground arith)) [
        | inl (ok, gains) ↦
            rw (registry_add, g, e)
              (inl (ok, (E.find_none r.devices (O.device_name d) e, λ guest. ground arith), gains))
        | inr (no_, same) ↦ rw (registry_add, g, e) (inr (λ ok. grind (arith, ok, no_), same))
      ]
    ]
  ]
