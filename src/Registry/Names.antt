-- ===== src/Registry/Names.antt =====
-- sccp_device_registry.c: the names of the devices, the number of guests, and the lines.
use wazo_libsccp.Common.{
  ℕ, ◌+◌, ◌^◌, ◌≤◌, ◌<◌, ◌≡◌, sym, Bool, List, Option, none, some, total, count, Bool-cases, inl,
  inr, arith, same_bytes_eq,
}
use wazo_libsccp.Registry.{Objects, Container, Registry, named, registry_add}
use wazo_libsccp.Registry.Contents.{IsSame, Gains, indicator, count-total, of_lines}
use wazo_libsccp.Registry.Restores.{registry_add-outcome, WasFree}

module _ (O : Objects) (E : Container O.device_name) (F : Container O.line_name) where
  -- Two `unsigned int`s, the number of guests is the number of registered guests, no two devices
  -- have one name, and the lines are the lines of the devices.
  pub record IsValid (r : Registry E.C F.C) : Type 0 where
    pub max_fits : r.max_guests < 2 ^ 32
    pub cur_fits : r.cur_guests < 2 ^ 32
    pub guests : r.cur_guests ≡ count O.is_guest (E.elements r.devices)
    pub names : (n : List ℕ) → count (named O.device_name n) (E.elements r.devices) ≤ 1
    pub lines :
        (w : ℕ → ℕ) → total w (F.elements r.lines) ≡ total (of_lines O w) (E.elements r.devices)

  pub IsSame-count :
      (r r' : Registry E.C F.C) (p : ℕ → Bool)
      → IsSame O E F r r'
      → count p (E.elements r'.devices) ≡ count p (E.elements r.devices)
  IsSame-count r r' p s = omega (
    arith,
    count-total p (E.elements r'.devices),
    count-total p (E.elements r.devices),
    s.devices (indicator p),
  )

  IsSame-IsValid : (r r' : Registry E.C F.C) → IsSame O E F r r' → IsValid r → IsValid r'
  IsSame-IsValid r r' s v = record {
    max_fits = omega (arith, s.max_guests, v.max_fits);
    cur_fits = omega (arith, s.cur_guests, v.cur_fits);
    guests = omega (arith, s.cur_guests, v.guests, IsSame-count r r' O.is_guest s);
    names = λ n. omega (arith, v.names n, IsSame-count r r' (named O.device_name n) s);
    lines = λ w. omega (arith, v.lines w, s.lines w, s.devices (of_lines O w));
  }

  pub Gains-count :
      (r r' : Registry E.C F.C) (d : ℕ) (p : ℕ → Bool)
      → Gains O E F r r' d
      → count p (E.elements r'.devices) ≡ indicator p d + count p (E.elements r.devices)
  Gains-count r r' d p g = omega (
    arith,
    count-total p (E.elements r'.devices),
    count-total p (E.elements r.devices),
    g.devices (indicator p),
  )

  Gains-names :
      (r r' : Registry E.C F.C) (d : ℕ)
      → Gains O E F r r' d
      → count (named O.device_name (O.device_name d)) (E.elements r.devices) ≡ 0
      → ((n : List ℕ) → count (named O.device_name n) (E.elements r.devices) ≤ 1)
      → (n : List ℕ) → count (named O.device_name n) (E.elements r'.devices) ≤ 1
  Gains-names r r' d g free unique n = elim (Bool-cases (named O.device_name n d)) [
    | inl e ↦
        let m : O.device_name d ≡ n = same_bytes_eq (O.device_name d) n e in
        let free' : count (named O.device_name n) (E.elements r.devices) ≡ 0 = rw (sym m) free in
        ground (arith, free', Gains-count r r' d (named O.device_name n) g)
    | inr e ↦ ground (arith, unique n, Gains-count r r' d (named O.device_name n) g)
  ]

  Gains-IsValid :
      (r r' : Registry E.C F.C) (d : ℕ)
      → Gains O E F r r' d
      → WasFree O E F r d
      → IsValid r
      → IsValid r'
  Gains-IsValid r r' d g free v = record {
    max_fits = omega (arith, g.max_guests, v.max_fits);
    cur_fits = ground (arith, g.cur_guests, v.cur_fits, v.max_fits, free.1);
    guests = omega (arith, g.cur_guests, v.guests, Gains-count r r' d O.is_guest g);
    names = Gains-names r r' d g free.0 v.names;
    lines = λ w. omega (arith, v.lines w, g.lines w, g.devices (of_lines O w));
  }

  -- Adding a device, or a null one, whatever the allocations: the number of guests stays the number
  -- of registered guests, no two devices have one name, and the lines are those of the devices.
  pub registry_add-IsValid :
      (r : Registry E.C F.C) (d : Option ℕ) → IsValid r → IsValid (registry_add O E F r d).1
  unfolding registry_add
  registry_add-IsValid r none v = v
  registry_add-IsValid r (some d) v = elim (registry_add-outcome O E F r d v.max_fits v.cur_fits) [
    | inl (ok, free, g) ↦ Gains-IsValid r (registry_add O E F r (some d)).1 d g free v
    | inr (no_, s) ↦ IsSame-IsValid r (registry_add O E F r (some d)).1 s v
  ]
