-- ===== src/Registry/Found.antt =====
-- sccp_device_registry.c: what a search finds after an addition, and what a removal leaves.
use wazo_libsccp.Common.{
  ℕ, ◌≤◌, ◌≡◌, ◌==◌, ◌∙◌, sym, ap, Bool, true, List, [], ◌∷◌, some, total, count, Option-cases,
  Bool-cases, inl, inr, arith, same_bytes_eq, same_bytes_refl, ==_iff,
}
use wazo_libsccp.Registry.{
  Objects, Container, Registry, added, named, registry_add, registry_remove, registry_find,
  find_line, remove_lines, remove_device,
}
use wazo_libsccp.Registry.Contents.{
  Gains, Gains-has, indicator, is, count-total, of_lines, unlink_all-total,
}
use wazo_libsccp.Registry.Restores.{registry_add-outcome, WasFree}
use wazo_libsccp.Registry.Names.{IsValid, Gains-count}

member-count :
    (u : ℕ) (p : ℕ → Bool) (ls : List ℕ) → p u ≡ true → 1 ≤ count (is u) ls → 1 ≤ count p ls
member-count u p [] e h = absurd (omega arith)
member-count u p (l ∷ ls) e h = elim (Bool-cases (is u l)) [
  | inl i ↦ let m : l ≡ u = (==_iff l u).0 i in let e' : p l ≡ true = rw m e in ground (arith, e')
  | inr i ↦ let rest = member-count u p ls e (ground arith) in omega (arith, rest)
]

module _ (O : Objects) (E : Container O.device_name) (F : Container O.line_name) where
  remove-Gains :
      (r : Registry E.C F.C) (d : ℕ)
      → IsValid O E F r
      → 1 ≤ count (is d) (E.elements r.devices)
      → Gains O E F (registry_remove O E F r (some d)) r d
  unfolding registry_remove remove_lines remove_device
  remove-Gains r d v h = record {
    devices = λ w. let unlinked = E.unlink_removes r.devices d w h in ground (arith, unlinked);
    lines = λ w.
        let unlinked =
          unlink_all-total O E F r.lines (O.device_lines d)
            (λ u. total (of_lines O u) (E.elements (E.unlink r.devices d)))
            (λ u. omega (arith, v.lines u, E.unlink_removes r.devices d (of_lines O u) h)) w in
        let before = v.lines w in
        let devices = E.unlink_removes r.devices d (of_lines O w) h in
        ground (arith, unlinked, before, devices);
    cur_guests =
        let guests = v.guests in
        let counted = count-total O.is_guest (E.elements r.devices) in
        let rest = E.unlink_removes r.devices d (indicator O.is_guest) h in
        ground (arith, guests, counted, rest);
    max_guests = ground arith;
  }

  pub registry_remove-forgets :
      (r : Registry E.C F.C) (d : ℕ)
      → IsValid O E F r
      → 1 ≤ count (is d) (E.elements r.devices)
      → count
          (named O.device_name (O.device_name d))
          (E.elements (registry_remove O E F r (some d)).devices)
        ≡ 0
  registry_remove-forgets r d v h =
      let g = remove-Gains r d v h in
      let n = named O.device_name (O.device_name d) in
      let own : n d ≡ true = same_bytes_refl (O.device_name d) in
      ground (
        arith,
        own,
        v.names (O.device_name d),
        Gains-count O E F (registry_remove O E F r (some d)) r d n g,
      )

  -- Removing a registered device: the number of guests stays the number of registered guests, no
  -- two devices have one name, and the lines are those of the devices that are left.
  pub registry_remove-IsValid :
      (r : Registry E.C F.C) (d : ℕ)
      → 1 ≤ count (λ b. b == d) (E.elements r.devices)
      → IsValid O E F r
      → IsValid O E F (registry_remove O E F r (some d))
  registry_remove-IsValid r d h v =
      let r' = registry_remove O E F r (some d) in
      let g = remove-Gains r d v h in
      record {
        max_fits = omega (arith, g.max_guests, v.max_fits);
        cur_fits = omega (arith, g.cur_guests, v.cur_fits);
        guests = omega (arith, g.cur_guests, v.guests, Gains-count O E F r' r d O.is_guest g);
        names = λ n. omega (arith, v.names n, Gains-count O E F r' r d (named O.device_name n) g);
        lines = λ w. omega (arith, v.lines w, g.lines w, g.devices (of_lines O w));
      }

  found-device :
      (r r' : Registry E.C F.C) (d : ℕ)
      → WasFree O E F r d
      → Gains O E F r r' d
      → registry_find O E F r' (some (O.device_name d)) ≡ some d
  unfolding registry_find
  found-device r r' d free g =
      let n = O.device_name d in
      elim (Option-cases (E.find r'.devices n)) [
        | inl e ↦
            let none_there = E.find_none r'.devices n e in
            let here =
              member-count d (named O.device_name n) (E.elements r'.devices) (same_bytes_refl n)
                (Gains-has O E F r r' d g) in
            absurd (omega (arith, none_there, here))
        | inr (u, e) ↦
            let (m, h) = E.find_some r'.devices n u e in
            elim (Bool-cases (is u d)) [
              | inl i ↦ e ∙ ap some (sym ((==_iff d u).0 i))
              | inr i ↦
                  let old : 1 ≤ count (is u) (E.elements r.devices) =
                    ground (arith, h, Gains-count O E F r r' d (is u) g) in
                  absurd (
                    omega (
                      arith,
                      free.0,
                      member-count u (named O.device_name n) (E.elements r.devices) m old,
                    ))
            ]
      ]

  found-line :
      (r r' : Registry E.C F.C) (d : ℕ)
      → Gains O E F r r' d
      → (l : ℕ) → 1 ≤ count (is l) (O.device_lines d)
      → (l' : ℕ) × (find_line O E F r' (some (O.line_name l)) ≡ some l')
        × (O.line_name l' ≡ O.line_name l)
  unfolding find_line
  found-line r r' d g l h =
      let n = O.line_name l in
      elim (Option-cases (F.find r'.lines n)) [
        | inl e ↦
            let linked : 1 ≤ count (is l) (F.elements r'.lines) = omega (
              arith,
              h,
              count-total (is l) (F.elements r'.lines),
              count-total (is l) (O.device_lines d),
              g.lines (indicator (is l)),
            ) in
            let here =
              member-count l (named O.line_name n) (F.elements r'.lines) (same_bytes_refl n)
                linked in
            absurd (omega (arith, F.find_none r'.lines n e, here))
        | inr (u, e) ↦ (u, e, same_bytes_eq (O.line_name u) n (F.find_some r'.lines n u e).0)
      ]

  -- After an addition that returned 0, a search for the device's name finds that device, and a
  -- search for the name of one of its lines finds a line of that name.
  pub registry_add-find :
      (r : Registry E.C F.C) (d : ℕ)
      → IsValid O E F r
      → (registry_add O E F r (some d)).0 ≡ added
      → (registry_find O E F (registry_add O E F r (some d)).1 (some (O.device_name d)) ≡ some d)
        × ((l : ℕ)
            → 1 ≤ count (λ b. b == l) (O.device_lines d)
            → (l' : ℕ) × (find_line O E F (registry_add O E F r (some d)).1 (some (O.line_name l))
                ≡ some l')
              × (O.line_name l' ≡ O.line_name l))
  registry_add-find r d v ok = elim (registry_add-outcome O E F r d v.max_fits v.cur_fits) [
    | inl (ok', free, g) ↦
        let r' = (registry_add O E F r (some d)).1 in
        (found-device r r' d free g, λ l h. found-line r r' d g l h)
    | inr (no_, s) ↦ absurd (no_ ok)
  ]
