-- ===== src/Registry/Tests.antt =====
-- Runs of the registry over containers that are lists.
use wazo_libsccp.Registry.Example.{lists, objects}
use wazo_libsccp.Common.{
  ℕ, ◌≤◌, ◌≡◌, ◌==◌, refl, ◌⊎◌, ◌≢◌, true, List, [], ◌∷◌, Option, none, some, count, arith,
}
use wazo_libsccp.Registry.{
  Registry, AddRet, added, not_added, maxguests, registry_add, registry_remove, registry_find,
  find_line, registry_complete, link_lines, unlink_all, add_lines, add_device, add_new,
  remove_device,
}
use wazo_libsccp.Registry.Contents.{IsSame, Gains}
use wazo_libsccp.Registry.Restores.{registry_add-outcome, WasFree}
use wazo_libsccp.Registry.Names.{IsValid, registry_add-IsValid}
use wazo_libsccp.Registry.Found.{registry_remove-IsValid, registry_add-find}
use wazo_libsccp.Registry.Complete.{registry_complete-filter}

abbrev guest_in : Registry (List ℕ) (List ℕ)
guest_in = record { max_guests = 1; cur_guests = 1; devices = 1 ∷ []; lines = 11 ∷ [] }

abbrev add : Registry (List ℕ) (List ℕ) → Option ℕ → AddRet × Registry (List ℕ) (List ℕ)
add = registry_add objects (lists objects.device_name) (lists objects.line_name)

abbrev remove : Registry (List ℕ) (List ℕ) → Option ℕ → Registry (List ℕ) (List ℕ)
remove = registry_remove objects (lists objects.device_name) (lists objects.line_name)

abbrev Valid : Registry (List ℕ) (List ℕ) → Type 0
Valid = IsValid objects (lists objects.device_name) (lists objects.line_name)

-- A second guest has no room, and device 3 loses its first line again.
add_tests :
    (add guest_in (some 1) ≡ (maxguests, guest_in))
    × (add guest_in (some 3) ≡ (not_added, guest_in))
    × (add guest_in none ≡ (not_added, guest_in))
    × ((add guest_in (some 2)).1.lines ≡ 12 ∷ 11 ∷ [])
unfolding registry_add add_new add_device add_lines link_lines unlink_all remove_device
add_tests = (refl, refl, refl, refl)

guest_in-IsValid : Valid guest_in
guest_in-IsValid = record {
  max_fits = omega arith;
  cur_fits = omega arith;
  guests = refl;
  names = λ n. ground arith;
  lines = λ w. omega arith;
}

registry_add-IsValid_example : Valid (add guest_in (some 2)).1
registry_add-IsValid_example =
    registry_add-IsValid objects (lists objects.device_name) (lists objects.line_name) guest_in
      (some 2) guest_in-IsValid

registry_remove-IsValid_example : Valid (remove guest_in (some 1))
registry_remove-IsValid_example =
    registry_remove-IsValid objects (lists objects.device_name) (lists objects.line_name) guest_in 1
      (ground arith) guest_in-IsValid

-- Device 3, whose second line cannot be linked.
registry_add-outcome_example :
    (((add guest_in (some 3)).0 ≡ added)
      × WasFree objects (lists objects.device_name) (lists objects.line_name) guest_in 3
      × Gains objects
          (lists objects.device_name)
          (lists objects.line_name)
          guest_in
          (add guest_in (some 3)).1
          3)
    ⊎ (((add guest_in (some 3)).0 ≢ added)
        × IsSame objects
            (lists objects.device_name)
            (lists objects.line_name)
            guest_in
            (add guest_in (some 3)).1)
registry_add-outcome_example =
    registry_add-outcome objects (lists objects.device_name) (lists objects.line_name) guest_in 3
      (omega arith) (omega arith)

adds_it : (add guest_in (some 2)).0 ≡ added
unfolding registry_add add_new add_device add_lines link_lines
adds_it = refl

registry_add-find_example :
    (registry_find objects
        (lists objects.device_name)
        (lists objects.line_name)
        (add guest_in (some 2)).1
        (some (2 ∷ []))
      ≡ some 2)
    × ((l : ℕ)
        → 1 ≤ count (λ b. b == l) (12 ∷ [])
        → (l' : ℕ) × (find_line objects
              (lists objects.device_name)
              (lists objects.line_name)
              (add guest_in (some 2)).1
              (some (l ∷ []))
            ≡ some l')
          × (l' ∷ [] ≡ l ∷ []))
registry_add-find_example =
    registry_add-find objects (lists objects.device_name) (lists objects.line_name) guest_in 2
      guest_in-IsValid adds_it

registry_complete-filter_example :
    registry_complete objects
      (lists objects.device_name)
      (lists objects.line_name)
      true
      (λ word name. true)
      guest_in
      (some [])
      0
    ≡ some (1 ∷ [])
registry_complete-filter_example =
    registry_complete-filter objects (lists objects.device_name) (lists objects.line_name) true
      (λ word name. true) guest_in [] 0
