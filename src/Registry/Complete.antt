-- ===== src/Registry/Complete.antt =====
-- sccp_device_registry.c: the operations that go through all devices.
use wazo_libsccp.Common.{
  ℕ, suc, ◌+◌, ◌-◌, ◌≤◌, ◌≡◌, refl, ◌∙◌, Bool, true, false, if◌then◌else◌, List, [], ◌∷◌, none,
  some, ltb, filter, get_elem?, Bool-cases, inl, inr, arith, ap,
}
use wazo_libsccp.Registry.{Objects, Container, Registry, complete_from, registry_complete}
use mathlib.Core.Option.{map}

module _ (O : Objects) (E : Container O.device_name) (F : Container O.line_name) where
  complete_from-filter :
      (allocated : Bool) (matches : ℕ → Bool) (ds : List ℕ) (state which : ℕ)
      → which ≤ state
      → complete_from O E F allocated matches state which ds ≡ (
          if allocated
          then map O.device_name (get_elem? (filter matches ds) (state - which))
          else none)
  unfolding complete_from
  complete_from-filter true matches [] state which h = refl
  complete_from-filter false matches [] state which h = refl
  complete_from-filter allocated matches (d ∷ ds) state which h = elim (Bool-cases (matches d)) [
    | inr m ↦ rw (complete_from, m) (complete_from-filter allocated matches ds state which h)
    | inl m ↦ elim (Bool-cases (ltb state (which + 1))) [
      | inl l ↦ let z : state - which ≡ 0 = ground arith in rw (complete_from, m, l, z) refl
      | inr l ↦
          let z : state - which ≡ suc (state - (which + 1)) = ground arith in
          rw (complete_from, m, l, z)
            (complete_from-filter allocated matches ds state (which + 1) (ground arith))
    ]
  ]

  -- Completing a word: the answer for a number is the name of the device of that number among
  -- those that match the word, in the order of the iteration, and none from their count on, or if
  -- there is no memory for the name.
  pub registry_complete-filter :
      (allocated : Bool) (strncasecmp : List ℕ → List ℕ → Bool) (r : Registry E.C F.C)
      (word : List ℕ) (state : ℕ)
      → registry_complete O E F allocated strncasecmp r (some word) state ≡ (
          if allocated
          then map O.device_name (
              get_elem?
                (filter (λ d. strncasecmp word (O.device_name d)) (E.elements r.devices))
                state)
          else none)
  unfolding registry_complete
  registry_complete-filter allocated strncasecmp r word state =
      let matches : ℕ → Bool = λ d. strncasecmp word (O.device_name d) in
      let ds = E.elements r.devices in
      let z : state - 0 ≡ state = omega arith in
      complete_from-filter allocated matches ds state 0 (omega arith)
      ∙ ap (λ k. if allocated then map O.device_name (get_elem? (filter matches ds) k) else none) z
