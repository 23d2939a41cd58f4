-- ===== src/Setup/Makes.antt =====
-- sccp_device.c: what the creation of a device makes when there is memory.
use wazo_libsccp.Common.{ℕ, suc, ◌≡◌, refl, true, List, [], ◌∷◌, Option, none, some, is_some, arith}
use wazo_libsccp.Device.Core.{next_u32}
use wazo_libsccp.Setup.Types.{Configs, Speeddial, Line, World, spend}
use wazo_libsccp.Setup.Speeddials.{
  sccp_speeddial_alloc, keep_made, after_made, alloc_each, sccp_speeddials_init,
}
use wazo_libsccp.Setup.Life.{
  Info, device_type_is_supported, sccp_line_alloc, alloc_device, after_speeddials, after_line,
  init_device, sccp_device_create,
}

module _ {H : Type 0} where
  -- All allocations to come succeed.
  abbrev pub HasMemory : World H → Type 0
  HasMemory w = (k : ℕ) → w.mem k ≡ true

  abbrev pub Made : {A : Type 0} → Option A × World H → Type 0
  Made r = (is_some r.0 ≡ true) × HasMemory r.1

  speeddial_alloc-Made :
      (c i n : ℕ) (w : World H) → HasMemory w → Made (sccp_speeddial_alloc c i n w)
  unfolding sccp_speeddial_alloc
  speeddial_alloc-Made c i n w a = rw (a 0) (refl, λ k. a (suc k))

  line_alloc-Made :
      (C : Configs) (c i : ℕ) (w : World H) → HasMemory w → Made (sccp_line_alloc C c i w)
  unfolding sccp_line_alloc
  line_alloc-Made C c i w a = rw (a 0) (refl, λ k. a (suc k))

  after_made-Made :
      (made : Option Speeddial × World H) (rest : Option (List Speeddial) × World H)
      → Made made
      → Made rest
      → Made (after_made made rest)
  unfolding after_made keep_made
  after_made-Made (none, w) rest m n = absurd (let e = m.0 in grind (arith, e))
  after_made-Made (some sd, w) (none, v) m n = absurd (let e = n.0 in grind (arith, e))
  after_made-Made (some sd, w) (some sds, v) m n = n

  alloc_each-Made : (i n : ℕ) (cs : List ℕ) (w : World H) → HasMemory w → Made (alloc_each i n cs w)
  unfolding alloc_each
  alloc_each-Made i n [] w a = (refl, a)
  alloc_each-Made i n (c ∷ cs) w a =
      let made = sccp_speeddial_alloc c i n w in
      let m = speeddial_alloc-Made c i n w a in
      after_made-Made made (alloc_each (next_u32 i) (next_u32 n) cs made.1) m
        (alloc_each-Made (next_u32 i) (next_u32 n) cs made.1 m.1)

  init-Made : (cs : List ℕ) (i : ℕ) (w : World H) → HasMemory w → Made (sccp_speeddials_init cs i w)
  unfolding sccp_speeddials_init
  init-Made [] i w a = (refl, a)
  init-Made (c ∷ cs) i w a = rw (a 0) (alloc_each-Made i 1 (c ∷ cs) (spend w) (λ k. a (suc k)))

  after_speeddials-Made :
      (C : Configs) (cfg session : ℕ) (info : Info) (l : Line)
      (r : Option (List Speeddial) × World H)
      → Made r
      → Made (after_speeddials C cfg session info l r)
  unfolding after_speeddials
  after_speeddials-Made C cfg session info l (some sds, w) m = (refl, m.1)
  after_speeddials-Made C cfg session info l (none, w) m = absurd (let e = m.0 in grind (arith, e))

  after_line-Made :
      (C : Configs) (cfg session : ℕ) (info : Info) (r : Option Line × World H)
      → Made r
      → Made (after_line C cfg session info r)
  unfolding after_line
  after_line-Made C cfg session info (none, w) m = absurd (let e = m.0 in grind (arith, e))
  after_line-Made C cfg session info (some l, w) m =
      after_speeddials-Made C cfg session info l _
        (init-Made (C.device_cfg cfg).speeddials_cfg 2 w m.1)

  init_device-Made :
      (C : Configs) (cfg session : ℕ) (info : Info) (w : World H)
      → HasMemory w
      → Made (init_device C cfg session info w)
  unfolding init_device
  init_device-Made C cfg session info w a =
      after_line-Made C cfg session info _ (line_alloc-Made C (C.device_cfg cfg).line_cfg 1 w a)

  alloc_device-all :
      (cfg session : ℕ) (w : World H)
      → HasMemory w
      → ((alloc_device cfg session w).0 ≡ true) × HasMemory (alloc_device cfg session w).1
  unfolding alloc_device
  alloc_device-all cfg session w a = rw (a 0, a 1) (refl, λ k. a (suc (suc k)))

  -- With memory for every allocation to come, a device of a supported type is created.
  pub create-Made :
      (C : Configs) (cfg session : ℕ) (info : Info) (w : World H)
      → device_type_is_supported info.type ≡ true
      → HasMemory w
      → Made (sccp_device_create C (some cfg) (some session) (some info) w)
  unfolding sccp_device_create
  create-Made C cfg session info w t a =
      let (ok, more) = alloc_device-all cfg session w a in
      rw (t, ok) (init_device-Made C cfg session info (alloc_device cfg session w).1 more)
