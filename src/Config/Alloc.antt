-- ===== src/Config/Alloc.antt =====
-- sccp_config.c: the allocation of a configuration, of its general part, of a device and of a line.
use wazo_libsccp.Common.{
  ℕ, suc, ◌+◌, ◌-◌, ◌≡◌, refl, sym, ap, ◌∙◌, Bool, false, not, [], Option, none, some, inl, inr,
  arith, Bool-cases, if◌then◌else◌,
}
use wazo_libsccp.Config.{DeviceCfg, LineCfg}

-- The outcomes of the allocations to come, and how many pieces of memory are in use.
pub record Memory : Type 0 where
  pub mem : ℕ → Bool
  pub live : ℕ

unfoldable pub alloc : Memory → Bool × Memory
alloc m =
    (m.mem 0, record { mem = λ k. m.mem (suc k); live = (if m.mem 0 then m.live + 1 else m.live) })

unfoldable pub free : ℕ → Memory → Memory
free n m = record m { live = m.live - n }

-- The internal part, the capabilities, and the object.
unfoldable pub sccp_line_cfg_alloc : Memory → Option LineCfg × Memory
unfolding alloc free
sccp_line_cfg_alloc m =
    let (internal, m1) = alloc m in
    let (caps, m2) = alloc m1 in
    let (line_cfg, m3) = alloc m2 in
    if not internal
    then (none, m1)
    else if not caps
    then (none, free 1 m2)
    else if not line_cfg
    then (none, free 1 (free 1 m3))
    else (some (record { context = []; chanvars = []; internal = some false }), m3)

unfoldable pub sccp_device_cfg_alloc : Memory → Option DeviceCfg × Memory
unfolding alloc free
sccp_device_cfg_alloc m =
    let (internal, m1) = alloc m in
    let (device_cfg, m2) = alloc m1 in
    if not internal then (none, m1) else if not device_cfg then (none, free 1 m2) else (
      some (record {
        voicemail = [];
        guest = false;
        line_cfg = none;
        speeddials_cfg = [];
        internal = some (record { line_name = []; speeddials = [] });
      }),
      m2,
    )

-- struct sccp_general_cfg, with the member `guest` of its internal part.
pub record GeneralCfg : Type 0 where
  pub guest_device_cfg : Option ℕ
  pub internal : Option Bool

unfoldable pub sccp_general_cfg_alloc : Memory → Option GeneralCfg × Memory
unfolding alloc free
sccp_general_cfg_alloc m =
    let (internal, m1) = alloc m in
    let (general_cfg, m2) = alloc m1 in
    if not internal
    then (none, m1)
    else if not general_cfg
    then (none, free 1 m2)
    else (some (record { guest_device_cfg = none; internal = some false }), m2)

-- `ao2_cleanup(general_cfg)`: the object, and in its destructor the internal part.
unfoldable pub release_general : Memory → Memory
unfolding free
release_general m = free 1 (free 1 m)

-- What follows the general part: the containers of devices, lines and speed dials, and the object.
unfoldable pub alloc_containers : Option GeneralCfg × Memory → Option GeneralCfg × Memory
unfolding alloc free release_general
alloc_containers (none, m) = (none, m)
alloc_containers (some g, m) =
    let (devices_cfg, m1) = alloc m in
    let (lines_cfg, m2) = alloc m1 in
    let (speeddials_cfg, m3) = alloc m2 in
    let (cfg, m4) = alloc m3 in
    if not devices_cfg
    then (none, release_general m1)
    else if not lines_cfg
    then (none, free 1 (release_general m2))
    else if not speeddials_cfg
    then (none, free 1 (free 1 (release_general m3)))
    else if not cfg
    then (none, free 1 (free 1 (free 1 (release_general m4))))
    else (some g, m4)

-- The general part of the configuration stands for it; its containers are empty.
unfoldable pub sccp_cfg_alloc : Memory → Option GeneralCfg × Memory
unfolding alloc_containers sccp_general_cfg_alloc
sccp_cfg_alloc m = alloc_containers (sccp_general_cfg_alloc m)

-- All of it or nothing: `n` pieces more, or none.
abbrev pub AllOrNothing : {A : Type 0} → ℕ → Memory → Option A × Memory → Type 0
AllOrNothing n m (none, m') = (m'.live ≡ m.live) × ((k : ℕ) × (m.mem k ≡ false))
AllOrNothing n m (some a, m') = m'.live ≡ m.live + n

device_cfg_alloc-AllOrNothing : (m : Memory) → AllOrNothing 2 m (sccp_device_cfg_alloc m)
unfolding sccp_device_cfg_alloc
device_cfg_alloc-AllOrNothing m = elim (Bool-cases (m.mem 0)) [
  | inr e ↦ rw e (refl, (0, e))
  | inl e ↦ elim (Bool-cases (m.mem 1)) [
    | inr f ↦ rw (e, f) (omega arith, (1, f))
    | inl f ↦ rw (e, f) (omega arith)
  ]
]

line_cfg_alloc-AllOrNothing : (m : Memory) → AllOrNothing 3 m (sccp_line_cfg_alloc m)
unfolding sccp_line_cfg_alloc
line_cfg_alloc-AllOrNothing m = elim (Bool-cases (m.mem 0)) [
  | inr e ↦ rw e (refl, (0, e))
  | inl e ↦ elim (Bool-cases (m.mem 1)) [
    | inr f ↦ rw (e, f) (omega arith, (1, f))
    | inl f ↦ elim (Bool-cases (m.mem 2)) [
      | inr g ↦ rw (e, f, g) (omega arith, (2, g))
      | inl g ↦ rw (e, f, g) (omega arith)
    ]
  ]
]

-- With the general part, whose allocations are the first two.
containers-AllOrNothing :
    (m m2 : Memory) (g : GeneralCfg)
    → m2.live ≡ m.live + 2
    → m2.mem ≡ (λ k. m.mem (suc (suc k)))
    → AllOrNothing 6 m (alloc_containers (some g, m2))
unfolding alloc_containers
containers-AllOrNothing m m2 g l s = elim (Bool-cases (m2.mem 0)) [
  | inr e ↦ rw e (omega (arith, l), (2, sym (ap (λ f. f 0) s) ∙ e))
  | inl e ↦ elim (Bool-cases (m2.mem 1)) [
    | inr f ↦ rw (e, f) (omega (arith, l), (3, sym (ap (λ h. h 1) s) ∙ f))
    | inl f ↦ elim (Bool-cases (m2.mem 2)) [
      | inr x ↦ rw (e, f, x) (omega (arith, l), (4, sym (ap (λ h. h 2) s) ∙ x))
      | inl x ↦ elim (Bool-cases (m2.mem 3)) [
        | inr y ↦ rw (e, f, x, y) (omega (arith, l), (5, sym (ap (λ h. h 3) s) ∙ y))
        | inl y ↦ rw (e, f, x, y) (omega (arith, l))
      ]
    ]
  ]
]

cfg_alloc-AllOrNothing : (m : Memory) → AllOrNothing 6 m (sccp_cfg_alloc m)
unfolding sccp_cfg_alloc sccp_general_cfg_alloc alloc_containers
cfg_alloc-AllOrNothing m = elim (Bool-cases (m.mem 0)) [
  | inr e ↦ rw e (refl, (0, e))
  | inl e ↦ elim (Bool-cases (m.mem 1)) [
    | inr f ↦ rw (e, f) (omega arith, (1, f))
    | inl f ↦ rw (e, f) (containers-AllOrNothing m _ _ (omega arith) refl)
  ]
]

-- Whatever the allocations, a configuration, a device's and a line's are allocated as a whole, of 6,
-- 2 and 3 pieces; or an allocation fails, there is none of them, and no piece stays in use.
pub allocs-AllOrNothing :
    (m : Memory)
    → AllOrNothing 6 m (sccp_cfg_alloc m)
      × AllOrNothing 2 m (sccp_device_cfg_alloc m)
      × AllOrNothing 3 m (sccp_line_cfg_alloc m)
allocs-AllOrNothing m =
    (cfg_alloc-AllOrNothing m, device_cfg_alloc-AllOrNothing m, line_cfg_alloc-AllOrNothing m)
