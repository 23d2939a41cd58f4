-- ===== src/Setup/Lookup.antt =====
-- sccp_device.c: how a phone's requests name the speed dials of its device.
use wazo_libsccp.Common.{
  ℕ, zero, suc, ◌+◌, ◌-◌, ◌%◌, ◌^◌, ◌≤◌, ◌<◌, ◌≡◌, ◌==◌, refl, sym, ap, true, false, List, [], ◌∷◌,
  none, some, Bool-cases, inl, inr, length, get_elem?, arith, if◌then◌else◌,
}
use mathlib.Core.Option
use wazo_libsccp.Device.Core.{next_u32}
use wazo_libsccp.Setup.Types.{Speeddial, Configs, Hints, World}
use wazo_libsccp.Setup.Create.{Numbered}
use wazo_libsccp.Setup.Speeddials.{
  sccp_speeddials_get_by_instance, sccp_speeddials_get_by_index,
  sccp_speeddials_on_registration_success, sccp_speeddial_add_extension_state_cb,
}

-- The speed dials for these configurations, numbered on from two numbers, subscribed or not.
abbrev pub Placed : (instance_ index : ℕ) → List ℕ → List Speeddial → Type 0
Placed i index [] [] = Unit {0}
Placed i index [] (sd ∷ sds) = ⊥
Placed i index (c ∷ cs) [] = ⊥
Placed i index (c ∷ cs) (sd ∷ sds) =
    (sd.cfg ≡ c)
    × (sd.instance_ ≡ i)
    × (sd.index ≡ index)
    × Placed (next_u32 i) (next_u32 index) cs sds

-- A device that was created has its speed dials placed.
pub Numbered-Placed :
    (i index : ℕ) (cs : List ℕ) (sds : List Speeddial)
    → Numbered i index cs sds
    → Placed i index cs sds
Numbered-Placed i index [] [] n = tt
Numbered-Placed i index [] (sd ∷ sds) n = elim n [ ]
Numbered-Placed i index (c ∷ cs) [] n = elim n [ ]
Numbered-Placed i index (c ∷ cs) (sd ∷ sds) (a, b, x, y, z, n) =
    (a, x, y, Numbered-Placed (next_u32 i) (next_u32 index) cs sds n)

-- A registration moves no speed dial.
pub registration-Placed :
    (Q : Hints) (C : Configs) (context : List ℕ) (cs : List ℕ) (i index : ℕ) (sds : List Speeddial)
    (w : World Q.H)
    → Placed i index cs sds
    → Placed i index cs (sccp_speeddials_on_registration_success Q C context sds w).0
unfolding sccp_speeddials_on_registration_success sccp_speeddial_add_extension_state_cb
registration-Placed Q C context [] i index [] w n = tt
registration-Placed Q C context [] i index (sd ∷ sds) w n = elim n [ ]
registration-Placed Q C context (c ∷ cs) i index [] w n = elim n [ ]
registration-Placed Q C context (c ∷ cs) i index (sd ∷ sds) w (a, x, y, n) =
    let rest =
      λ (v : World Q.H). registration-Placed Q C context cs (next_u32 i) (next_u32 index) sds v n in
    elim (Bool-cases (C.speeddial_cfg sd.cfg).blf) [
      | inl b ↦ rw b (a, x, y, rest _)
      | inr b ↦ rw b (a, x, y, rest _)
    ]

get_elem?-past : {A : Type 0} (xs : List A) (n : ℕ) → length xs ≤ n → get_elem? xs n ≡ none
get_elem?-past [] n h = refl
get_elem?-past (x ∷ xs) zero h = absurd (omega arith)
get_elem?-past (x ∷ xs) (suc n) h = get_elem?-past xs n (omega arith)

Placed-length :
    (i index : ℕ) (cs : List ℕ) (sds : List Speeddial)
    → Placed i index cs sds
    → length sds ≡ length cs
Placed-length i index [] [] n = refl
Placed-length i index [] (sd ∷ sds) n = elim n [ ]
Placed-length i index (c ∷ cs) [] n = elim n [ ]
Placed-length i index (c ∷ cs) (sd ∷ sds) (a, x, y, n) =
    omega (arith, Placed-length (next_u32 i) (next_u32 index) cs sds n)

below-instance :
    (i index m : ℕ) (cs : List ℕ) (sds : List Speeddial)
    → i + length cs < 2 ^ 32
    → m < i
    → Placed i index cs sds
    → sccp_speeddials_get_by_instance sds m ≡ none
unfolding sccp_speeddials_get_by_instance
below-instance i index m [] [] h l n = refl
below-instance i index m [] (sd ∷ sds) h l n = elim n [ ]
below-instance i index m (c ∷ cs) [] h l n = elim n [ ]
below-instance i index m (c ∷ cs) (sd ∷ sds) h l (a, x, y, n) =
    let e : (i == m) ≡ false = ground arith in
    rw (x, e) (below-instance (next_u32 i) (next_u32 index) m cs sds (omega arith) (omega arith) n)

instance-elem :
    (i index m : ℕ) (cs : List ℕ) (sds : List Speeddial)
    → i + length cs < 2 ^ 32
    → Placed i index cs sds
    → sccp_speeddials_get_by_instance sds (i + m) ≡ get_elem? sds m
unfolding sccp_speeddials_get_by_instance
instance-elem i index m [] [] h n = refl
instance-elem i index m [] (sd ∷ sds) h n = elim n [ ]
instance-elem i index m (c ∷ cs) [] h n = elim n [ ]
instance-elem i index zero (c ∷ cs) (sd ∷ sds) h (a, x, y, n) =
    let e : (i == i + 0) ≡ true = ground arith in rw (x, e) refl
instance-elem i index (suc m) (c ∷ cs) (sd ∷ sds) h (a, x, y, n) =
    let e : (i == i + suc m) ≡ false = ground arith in
    let s : i + suc m ≡ next_u32 i + m = omega arith in
    rw (x, e, s) (instance-elem (next_u32 i) (next_u32 index) m cs sds (omega arith) n)

elem-cfg :
    (i index m : ℕ) (cs : List ℕ) (sds : List Speeddial)
    → Placed i index cs sds
    → Option.map (λ sd. sd.cfg) (get_elem? sds m) ≡ get_elem? cs m
elem-cfg i index m [] [] n = refl
elem-cfg i index m [] (sd ∷ sds) n = elim n [ ]
elem-cfg i index m (c ∷ cs) [] n = elim n [ ]
elem-cfg i index zero (c ∷ cs) (sd ∷ sds) (a, x, y, n) = ap (λ k. some k) a
elem-cfg i index (suc m) (c ∷ cs) (sd ∷ sds) (a, x, y, n) =
    elem-cfg (next_u32 i) (next_u32 index) m cs sds n

-- In a device with the speed dials of a configuration, subscribed or not, in order and numbered from
-- instance 2 and index 1 on, fewer than 2^32 - 2 of them, a request by any index below 2^32 - 1 finds
-- the speed dial that a request by the next higher number as instance finds: the one of that place in
-- the configuration. Index 0 and instance 1, which is the line's, find none.
pub index-instance :
    (k : ℕ) (cs : List ℕ) (sds : List Speeddial)
    → length cs + 2 < 2 ^ 32
    → k + 1 < 2 ^ 32
    → Placed 2 1 cs sds
    → (sccp_speeddials_get_by_index sds k ≡ sccp_speeddials_get_by_instance sds (k + 1))
      × (Option.map (λ sd. sd.cfg) (sccp_speeddials_get_by_index sds k)
          ≡ (if k == 0 then none else get_elem? cs (k - 1)))
unfolding sccp_speeddials_get_by_index
index-instance zero cs sds h l n =
    let e : (0 + 2 ^ 32 - 1) % 2 ^ 32 ≡ 4294967295 = omega arith in
    let past = get_elem?-past sds 4294967295 (omega (arith, Placed-length 2 1 cs sds n)) in
    (
      rw (e, past) (sym (below-instance 2 1 (0 + 1) cs sds (omega arith) (omega arith) n)),
      rw (e, past) refl,
    )
index-instance (suc k) cs sds h l n =
    let e : (suc k + 2 ^ 32 - 1) % 2 ^ 32 ≡ k = omega arith in
    let s : suc k + 1 ≡ 2 + k = omega arith in
    let p : suc k - 1 ≡ k = omega arith in
    let q : (suc k == 0) ≡ false = ground arith in
    (
      rw (e, s) (sym (instance-elem 2 1 k cs sds (omega arith) n)),
      rw (e, p, q) (elem-cfg 2 1 k cs sds n),
    )
