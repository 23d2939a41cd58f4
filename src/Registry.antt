-- ===== src/Registry.antt =====
-- sccp_device_registry.c: the registered devices and their lines. A pointer to a device or to a
-- line is a number, and what the registry reads of them, which does not change while they live, is
-- the parameter `Objects`. Asterisk's hash containers are the parameter `Container`, whose laws are
-- those of asterisk/astobj2.h. The mutex makes each operation one step; an operation's log is left
-- out. A null pointer is `none`.
pub mod Contents
pub mod Names
pub mod Found
pub mod Restores
pub mod Complete
pub mod Example
mod Tests
use wazo_libsccp.Common.{
  ℕ, zero, suc, ◌+◌, ◌-◌, ◌%◌, ◌^◌, ◌≤◌, ◌≡◌, ◌==◌, Bool, true, false, ◌&&◌, List, [], ◌∷◌, Option,
  none, some, if◌then◌else◌, ltb, leb, total, count, length, same_bytes,
}

-- sccp_device_name, sccp_device_is_guest, sccp_device_line for each index, sccp_line_name.
pub record Objects : Type 0 where
  pub device_name : ℕ → List ℕ
  pub is_guest : ℕ → Bool
  pub device_lines : ℕ → List ℕ
  pub line_name : ℕ → List ℕ

-- The comparison of `sccp_device_cmp` and `sccp_line_cmp`, for a search by name.
abbrev pub named : (ℕ → List ℕ) → List ℕ → ℕ → Bool
named name n a = same_bytes (name a) n

-- A hash container of objects, without a lock, whose search key is a name.
pub record Container (name : ℕ → List ℕ) : Type 1 where
  pub C : Type 0
  pub alloc : C
  -- In the order of an iteration.
  pub elements : C → List ℕ
  pub link : C → ℕ → Bool × C
  pub unlink : C → ℕ → C
  pub find : C → List ℕ → Option ℕ
  pub alloc_empty : elements alloc ≡ []
  pub link_adds :
      (c : C) (a : ℕ) (w : ℕ → ℕ)
      → (link c a).0 ≡ true
      → total w (elements (link c a).1) ≡ w a + total w (elements c)
  pub link_fails : (c : C) (a : ℕ) → (link c a).0 ≡ false → (link c a).1 ≡ c
  pub unlink_removes :
      (c : C) (a : ℕ) (w : ℕ → ℕ)
      → 1 ≤ count (λ b. b == a) (elements c)
      → total w (elements c) ≡ w a + total w (elements (unlink c a))
  pub find_none : (c : C) (n : List ℕ) → find c n ≡ none → count (named name n) (elements c) ≡ 0
  pub find_some :
      (c : C) (n : List ℕ) (a : ℕ)
      → find c n ≡ some a
      → (named name n a ≡ true) × (1 ≤ count (λ b. b == a) (elements c))

-- 0, -1 and the codes of sccp_device_registry.h.
pub data AddRet : Type 0 where
  added not_added already maxguests : AddRet

pub record Registry (D L : Type 0) : Type 0 where
  pub max_guests : ℕ
  pub cur_guests : ℕ
  pub devices : D
  pub lines : L

-- `sccp_device_take_snapshot` of each device.
unfoldable pub snapshots : {S : Type 0} → (ℕ → S) → List ℕ → List S
snapshots f [] = []
snapshots f (d ∷ ds) = f d ∷ snapshots f ds

module _ (O : Objects) (E : Container O.device_name) (F : Container O.line_name) where
  -- The configuration's `max_guests`, if there is a configuration; then three allocations.
  unfoldable pub registry_create : Bool → Bool → Bool → Option ℕ → Option (Registry E.C F.C)
  registry_create a b c none = none
  registry_create a b c (some max) =
      if a && b && c
      then some (record { max_guests = max; cur_guests = 0; devices = E.alloc; lines = F.alloc })
      else none

  -- The loop at `error:`, over the lines linked so far, the last one first.
  unfoldable pub unlink_all : F.C → List ℕ → F.C
  unlink_all c [] = c
  unlink_all c (l ∷ ls) = unlink_all (F.unlink c l) ls

  -- The loop of `add_lines`: the lines linked so far, and those to come.
  unfoldable pub link_lines : F.C → List ℕ → List ℕ → Bool × F.C
  unfolding unlink_all
  link_lines c linked [] = (true, c)
  link_lines c linked (l ∷ ls) = elim (F.link c l).0 [
    | true ↦ link_lines (F.link c l).1 (l ∷ linked) ls
    | false ↦ (false, unlink_all (F.link c l).1 linked)
  ]

  unfoldable pub add_lines : Registry E.C F.C → ℕ → Bool × Registry E.C F.C
  unfolding link_lines
  add_lines r d =
      let (ok, c) = link_lines r.lines [] (O.device_lines d) in (ok, record r { lines = c })

  unfoldable pub remove_lines : Registry E.C F.C → ℕ → Registry E.C F.C
  unfolding unlink_all
  remove_lines r d = record r { lines = unlink_all r.lines (O.device_lines d) }

  unfoldable pub add_device : Registry E.C F.C → ℕ → Bool × Registry E.C F.C
  add_device r d = let (ok, c) = E.link r.devices d in (ok, record r { devices = c })

  unfoldable pub remove_device : Registry E.C F.C → ℕ → Registry E.C F.C
  remove_device r d = record r { devices = E.unlink r.devices d }

  -- `sccp_device_registry_add` from the link of the device on.
  unfoldable pub add_new : Registry E.C F.C → ℕ → AddRet × Registry E.C F.C
  unfolding add_device add_lines remove_device
  add_new r d =
      let (ok, r1) = add_device r d in
      let (ok', r2) = add_lines r1 d in
      let r3 = record r2 { cur_guests = (r2.cur_guests + 1) % 2 ^ 32 } in
      if ok
      then (if ok'
          then (added, if O.is_guest d then r3 else r2)
          else (not_added, remove_device r2 d))
      else (not_added, r1)

  unfoldable pub registry_add : Registry E.C F.C → Option ℕ → AddRet × Registry E.C F.C
  unfolding add_new
  registry_add r none = (not_added, r)
  registry_add r (some d) =
      if O.is_guest d && leb r.max_guests r.cur_guests
      then (maxguests, r)
      else elim (E.find r.devices (O.device_name d)) [
        | some other ↦ (already, r)
        | none ↦ add_new r d
      ]

  unfoldable pub registry_remove : Registry E.C F.C → Option ℕ → Registry E.C F.C
  unfolding remove_lines remove_device
  registry_remove r none = r
  registry_remove r (some d) =
      let r' = remove_device (remove_lines r d) d in
      if O.is_guest d && ltb 0 r'.cur_guests
      then record r' { cur_guests = r'.cur_guests - 1 }
      else r'

  unfoldable pub registry_find : Registry E.C F.C → Option (List ℕ) → Option ℕ
  registry_find r none = none
  registry_find r (some n) = E.find r.devices n

  unfoldable pub find_line : Registry E.C F.C → Option (List ℕ) → Option ℕ
  find_line r none = none
  find_line r (some n) = F.find r.lines n

  -- The loop of `sccp_device_registry_do`; the callback's effects are on a state `S`.
  unfoldable pub do_all : {S : Type 0} → (ℕ → S → S) → List ℕ → S → S
  do_all callback [] s = s
  do_all callback (d ∷ ds) s = do_all callback ds (callback d s)

  unfoldable pub registry_do : {S : Type 0} → Registry E.C F.C → (ℕ → S → S) → S → S
  unfolding do_all
  registry_do r callback s = do_all callback (E.elements r.devices) s

  -- The loop of `sccp_device_registry_complete`, with its counter; strncasecmp over the length of
  -- the word is the test `matches`, and `allocated` tells whether `ast_strdup` succeeds.
  unfoldable pub complete_from : Bool → (ℕ → Bool) → ℕ → ℕ → List ℕ → Option (List ℕ)
  complete_from allocated matches state which [] = none
  complete_from allocated matches state which (d ∷ ds) = elim (matches d) [
    | true ↦ elim (ltb state (which + 1)) [
      | true ↦ if allocated then some (O.device_name d) else none
      | false ↦ complete_from allocated matches state (which + 1) ds
    ]
    | false ↦ complete_from allocated matches state which ds
  ]

  unfoldable pub registry_complete :
      (allocated : Bool)
      → (List ℕ → List ℕ → Bool)
      → Registry E.C F.C
      → Option (List ℕ)
      → ℕ
      → Option (List ℕ)
  unfolding complete_from
  registry_complete allocated strncasecmp r none state = none
  registry_complete allocated strncasecmp r (some word) state =
      complete_from allocated (λ d. strncasecmp word (O.device_name d)) state 0
        (E.elements r.devices)

  -- The snapshots, and `*n`; the two pointers it writes through are not null.
  unfoldable pub take_snapshots :
      {S : Type 0} → Bool → (ℕ → S) → Registry E.C F.C → AddRet × Option (List S) × ℕ
  unfolding snapshots
  take_snapshots allocated snapshot r = elim (E.elements r.devices) [
    | [] ↦ (added, none, 0)
    | d ∷ ds ↦
        if allocated
        then (added, some (snapshots snapshot (d ∷ ds)), length (d ∷ ds))
        else (not_added, none, length (d ∷ ds))
  ]

  unfoldable pub registry_reload_config : Registry E.C F.C → Option ℕ → AddRet × Registry E.C F.C
  registry_reload_config r none = (not_added, r)
  registry_reload_config r (some max) = (added, record r { max_guests = max })
