-- ===== src/Config/Tests.antt =====
-- A configuration of two devices, one of them for guests, over containers that are lists.
use wazo_libsccp.Common.{
  ℕ, ◌≡◌, ◌==◌, refl, true, false, List, [], ◌∷◌, none, some, arith, if◌then◌else◌,
}
use wazo_libsccp.Registry.Example.{lists}
use wazo_libsccp.Config.{DeviceInternal, Names, Cfg, device_cfg_name_guest}
use wazo_libsccp.Config.Alloc.{
  Memory, AllOrNothing, sccp_cfg_alloc, sccp_device_cfg_alloc, sccp_line_cfg_alloc,
  allocs-AllOrNothing,
}
use wazo_libsccp.Config.Options.{split_equals}
use wazo_libsccp.Config.Apply.{pre_apply_config, sccp_cfg_find_device_or_guest}
use wazo_libsccp.Config.Ordered.{IsPending}
use wazo_libsccp.Config.Complete.{IsKept, pre_apply_config-IsKept}
use wazo_libsccp.Config.Applied.{
  IsApplied, Found, pre_apply_config-IsApplied, find_device_or_guest-Found,
}

-- Device 1 is "1", device 2 is "guest", device 3 is "3" and names the line of device 1.
abbrev names : Names
names = record {
  device_name = λ d. if d == 2 then device_cfg_name_guest else (d ∷ []);
  line_name = λ l. l ∷ [];
  speeddial_name = λ s. s ∷ [];
}

abbrev of_file : ℕ → DeviceInternal
of_file d = record {
  line_name = (if d == 2 then 12 else 11) ∷ [];
  speeddials = (21 ∷ []) ∷ (29 ∷ []) ∷ [];
}

abbrev pending : Cfg (List ℕ) (List ℕ) (List ℕ)
pending = record {
  guest_device_cfg = none;
  guest_internal = some true;
  devices_cfg = 1 ∷ 2 ∷ 3 ∷ [];
  lines_cfg = 11 ∷ 12 ∷ 13 ∷ [];
  speeddials_cfg = 21 ∷ [];
  device = λ d. record {
    voicemail = 7 ∷ [];
    guest = false;
    line_cfg = none;
    speeddials_cfg = [];
    internal = some (of_file d);
  };
  line = λ l. record { context = 99 ∷ []; chanvars = []; internal = some false };
  device_refs = λ d. 1;
  line_refs = λ l. 1;
  speeddial_refs = λ s. 1;
  mem = λ k. true;
}

abbrev apply : Cfg (List ℕ) (List ℕ) (List ℕ) → Cfg (List ℕ) (List ℕ) (List ℕ)
apply =
    pre_apply_config names (lists names.device_name) (lists names.line_name)
      (lists names.speeddial_name) 80

apply_tests :
    ((apply pending).devices_cfg ≡ 1 ∷ [])
    × ((apply pending).lines_cfg ≡ 11 ∷ [])
    × ((apply pending).guest_device_cfg ≡ some 2)
    × (((apply pending).device 1).speeddials_cfg ≡ 21 ∷ [])
    × (((apply pending).device 1).voicemail ≡ 7 ∷ 64 ∷ 99 ∷ [])
    × ((apply pending).line_refs 11 ≡ 2)
    × ((apply pending).line_refs 12 ≡ 1)
    × ((apply pending).line_refs 13 ≡ 0)
    × ((apply pending).speeddial_refs 21 ≡ 3)
    × ((apply pending).device_refs 2 ≡ 1)
unfolding pre_apply_config
apply_tests = (refl, refl, refl, refl, refl, refl, refl, refl, refl, refl)

pending-IsPending :
    IsPending names
      (lists names.device_name)
      (lists names.line_name)
      (lists names.speeddial_name)
      of_file
      pending
pending-IsPending = record {
  once = λ d. ground arith;
  one_guest = omega arith;
  read = λ d h. record { speeddials = refl; line_cfg = refl; internal = refl };
  no_line = λ d. refl;
  free = λ l. refl;
  once_line = λ l. ground arith;
  no_guest_yet = refl;
}

pre_apply_config-IsApplied_example :
    IsApplied names
      (lists names.device_name)
      (lists names.line_name)
      (lists names.speeddial_name)
      of_file
      pending
      (apply pending)
pre_apply_config-IsApplied_example =
    pre_apply_config-IsApplied names (lists names.device_name) (lists names.line_name)
      (lists names.speeddial_name) of_file 80 pending pending-IsPending

find_device_or_guest-Found_example :
    Found names
      (lists names.device_name)
      (lists names.line_name)
      (lists names.speeddial_name)
      of_file
      pending
      (apply pending)
      (9 ∷ [])
      (sccp_cfg_find_device_or_guest names
        (lists names.device_name)
        (lists names.line_name)
        (lists names.speeddial_name)
        (9 ∷ [])
        (apply pending))
find_device_or_guest-Found_example =
    find_device_or_guest-Found names (lists names.device_name) (lists names.line_name)
      (lists names.speeddial_name) of_file pending (apply pending) (9 ∷ [])
      pre_apply_config-IsApplied_example

-- Device 1 and device 3 name line 11.
pre_apply_config-IsKept_example :
    IsKept names
      (lists names.device_name)
      (lists names.line_name)
      (lists names.speeddial_name)
      pending
      (apply pending)
      11
pre_apply_config-IsKept_example =
    pre_apply_config-IsKept names (lists names.device_name) (lists names.line_name)
      (lists names.speeddial_name) of_file 80 pending 3 11 pending-IsPending (λ k. refl)
      (omega arith) (refl, refl)

-- There is no memory for the fourth piece.
abbrev little : Memory
little = record { mem = λ k. if k == 3 then false else true; live = 10 }

allocs-AllOrNothing_example :
    AllOrNothing 6 little (sccp_cfg_alloc little)
    × AllOrNothing 2 little (sccp_device_cfg_alloc little)
    × AllOrNothing 3 little (sccp_line_cfg_alloc little)
allocs-AllOrNothing_example = allocs-AllOrNothing little

alloc_tests :
    ((sccp_cfg_alloc little).0 ≡ none)
    × ((sccp_cfg_alloc little).1.live ≡ 10)
    × ((sccp_line_cfg_alloc little).1.live ≡ 13)
unfolding sccp_cfg_alloc sccp_line_cfg_alloc
alloc_tests = (refl, refl, refl)

-- `a=b=c`, and a text without `=`.
setvar_tests :
    (split_equals (97 ∷ 61 ∷ 98 ∷ 61 ∷ 99 ∷ []) ≡ some (97 ∷ [], 98 ∷ 61 ∷ 99 ∷ []))
    × (split_equals (97 ∷ []) ≡ none)
unfolding split_equals
setvar_tests = (refl, refl)
