-- ===== src/Setup/Tests.antt =====
-- Devices that live over the example's slots and configurations.
use wazo_libsccp.Common.{
  ℕ, ◌+◌, ◌-◌, ◌≡◌, ◌==◌, refl, subst, true, false, List, [], ◌∷◌, Option, none, some, arith,
  get_elem?, is_some, if◌then◌else◌,
}
use mathlib.Core.Option
use wazo_libsccp.Device.Types.{DbKey, incoming}
use wazo_libsccp.Device.Calls.{new_subchan}
use wazo_libsccp.Setup.Types.{ext, World, Phone, Line, Speeddial}
use wazo_libsccp.Setup.Speeddials.{
  sccp_speeddials_get_by_instance, sccp_speeddials_get_by_index,
  sccp_speeddials_on_registration_success, sccp_speeddial_add_extension_state_cb,
}
use wazo_libsccp.Setup.Life.{
  Info, phone_with, device_type_is_supported, sccp_device_create, sccp_device_reload_config,
}
use wazo_libsccp.Setup.Register.{sccp_device_on_registration_success}
use wazo_libsccp.Setup.Create.{Created, create-Created}
use wazo_libsccp.Setup.Makes.{Made, create-Made}
use wazo_libsccp.Setup.Holds.{Holds, Created-Holds}
use wazo_libsccp.Setup.Reload.{reload-Holds}
use wazo_libsccp.Setup.Ends.{acts, reloads, hears, Turn, turns, live, Restored, live-Restored}
use wazo_libsccp.Setup.Lookup.{index-instance, registration-Placed}
use wazo_libsccp.Setup.Example.{Slots, slots, configs, before}

-- A 7960.
abbrev info : Info
info = record {
  type = 7;
  proto_version = 11;
  time = 1000;
  heap = λ p. new_subchan p incoming;
  item_size = 32;
}

abbrev create : World Slots → Option Phone × World Slots
create w = sccp_device_create configs (some 1) (some 2) (some info) w

abbrev dial : (cfg instance_ index : ℕ) → Speeddial
dial c i n = record {
  refs = 1;
  cfg = c;
  instance_ = i;
  index = n;
  exten_state_cb_id = none;
  exten_state = ext 0;
}

abbrev line : Line
line = record { refs = 1; cfg = 3; instance_ = 1; name = 3 ∷ [] }

abbrev dials : List Speeddial
dials = dial 4 2 1 ∷ dial 5 3 2 ∷ []

abbrev phone : Phone
phone = phone_with configs info 1 2 line dials

created : create before ≡ (some phone, (create before).1)
unfolding sccp_device_create
created = refl

-- There is no memory for the second speed dial, the sixth allocation.
abbrev little : World Slots
little = record before { mem = λ k. if k == 5 then false else true }

create_fails :
    ((create little).0 ≡ none)
    × ((create little).1.refs 4 ≡ 1)
    × ((create little).1.device_refs ≡ 0)
unfolding sccp_device_create
create_fails = (refl, refl, refl)

create-Created_example : Created configs 1 2 little (create little)
create-Created_example = create-Created configs 1 2 info little refl

create-Made_example : Made (create before)
unfolding device_type_is_supported
create-Made_example = create-Made configs 1 2 info before refl (λ k. refl)

no_db : DbKey → Option (List ℕ)
no_db key = none

phone-Holds : Holds slots configs before phone (create before).1
phone-Holds =
    (Created-Holds slots configs 1 2 before (create before).1 phone refl
      (subst (Created configs 1 2 before) created (create-Created configs 1 2 info before refl))).0

-- The second configuration is taken over: its first speed dial is another one of the same extension.
reload-Holds_example :
    Holds slots configs before
      (sccp_device_reload_config configs phone (some 9) (create before).1).1
      (sccp_device_reload_config configs phone (some 9) (create before).1).2
reload-Holds_example =
    reload-Holds slots configs before phone (some 9) (create before).1 phone-Holds

takes_over :
    (let r = sccp_device_reload_config configs phone (some 9) (create before).1 in
      (r.1.cfg ≡ 9) × (r.2.refs 4 ≡ 1) × (r.2.refs 6 ≡ 2))
unfolding sccp_device_reload_config sccp_device_create
takes_over = (refl, refl, refl)

-- A call comes and goes.
abbrev happens : List Turn
happens = hears 0 (ext 1) ∷ acts (λ d. d) 1 ∷ reloads (some 9) ∷ acts (λ d. d) 0 ∷ []

no_call_left :
    (turns slots configs happens (
      sccp_device_on_registration_success slots configs no_db
        (some 1)
        true
        true
        phone
        (create before).1)).0.calls
    ≡ 0
unfolding turns
no_call_left = refl

live-Restored_example :
    Restored slots before
      (live slots configs no_db (some 1) true true happens (phone, (create before).1))
live-Restored_example =
    live-Restored slots configs 1 2 info before (create before).1 phone no_db (some 1) true true
      happens refl created no_call_left

-- The speed dials of the phone once it has registered; one is subscribed.
abbrev registered_dials : List Speeddial
registered_dials =
    (sccp_speeddials_on_registration_success slots configs (5 ∷ []) dials (create before).1).0

one_subscribed :
    Option.map (λ sd. is_some sd.exten_state_cb_id) (get_elem? registered_dials 0) ≡ some true
unfolding sccp_speeddials_on_registration_success sccp_speeddial_add_extension_state_cb
one_subscribed = refl

index-instance_example :
    (sccp_speeddials_get_by_index registered_dials 1
      ≡ sccp_speeddials_get_by_instance registered_dials (1 + 1))
    × (Option.map (λ sd. sd.cfg) (sccp_speeddials_get_by_index registered_dials 1)
        ≡ (if 1 == 0 then none else get_elem? (4 ∷ 5 ∷ []) (1 - 1)))
index-instance_example =
    index-instance 1 (4 ∷ 5 ∷ []) registered_dials (omega arith) (omega arith) (
      registration-Placed slots configs (5 ∷ []) (4 ∷ 5 ∷ []) 2 1 dials (create before).1
        (refl, refl, refl, (refl, refl, refl, tt)))
