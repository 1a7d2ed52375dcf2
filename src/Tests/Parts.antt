-- ===== src/Tests/Parts.antt =====
-- Runs of the theorems on timers and on the update of the realm list.
use mmo_wow.Prelude.{
  ◌+◌, ◌-◌, ◌%◌, ◌^◌, ◌≡◌, refl, true, false, [], ◌∷◌, none, some, ltb, if◌then◌else◌, arith,
}
use mmo_wow.Prelude.Bytes.{of_bytes}
use mmo_wow.Prelude.{replicate}
use mmo_wow.Realm.Builds.{BuildRow}
use mmo_wow.Timer.{ms_time_diff, IntervalTimer, interval_passed, PeriodicTimer}
use mmo_wow.Timer.Elapsed.{ms_time_diff-elapsed}
use mmo_wow.Realm.Update.{Row, get_realm, update_realms, last_row, get_realm-update_realms}
use mmo_wow.Tests.Toy.{old_realm}

ms_time_diff-elapsed_example :
    ms_time_diff (2 ^ 32 - 5) ((2 ^ 32 - 5 + 20) % 2 ^ 32)
    ≡ (if ltb (2 ^ 32 - 5 + 20) (2 ^ 32) then 20 else 20 - 1)
ms_time_diff-elapsed_example = ms_time_diff-elapsed (2 ^ 32 - 5) 20 (omega arith) (omega arith)

abbrev timer : IntervalTimer
timer = record { interval = 10; current = 23 }

timer-passed : interval_passed timer ≡ true
unfolding interval_passed
timer-passed = refl

abbrev ticker : PeriodicTimer
ticker = record { period = 10; expire_time = 4 }

abbrev row : Row
row = record {
  id = 3;
  name = 66 ∷ [];
  external_text = 1 ∷ [];
  local_text = 2 ∷ [];
  mask_text = 255 ∷ [];
  port = 8085;
  icon = 16;
  flags = 0;
  timezone = 1;
  security_level = 9;
  population = [];
  build = 12340;
}

get_realm-update_realms_example :
    get_realm 3 (update_realms (λ xs. some (of_bytes xs)) false (some (row ∷ [])) (old_realm ∷ []))
    ≡ last_row (λ xs. some (of_bytes xs)) 3 (row ∷ []) none
get_realm-update_realms_example =
    get_realm-update_realms (λ xs. some (of_bytes xs)) 3 (row ∷ []) (old_realm ∷ [])

abbrev build_row : BuildRow
build_row = record {
  major_version = 3;
  minor_version = 3;
  bugfix_version = 5;
  build = 12340;
  windows_text = replicate 40 65;
  mac_text = [];
}
