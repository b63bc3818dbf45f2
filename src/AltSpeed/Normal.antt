-- ===== src/AltSpeed/Normal.antt =====
-- The alternative limits against a simple view: the normal limits alone.
use rust_torrent.Prelude.{
  ℕ, ◌≡◌, refl, ap, Bool, true, false, not, Option, none, some, List, [], ◌∷◌, if◌then◌else◌,
}
use rust_torrent.AltSpeed.{
  AltSpeedConfig, AltSpeedSchedule, Limits, AltSpeed, alt_limits, restore_normal,
  set_alt_speed_enabled, set_alt_speed_config, set_alt_speed_schedule, set_normal_rate_limits,
  alt_speed_schedule_wants_active, decided, scheduler_tick,
}

pub data Request : Type 0 where
  enable : Bool → Request
  configure : AltSpeedConfig → Request
  reschedule : AltSpeedSchedule → Request
  limit : Limits → Request
  tick : ℕ → ℕ → ℕ → Request

abbrev pub handle : AltSpeed → Request → AltSpeed
handle s (enable b) = set_alt_speed_enabled s b
handle s (configure c) = set_alt_speed_config s c
handle s (reschedule schedule) = set_alt_speed_schedule s schedule
handle s (limit normal) = set_normal_rate_limits s normal
handle s (tick weekday hour minute) = scheduler_tick s weekday hour minute

abbrev pub run : AltSpeed → List Request → AltSpeed
run s [] = s
run s (r ∷ rs) = run (handle s r) rs

-- The normal limits are the ones that were set last.
abbrev pub last_normal : Limits → List Request → Limits
last_normal normal [] = normal
last_normal normal (limit new ∷ rs) = last_normal new rs
last_normal normal (enable b ∷ rs) = last_normal normal rs
last_normal normal (configure c ∷ rs) = last_normal normal rs
last_normal normal (reschedule schedule ∷ rs) = last_normal normal rs
last_normal normal (tick weekday hour minute ∷ rs) = last_normal normal rs

-- The normal limits are saved while the alternative ones are in force, and in force otherwise.
pub record Represents (s : AltSpeed) (normal : Limits) : Type 0 where
  pub saved : s.saved_normal ≡ (if s.enabled then some normal else none)
  pub in_force : s.ratelimits ≡ (if s.enabled then alt_limits s.config else normal)

set_alt_speed_enabled-Represents :
    (enabled b : Bool) (config : AltSpeedConfig) (schedule : AltSpeedSchedule) (last : Option Bool)
    (saved : Option Limits) (limits normal : Limits)
    → saved ≡ (if enabled then some normal else none)
    → limits ≡ (if enabled then alt_limits config else normal)
    → Represents
        (set_alt_speed_enabled
          (record {
            enabled = enabled;
            config = config;
            schedule = schedule;
            saved_normal = saved;
            last_schedule_decision = last;
            ratelimits = limits;
          })
          b)
        normal
unfolding set_alt_speed_enabled restore_normal
set_alt_speed_enabled-Represents true true config schedule last saved limits normal e f = record {
  saved = e;
  in_force = f;
}
set_alt_speed_enabled-Represents false false config schedule last saved limits normal e f = record {
  saved = e;
  in_force = f;
}
set_alt_speed_enabled-Represents false true config schedule last saved limits normal e f = record {
  saved = ap some f;
  in_force = refl;
}
set_alt_speed_enabled-Represents true false config schedule last saved limits normal e f =
    rw e (record { saved = refl; in_force = refl })

enable-Represents :
    (s : AltSpeed) (b : Bool) {normal : Limits}
    → Represents s normal
    → Represents (set_alt_speed_enabled s b) normal
enable-Represents s b {normal} v =
    set_alt_speed_enabled-Represents s.enabled b s.config s.schedule s.last_schedule_decision
      s.saved_normal s.ratelimits normal v.saved v.in_force

configure-Represents :
    (s : AltSpeed) (c : AltSpeedConfig) {normal : Limits}
    → Represents s normal
    → Represents (set_alt_speed_config s c) normal
unfolding set_alt_speed_config
configure-Represents s c {normal} v = record {
  saved = v.saved;
  in_force = by_enabled s.enabled v.in_force;
}
  where
    by_enabled :
        (b : Bool)
        → s.ratelimits ≡ (if b then alt_limits s.config else normal)
        → (if b then alt_limits c else s.ratelimits) ≡ (if b then alt_limits c else normal)
    by_enabled true e = refl
    by_enabled false e = e

limit-Represents :
    (enabled : Bool) (config : AltSpeedConfig) (schedule : AltSpeedSchedule) (last : Option Bool)
    (saved : Option Limits) (limits normal new : Limits)
    → saved ≡ (if enabled then some normal else none)
    → limits ≡ (if enabled then alt_limits config else normal)
    → Represents
        (set_normal_rate_limits
          (record {
            enabled = enabled;
            config = config;
            schedule = schedule;
            saved_normal = saved;
            last_schedule_decision = last;
            ratelimits = limits;
          })
          new)
        new
unfolding set_normal_rate_limits
limit-Represents true config schedule last saved limits normal new e f = record {
  saved = refl;
  in_force = f;
}
limit-Represents false config schedule last saved limits normal new e f = record {
  saved = e;
  in_force = refl;
}

tick-Represents :
    (s : AltSpeed) (weekday hour minute : ℕ) {normal : Limits}
    → Represents s normal
    → Represents (scheduler_tick s weekday hour minute) normal
unfolding scheduler_tick
tick-Represents s weekday hour minute {normal} v =
    let should = alt_speed_schedule_wants_active s.schedule weekday hour minute in
    by_tests (not s.schedule.enabled) (decided s.last_schedule_decision should)
      (record { saved = v.saved; in_force = v.in_force }) v
      (enable-Represents (record s { last_schedule_decision = some should }) should
        (record { saved = v.saved; in_force = v.in_force }))
  where
    by_tests :
        (off same : Bool) {a b c : AltSpeed}
        → Represents a normal
        → Represents b normal
        → Represents c normal
        → Represents (if off then a else if same then b else c) normal
    by_tests true same a b c = a
    by_tests false true a b c = b
    by_tests false false a b c = c

-- From a state in which the normal limits are saved exactly while the alternative ones are in
-- force, and the limits of the session are the alternative ones of the configuration then and the
-- normal ones otherwise, any sequence of switches, configurations, schedules, new normal limits and
-- rounds of the scheduler leads to such a state, with the normal limits that were set last.
pub run-Represents :
    (rs : List Request) (s : AltSpeed) (normal : Limits)
    → Represents s normal
    → Represents (run s rs) (last_normal normal rs)
unfolding set_alt_speed_schedule
run-Represents [] s normal v = v
run-Represents (enable b ∷ rs) s normal v = run-Represents rs _ normal (enable-Represents s b v)
run-Represents (configure c ∷ rs) s normal v =
    run-Represents rs _ normal (configure-Represents s c v)
run-Represents (reschedule schedule ∷ rs) s normal v =
    run-Represents rs _ normal (record { saved = v.saved; in_force = v.in_force })
run-Represents (limit new ∷ rs) s normal v = run-Represents rs _ new (
    limit-Represents s.enabled s.config s.schedule s.last_schedule_decision s.saved_normal
      s.ratelimits normal new v.saved v.in_force)
run-Represents (tick weekday hour minute ∷ rs) s normal v =
    run-Represents rs _ normal (tick-Represents s weekday hour minute v)
