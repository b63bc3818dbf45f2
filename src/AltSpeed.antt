-- ===== src/AltSpeed.antt =====
-- crates/librtbit/src/alt_speed.rs: the alternative speed limits, their schedule, and the limits of the
-- session that they replace for a time (crates/librtbit/src/limits.rs). A rate is its number; `none` is
-- no limit. The clock of the scheduler is the day of the week and the time of the day.
pub mod Normal
pub mod Tests
use rust_torrent.Prelude.{
  same_bool, ℕ, ◌+◌, ◌*◌, ◌/◌, ◌%◌, ◌^◌, Bool, true, false, not, ◌&&◌, ◌||◌, Option, none, some,
  ltb, leb, ◌==◌, if◌then◌else◌, u32_mod,
}

pub record AltSpeedConfig : Type 0 where
  pub download_rate : Option ℕ
  pub upload_rate : Option ℕ

pub record AltSpeedSchedule : Type 0 where
  pub enabled : Bool
  pub start_minutes : ℕ
  pub end_minutes : ℕ
  pub days : ℕ

-- The limits of the session: download and upload.
pub record Limits : Type 0 where
  pub down : Option ℕ
  pub up : Option ℕ

-- `AltSpeedState`, and the limits of the session beside it.
pub record AltSpeed : Type 0 where
  pub enabled : Bool
  pub config : AltSpeedConfig
  pub schedule : AltSpeedSchedule
  pub saved_normal : Option Limits
  pub last_schedule_decision : Option Bool
  pub ratelimits : Limits

-- A `NonZeroU32`, from a rate that is cut off at the largest u32.
unfoldable pub to_bps : Option ℕ → Option ℕ
to_bps none = none
to_bps (some r) = if r == 0 then none else some (if ltb r u32_mod then r else 4294967295)

abbrev pub alt_limits : AltSpeedConfig → Limits
alt_limits c = record { down = to_bps c.download_rate; up = to_bps c.upload_rate }

-- The restored limits, if any were saved.
unfoldable pub restore_normal : AltSpeed → Option Limits → AltSpeed
restore_normal s none = s
restore_normal s (some normal) = record s { saved_normal = none; ratelimits = normal }

unfoldable pub set_alt_speed_enabled : AltSpeed → Bool → AltSpeed
set_alt_speed_enabled s enabled =
    let swapped = record s { enabled = enabled } in
    let switched_on = record swapped {
      saved_normal = some s.ratelimits;
      ratelimits = alt_limits s.config;
    } in
    if same_bool s.enabled enabled
    then swapped
    else if enabled
    then switched_on
    else restore_normal swapped s.saved_normal

unfoldable pub set_alt_speed_config : AltSpeed → AltSpeedConfig → AltSpeed
set_alt_speed_config s config = record s {
  config = config;
  ratelimits = if s.enabled then alt_limits config else s.ratelimits;
}

unfoldable pub set_alt_speed_schedule : AltSpeed → AltSpeedSchedule → AltSpeed
set_alt_speed_schedule s schedule = record s { schedule = schedule; last_schedule_decision = none }

unfoldable pub set_normal_rate_limits : AltSpeed → Limits → AltSpeed
set_normal_rate_limits s normal =
    if s.enabled then record s { saved_normal = some normal } else record s { ratelimits = normal }

unfoldable pub alt_speed_schedule_wants_active : AltSpeedSchedule → ℕ → ℕ → ℕ → Bool
alt_speed_schedule_wants_active schedule weekday hour minute =
    let minutes = hour * 60 + minute in
    let start = schedule.start_minutes in
    let end = schedule.end_minutes in
    let day = not ((schedule.days / 2 ^ weekday) % 2 == 0) in
    day
    && (if leb start end
        then leb start minutes && ltb minutes end
        else leb start minutes || ltb minutes end)

unfoldable pub decided : Option Bool → Bool → Bool
decided none should = false
decided (some last) should = same_bool last should

-- A round of the scheduler.
unfoldable pub scheduler_tick : AltSpeed → ℕ → ℕ → ℕ → AltSpeed
scheduler_tick s weekday hour minute =
    let should = alt_speed_schedule_wants_active s.schedule weekday hour minute in
    if not s.schedule.enabled
    then record s { last_schedule_decision = none }
    else if decided s.last_schedule_decision should
    then s
    else set_alt_speed_enabled (record s { last_schedule_decision = some should }) should
