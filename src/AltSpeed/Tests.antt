-- ===== src/AltSpeed/Tests.antt =====
-- A session with limits, which switches to the alternative ones.
use rust_torrent.Prelude.{◌≡◌, refl, true, false, none, some, List, [], ◌∷◌}
use rust_torrent.AltSpeed.{AltSpeedSchedule, Limits, AltSpeed, alt_speed_schedule_wants_active}
use rust_torrent.AltSpeed.Normal.{Request, enable, limit, tick, run, Represents, run-Represents}

-- From 22:00 to 06:00, on Mondays.
abbrev nights : AltSpeedSchedule
nights = record { enabled = true; start_minutes = 1320; end_minutes = 360; days = 1 }

abbrev fast : Limits
fast = record { down = some 1000; up = none }

abbrev slow : Limits
slow = record { down = some 500; up = some 100 }

abbrev started : AltSpeed
started = record {
  enabled = false;
  config = record { download_rate = some 10; upload_rate = some 5 };
  schedule = nights;
  saved_normal = none;
  last_schedule_decision = none;
  ratelimits = fast;
}

night_example : alt_speed_schedule_wants_active nights 0 23 30 ≡ true
unfolding alt_speed_schedule_wants_active
night_example = refl

noon_example : alt_speed_schedule_wants_active nights 0 12 0 ≡ false
unfolding alt_speed_schedule_wants_active
noon_example = refl

abbrev requests : List Request
requests = tick 0 23 30 ∷ limit slow ∷ enable false ∷ []

run-Represents_example : Represents (run started requests) slow
run-Represents_example =
    run-Represents requests started fast (record { saved = refl; in_force = refl })
