-- ===== src/Examples/Positions.antt =====
-- The theorems on server/services/position_monitor.py on one rack and a printed M114 line.
use vivarium_connection.Common.{
  inl, inr, arith, ◌+◌, ◌-◌, ◌*◌, ◌≡◌, refl, true, false, none, some, [], ◌∷◌, ltb, if◌then◌else◌,
  ok,
}
use vivarium_connection.Common.Text.{Text, codes}
use vivarium_connection.Models.{Float}
use vivarium_connection.M114.{Groups, search}
use vivarium_connection.M114.Printed.{
  IsNumber, plain, line, search-line, report_position, search-report_position,
}
use vivarium_connection.Plant.{Plant}
use vivarium_connection.Recovery.{Monitor}
use vivarium_connection.Recovery.Escalation.{IsEscalated, mirror_of}
use vivarium_connection.Position.{Setup, M114Result, all_homed, parse_m114, numbers_of, on_m114}
use vivarium_connection.Position.FollowUp.{recovering, on_m114-over}
use vivarium_connection.Position.History.{m114, trigger, calls, calls-IsEscalated}
use vivarium_connection.Examples.{env, free_world}

abbrev printed : Groups
printed = record {
  x = codes "12.50";
  y = codes "24";
  c = codes "0.";
  homed_x = true;
  homed_y = true;
  homed_c = true;
}

-- the whole part of a number
abbrev pub whole : Text → Float → Float
whole [] n = n
whole (c ∷ cs) n = if ltb c b'0' then n else whole cs (n * 10 + (c - b'0'))

-- Two parts of the distance count: whole millimetres.
abbrev pub setup : Setup
setup = record {
  env = env;
  floats = record {
    of_text = λ t. ok (whole t 0);
    zero_mm = 0;
    distance = λ x y. (x - y) + (y - x);
    above = λ x y. ltb y x;
  };
  tolerance_x_mm = 3;
  tolerance_y_mm = 2;
}

abbrev plant : Plant
plant = record {
  world = free_world;
  schedules = [];
  sessions = [];
  audits = [];
  alerts = [];
  scan_starts = [];
}

-- The carriage should be at x = 100.
abbrev pub monitor : Monitor
monitor = record { recovery = []; targets = ("rack-1", (some 100, some 24)) ∷ []; stale_due = [] }

abbrev result : M114Result
result = record {
  rack_id = "rack-1";
  x = 12;
  y = 24;
  c = 0;
  homed_x = true;
  homed_y = true;
  homed_c = true;
}

x-IsNumber : IsNumber printed.x
x-IsNumber = plain b'1' (codes "2.50") (inl (omega arith, omega arith)) (
  inl (omega arith, omega arith),
  (inr refl, (inl (omega arith, omega arith), (inl (omega arith, omega arith), tt))),
)

y-IsNumber : IsNumber printed.y
y-IsNumber =
    plain b'2' (codes "4") (inl (omega arith, omega arith)) (inl (omega arith, omega arith), tt)

c-IsNumber : IsNumber printed.c
c-IsNumber = plain b'0' (codes ".") (inl (omega arith, omega arith)) (inr refl, tt)

search-report_position_example : search (report_position printed) ≡ none
search-report_position_example = search-report_position printed x-IsNumber y-IsNumber c-IsNumber

position_parsed : parse_m114 setup.floats "rack-1" (line printed) ≡ ok (some result)
unfolding parse_m114 numbers_of
position_parsed = rw (search-line printed x-IsNumber y-IsNumber c-IsNumber, parse_m114) refl

on_m114-over_example :
    recovering "rack-1" (on_m114 setup true 5 "rack-1" (line printed) monitor plant).0 ≡ false
unfolding all_homed
on_m114-over_example =
    on_m114-over setup true 5 "rack-1" (line printed) monitor plant result position_parsed refl

calls-IsEscalated_example :
    let (m, p) =
      calls setup
        (trigger true 1 "rack-1" none
          ∷ m114 true 2 "rack-1" (line printed)
          ∷ trigger true 3 "rack-1" none
          ∷ [])
        (monitor, plant) in
    IsEscalated m.recovery (mirror_of p)
calls-IsEscalated_example =
    calls-IsEscalated setup
      (trigger true 1 "rack-1" none
        ∷ m114 true 2 "rack-1" (line printed)
        ∷ trigger true 3 "rack-1" none
        ∷ [])
      monitor plant refl
