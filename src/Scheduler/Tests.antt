-- ===== src/Scheduler/Tests.antt =====
-- Runs of the scheduler of src/subscription/scheduler.rs, and its theorems on one of them.
use beave_rs.Base.{ℕ, ◌/◌, ◌≤◌, ◌<◌, ◌≡◌, refl, true, false, ◌⊎◌, some, [], ◌∷◌, nat_eq, length}
use beave_rs.Base.Map.{lookup, insert}
use beave_rs.Scheduler.Flow.{FlowControl, pause, add}
use beave_rs.Scheduler.{Admission, admit, push}
use beave_rs.Scheduler.System.{
  System, pushed, Reach, here, next, Step, admits, pushes, initial, after_admit, after_requests,
}
use beave_rs.Scheduler.System.Effects.{Inv, load_all, is_key}
use beave_rs.Scheduler.System.Counts.{Reach-Inv}
use beave_rs.Scheduler.System.Occupancy.{lane_entries}
use beave_rs.Scheduler.System.Lanes.{one_running_per_lane}
use beave_rs.Scheduler.System.Fifo.{QueueStep, lane_view, lanes_are_queues}
use beave_rs.Scheduler.System.Pauses.{requests_pause}

abbrev Sys : Type 0
Sys = System ℕ ℕ

abbrev start : Sys
start = initial (some 2)

abbrev of_7 : Admission ℕ
of_7 = record { flow = some 7 }

-- Two deliveries of key 7 are admitted, and the first is pushed to lane 0.
abbrev one_pushed : Sys
one_pushed =
    let s = after_admit (some 7) (after_admit (some 7) start) in
    record s { scheduler = push of_7 (some 0) 1 s.scheduler; decoding = of_7 ∷ [] }

abbrev two_pushed : Sys
two_pushed = record one_pushed {
  scheduler = push of_7 (some 0) 2 one_pushed.scheduler;
  decoding = [];
}

one_pushed-Reach : Reach start one_pushed
unfolding initial after_admit admit
one_pushed-Reach =
    next (next (next here (admits (some 7) refl)) (admits (some 7) refl))
      (pushes [] (of_7 ∷ []) of_7 (some 0) 1 refl)

second_push : Step one_pushed (pushed (some 0) 2) two_pushed
unfolding initial after_admit admit
second_push = pushes [] [] of_7 (some 0) 2 refl

two_pushed-Reach : Reach start two_pushed
two_pushed-Reach = next one_pushed-Reach second_push

abbrev flow_7 : FlowControl ℕ
flow_7 = record {
  limit = 2;
  unfinished = (7, 2) ∷ [];
  paused = (7, tt) ∷ [];
  changes = pause 7 ∷ [];
}

two_pushed-flow : two_pushed.scheduler.flow ≡ some flow_7
unfolding initial after_admit admit push add insert lookup
two_pushed-flow = refl

-- The second delivery waits behind the first.
two_pushed-view : lane_view 0 two_pushed ≡ 1 ∷ 2 ∷ []
unfolding initial after_admit admit push insert lookup
two_pushed-view = refl

Reach-Inv_example : Inv two_pushed
Reach-Inv_example = Reach-Inv (some 2) two_pushed-Reach

one_running_per_lane_example : length (lane_entries 0 two_pushed.running) ≤ 1
one_running_per_lane_example = one_running_per_lane (some 2) 0 two_pushed-Reach

lanes_are_queues_example :
    QueueStep {K = ℕ} 0 (pushed (some 0) 2) (lane_view 0 one_pushed) (lane_view 0 two_pushed)
lanes_are_queues_example = lanes_are_queues (some 2) 0 one_pushed-Reach second_push

requests_pause_example :
    (((after_requests two_pushed).held 7 ≡ true)
      × (flow_7.limit / 2 < load_all (is_key 7) two_pushed))
    ⊎ (((after_requests two_pushed).held 7 ≡ false)
        × ((load_all (is_key 7) two_pushed < flow_7.limit) ⊎ (load_all (is_key 7) two_pushed ≡ 0)))
requests_pause_example = requests_pause (some 2) flow_7 7 two_pushed-Reach two_pushed-flow
