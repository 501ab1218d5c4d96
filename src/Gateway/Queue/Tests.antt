-- ===== src/Gateway/Queue/Tests.antt =====
-- Runs of the queue, and the theorems about it at concrete states.
use agent_lab.Common.{◌≡◌, refl, true, false, [], ◌∷◌, none, ◌≢◌}
use agent_lab.Gateway.Queue.{
  RequestQueue, Place, reserved, acquiring, holding, closed, Reach, here, next, reserves, enters,
  acquires, finishes, gives_up, reserve, move, start, abandon, finish,
}
use agent_lab.Gateway.Queue.Invariant.{IsValid, Reach-IsValid}
use agent_lab.Gateway.Queue.Effects.{last_report, last_report_lem, drained}

abbrev fresh : Place
fresh = record { waiting = true; stage = reserved }

abbrev pending : Place
pending = record { waiting = true; stage = acquiring }

abbrev running : Place
running = record { waiting = false; stage = holding }

abbrev gone : Place
gone = record { waiting = false; stage = closed }

-- One request was accepted by a queue with room for one more.
abbrev accepted : RequestQueue
accepted = record {
  queue_size = 1;
  waiting = 1;
  active = 0;
  locked = false;
  changes = (0, 1) ∷ [];
  places = fresh ∷ [];
}

-- One runs and one waits: full.
abbrev busy : RequestQueue
busy = record {
  queue_size = 1;
  waiting = 1;
  active = 1;
  locked = true;
  changes = (1, 1) ∷ (1, 0) ∷ (0, 1) ∷ [];
  places = running ∷ fresh ∷ [];
}

-- The first has ended and the second has left.
abbrev ended : RequestQueue
ended = record {
  queue_size = 1;
  waiting = 0;
  active = 0;
  locked = false;
  changes = (0, 0) ∷ (1, 0) ∷ (1, 1) ∷ (1, 0) ∷ (0, 1) ∷ [];
  places = gone ∷ gone ∷ [];
}

accepted-Reach : Reach 1 accepted
unfolding reserve
accepted-Reach = next here (reserves refl)

busy-Reach : Reach 1 busy
unfolding reserve move start
busy-Reach =
    next (next (next accepted-Reach (enters 0 fresh refl refl)) (acquires 0 pending refl refl refl))
      (reserves refl)

ended-Reach : Reach 1 ended
unfolding abandon finish
ended-Reach = next (next busy-Reach (gives_up 1 fresh refl refl)) (finishes 0 running refl refl)

busy_refuses : reserve busy ≡ none
unfolding reserve
busy_refuses = refl

Reach-IsValid_example : IsValid busy
Reach-IsValid_example = Reach-IsValid busy-Reach

last_report_lem_example : last_report ended ≡ (0, 0)
last_report_lem_example = last_report_lem ended-Reach

drained_example :
    (ended.waiting ≡ 0) × (ended.active ≡ 0) × (ended.locked ≡ false) × (reserve ended ≢ none)
drained_example = drained ended-Reach (refl, (refl, tt))
