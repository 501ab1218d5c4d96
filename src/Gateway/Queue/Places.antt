-- ===== src/Gateway/Queue/Places.antt =====
-- What each operation of the queue does to its places, its counters and its reports at once.
use agent_lab.Common.{
  ℕ, ◌+◌, ◌-◌, ◌≡◌, true, false, ◌∷◌, some, get_elem?, set, get_elem?-set_self, set-set,
}
use agent_lab.Gateway.Queue.{
  RequestQueue, Place, Stage, holding, closed, leave, move, start, abandon, finish,
}

pub move-places :
    (q : RequestQueue) (i : ℕ) (p : Place) (s : Stage)
    → get_elem? q.places i ≡ some p
    → move q i s ≡ record q { places = set q.places i (record p { stage = s }) }
unfolding move
move-places q i p s e = rw (e, move)

-- The place of a waiting request starts: one less waits and one more runs.
pub start-counts :
    (q : RequestQueue) (i : ℕ) (p : Place)
    → get_elem? q.places i ≡ some p
    → p.waiting ≡ true
    → start q i p ≡ record q {
      waiting = q.waiting - 1;
      active = q.active + 1;
      locked = true;
      changes = (q.active + 1, q.waiting - 1) ∷ q.changes;
      places = set q.places i (record { waiting = false; stage = holding });
    }
unfolding start
start-counts q i p e w =
    rw (w, start)
      (rw (get_elem?-set_self q.places i p (record p { waiting = false }) e, move) (rw set-set))

-- A waiting request leaves: one less waits.
pub abandon-counts :
    (q : RequestQueue) (i : ℕ) (p : Place)
    → get_elem? q.places i ≡ some p
    → p.waiting ≡ true
    → abandon q i p ≡ record q {
      waiting = q.waiting - 1;
      changes = (q.active, q.waiting - 1) ∷ q.changes;
      places = set q.places i (record { waiting = false; stage = closed });
    }
unfolding abandon
abandon-counts q i p e w =
    rw (w, abandon)
      (rw (get_elem?-set_self q.places i p (record p { waiting = false }) e, move) (rw set-set))

pub finish-counts :
    (q : RequestQueue) (i : ℕ) (p : Place)
    → get_elem? q.places i ≡ some p
    → finish q i ≡ record q {
      active = q.active - 1;
      locked = false;
      changes = (q.active - 1, q.waiting) ∷ q.changes;
      places = set q.places i (record p { stage = closed });
    }
unfolding finish
finish-counts q i p e = rw (e, move)

-- A place that no longer waits is left alone.
pub leave-not_waiting : (q : RequestQueue) (i : ℕ) (p : Place) → p.waiting ≡ false → leave q i p ≡ q
unfolding leave
leave-not_waiting q i p w = rw (w, leave)
