-- ===== src/Gateway/Queue/Invariant.antt =====
-- The counters of the queue are exact, one request at most runs, and the bound on the places holds,
-- in every state that a new queue can come to.
use agent_lab.Common.{
  ℕ, ◌+◌, ◌≤◌, ◌≡◌, refl, ◌⊎◌, inl, inr, Bool, true, false, [], ◌∷◌, some, ap, arith, get_elem?,
  set, count, to_num, count-set, Bool-cases, subst, some_inj, ◌∙◌, count-append, All, All-get_elem?,
  All-set, All-append,
}
use agent_lab.Gateway.Queue.{
  RequestQueue, Place, Stage, reserved, acquiring, holding, closed, Step, Reach, here, next,
  reserves, enters, acquires, cancels, finishes, gives_up, gives_up_late, init, full, reserve, move,
  start, abandon, finish, leave,
}
use agent_lab.Gateway.Queue.Places.{
  move-places, start-counts, abandon-counts, finish-counts, leave-not_waiting,
}

room : (q : RequestQueue) → full q ≡ false → q.active + (q.waiting + 1) ≤ 1 + q.queue_size
unfolding full
room q h = ground arith

-- Accepted and not yet running.
abbrev pub is_queued : Stage → Bool
is_queued reserved = true
is_queued acquiring = true
is_queued holding = false
is_queued closed = false

abbrev pub is_holding : Stage → Bool
is_holding holding = true
is_holding _ = false

abbrev pub is_waiting : Place → Bool
is_waiting p = p.waiting

abbrev pub is_running : Place → Bool
is_running p = is_holding p.stage

-- The flag of a place agrees with what its coroutine is doing.
abbrev pub FlagIsRight : Place → Type 0
FlagIsRight p = p.waiting ≡ is_queued p.stage

pub record IsValid (q : RequestQueue) : Type 0 where
  pub waiting_exact : q.waiting ≡ count is_waiting q.places
  pub active_exact : q.active ≡ count is_running q.places
  pub exclusive : q.active ≡ to_num q.locked
  pub bounded : q.active + q.waiting ≤ 1 + q.queue_size
  pub flags : All FlagIsRight q.places

IsValid-init : (size : ℕ) → IsValid (init size)
IsValid-init size = record {
  waiting_exact = refl;
  active_exact = refl;
  exclusive = refl;
  bounded = omega arith;
  flags = tt;
}

module _ (q : RequestQueue) (v : IsValid q) where
  reserve-IsValid : (r : RequestQueue) → reserve q ≡ some r → IsValid r
  unfolding reserve
  reserve-IsValid r e = elim (Bool-cases (full q)) [
    | inl f ↦ cc (rw f at e)
    | inr f ↦ subst IsValid (some_inj (rw (f, reserve) at e)) (record {
      waiting_exact = omega (arith, v.waiting_exact, count-append is_waiting q.places (new ∷ []));
      active_exact = omega (arith, v.active_exact, count-append is_running q.places (new ∷ []));
      exclusive = v.exclusive;
      bounded = room q f;
      flags = All-append FlagIsRight q.places (new ∷ []) v.flags (refl, tt);
    })
  ]
    where
      new : Place
      new = record { waiting = true; stage = reserved }

  module _ (i : ℕ) (p : Place) (at : get_elem? q.places i ≡ some p) where
    pub flag : FlagIsRight p
    flag = All-get_elem? FlagIsRight q.places i p v.flags at

    waiting_after :
        (new : Place)
        → count is_waiting (set q.places i new) + to_num p.waiting ≡ q.waiting + to_num new.waiting
    waiting_after new = omega (arith, v.waiting_exact, count-set is_waiting q.places i p new at)

    active_after :
        (new : Place)
        → count is_running (set q.places i new) + to_num (is_running p)
          ≡ q.active + to_num (is_running new)
    active_after new = omega (arith, v.active_exact, count-set is_running q.places i p new at)

    move-IsValid : p.stage ≡ reserved → IsValid (move q i acquiring)
    move-IsValid s = rw (move-places q i p acquiring at) (record {
      waiting_exact = omega (arith, waiting_after (record p { stage = acquiring }));
      active_exact = ground (arith, active_after (record p { stage = acquiring }));
      exclusive = v.exclusive;
      bounded = v.bounded;
      flags =
          All-set FlagIsRight q.places i (record p { stage = acquiring }) v.flags
            (ground (arith, flag));
    })

    start-IsValid : p.stage ≡ acquiring → q.locked ≡ false → IsValid (start q i p)
    start-IsValid s free = rw (start-counts q i p at (ground (arith, flag))) (record {
      waiting_exact = ground (arith, flag, waiting_after running);
      active_exact = ground (arith, active_after running);
      exclusive = ground (arith, v.exclusive);
      bounded = ground (arith, flag, waiting_after running, v.bounded);
      flags = All-set FlagIsRight q.places i running v.flags refl;
    })
      where
        running : Place
        running = record { waiting = false; stage = holding }

    abandon-IsValid : is_queued p.stage ≡ true → IsValid (abandon q i p)
    abandon-IsValid s = rw (abandon-counts q i p at (flag ∙ s)) (record {
      waiting_exact = ground (arith, flag, waiting_after gone);
      active_exact = ground (arith, active_after gone);
      exclusive = v.exclusive;
      bounded = omega (arith, v.bounded);
      flags = All-set FlagIsRight q.places i gone v.flags refl;
    })
      where
        gone : Place
        gone = record { waiting = false; stage = closed }

    finish-IsValid : p.stage ≡ holding → IsValid (finish q i)
    finish-IsValid s = rw (finish-counts q i p at) (record {
      waiting_exact = omega (arith, waiting_after (record p { stage = closed }));
      active_exact = ground (arith, active_after (record p { stage = closed }));
      exclusive = ground (arith, v.exclusive, active_after (record p { stage = closed }));
      bounded = omega (arith, v.bounded);
      flags =
          All-set FlagIsRight q.places i (record p { stage = closed }) v.flags
            (ground (arith, flag));
    })

    leave-IsValid : (p.stage ≡ holding) ⊎ (p.stage ≡ closed) → IsValid (leave q i p)
    leave-IsValid s = rw (leave-not_waiting q i p (ground (arith, flag))) v

-- Every step of the queue keeps the invariant.
pub Step-IsValid : {q r : RequestQueue} → IsValid q → Step q r → IsValid r
Step-IsValid {q} {r} v (reserves e) = reserve-IsValid q v r e
Step-IsValid {q} v (enters i p at s) = move-IsValid q v i p at s
Step-IsValid {q} v (acquires i p at s free) = start-IsValid q v i p at s free
Step-IsValid {q} v (cancels i p at s) = abandon-IsValid q v i p at (ap is_queued s)
Step-IsValid {q} v (finishes i p at s) = finish-IsValid q v i p at s
Step-IsValid {q} v (gives_up i p at s) = abandon-IsValid q v i p at (ap is_queued s)
Step-IsValid {q} v (gives_up_late i p at s) = leave-IsValid q v i p at s

-- In every state that a new queue can come to, `waiting` is the number of places that wait, `active`
-- the number of places that run, which is one while the lock is held and else zero, `active` and
-- `waiting` together are at most one more than `queue_size`, and the flag of each place says whether
-- its coroutine is before the lock.
pub Reach-IsValid : {size : ℕ} {q : RequestQueue} → Reach size q → IsValid q
Reach-IsValid {size} here = IsValid-init size
Reach-IsValid (next r s) = Step-IsValid (Reach-IsValid r) s
