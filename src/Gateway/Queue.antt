-- ===== src/Gateway/Queue.antt =====
-- src/agent_lab/gateway/queue.py: one request at a time, a few waiting, the rest turned away.
-- `RequestQueue` and `Place` are the objects of the source. A place is named by its index in the
-- order in which places were handed out. `Stage` says where the coroutine that uses a place stands:
-- it is no field of the source, but the point that the `slot` of that place has reached.
-- `asyncio.Lock` belongs to the library: a step takes the lock only while nobody holds it, and which
-- waiter takes it next is left open.
pub mod Places
pub mod Invariant
pub mod Effects
mod Tests
use agent_lab.Common.{
  ◌⊎◌, ℕ, ◌+◌, ◌-◌, ◌≡◌, Bool, true, false, List, [], ◌∷◌, ◌++◌, Option, none, some, leb,
  if◌then◌else◌, get_elem?, set,
}

pub data Stage : Type 0 where
  reserved : Stage
  acquiring : Stage
  holding : Stage
  closed : Stage

pub record Place : Type 0 where
  pub waiting : Bool
  pub stage : Stage

-- `changes` are the calls of `_on_change`, newest first, each with (active, waiting).
pub record RequestQueue : Type 0 where
  pub queue_size : ℕ
  pub waiting : ℕ
  pub active : ℕ
  pub locked : Bool
  pub changes : List (ℕ × ℕ)
  pub places : List Place

abbrev pub init : ℕ → RequestQueue
init size = record {
  queue_size = size;
  waiting = 0;
  active = 0;
  locked = false;
  changes = [];
  places = [];
}

unfoldable pub changed : RequestQueue → RequestQueue
changed q = record q { changes = (q.active, q.waiting) ∷ q.changes }

-- active + waiting >= 1 + queue_size
unfoldable pub full : RequestQueue → Bool
full q = leb (1 + q.queue_size) (q.active + q.waiting)

-- `if place.waiting: ...` of `_leave`; the flag is whether anything changed.
stop_waiting : RequestQueue → ℕ → Place → RequestQueue × Bool
stop_waiting q i p =
    if p.waiting
    then (
      record q { waiting = q.waiting - 1; places = set q.places i (record p { waiting = false }) },
      true,
    )
    else (q, false)

-- `_leave(place)`
unfoldable pub leave : RequestQueue → ℕ → Place → RequestQueue
unfolding stop_waiting changed
leave q i p = let (q', done) = stop_waiting q i p in if done then changed q' else q'

-- `_leave(place, start=True)`
unfoldable pub leave_start : RequestQueue → ℕ → Place → RequestQueue
unfolding stop_waiting changed
leave_start q i p =
    let (q', done) = stop_waiting q i p in changed (record q' { active = q'.active + 1 })

-- `reserve`: none is QueueFull. The place that it returns is the last one.
unfoldable pub reserve : RequestQueue → Option RequestQueue
unfolding full changed
reserve q =
    if full q
    then none
    else some (
        changed (record q {
          waiting = q.waiting + 1;
          places = q.places ++ (record { waiting = true; stage = reserved }) ∷ [];
        }))

-- The coroutine of place i goes to another stage; the place itself stays as it is.
unfoldable pub move : RequestQueue → ℕ → Stage → RequestQueue
move q i s = elim (get_elem? q.places i) [
  | none ↦ q
  | some p ↦ record q { places = set q.places i (record p { stage = s }) }
]

-- `slot` after `acquire` returned: the lock is held, and the place starts running.
unfoldable pub start : RequestQueue → ℕ → Place → RequestQueue
unfolding leave_start move
start q i p = move (leave_start (record q { locked = true }) i p) i holding

-- `slot` when `acquire` raised: the place gives up.
unfoldable pub abandon : RequestQueue → ℕ → Place → RequestQueue
unfolding leave move
abandon q i p = move (leave q i p) i closed

-- The `finally` of `slot`.
unfoldable pub finish : RequestQueue → ℕ → RequestQueue
unfolding move changed
finish q i = changed (record (move q i closed) { active = q.active - 1; locked = false })

-- What can happen next. The gateway calls `give_up` once the coroutine of the place has ended
-- (`ChatResponse.__call__` cancels it and waits for it first): a coroutine that is cancelled before
-- it began never takes the lock.
pub data Step (q : RequestQueue) : RequestQueue → Type 0 where
  reserves : {r : RequestQueue} → reserve q ≡ some r → Step q r
  enters :
      (i : ℕ) (p : Place)
      → get_elem? q.places i ≡ some p
      → p.stage ≡ reserved
      → Step q (move q i acquiring)
  acquires :
      (i : ℕ) (p : Place)
      → get_elem? q.places i ≡ some p
      → p.stage ≡ acquiring
      → q.locked ≡ false
      → Step q (start q i p)
  cancels :
      (i : ℕ) (p : Place)
      → get_elem? q.places i ≡ some p
      → p.stage ≡ acquiring
      → Step q (abandon q i p)
  finishes :
      (i : ℕ) (p : Place) → get_elem? q.places i ≡ some p → p.stage ≡ holding → Step q (finish q i)
  gives_up :
      (i : ℕ) (p : Place)
      → get_elem? q.places i ≡ some p
      → p.stage ≡ reserved
      → Step q (abandon q i p)
  gives_up_late :
      (i : ℕ) (p : Place)
      → get_elem? q.places i ≡ some p
      → (p.stage ≡ holding) ⊎ (p.stage ≡ closed)
      → Step q (leave q i p)

-- The states that a new queue of a size can come to.
pub data Reach (size : ℕ) : RequestQueue → Type 0 where
  here : Reach size (init size)
  next : {q r : RequestQueue} → Reach size q → Step q r → Reach size r
