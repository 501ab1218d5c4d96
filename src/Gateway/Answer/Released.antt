-- ===== src/Gateway/Answer/Released.antt =====
-- The end of a request: its place and the status of its record.
use agent_lab.Common.{
  ℕ, ◌+◌, ◌-◌, ◌≡◌, refl, sym, ap, subst, inl, inr, Bool, true, false, ◌∷◌, Option, none, some,
  get_elem?, set, count, count-set, to_num, get_elem?-set_self, arith, Bool-cases,
}
use agent_lab.Gateway.Queue.{RequestQueue, Place, leave, Reach}
use agent_lab.Gateway.Queue.Invariant.{Reach-IsValid, IsValid, is_waiting}
use agent_lab.Gateway.Queue.Places.{leave-not_waiting}
use agent_lab.Gateway.Answer.{give_up, end_call, Wait}

give_up-at :
    (q : RequestQueue) (i : ℕ) (p : Place)
    → get_elem? q.places i ≡ some p
    → give_up q i ≡ leave q i p
unfolding give_up
give_up-at q i p at = ap (λ (o : Option Place). elim o [ none ↦ q | some p ↦ leave q i p ]) at

leave-counts :
    (q : RequestQueue) (i : ℕ) (p : Place)
    → p.waiting ≡ true
    → leave q i p ≡ record q {
      waiting = q.waiting - 1;
      changes = (q.active, q.waiting - 1) ∷ q.changes;
      places = set q.places i (record p { waiting = false });
    }
unfolding leave
leave-counts q i p w = rw (w, leave) refl

-- What holds of the queue after a request has ended, against the queue and its place before.
pub record IsReleased (before : RequestQueue) (i : ℕ) (p : Place) (after : RequestQueue)
    : Type 0 where
  pub one_less : after.waiting + to_num p.waiting ≡ before.waiting
  pub exact : after.waiting ≡ count is_waiting after.places
  pub same_active : after.active ≡ before.active
  pub same_lock : after.locked ≡ before.locked
  pub not_waiting : (now : Place) × (get_elem? after.places i ≡ some now) × (now.waiting ≡ false)

leave-IsReleased :
    {size : ℕ} {q : RequestQueue} (i : ℕ) (p : Place)
    → Reach size q
    → get_elem? q.places i ≡ some p
    → IsReleased q i p (leave q i p)
leave-IsReleased {size} {q} i p reach at = elim (Bool-cases p.waiting) [
  | inl w ↦ rw (leave-counts q i p w) (record {
    one_less = ground (arith, w, v.waiting_exact, moved);
    exact = ground (arith, w, v.waiting_exact, moved);
    same_active = refl;
    same_lock = refl;
    not_waiting = (_, get_elem?-set_self q.places i p quiet at, refl);
  })
  | inr w ↦ rw (leave-not_waiting q i p w) (record {
    one_less = ground (arith, w);
    exact = v.waiting_exact;
    same_active = refl;
    same_lock = refl;
    not_waiting = (p, at, w);
  })
]
  where
    v : IsValid q
    v = Reach-IsValid reach

    quiet : Place
    quiet = record p { waiting = false }

    moved :
        count is_waiting (set q.places i quiet) + to_num p.waiting ≡ count is_waiting q.places + 0
    moved = count-set is_waiting q.places i p quiet at

-- In every reachable state of the queue, however a request ends: its place no longer waits, the count
-- of the waiting is one less where the place still waited, and is the number of the places that wait;
-- `active` and the lock stay as they are.
pub end_call-IsReleased :
    {size : ℕ} {q : RequestQueue} (i : ℕ) (p : Place) (wait : Wait) (failing : Bool) (status : ℕ)
    → Reach size q
    → get_elem? q.places i ≡ some p
    → IsReleased q i p (end_call wait failing status q i).1
unfolding end_call
end_call-IsReleased {size} {q} i p wait failing status reach at =
    subst (IsReleased q i p) (sym (give_up-at q i p at)) (leave-IsReleased i p reach at)
