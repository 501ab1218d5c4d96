-- ===== src/Gateway/Queue/Effects.antt =====
-- Who is turned away, what is reported, and that nobody keeps a place after leaving.
use agent_lab.Common.{
  ℕ, ◌+◌, ◌≤◌, ◌≡◌, refl, sym, ◌↔◌, ◌≢◌, true, false, List, [], ◌∷◌, ◌++◌, none, some, ap, subst,
  ◌∙◌, arith, get_elem?, count, All, some_inj, get_elem?-set_self,
}
use agent_lab.Gateway.Queue.{
  RequestQueue, Place, Stage, reserved, acquiring, closed, Reach, here, next, reserves, enters,
  acquires, cancels, finishes, gives_up, gives_up_late, reserve, move, abandon, leave,
}
use agent_lab.Gateway.Queue.Places.{
  move-places, start-counts, abandon-counts, finish-counts, leave-not_waiting,
}
use agent_lab.Gateway.Queue.Invariant.{
  Reach-IsValid, flag, FlagIsRight, is_queued, is_waiting, is_running,
}

-- `reserve` turns a request away exactly when as many requests as `queue_size` and one more run or
-- wait; otherwise it counts one more waiting request, adds its place at the end and reports.
pub reserve_cases :
    (q : RequestQueue)
    → ((reserve q ≡ none) ↔ (1 + q.queue_size ≤ q.active + q.waiting))
      × ((r : RequestQueue)
          → reserve q ≡ some r
          → (r.waiting ≡ q.waiting + 1)
            × (r.active ≡ q.active)
            × (r.locked ≡ q.locked)
            × (r.changes ≡ (q.active, q.waiting + 1) ∷ q.changes)
            × (r.places ≡ q.places ++ (record { waiting = true; stage = reserved }) ∷ []))
unfolding reserve
reserve_cases q = ((λ h. ground arith, λ h. ground arith), λ r h. ground arith)

-- What the last call of `_on_change` said; `server.py` writes (0, 0) before the first.
abbrev pub last_report : RequestQueue → ℕ × ℕ
last_report q = elim q.changes [ [] ↦ (0, 0) | c ∷ cs ↦ c ]

abbrev IsReported : RequestQueue → Type 0
IsReported q = last_report q ≡ (q.active, q.waiting)

reserve-IsReported : (q r : RequestQueue) → reserve q ≡ some r → IsReported r
unfolding reserve
reserve-IsReported q r e = ground arith

move-IsReported :
    (q : RequestQueue) (i : ℕ) (p : Place) (s : Stage)
    → get_elem? q.places i ≡ some p
    → IsReported q
    → IsReported (move q i s)
move-IsReported q i p s at h = rw (move-places q i p s at) h

-- In every state that a new queue can come to, the last report, or (0, 0) before the first, is the
-- number of running and of waiting requests.
pub last_report_lem :
    {size : ℕ} {q : RequestQueue} → Reach size q → last_report q ≡ (q.active, q.waiting)
last_report_lem here = refl
last_report_lem (next {q} {r} h (reserves e)) = reserve-IsReported q r e
last_report_lem (next {q} h (enters i p at s)) =
    move-IsReported q i p acquiring at (last_report_lem h)
last_report_lem (next {q} h (acquires i p at s free)) =
    rw (start-counts q i p at (flag q (Reach-IsValid h) i p at ∙ ap is_queued s)) refl
last_report_lem (next {q} h (cancels i p at s)) =
    rw (abandon-counts q i p at (flag q (Reach-IsValid h) i p at ∙ ap is_queued s)) refl
last_report_lem (next {q} h (finishes i p at s)) = rw (finish-counts q i p at) refl
last_report_lem (next {q} h (gives_up i p at s)) =
    rw (abandon-counts q i p at (flag q (Reach-IsValid h) i p at ∙ ap is_queued s)) refl
last_report_lem (next {q} h (gives_up_late i p at s)) =
    rw (leave-not_waiting q i p (flag q (Reach-IsValid h) i p at ∙ ground (arith, s)))
      (last_report_lem h)

abbrev gone : Place
gone = record { waiting = false; stage = closed }

gone-abandon :
    (q : RequestQueue) (i : ℕ) (p : Place)
    → get_elem? q.places i ≡ some p
    → p.waiting ≡ true
    → get_elem? (abandon q i p).places i ≡ some gone
gone-abandon q i p at w = rw (abandon-counts q i p at w) (get_elem?-set_self q.places i p gone at)

-- Once a waiting request has left, another `give_up` of its place changes nothing: neither the
-- counters nor the reports.
pub leave-abandon :
    (q : RequestQueue) (i : ℕ) (p left : Place)
    → get_elem? q.places i ≡ some p
    → p.waiting ≡ true
    → get_elem? (abandon q i p).places i ≡ some left
    → leave (abandon q i p) i left ≡ abandon q i p
leave-abandon q i p left at w found = leave-not_waiting (abandon q i p) i left (
    subst (λ (x : Place). x.waiting ≡ false) (some_inj (sym (gone-abandon q i p at w) ∙ found))
      refl)

abbrev pub IsClosed : Place → Type 0
IsClosed p = p.stage ≡ closed

closed_counts :
    (ps : List Place)
    → All IsClosed ps
    → All FlagIsRight ps
    → (count is_waiting ps ≡ 0) × (count is_running ps ≡ 0)
closed_counts [] h f = (refl, refl)
closed_counts (p ∷ ps) h f = ground (arith, closed_counts ps h.1 f.1, h.0, f.0)

-- When every request that was accepted has gone, the queue is empty and the lock is free, so that
-- the next request is accepted.
pub drained :
    {size : ℕ} {q : RequestQueue}
    → Reach size q
    → All IsClosed q.places
    → (q.waiting ≡ 0) × (q.active ≡ 0) × (q.locked ≡ false) × (reserve q ≢ none)
drained {q} h c =
    let v = Reach-IsValid h in
    let n = closed_counts q.places c v.flags in
    (
      omega (arith, v.waiting_exact, n),
      omega (arith, v.active_exact, n),
      ground (arith, v.exclusive, v.active_exact, n),
      λ e. absurd (omega (arith, (reserve_cases q).0.0 e, v.waiting_exact, v.active_exact, n)),
    )
