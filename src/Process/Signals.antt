-- ===== src/Process/Signals.antt =====
-- Which processes `stop` of src/agent_lab/backend/process.py signals.
use agent_lab.Common.{
  ◌≡◌, refl, sym, ap, Bool, true, false, List, [], ◌∷◌, Option, none, some, if◌then◌else◌, arith,
  All, Bool-cases, inl, inr, some_inj, subst,
}
use agent_lab.Common.Int.{ℤ, pos, ◌≤ℤ◌, leb_ℤ}
use agent_lab.Json.{Value, Fields, Float, int, obj, get, get_value}
use agent_lab.Gateway.Result.{ok, >>=-eq-ok, ok_inj}
use agent_lab.Process.{
  Record, to_dict, load, with_pid, started, Machine, Signal, term, kill, wait_exit, terminate,
  after_terminate, stop,
}

abbrev pub target : Signal → ℤ
target (term pid) = pid
target (kill pid) = pid

-- What was seen before a signal: SIGTERM follows the look that found the process with the recorded pid
-- to be the backend, and SIGKILL follows that look and those until the deadline, each of which still
-- found it.
abbrev pub IsSeen : Machine → Record → List Bool → Signal → Type 0
IsSeen m r first (term pid) = m.runs r.pid ≡ true
IsSeen m r first (kill pid) = (m.runs r.pid ≡ true) × All (λ alive. alive ≡ true) first

-- A signal to the recorded process, and to no other, while it was seen to be the backend.
abbrev pub IsOurs : Machine → Record → List Bool → Signal → Type 0
IsOurs m r first s = (target s ≡ r.pid) × (pos 1 ≤ℤ r.pid) × IsSeen m r first s

-- A wait that ends at its deadline saw the process at every look.
wait_exit-All : (looks : List Bool) → wait_exit looks ≡ false → All (λ alive. alive ≡ true) looks
unfolding wait_exit
wait_exit-All [] e = tt
wait_exit-All (true ∷ later) e = (refl, wait_exit-All later e)
wait_exit-All (false ∷ later) e = cc

module _ (int_to_float : ℤ → Float) where
  with_pid-positive :
      (v : Value) (fs : Fields) (r : Record)
      → with_pid int_to_float v fs ≡ ok (some r)
      → pos 1 ≤ℤ r.pid
  unfolding with_pid
  with_pid-positive (int pid) fs r e = elim (Bool-cases (leb_ℤ pid (pos 0))) [
    | inl low ↦ cc (rw low at e)
    | inr high ↦
        let (at, _, e') =
          >>=-eq-ok (started int_to_float (get_value "started_at" fs)) _ (rw high at e) in
        subst (λ (n : ℤ). pos 1 ≤ℤ n) (ap (λ (x : Record). x.pid) (some_inj (ok_inj e')))
          (ground (arith, high))
  ]
  with_pid-positive _ fs r e = cc

  -- A record that is found names a process: its pid is above 0.
  load-positive :
      (file : Option Value) (r : Record) → load int_to_float file ≡ ok (some r) → pos 1 ≤ℤ r.pid
  unfolding load
  load-positive (some (obj fs)) r e = with_pid-positive (get_value "pid" fs) fs r e
  load-positive _ r e = cc

  -- A record that names a process is read back as it was saved.
  pub load-to_dict :
      (r : Record) → pos 1 ≤ℤ r.pid → load int_to_float (some (to_dict r)) ≡ ok (some r)
  unfolding load with_pid started get
  load-to_dict r positive = rw high refl
    where
      high : leb_ℤ r.pid (pos 0) ≡ false
      high = ground (arith, positive)

  terminate-targets :
      (pid : ℤ) (first second : List Bool) (P : Signal → Type 0)
      → P (term pid)
      → (All (λ alive. alive ≡ true) first → P (kill pid))
      → All P (terminate pid first second).0
  unfolding terminate
  terminate-targets pid first second P t k = go (wait_exit first) refl
    where
      go :
          (b : Bool)
          → wait_exit first ≡ b
          → All P
              (if◌then◌else◌ {A = List Signal × Option Bool} b
                (term pid ∷ [], some false)
                (term pid ∷ kill pid ∷ [], if wait_exit second then some true else none)).0
      go true e = (t, tt)
      go false e = (t, (k (wait_exit-All first e), tt))

  after_terminate-signals :
      (r : Record) (x : List Signal × Option Bool) → (after_terminate r x).signals ≡ x.0
  unfolding after_terminate
  after_terminate-signals r (signals, none) = refl
  after_terminate-signals r (signals, some killed) = refl

  -- Every signal of `stop` goes to the recorded pid, which is above 0: SIGTERM only where a look found
  -- that process to be the backend, and SIGKILL only where, besides, every look until the deadline
  -- still did.
  pub stop-IsOurs :
      (m : Machine) (file : Option Value) (r : Record) (first second : List Bool)
      → load int_to_float file ≡ ok (some r)
      → All (IsOurs m r first) (stop m (some r) first second).signals
  unfolding stop
  stop-IsOurs m file r first second e = go (m.runs r.pid) refl
    where
      positive : pos 1 ≤ℤ r.pid
      positive = load-positive file r e

      go :
          (b : Bool)
          → m.runs r.pid ≡ b
          → All
              (IsOurs m r first)
              (if b then after_terminate r (terminate r.pid first second) else (record {
                signals = [];
                cleared = true;
                answer = some (some r, false);
              })).signals
      go false p = tt
      go true p =
          subst (All (IsOurs m r first))
            (sym (after_terminate-signals r (terminate r.pid first second)))
            (terminate-targets r.pid first second (IsOurs m r first) (refl, positive, p)
              (λ seen. (refl, positive, (p, seen))))
