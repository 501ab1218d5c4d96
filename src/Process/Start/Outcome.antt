-- ===== src/Process/Start/Outcome.antt =====
-- What `start` can come to.
use agent_lab.Common.{
  ℕ, suc, ◌≡◌, ◌≢◌, refl, sym, subst, arith, eq_iff, ap, ◌∙◌, ◌⊎◌, inl, inr, Bool, true, false,
  List, [], ◌∷◌, ◌++◌, Option, none, some, if◌then◌else◌, get_elem?,
}
use agent_lab.Common.Int.{ℤ}
use agent_lab.Json.{Fields, Float, nan, inf, finite}
use agent_lab.Process.{
  Record, read_record, running, Machine, status, Signal, term, kill, terminate, wait_exit,
}
use agent_lab.Process.Start.{
  Poll, Waited, is_ready, has_exited, late, interrupt, is_live, Cleanup, Started, terminate_child,
  same_float, same_record, clear_own, after_child, ready_at, look, wait_ready, after_wait, start,
}

-- A look at a child that is ready: it was not interrupted, the child runs, its ready file names it,
-- and its port is healthy.
pub record IsReady (healthy : Option ℕ → Bool) (pid : ℤ) (p : Poll) : Type 0 where
  pub calm : p.interrupted ≡ false
  pub runs : p.code ≡ none
  pub ready : (fields : Fields) × (read_record p.ready_file pid ≡ some fields)
  pub health : healthy p.health ≡ true

-- What is seen of the child after a failure: it had gone before any signal, it exited after
-- SIGTERM, or it outlasted the wait after SIGTERM and exited after SIGKILL.
pub data IsGone (pid : ℤ) (c : Cleanup) : List Signal → Type 0 where
  reaped : c.reaped ≡ true → IsGone pid c []
  stopped_by_term : c.reaped ≡ false → wait_exit c.first ≡ true → IsGone pid c (term pid ∷ [])
  stopped_by_kill :
      c.reaped ≡ false
      → wait_exit c.first ≡ false
      → wait_exit c.second ≡ true
      → IsGone pid c (term pid ∷ kill pid ∷ [])

-- A record with the fields of this one; the times are equal as numbers.
pub record IsOwn (held r : Record) : Type 0 where
  pub pid : held.pid ≡ r.pid
  pub port : held.port ≡ r.port
  pub profile : held.profile ≡ r.profile
  pub model : held.model ≡ r.model
  pub time : same_float held.started_at r.started_at ≡ true

-- The state file after the child is gone, from what it held before: it had no record and has none, it
-- had the record of this start and has none, or it has another record as before. A record whose time
-- is not a number equals none.
pub data IsCleared (r : Record) : Option Record → Option Record → Type 0 where
  was_empty : IsCleared r none none
  own_removed : (held : Record) → IsOwn held r → IsCleared r (some held) none
  other_kept :
      (held : Record) → (held ≢ r) ⊎ (held.started_at ≡ nan) → IsCleared r (some held) (some held)

-- What `start` can come to. Where there is a live process, it is left alone. Else a process is started:
-- it is recorded and ready; or it is gone and the state file has no record equal to its own any more,
-- but still the record of another process; or it outlives SIGKILL, and the state file stays as it is.
pub data IsOutcome (healthy : Option ℕ → Bool) (m : Machine) (found : Option Record) (r : Record)
    (polls : List Poll) (last : Poll) (c : Cleanup) : Started → Type 0 where
  left_alone :
      is_live (status healthy m found) ≡ true
      → IsOutcome healthy m found r polls last c (record {
        spawned = false;
        signals = [];
        file = found;
        answer = some (status healthy m found, false);
      })
  came_up :
      (i : ℕ) (p : Poll)
      → is_live (status healthy m found) ≡ false
      → get_elem? (polls ++ last ∷ []) i ≡ some p
      → IsReady healthy r.pid p
      → IsOutcome healthy m found r polls last c
          (record { spawned = true; signals = []; file = some r; answer = some (running, true) })
  failed :
      (signals : List Signal) (file : Option Record)
      → is_live (status healthy m found) ≡ false
      → IsGone r.pid c signals
      → IsCleared r c.now file
      → IsOutcome healthy m found r polls last c
          (record { spawned = true; signals = signals; file = file; answer = none })
  outlived :
      is_live (status healthy m found) ≡ false
      → c.reaped ≡ false
      → wait_exit c.first ≡ false
      → wait_exit c.second ≡ false
      → IsOutcome healthy m found r polls last c (record {
        spawned = true;
        signals = term r.pid ∷ kill r.pid ∷ [];
        file = c.now;
        answer = none;
      })

same_record-IsOwn : (held r : Record) → same_record held r ≡ true → IsOwn held r
unfolding same_record
same_record-IsOwn held r e = record {
  pid = ground (arith, e);
  port = ground (arith, e);
  profile = ground (arith, e, eq_iff held.profile r.profile);
  model = ground (arith, e, eq_iff held.model r.model);
  time = ground (arith, e);
}

same_float_refl : (x : Float) → (same_float x x ≡ true) ⊎ (x ≡ nan)
same_float_refl nan = inr refl
same_float_refl (inf true) = inl refl
same_float_refl (inf false) = inl refl
same_float_refl (finite m k) = inl (ground arith)

same_record-other :
    (held r : Record) → same_record held r ≡ false → (held ≢ r) ⊎ (held.started_at ≡ nan)
unfolding same_record
same_record-other held r e = elim (same_float_refl held.started_at) [
  | inr n ↦ inr n
  | inl same ↦ inl λ q.
      let own : same_record held held ≡ false = subst (λ s. same_record held s ≡ false) (sym q) e in
      ground (arith, own, same, eq_iff held.profile held.profile, eq_iff held.model held.model)
]

clear_own-IsCleared : (r : Record) (now : Option Record) → IsCleared r now (clear_own r now)
unfolding clear_own
clear_own-IsCleared r none = was_empty
clear_own-IsCleared r (some held) = go (same_record held r) refl
  where
    go :
        (b : Bool)
        → same_record held r ≡ b
        → IsCleared r (some held) (if b then none else some held)
    go true e = own_removed held (same_record-IsOwn held r e)
    go false e = other_kept held (same_record-other held r e)

module _ (healthy : Option ℕ → Bool) where
  look-IsReady :
      (pid : ℤ) (p : Poll) (fields : Fields)
      → look healthy pid p ≡ some (is_ready fields)
      → IsReady healthy pid p
  unfolding look
  look-IsReady pid p fields e =
      go p.interrupted refl p.code refl (read_record p.ready_file pid) refl e
    where
      at_port :
          (fs : Fields)
          → p.interrupted ≡ false
          → p.code ≡ none
          → read_record p.ready_file pid ≡ some fs
          → (h : Bool) → healthy p.health ≡ h
          → (if h then some (is_ready fs) else none) ≡ some (is_ready fields)
          → IsReady healthy pid p
      at_port fs calm c r false h eq = cc
      at_port fs calm c r true h eq = record { calm = calm; runs = c; ready = (fs, r); health = h }

      go :
          (b : Bool)
          → p.interrupted ≡ b
          → (code : Option ℤ) → p.code ≡ code
          → (ready : Option Fields) → read_record p.ready_file pid ≡ ready
          → (if b then some interrupt else elim code [
            | some n ↦ some (has_exited n)
            | none ↦ ready_at healthy ready p.health
          ])
            ≡ some (is_ready fields)
          → IsReady healthy pid p
      go true calm code c ready r eq = cc
      go false calm (some n) c ready r eq = cc
      go false calm none c none r eq = cc
      go false calm none c (some fs) r eq = at_port fs calm c r (healthy p.health) refl eq

  wait_ready-IsReady :
      (pid : ℤ) (polls : List Poll) (last : Poll) (fields : Fields)
      → wait_ready healthy pid polls last ≡ is_ready fields
      → (i : ℕ) × (p : Poll) × (get_elem? (polls ++ last ∷ []) i ≡ some p) × IsReady healthy pid p
  unfolding wait_ready
  wait_ready-IsReady pid [] last fields e = go (look healthy pid last) refl e
    where
      go :
          (o : Option Waited)
          → look healthy pid last ≡ o
          → (elim o [ none ↦ late | some w ↦ w ]) ≡ is_ready fields
          → (i : ℕ) × (p : Poll) × (get_elem? (last ∷ []) i ≡ some p) × IsReady healthy pid p
      go none l eq = cc
      go (some w) l eq = (0, last, refl, look-IsReady pid last fields (l ∙ ap some eq))
  wait_ready-IsReady pid (p ∷ rest) last fields e =
      go (look healthy pid p) refl e (λ eq. wait_ready-IsReady pid rest last fields eq)
    where
      go :
          (o : Option Waited)
          → look healthy pid p ≡ o
          → (elim o [ none ↦ wait_ready healthy pid rest last | some w ↦ w ]) ≡ is_ready fields
          → (wait_ready healthy pid rest last ≡ is_ready fields
              → (i : ℕ) × (p : Poll) × (get_elem? (rest ++ last ∷ []) i ≡ some p)
                × IsReady healthy pid p)
          → (i : ℕ) × (q : Poll) × (get_elem? (p ∷ rest ++ last ∷ []) i ≡ some q)
            × IsReady healthy pid q
      go none l eq later = let (i, q, at, ready) = later eq in (suc i, q, at, ready)
      go (some w) l eq later = (0, p, refl, look-IsReady pid p fields (l ∙ ap some eq))

  module _ (m : Machine) (found : Option Record) (r : Record) (polls : List Poll) (last : Poll)
      (c : Cleanup) where
    -- The end of a failed start.
    after_child-IsOutcome :
        is_live (status healthy m found) ≡ false
        → IsOutcome healthy m found r polls last c (after_child r c (terminate_child r.pid c))
    unfolding terminate_child terminate
    after_child-IsOutcome free = go c.reaped refl (wait_exit c.first) refl (wait_exit c.second) refl
      where
        file_gone : IsCleared r c.now (clear_own r c.now)
        file_gone = clear_own-IsCleared r c.now

        go :
            (b : Bool)
            → c.reaped ≡ b
            → (first : Bool) → wait_exit c.first ≡ first
            → (second : Bool) → wait_exit c.second ≡ second
            → IsOutcome healthy m found r polls last c (
                after_child r c (
                  if◌then◌else◌ {A = List Signal × Option Bool} b
                    ([], some false)
                    (if◌then◌else◌ {A = List Signal × Option Bool} first
                      (term r.pid ∷ [], some false)
                      (term r.pid ∷ kill r.pid ∷ [], if second then some true else none))))
        go true b first f second s = failed [] (clear_own r c.now) free (reaped b) file_gone
        go false b true f second s =
            failed (term r.pid ∷ []) (clear_own r c.now) free (stopped_by_term b f) file_gone
        go false b false f true s =
            failed (term r.pid ∷ kill r.pid ∷ []) (clear_own r c.now) free (stopped_by_kill b f s)
              file_gone
        go false b false f false s = outlived free b f s

    after_wait-IsOutcome :
        is_live (status healthy m found) ≡ false
        → (w : Waited) → wait_ready healthy r.pid polls last ≡ w
        → IsOutcome healthy m found r polls last c (after_wait healthy r c w)
    after_wait-IsOutcome free (is_ready fields) e =
        let (i, p, at, ready) = wait_ready-IsReady r.pid polls last fields e in
        came_up i p free at ready
    after_wait-IsOutcome free _ e = after_child-IsOutcome free

    -- Where the record can be saved: a live process is left alone, without a signal. Else `start`
    -- returns only with a child that a look found running, named by its ready file and healthy, and
    -- its record is in the state file. Where it fails, the child has exited and the state file has no
    -- record equal to its own, while the record of another process is kept; or the child outlives
    -- SIGKILL and the file stays. The signals go to the child alone, none once it was reaped, and
    -- SIGKILL only after the whole wait for SIGTERM.
    pub start-IsOutcome :
        IsOutcome healthy m found r polls last c (start healthy m found r true polls last c)
    unfolding start
    start-IsOutcome = go (is_live (status healthy m found)) refl
      where
        go :
            (b : Bool)
            → is_live (status healthy m found) ≡ b
            → IsOutcome healthy m found r polls last c (
                if b
                then record {
                  spawned = false;
                  signals = [];
                  file = found;
                  answer = some (status healthy m found, false);
                }
                else after_wait healthy r c (wait_ready healthy r.pid polls last))
        go true b = left_alone b
        go false b = after_wait-IsOutcome b (wait_ready healthy r.pid polls last) refl

    -- Where the record cannot be saved, `start` returns only for a live process.
    pub start-unsaved :
        (is_live (status healthy m found) ≡ true)
        ⊎ ((start healthy m found r false polls last c).answer ≡ none)
    unfolding start
    start-unsaved = go (is_live (status healthy m found)) refl
      where
        go :
            (b : Bool)
            → is_live (status healthy m found) ≡ b
            → (is_live (status healthy m found) ≡ true)
              ⊎ ((if◌then◌else◌ {A = Started} b
                    (record {
                      spawned = false;
                      signals = [];
                      file = found;
                      answer = some (status healthy m found, false);
                    })
                    (record {
                      spawned = true;
                      signals = (terminate_child r.pid c).0;
                      file = none;
                      answer = none;
                    })).answer
                  ≡ none)
        go true b = inl b
        go false b = inr refl
