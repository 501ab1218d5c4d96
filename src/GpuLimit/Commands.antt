-- ===== src/GpuLimit/Commands.antt =====
-- What `apply` and `revert` of src/agent_lab/gpulimit.py do to the machine.
use agent_lab.Common.{
  ℕ, ◌≡◌, ◌⊎◌, inl, inr, refl, ◌∙◌, ap, Bool, true, false, ◌||◌, ◌∷◌, Option, none, some,
  if◌then◌else◌, ◌==◌, Bool-cases, arith,
}
use agent_lab.Common.Int.{ℤ, pos, ◌≤ℤ◌, ltb_ℤ, leb_ℤ, eq_ℤ, eq_of_parts}
use agent_lab.GpuLimit.{
  LimitState, effective_mb, ceiling_mb, unknown, too_low, recommended_mb, in_force, status_line,
  Answer, not_macos, above_ceiling, unconfirmed, Outcome, already, failed, Machine, reads, is_yes,
  check_set, run_set, set_limit, apply_below, apply_known, apply,
}

-- The user agreed, or said beforehand that no question is wanted.
abbrev pub Agreed : Bool → Answer → Type 0
Agreed assume_yes answer = assume_yes || is_yes answer ≡ true

-- The commands afterwards are those before, or one more with that value, which is allowed.
abbrev pub AtMostOne : Machine → ℤ → Type 0 → Machine → Type 0
AtMostOne m value Allowed after = (after ≡ m) ⊎ ((after.commands ≡ value ∷ m.commands) × Allowed)

reads-eq : (now : Option ℤ) (value : ℤ) → reads now value ≡ true → now ≡ some value
reads-eq none value e = cc
reads-eq (some n) value e = ap some (eq_of_parts n value (ground (arith, e)))

module _ (sudo : ℤ → Option ℤ → ℕ × Option ℤ) where
  set_limit-AtMostOne :
      (value : ℤ) (assume_yes : Bool) (answer : Answer) (m : Machine)
      → AtMostOne m value (Agreed assume_yes answer) (set_limit sudo value assume_yes answer m).1
  unfolding set_limit run_set
  set_limit-AtMostOne value assume_yes answer m = go (assume_yes || is_yes answer) refl
    where
      go :
          (b : Bool)
          → assume_yes || is_yes answer ≡ b
          → AtMostOne m value
              (Agreed assume_yes answer)
              (if b then run_set sudo value m else (failed (unconfirmed answer), m)).1
      go true agreed = inr (refl, agreed)
      go false agreed = inl refl

  apply_below-AtMostOne :
      (memory : ℕ) (value : ℤ) (assume_yes : Bool) (answer : Answer) (m : Machine)
      → AtMostOne m value
          (Agreed assume_yes answer × (value ≤ℤ ceiling_mb memory))
          (apply_below sudo memory value assume_yes answer m).1
  unfolding apply_below
  apply_below-AtMostOne memory value assume_yes answer m =
      elim (Bool-cases (ltb_ℤ (ceiling_mb memory) value)) [
        | inl above ↦ rw above (inl refl)
        | inr below ↦ rw below (elim (Bool-cases (reads m.state.wired_limit_mb value)) [
          | inl same ↦ rw same (inl refl)
          | inr other ↦ rw other (elim (set_limit-AtMostOne value assume_yes answer m) [
            | inl kept ↦ inl kept
            | inr (given, agreed) ↦ inr (given, (agreed, ground (arith, below)))
          ])
        ])
      ]

  -- What `apply` gives to sudo is at most one command, with the value of the profile, only where the
  -- memory is known and the value is not above its ceiling, and only where the user agreed; where no
  -- command is given the machine is as it was.
  pub apply-AtMostOne :
      (value : ℤ) (assume_yes : Bool) (answer : Answer) (m : Machine)
      → AtMostOne m value
          (Agreed assume_yes answer
            × (memory : ℕ) × (m.state.memory_bytes ≡ some memory)
            × (value ≤ℤ ceiling_mb memory))
          (apply sudo value assume_yes answer m).1
  unfolding apply apply_known
  apply-AtMostOne value assume_yes answer m = go m.macos m.state.memory_bytes refl
    where
      go :
          (b : Bool) (memory : Option ℕ)
          → m.state.memory_bytes ≡ memory
          → AtMostOne m value
              (Agreed assume_yes answer
                × (known : ℕ) × (m.state.memory_bytes ≡ some known)
                × (value ≤ℤ ceiling_mb known))
              (if b
                then apply_known sudo memory value assume_yes answer m
                else (failed not_macos, m)).1
      go false memory p = inl refl
      go true none p = inl refl
      go true (some known) p = elim (apply_below-AtMostOne known value assume_yes answer m) [
        | inl kept ↦ inl kept
        | inr (given, (agreed, fits)) ↦ inr (given, (agreed, known, p, fits))
      ]

  -- How a command ends well.
  abbrev pub IsDone : Outcome → Type 0
  IsDone (failed f) = ⊥
  IsDone _ = Unit {0}

  set_limit-reads :
      (value : ℤ) (assume_yes : Bool) (answer : Answer) (m : Machine)
      → IsDone (set_limit sudo value assume_yes answer m).0
      → (set_limit sudo value assume_yes answer m).1.state.wired_limit_mb ≡ some value
  unfolding set_limit run_set check_set
  set_limit-reads value assume_yes answer m done = elim (Bool-cases (assume_yes || is_yes answer)) [
    | inl b ↦ rw b (
        finished (sudo value m.state.wired_limit_mb).0 (sudo value m.state.wired_limit_mb).1
          (rw b at done))
    | inr b ↦ elim (rw b at done) [ ]
  ]
    where
      finished : (code : ℕ) (now : Option ℤ) → IsDone (check_set value code now) → now ≡ some value
      finished code now h = elim (Bool-cases (code == 0)) [
        | inl zero ↦ elim (Bool-cases (reads now value)) [
          | inl same ↦ reads-eq now value same
          | inr other ↦ elim (rw (zero, other) at h) [ ]
        ]
        | inr failure ↦ elim (rw failure at h) [ ]
      ]

  apply_below-reads :
      (memory : ℕ) (value : ℤ) (assume_yes : Bool) (answer : Answer) (m : Machine)
      → IsDone (apply_below sudo memory value assume_yes answer m).0
      → (apply_below sudo memory value assume_yes answer m).1.state.wired_limit_mb ≡ some value
  unfolding apply_below
  apply_below-reads memory value assume_yes answer m done =
      go (ltb_ℤ (ceiling_mb memory) value) (reads m.state.wired_limit_mb value) refl done
    where
      go :
          (b c : Bool)
          → reads m.state.wired_limit_mb value ≡ c
          → IsDone
              (if b
                then (failed above_ceiling, m)
                else if c
                then (already, m)
                else set_limit sudo value assume_yes answer m).0
          → (if b
              then (failed above_ceiling, m)
              else if c
              then (already, m)
              else set_limit sudo value assume_yes answer m).1.state.wired_limit_mb
            ≡ some value
      go true c p h = elim h [ ]
      go false true p h = reads-eq m.state.wired_limit_mb value p
      go false false p h = set_limit-reads value assume_yes answer m h

  apply-reads :
      (value : ℤ) (assume_yes : Bool) (answer : Answer) (m : Machine)
      → IsDone (apply sudo value assume_yes answer m).0
      → (apply sudo value assume_yes answer m).1.state.wired_limit_mb ≡ some value
  unfolding apply apply_known
  apply-reads value assume_yes answer m done = go m.macos m.state.memory_bytes done
    where
      go :
          (b : Bool) (memory : Option ℕ)
          → IsDone
              (if b
                then apply_known sudo memory value assume_yes answer m
                else (failed not_macos, m)).0
          → (if b
              then apply_known sudo memory value assume_yes answer m
              else (failed not_macos, m)).1.state.wired_limit_mb
            ≡ some value
      go false memory h = elim h [ ]
      go true none h = elim h [ ]
      go true (some memory) h = apply_below-reads memory value assume_yes answer m h

  status_line-reads :
      (s : LimitState) (value : ℤ)
      → pos 1 ≤ℤ value
      → s.wired_limit_mb ≡ some value
      → status_line s value ≡ in_force value
  unfolding status_line effective_mb
  status_line-reads s value positive e =
      ap
        (λ (o : Option ℤ). elim o [
          | none ↦ unknown
          | some n ↦ if leb_ℤ value n then in_force n else too_low n
        ])
        shown
      ∙ ap (λ (b : Bool). if b then in_force value else too_low value) at_least
    where
      above_zero : eq_ℤ value (pos 0) ≡ false
      above_zero = ground (arith, positive)

      at_least : leb_ℤ value value ≡ true
      at_least = ground arith

      shown : effective_mb s ≡ some value
      shown =
          ap
            (λ (o : Option ℤ). elim o [
              | none ↦ none
              | some n ↦ if eq_ℤ n (pos 0) then recommended_mb s.recommended_bytes else some n
            ])
            e
          ∙ ap (λ (b : Bool). if b then recommended_mb s.recommended_bytes else some value)
              above_zero

  -- Where `apply` ends without an error, the sysctl reads the value of the profile, and with a value
  -- above 0 the status of the machine afterwards is that this value is in force.
  pub apply-in_force :
      (value : ℤ) (assume_yes : Bool) (answer : Answer) (m : Machine)
      → pos 1 ≤ℤ value
      → IsDone (apply sudo value assume_yes answer m).0
      → ((apply sudo value assume_yes answer m).1.state.wired_limit_mb ≡ some value)
        × (status_line (apply sudo value assume_yes answer m).1.state value ≡ in_force value)
  apply-in_force value assume_yes answer m positive done =
      let now = apply-reads value assume_yes answer m done in
      (now, status_line-reads (apply sudo value assume_yes answer m).1.state value positive now)
