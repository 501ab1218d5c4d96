-- ===== src/Launch/Guard.antt =====
-- When the memory watchdog stops the backend.
use agent_lab.Common.{
  ℕ, ◌≤◌, ◌<◌, ◌≡◌, refl, ap, ◌⊎◌, inl, inr, Bool, true, false, List, [], ◌∷◌, ◌++◌, Option, none,
  some, if◌then◌else◌, ltb, All, arith,
}
use agent_lab.Launch.{Tick, Reason, unreadable, exceeded, check_memory, Watched, checked, watch}

-- A reading within the limit.
abbrev pub IsWithin : ℕ → Tick → Type 0
IsWithin limit t = (n : ℕ) × (t.active ≡ some n) × (n ≤ limit)

-- A turn that is a reason to stop: there is no reading, or it is over the limit.
pub data IsOver (limit : ℕ) (t : Tick) : Reason → Type 0 where
  is_unread : t.active ≡ none → IsOver limit t unreadable
  is_above : (n : ℕ) → t.active ≡ some n → limit < n → IsOver limit t (exceeded n)

-- What stopped the watchdog: the first turn that is a reason to.
abbrev pub IsFirst : ℕ → List Tick → Reason → Type 0
IsFirst limit ticks reason =
    (before : List Tick) × (t : Tick) × (after : List Tick) × (ticks ≡ before ++ t ∷ after)
    × All (IsWithin limit) before
    × IsOver limit t reason

-- What the watchdog did is right for its turns.
abbrev Cases : ℕ → List Tick → Watched → Type 0
Cases limit ticks w =
    ((w.reason ≡ none) × All (IsWithin limit) ticks)
    ⊎ ((reason : Reason) × (w.reason ≡ some reason) × IsFirst limit ticks reason)

-- Either every reading is within the limit, and the watchdog does not stop the backend; or it stops it,
-- at the first turn without a reading or with one over the limit. Samples make no difference.
pub watch-cases :
    (limit : ℕ) (ticks : List Tick)
    → (((watch limit ticks).reason ≡ none) × All (IsWithin limit) ticks)
      ⊎ ((reason : Reason) × ((watch limit ticks).reason ≡ some reason)
          × IsFirst limit ticks reason)
unfolding watch check_memory
watch-cases limit [] = inl (refl, tt)
watch-cases limit (t ∷ rest) = go t.active refl (watch limit rest) (watch-cases limit rest)
  where
    at_reading :
        (n : ℕ)
        → t.active ≡ some n
        → (w : Watched) → Cases limit rest w
        → (b : Bool) → ltb limit n ≡ b
        → Cases limit (t ∷ rest) (checked (if b then some (exceeded n) else none) t.due n w)
    at_reading n read w later true over =
        inr (exceeded n, refl, ([], t, rest, refl, tt, is_above n read (ground (arith, over))))
    at_reading n read w (inl (calm, all)) false over =
        inl (calm, ((n, read, ground (arith, over)), all))
    at_reading n read w (inr (reason, stops, (before, u, after, e, within, is_over))) false over =
        inr (
          reason,
          stops,
          (
            t ∷ before,
            u,
            after,
            ap (λ ts. t ∷ ts) e,
            ((n, read, ground (arith, over)), within),
            is_over,
          ),
        )

    go :
        (o : Option ℕ)
        → t.active ≡ o
        → (w : Watched) → Cases limit rest w
        → Cases limit (t ∷ rest) (elim o [
          | none ↦ record { samples = []; reason = some unreadable }
          | some n ↦ checked (if ltb limit n then some (exceeded n) else none) t.due n w
        ])
    go none read w later = inr (unreadable, refl, ([], t, rest, refl, tt, is_unread read))
    go (some n) read w later = at_reading n read w later (ltb limit n) refl
