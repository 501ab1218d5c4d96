-- ===== src/Launch/Tests.antt =====
-- A line in two writes, and a watchdog that stops the backend.
use agent_lab.Common.{ℕ, ◌≡◌, ◌⊎◌, true, false, List, [], ◌∷◌, none, some, All}
use agent_lab.Launch.{LogStream, Tick, Reason, write, watch}
use agent_lab.Launch.Lines.{write-append}
use agent_lab.Launch.Guard.{IsWithin, IsFirst, watch-cases}

abbrev same : List ℕ → List ℕ
same cs = cs

abbrev stream : LogStream
stream = record { buffer = 72 ∷ []; logged = [] }

write-append_example :
    write same same (write same same stream (105 ∷ [])) (10 ∷ 33 ∷ [])
    ≡ write same same stream (105 ∷ 10 ∷ 33 ∷ [])
write-append_example = write-append same same stream (105 ∷ []) (10 ∷ 33 ∷ [])

abbrev ticks : List Tick
ticks = (record { active = some 5; due = true }) ∷ (record { active = some 12; due = false }) ∷ []

watch-cases_example :
    (((watch 10 ticks).reason ≡ none) × All (IsWithin 10) ticks)
    ⊎ ((reason : Reason) × ((watch 10 ticks).reason ≡ some reason) × IsFirst 10 ticks reason)
watch-cases_example = watch-cases 10 ticks
