-- ===== src/Decisioning/Order.antt =====
-- The combined status of results is the worst of them.
use mathews.Common.{ℕ, ◌≤◌, ◌≡◌, Bool, leb, not, ◌&&◌, List, [], ◌∷◌, if◌then◌else◌}
use mathews.Common.Queries.{Has, All}
use mathews.Decisioning.{Verdict, is_invalid, is_failed, is_blocked, is_pending, is_passed}

-- How bad a status is.
abbrev pub severity : Verdict → ℕ
severity is_passed = 0
severity is_invalid = 1
severity is_pending = 2
severity is_blocked = 3
severity is_failed = 4

worse : Verdict → Verdict → Verdict
worse v w = if leb (severity v) (severity w) then w else v

by_occurrence : (f b p d i : Bool) → Verdict
by_occurrence f b p d i =
    if f
    then is_failed
    else if b
    then is_blocked
    else if p
    then is_pending
    else if d && not i
    then is_passed
    else is_invalid

-- One of the list, and none is worse.
abbrev pub IsWorst : Verdict → List Verdict → Type 0
IsWorst w vs = Has (λ v. v ≡ w) vs × All (λ v. severity v ≤ severity w) vs

abbrev pub IsCombined : List Verdict → Verdict → Type 0
IsCombined [] w = w ≡ is_invalid
IsCombined (v ∷ vs) w = IsWorst w (v ∷ vs)
