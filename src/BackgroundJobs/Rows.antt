-- ===== src/BackgroundJobs/Rows.antt =====
-- Predicates that hold of all rows of a table of jobs, through the queries and the updates of it.
use mathlib.Core.Path.{subst}
use mathews.BackgroundJobs.{BackgroundJob, filter, insert_by, sort_by, first, update_job, find_job}
use mathews.Common.{
  ℕ, zero, suc, ◌≡◌, Bool, true, some, List, [], ◌∷◌, take, Bool-cases, inl, inr, ◌==◌,
}

some-inj : {i j : BackgroundJob} → some i ≡ some j → i ≡ j
some-inj e = cc

module _ (P : BackgroundJob → Type 0) where
  abbrev pub AllJobs : List BackgroundJob → Type 0
  AllJobs [] = Unit
  AllJobs (j ∷ js) = P j × AllJobs js

  pub AllJobs-update_job :
      (k : BackgroundJob) (js : List BackgroundJob) → P k → AllJobs js → AllJobs (update_job k js)
  unfolding update_job
  AllJobs-update_job k [] p h = tt
  AllJobs-update_job k (j ∷ js) p (q, h) = elim (Bool-cases (j.id == k.id)) [
    | inl e ↦ rw e (p, AllJobs-update_job k js p h)
    | inr e ↦ rw e (q, AllJobs-update_job k js p h)
  ]

  pub AllJobs-find_job :
      (id : ℕ) (js : List BackgroundJob) {j : BackgroundJob}
      → AllJobs js
      → find_job id js ≡ some j
      → P j
  unfolding find_job
  AllJobs-find_job id [] h e = cc
  AllJobs-find_job id (k ∷ js) {j} (p, h) e = elim (Bool-cases (k.id == id)) [
    | inl t ↦ subst P (some-inj (rw t at e)) p
    | inr t ↦ AllJobs-find_job id js h (rw t at e)
  ]

  pub AllJobs-first :
      (js : List BackgroundJob) {j : BackgroundJob} → AllJobs js → first js ≡ some j → P j
  AllJobs-first [] h e = cc
  AllJobs-first (k ∷ js) (p, h) e = subst P (some-inj e) p

  AllJobs-insert_by :
      (before : BackgroundJob → BackgroundJob → Bool) (k : BackgroundJob) (js : List BackgroundJob)
      → P k
      → AllJobs js
      → AllJobs (insert_by before k js)
  unfolding insert_by
  AllJobs-insert_by before k [] p h = (p, tt)
  AllJobs-insert_by before k (j ∷ js) p (q, h) = elim (Bool-cases (before k j)) [
    | inl e ↦ rw e (p, (q, h))
    | inr e ↦ rw e (q, AllJobs-insert_by before k js p h)
  ]

  pub AllJobs-sort_by :
      (before : BackgroundJob → BackgroundJob → Bool) (js : List BackgroundJob)
      → AllJobs js
      → AllJobs (sort_by before js)
  unfolding sort_by
  AllJobs-sort_by before [] h = tt
  AllJobs-sort_by before (j ∷ js) (p, h) =
      AllJobs-insert_by before j (sort_by before js) p (AllJobs-sort_by before js h)

  pub AllJobs-take : (n : ℕ) (js : List BackgroundJob) → AllJobs js → AllJobs (take n js)
  AllJobs-take zero js h = tt
  AllJobs-take (suc n) [] h = tt
  AllJobs-take (suc n) (j ∷ js) (p, h) = (p, AllJobs-take n js h)

pub AllJobs-map :
    (P Q : BackgroundJob → Type 0) (js : List BackgroundJob)
    → ((j : BackgroundJob) → P j → Q j)
    → AllJobs P js
    → AllJobs Q js
AllJobs-map P Q [] f h = tt
AllJobs-map P Q (j ∷ js) f (p, h) = (f j p, AllJobs-map P Q js f h)

-- A row that a query selects passes its test.
abbrev pub Selected : (BackgroundJob → Type 0) → (BackgroundJob → Bool) → BackgroundJob → Type 0
Selected P test j = P j × (test j ≡ true)

pub AllJobs-filter :
    (P : BackgroundJob → Type 0) (test : BackgroundJob → Bool) (js : List BackgroundJob)
    → AllJobs P js
    → AllJobs (Selected P test) (filter test js)
unfolding filter
AllJobs-filter P test [] h = tt
AllJobs-filter P test (j ∷ js) (p, h) = elim (Bool-cases (test j)) [
  | inl e ↦ rw e ((p, e), AllJobs-filter P test js h)
  | inr e ↦ rw e (AllJobs-filter P test js h)
]
