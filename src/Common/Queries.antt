-- ===== src/Common/Queries.antt =====
-- The parts of a query on a table, and membership tests of Python's collections.
use Prim.Native.Nat.{ℕ}
use mathlib.Core.Bool.{Bool, true, false, ◌&&◌, ◌||◌}
use mathlib.Core.Option.{Option, none, some}
use mathlib.Core.List.{List, [], ◌∷◌}
use mathlib.Core.Path.{◌≡◌, subst}
use mathlib.Core.Logic.{◌⊎◌, inl, inr}
use native.Mathlib.Omega.{arith}
use mathews.Common.Tests.{◌==◌, if◌then◌else◌, Bool-cases}

module _ {A : Type 0} where
  unfoldable pub any : (A → Bool) → List A → Bool
  any test [] = false
  any test (x ∷ xs) = test x || any test xs

  unfoldable pub find : (A → Bool) → List A → Option A
  find test [] = none
  find test (x ∷ xs) = if test x then some x else find test xs

  -- `WHERE`
  unfoldable pub filter : (A → Bool) → List A → List A
  filter test [] = []
  filter test (x ∷ xs) = let rest = filter test xs in if test x then x ∷ rest else rest

  -- `ORDER BY`
  unfoldable pub insert_by : (A → A → Bool) → A → List A → List A
  insert_by before x [] = x ∷ []
  insert_by before x (y ∷ ys) =
      let rest = insert_by before x ys in if before x y then x ∷ y ∷ ys else y ∷ rest

  unfoldable pub sort_by : (A → A → Bool) → List A → List A
  sort_by before [] = []
  sort_by before (x ∷ xs) = insert_by before x (sort_by before xs)

  -- `LIMIT 1`
  abbrev pub first : List A → Option A
  first [] = none
  first (x ∷ xs) = some x

-- `x in xs`
unfoldable pub member : ℕ → List ℕ → Bool
member x [] = false
member x (y ∷ ys) = x == y || member x ys

-- `set(xs) <= set(ys)`
unfoldable pub is_subset : List ℕ → List ℕ → Bool
is_subset [] ys = true
is_subset (x ∷ xs) ys = member x ys && is_subset xs ys

-- `set(xs) == set(ys)`
unfoldable pub same_set : List ℕ → List ℕ → Bool
same_set xs ys = is_subset xs ys && is_subset ys xs

-- Some item of the list satisfies the predicate.
abbrev pub Has {ℓ} : {A : Type ℓ} → (A → Type 0) → List A → Type 0
Has P [] = ⊥
Has P (x ∷ xs) = P x ⊎ Has P xs

-- All items of the list satisfy the predicate.
abbrev pub All {ℓ} : {A : Type ℓ} → (A → Type 0) → List A → Type 0
All P [] = Unit
All P (x ∷ xs) = P x × All P xs

pub some-inj {ℓ} : {A : Type ℓ} {x y : A} → some x ≡ some y → x ≡ y
some-inj e = cc

pub All-find :
    {A : Type 0} (P : A → Type 0) (test : A → Bool) (xs : List A) {x : A}
    → All P xs
    → find test xs ≡ some x
    → P x
unfolding find
All-find P test [] h e = cc
All-find P test (y ∷ ys) (p, h) e = elim (Bool-cases (test y)) [
  | inl t ↦ subst P (some-inj (rw t at e)) p
  | inr t ↦ All-find P test ys h (rw t at e)
]

pub All-filter :
    {A : Type 0} (P : A → Type 0) (test : A → Bool) (xs : List A)
    → All P xs
    → All P (filter test xs)
unfolding filter
All-filter P test [] h = tt
All-filter P test (y ∷ ys) (p, h) = elim (Bool-cases (test y)) [
  | inl t ↦ rw t (p, All-filter P test ys h)
  | inr t ↦ rw t (All-filter P test ys h)
]

pub All-map :
    {A : Type 0} (P Q : A → Type 0) (imply : (x : A) → P x → Q x) (xs : List A)
    → All P xs
    → All Q xs
All-map P Q imply [] h = tt
All-map P Q imply (y ∷ ys) (p, h) = (imply y p, All-map P Q imply ys h)

-- What a search finds passes its test.
pub find-holds :
    {A : Type 0} (test : A → Bool) (xs : List A) {x : A} → find test xs ≡ some x → test x ≡ true
unfolding find
find-holds test [] e = cc
find-holds test (y ∷ ys) e = elim (Bool-cases (test y)) [
  | inl t ↦ subst (λ y. test y ≡ true) (some-inj (rw t at e)) t
  | inr t ↦ find-holds test ys (rw t at e)
]

pub is_subset-member :
    (x : ℕ) (xs ys : List ℕ) → is_subset xs ys ≡ true → member x xs ≡ true → member x ys ≡ true
unfolding is_subset member
is_subset-member x [] ys h m = cc
is_subset-member x (y ∷ xs) ys h m = elim (Bool-cases (x == y)) [
  | inl e ↦ let same : x ≡ y = ground arith in rw same (ground arith)
  | inr e ↦ is_subset-member x xs ys (ground arith) (ground arith)
]
