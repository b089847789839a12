-- ===== src/Base/Sorting.antt =====
-- The sort is a rearrangement, and its result is ordered where the test is a total order.
use Prim.Native.Nat.{ℕ, ◌+◌}
use mathlib.Core.Path.{◌≡◌, refl}
use mathlib.Core.Logic.{inl, inr}
use mathlib.Core.Bool.{Bool, true, false}
use mathlib.Core.List.{List, [], ◌∷◌, ◌++◌}
use native.Mathlib.Omega.{arith}
use aerosuite.Base.Lists.{All, All-mono, insert_by, sort_by}
use aerosuite.Base.Tests.{if◌then◌else◌, Bool-cases}

module _ {A : Type 0} where
  -- How many elements pass a test.
  abbrev pub count_by : (A → Bool) → List A → ℕ
  count_by p [] = 0
  count_by p (x ∷ xs) = (if p x then 1 else 0) + count_by p xs

  pub count_by-append :
      (p : A → Bool) (xs ys : List A) → count_by p (xs ++ ys) ≡ count_by p xs + count_by p ys
  count_by-append p [] ys = omega arith
  count_by-append p (x ∷ xs) ys = omega (arith, count_by-append p xs ys)

module _ {A : Type 0} (le : A → A → Bool) where
  count_by-insert_by :
      (p : A → Bool) (a : A) (xs : List A)
      → count_by p (insert_by le a xs) ≡ (if p a then 1 else 0) + count_by p xs
  unfolding insert_by
  count_by-insert_by p a [] = refl
  count_by-insert_by p a (x ∷ xs) = elim (Bool-cases (le a x)) [
    | inl e ↦ rw e refl
    | inr e ↦ rw e (omega (arith, count_by-insert_by p a xs))
  ]

  -- Whatever is counted, the sort keeps the count.
  pub count_by-sort_by : (p : A → Bool) (xs : List A) → count_by p (sort_by le xs) ≡ count_by p xs
  unfolding sort_by
  count_by-sort_by p [] = refl
  count_by-sort_by p (x ∷ xs) =
      omega (arith, count_by-insert_by p x (sort_by le xs), count_by-sort_by p xs)

  All-insert_by :
      (P : A → Type 0) (a : A) (xs : List A) → P a → All P xs → All P (insert_by le a xs)
  unfolding insert_by
  All-insert_by P a [] h hs = (h, tt)
  All-insert_by P a (x ∷ xs) h hs = elim (Bool-cases (le a x)) [
    | inl e ↦ rw e (h, hs)
    | inr e ↦ rw e (hs.0, All-insert_by P a xs h hs.1)
  ]

  pub All-sort_by : (P : A → Type 0) (xs : List A) → All P xs → All P (sort_by le xs)
  unfolding sort_by
  All-sort_by P [] h = tt
  All-sort_by P (x ∷ xs) h = All-insert_by P x (sort_by le xs) h.0 (All-sort_by P xs h.1)

  abbrev pub IsSortedBy : List A → Type 0
  IsSortedBy [] = Unit {0}
  IsSortedBy (x ∷ xs) = All (λ y. le x y ≡ true) xs × IsSortedBy xs

  module _ (total : (a b : A) → le a b ≡ false → le b a ≡ true)
      (transitive : (a b c : A) → le a b ≡ true → le b c ≡ true → le a c ≡ true) where
    insert_by-IsSortedBy : (a : A) (xs : List A) → IsSortedBy xs → IsSortedBy (insert_by le a xs)
    unfolding insert_by
    insert_by-IsSortedBy a [] h = (tt, tt)
    insert_by-IsSortedBy a (x ∷ xs) h = elim (Bool-cases (le a x)) [
      | inl e ↦ rw e (
        (
          e,
          All-mono (λ y. le x y ≡ true) (λ y. le a y ≡ true) xs (λ y q. transitive a x y e q) h.0,
        ),
        h,
      )
      | inr e ↦
          rw e (
            All-insert_by (λ y. le x y ≡ true) a xs (total a x e) h.0,
            insert_by-IsSortedBy a xs h.1,
          )
    ]

    pub sort_by-IsSortedBy : (xs : List A) → IsSortedBy (sort_by le xs)
    unfolding sort_by
    sort_by-IsSortedBy [] = tt
    sort_by-IsSortedBy (x ∷ xs) = insert_by-IsSortedBy x (sort_by le xs) (sort_by-IsSortedBy xs)
