-- ===== src/Base/Queues.antt =====
-- Queues of task identifiers: membership, absence of repetition, removal, and sums over a queue.
use Prim.Native.Nat.{ℕ, ◌+◌, ◌≤◌}
use mathlib.Core.Path.{◌≡◌, ◌∙◌, refl}
use mathlib.Core.Logic.{inl, inr}
use mathlib.Core.Bool.{Bool, true, false, ◌||◌}
use mathlib.Core.List.{List, [], ◌∷◌, ◌++◌}
use native.Mathlib.Omega.{arith}
use android_kernel_programmi.Base.Tests.{◌==◌, if◌then◌else◌, Bool-cases}
use android_kernel_programmi.Base.Lists.{length, All}

abbrev pub has : ℕ → List ℕ → Bool
has p [] = false
has p (x ∷ xs) = x == p || has p xs

abbrev pub NoDup : List ℕ → Type 0
NoDup [] = Unit
NoDup (x ∷ xs) = (has x xs ≡ false) × NoDup xs

-- The queue without its first entry for `p`.
abbrev pub remove : ℕ → List ℕ → List ℕ
remove p [] = []
remove p (x ∷ xs) = if x == p then xs else x ∷ remove p xs

abbrev pub sum_of : (ℕ → ℕ) → List ℕ → ℕ
sum_of f [] = 0
sum_of f (x ∷ xs) = f x + sum_of f xs

pub has-append : (p : ℕ) (xs ys : List ℕ) → has p (xs ++ ys) ≡ (has p xs || has p ys)
has-append p [] ys = refl
has-append p (x ∷ xs) ys = ground (arith, has-append p xs ys)

pub has-remove_ne : (p q : ℕ) (xs : List ℕ) → (p == q) ≡ false → has q (remove p xs) ≡ has q xs
has-remove_ne p q [] h = refl
has-remove_ne p q (x ∷ xs) h = ground (arith, has-remove_ne p q xs h)

pub has-remove_self : (p : ℕ) (xs : List ℕ) → NoDup xs → has p (remove p xs) ≡ false
has-remove_self p [] d = refl
has-remove_self p (x ∷ xs) d = ground (arith, has-remove_self p xs d.1)

pub NoDup-snoc : (p : ℕ) (xs : List ℕ) → NoDup xs → has p xs ≡ false → NoDup (xs ++ (p ∷ []))
NoDup-snoc p [] d h = (refl, tt)
NoDup-snoc p (x ∷ xs) d h =
    (ground (arith, has-append x xs (p ∷ [])), NoDup-snoc p xs d.1 (ground arith))

pub has-remove_le : (p q : ℕ) (xs : List ℕ) → has q xs ≡ false → has q (remove p xs) ≡ false
has-remove_le p q [] h = refl
has-remove_le p q (x ∷ xs) h = ground (arith, has-remove_le p q xs)

pub NoDup-remove : (p : ℕ) (xs : List ℕ) → NoDup xs → NoDup (remove p xs)
NoDup-remove p [] d = tt
NoDup-remove p (x ∷ xs) d = elim (Bool-cases (x == p)) [
  | inl e ↦ rw e d.1
  | inr e ↦ rw e (has-remove_le p x xs d.0, NoDup-remove p xs d.1)
]

pub length-remove : (p : ℕ) (xs : List ℕ) → has p xs ≡ true → length xs ≡ length (remove p xs) + 1
length-remove p [] h = ground arith
length-remove p (x ∷ xs) h = ground (arith, length-remove p xs)

pub sum_of-append : (f : ℕ → ℕ) (xs ys : List ℕ) → sum_of f (xs ++ ys) ≡ sum_of f xs + sum_of f ys
sum_of-append f [] ys = omega arith
sum_of-append f (x ∷ xs) ys = omega (arith, sum_of-append f xs ys)

pub sum_of-remove :
    (f : ℕ → ℕ) (p : ℕ) (xs : List ℕ) → has p xs ≡ true → sum_of f xs ≡ f p + sum_of f (remove p xs)
sum_of-remove f p [] h = ground arith
sum_of-remove f p (x ∷ xs) h = ground (arith, sum_of-remove f p xs)

-- A function that changes only at `p` has the same sum over a queue without `p`.
pub sum_of_frame :
    (f g : ℕ → ℕ) (p : ℕ) (xs : List ℕ)
    → ((q : ℕ) → (p == q) ≡ false → f q ≡ g q)
    → has p xs ≡ false
    → sum_of f xs ≡ sum_of g xs
sum_of_frame f g p [] same h = refl
sum_of_frame f g p (x ∷ xs) same h = ground (arith, same x, sum_of_frame f g p xs same)

-- A function that changes only at a queued `p` changes the sum by the change there.
pub sum_of_change :
    (f g : ℕ → ℕ) (p : ℕ) (xs : List ℕ)
    → ((q : ℕ) → (p == q) ≡ false → f q ≡ g q)
    → NoDup xs
    → has p xs ≡ true
    → sum_of g xs + f p ≡ sum_of f xs + g p
sum_of_change f g p xs same d h = omega (
  arith,
  sum_of-remove f p xs h,
  sum_of-remove g p xs h,
  sum_of_frame f g p (remove p xs) same (has-remove_self p xs d),
)

pub sum_of_ext : (f g : ℕ → ℕ) (xs : List ℕ) → ((q : ℕ) → f q ≡ g q) → sum_of f xs ≡ sum_of g xs
sum_of_ext f g [] same = refl
sum_of_ext f g (x ∷ xs) same = omega (arith, same x, sum_of_ext f g xs same)

-- Two queued values are in the sum.
pub sum_of_two :
    (f : ℕ → ℕ) (p q : ℕ) (xs : List ℕ)
    → (p == q) ≡ false
    → has p xs ≡ true
    → has q xs ≡ true
    → f p + f q ≤ sum_of f xs
sum_of_two f p q xs n hp hq =
    omega (
      arith,
      sum_of-remove f p xs hp,
      sum_of-remove f q (remove p xs) (has-remove_ne p q xs n ∙ hq),
    )

-- What is moved between two queued places does not change the sum.
pub sum_of_exchange :
    (f g : ℕ → ℕ) (p q : ℕ) (xs : List ℕ)
    → (p == q) ≡ false
    → NoDup xs
    → has p xs ≡ true
    → has q xs ≡ true
    → ((x : ℕ) → (p == x) ≡ false → (q == x) ≡ false → f x ≡ g x)
    → f p + f q ≡ g p + g q
    → sum_of f xs ≡ sum_of g xs
sum_of_exchange f g p q xs n d hp hq same e =
    let h : ℕ → ℕ = λ x. if p == x then g p else f x in
    let first : sum_of h xs + f p ≡ sum_of f xs + h p =
      sum_of_change f h p xs (λ x m. ground arith) d hp in
    let second : sum_of g xs + h q ≡ sum_of h xs + g q =
      sum_of_change h g q xs (λ x m. at_other x m) d hq in
    let here : h p ≡ g p = ground arith in
    let there : h q ≡ f q = ground arith in omega (arith, first, second, here, there, e)
  where
    at_other : (x : ℕ) → (q == x) ≡ false → (if p == x then g p else f x) ≡ g x
    at_other x m = ground (arith, same x)

-- Each entry of a queue is in it.
pub All-has : (xs : List ℕ) → All (λ x. has x xs ≡ true) xs
All-has xs = All-later xs xs (λ x h. h)
  where
    All-later :
        (xs ys : List ℕ)
        → ((x : ℕ) → has x ys ≡ true → has x xs ≡ true)
        → All (λ x. has x xs ≡ true) ys
    All-later xs [] sub = tt
    All-later xs (y ∷ ys) sub =
        (sub y (ground arith), All-later xs ys (λ x h. sub x (ground arith)))

pub sum_of_mono : (f g : ℕ → ℕ) (xs : List ℕ) → ((q : ℕ) → f q ≤ g q) → sum_of f xs ≤ sum_of g xs
sum_of_mono f g [] le = omega arith
sum_of_mono f g (x ∷ xs) le = omega (arith, le x, sum_of_mono f g xs le)
