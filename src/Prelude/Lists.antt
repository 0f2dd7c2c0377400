-- ===== src/Prelude/Lists.antt =====
-- Lists measured by native numbers, and predicates on every element.
use Prim.Native.Nat.{ℕ, suc, ◌+◌}
use mathlib.Core.Path.{◌≡◌, sym, subst}
use mathlib.Core.Logic.{◌⊎◌, inl, inr}
use mathlib.Core.Bool.{Bool, true, false, ◌||◌, ◌&&◌}
use mathlib.Core.List.{List, [], ◌∷◌, ◌++◌}
use native.Mathlib.Omega.{arith}
use simplek8s_controller.Prelude.Tests.{if◌then◌else◌}

module _ {ℓ} {A : Type ℓ} where
  abbrev pub length : List A → ℕ
  length [] = 0
  length (x ∷ xs) = suc (length xs)

  -- Some element, every element, passes a test.
  abbrev pub any : (A → Bool) → List A → Bool
  any p [] = false
  any p (x ∷ xs) = p x || any p xs

  abbrev pub all : (A → Bool) → List A → Bool
  all p [] = true
  all p (x ∷ xs) = p x && all p xs

  -- The elements that pass, and how many do.
  abbrev pub keep_if : (A → Bool) → List A → List A
  keep_if p [] = []
  keep_if p (x ∷ xs) = let rest = keep_if p xs in if p x then x ∷ rest else rest

  abbrev pub count_if : (A → Bool) → List A → ℕ
  count_if p [] = 0
  count_if p (x ∷ xs) = let rest = count_if p xs in if p x then suc rest else rest

  pub length-append : (xs ys : List A) → length (xs ++ ys) ≡ length xs + length ys
  length-append [] ys = omega arith
  length-append (x ∷ xs) ys = omega (arith, length-append xs ys)

abbrev pub All {ℓ κ} : {A : Type ℓ} → (A → Type κ) → List A → Type κ
All P [] = Unit
All P (x ∷ xs) = P x × All P xs

-- One of a list.
abbrev pub Among : {A : Type 0} → A → List A → Type 0
Among x [] = ⊥
Among x (y ∷ ys) = (x ≡ y) ⊎ Among x ys

pub All-weaken {ℓ κ κ'} :
    {A : Type ℓ} (P : A → Type κ) (Q : A → Type κ') (xs : List A)
    → ((x : A) → P x → Q x)
    → All P xs
    → All Q xs
All-weaken P Q [] f h = tt
All-weaken P Q (x ∷ xs) f h = (f x h.0, All-weaken P Q xs f h.1)

-- Two lists whose elements all have a property, one behind the other.
pub All-append {ℓ κ} :
    {A : Type ℓ} (Good : A → Type κ) (front back : List A)
    → All Good front × All Good back
    → All Good (front ++ back)
All-append Good [] back (_, b) = b
All-append Good (x ∷ front) back ((g, f), b) = (g, All-append Good front back (f, b))

pub All-of_among {κ} :
    {A : Type 0} (P : A → Type κ) (xs : List A) (x : A) → All P xs → Among x xs → P x
All-of_among P [] x h m = absurd m
All-of_among P (y ∷ ys) x h (inl e) = subst P (sym e) h.0
All-of_among P (y ∷ ys) x h (inr m) = All-of_among P ys x h.1 m
