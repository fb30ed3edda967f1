-- ===== src/Prelude/Lists.antt =====
-- Lists measured by native numbers, and Boolean tests over lists.
use Prim.Native.Nat.{ℕ, zero, suc, ◌+◌, ◌-◌, ◌≤◌, min}
use mathlib.Core.Path.{◌≡◌, refl, ap}
use mathlib.Core.Bool.{Bool, true, false, ◌&&◌, ◌||◌}
use mathlib.Core.List.{List, [], ◌∷◌, ◌++◌, Memᴰ}
use mathlib.Core.Logic.{inl, inr}
use native.Mathlib.Omega.{arith}
use ferrous_runtime.Prelude.Tests.{Bool-cases}

module _ {ℓ} {A : Type ℓ} where
  abbrev pub length : List A → ℕ
  length [] = 0
  length (x ∷ xs) = suc (length xs)

  abbrev pub take : ℕ → List A → List A
  take zero xs = []
  take (suc n) [] = []
  take (suc n) (x ∷ xs) = x ∷ take n xs

  abbrev pub drop : ℕ → List A → List A
  drop zero xs = xs
  drop (suc n) [] = []
  drop (suc n) (x ∷ xs) = drop n xs

  abbrev pub any : (A → Bool) → List A → Bool
  any p [] = false
  any p (x ∷ xs) = p x || any p xs

  abbrev pub all : (A → Bool) → List A → Bool
  all p [] = true
  all p (x ∷ xs) = p x && all p xs

  abbrev pub is_empty : List A → Bool
  is_empty [] = true
  is_empty (x ∷ xs) = false

  pub length-append : (xs ys : List A) → length (xs ++ ys) ≡ length xs + length ys
  length-append [] ys = omega arith
  length-append (x ∷ xs) ys = omega (arith, length-append xs ys)

  pub take-append-drop : (n : ℕ) (xs : List A) → take n xs ++ drop n xs ≡ xs
  take-append-drop zero xs = refl
  take-append-drop (suc n) [] = refl
  take-append-drop (suc n) (x ∷ xs) = ap (◌∷◌ x) (take-append-drop n xs)

  pub length-take : (n : ℕ) (xs : List A) → length (take n xs) ≡ min n (length xs)
  length-take zero xs = omega arith
  length-take (suc n) [] = omega arith
  length-take (suc n) (x ∷ xs) = omega (arith, length-take n xs)

  pub length-drop : (n : ℕ) (xs : List A) → length (drop n xs) ≡ length xs - n
  length-drop zero xs = omega arith
  length-drop (suc n) [] = omega arith
  length-drop (suc n) (x ∷ xs) = omega (arith, length-drop n xs)

module _ {ℓ} {A : Type ℓ} where
  pub drop-append : (n : ℕ) (xs ys : List A) → n ≤ length xs → drop n (xs ++ ys) ≡ drop n xs ++ ys
  drop-append zero xs ys h = refl
  drop-append (suc n) [] ys h = absurd (omega arith)
  drop-append (suc n) (x ∷ xs) ys h = drop-append n xs ys (omega arith)

  pub take-append : (n : ℕ) (xs ys : List A) → n ≤ length xs → take n (xs ++ ys) ≡ take n xs
  take-append zero xs ys h = refl
  take-append (suc n) [] ys h = absurd (omega arith)
  take-append (suc n) (x ∷ xs) ys h = ap (◌∷◌ x) (take-append n xs ys (omega arith))

  pub drop-length : (xs : List A) → drop (length xs) xs ≡ []
  drop-length [] = refl
  drop-length (x ∷ xs) = drop-length xs

  pub take-length : (xs : List A) → take (length xs) xs ≡ xs
  take-length [] = refl
  take-length (x ∷ xs) = ap (◌∷◌ x) (take-length xs)

  pub take_all : (n : ℕ) (xs : List A) → n ≡ length xs → take n xs ≡ xs
  take_all n xs e = rw e (take-length xs)

-- Boolean tests over a list, in terms of its members.
module _ {ℓ} {A : Type ℓ} (p : A → Bool) where
  pub mem-any : (xs : List A) → any p xs ≡ true → (x : A) × Memᴰ x xs × (p x ≡ true)
  mem-any [] h = absurd (ground arith)
  mem-any (x ∷ xs) h = elim (Bool-cases (p x)) [
    | inl here ↦ (x, Memᴰ.head refl, here)
    | inr there ↦ let (y, m, q) = mem-any xs (ground arith) in (y, Memᴰ.tail m, q)
  ]

  pub any-mem : {x : A} {xs : List A} → Memᴰ x xs → p x ≡ true → any p xs ≡ true
  any-mem (Memᴰ.head e) h = ground arith
  any-mem (Memᴰ.tail m) h = ground (arith, any-mem m h)

  pub all-mem : {x : A} {xs : List A} → all p xs ≡ true → Memᴰ x xs → p x ≡ true
  all-mem h (Memᴰ.head e) = ground arith
  all-mem h (Memᴰ.tail m) = all-mem (ground arith) m

-- A predicate of every element.
abbrev pub All {ℓ κ} : {A : Type ℓ} → (A → Type κ) → List A → Type κ
All P [] = Unit
All P (x ∷ xs) = P x × All P xs

pub All-append {ℓ κ} :
    {A : Type ℓ} (P : A → Type κ) (xs ys : List A) → All P xs → All P ys → All P (xs ++ ys)
All-append P [] ys a b = b
All-append P (x ∷ xs) ys a b = (a.0, All-append P xs ys a.1 b)

pub All-mono {ℓ κ} :
    {A : Type ℓ} (P Q : A → Type κ) → ((x : A) → P x → Q x) → (xs : List A) → All P xs → All Q xs
All-mono P Q f [] a = tt
All-mono P Q f (x ∷ xs) a = (f x a.0, All-mono P Q f xs a.1)

module _ {ℓ} {A : Type ℓ} (p : A → Bool) where
  pub all-append : (xs ys : List A) → all p (xs ++ ys) ≡ (all p xs && all p ys)
  all-append [] ys = refl
  all-append (x ∷ xs) ys = ground (arith, all-append xs ys)

  pub mem-all : (xs : List A) → ((x : A) → Memᴰ x xs → p x ≡ true) → all p xs ≡ true
  mem-all [] h = refl
  mem-all (x ∷ xs) h = ground (arith, h x (Memᴰ.head refl), mem-all xs (λ y m. h y (Memᴰ.tail m)))

pub mem-append_left {ℓ} :
    {A : Type ℓ} {x : A} {xs : List A} → Memᴰ x xs → (ys : List A) → Memᴰ x (xs ++ ys)
mem-append_left (Memᴰ.head e) ys = Memᴰ.head e
mem-append_left (Memᴰ.tail m) ys = Memᴰ.tail (mem-append_left m ys)

pub mem-append_right {ℓ} :
    {A : Type ℓ} {x : A} {ys : List A} → (xs : List A) → Memᴰ x ys → Memᴰ x (xs ++ ys)
mem-append_right [] m = m
mem-append_right (y ∷ xs) m = Memᴰ.tail (mem-append_right xs m)
