-- ===== src/SortedSet.antt =====
-- `BTreeSet`: the list of its elements in increasing order, over a total order on the elements.
use ferrous_runtime.Prelude.{
  ℕ, ◌≡◌, refl, Bool, true, false, not, ◌&&◌, ◌||◌, List, [], ◌∷◌, arith, Memᴰ, inl, inr, ◌≢◌,
  Bool-cases, ltb, if◌then◌else◌,
}
use ferrous_runtime.Text.{Text, text_lt, text_lt_irrefl, text_lt_trans, text_lt-total}

pub record TotalOrder {ℓ} (A : Type ℓ) : Type ℓ where
  pub lt : A → A → Bool
  pub irrefl : (a : A) → lt a a ≡ false
  pub trans : (a b c : A) → lt a b ≡ true → lt b c ≡ true → lt a c ≡ true
  pub total : (a b : A) → lt a b ≡ false → lt b a ≡ false → a ≡ b

pub ltb_irrefl : (a : ℕ) → ltb a a ≡ false
ltb_irrefl a = ground arith

pub ltb_trans : (a b c : ℕ) → ltb a b ≡ true → ltb b c ≡ true → ltb a c ≡ true
ltb_trans a b c h k = ground arith

pub ltb-total : (a b : ℕ) → ltb a b ≡ false → ltb b a ≡ false → a ≡ b
ltb-total a b h k = ground arith

instance abbrev pub port_order : TotalOrder ℕ
port_order = record { lt = ltb; irrefl = ltb_irrefl; trans = ltb_trans; total = ltb-total }

instance abbrev pub text_order : TotalOrder Text
text_order = record {
  lt = text_lt;
  irrefl = text_lt_irrefl;
  trans = text_lt_trans;
  total = text_lt-total;
}

module _ {ℓ} {A : Type ℓ} ⦃o : TotalOrder A⦄ where
  -- `BTreeSet::insert`: an element that is there already is not replaced.
  unfoldable pub insert : A → List A → List A
  insert a [] = a ∷ []
  insert a (x ∷ xs) = if o.lt a x then a ∷ x ∷ xs else if o.lt x a then x ∷ insert a xs else x ∷ xs

  -- `BTreeSet::contains`.
  unfoldable pub contains : A → List A → Bool
  contains a [] = false
  contains a (x ∷ xs) = (not (o.lt a x) && not (o.lt x a)) || contains a xs

  abbrev pub Above : A → List A → Type 0
  Above a [] = Unit {0}
  Above a (x ∷ xs) = (o.lt a x ≡ true) × Above a xs

  -- Strictly increasing, so without duplicates.
  abbrev pub IsIncreasing : List A → Type 0
  IsIncreasing [] = Unit {0}
  IsIncreasing (x ∷ xs) = Above x xs × IsIncreasing xs

  Above-trans : {a b : A} (xs : List A) → o.lt a b ≡ true → Above b xs → Above a xs
  Above-trans [] h k = tt
  Above-trans {a} {b} (x ∷ xs) h k = (o.trans a b x h k.0, Above-trans {a = a} {b = b} xs h k.1)

  Above-insert : {a b : A} (xs : List A) → o.lt b a ≡ true → Above b xs → Above b (insert a xs)
  unfolding insert
  Above-insert [] h k = (h, tt)
  Above-insert {a} {b} (x ∷ xs) h k = ground (arith, Above-insert {a = a} {b = b} xs h k.1)

  pub insert-IsIncreasing : (a : A) (xs : List A) → IsIncreasing xs → IsIncreasing (insert a xs)
  unfolding insert
  insert-IsIncreasing a [] h = (tt, tt)
  insert-IsIncreasing a (x ∷ xs) h = ground (
    arith,
    Above-trans {a = a} {b = x} xs,
    Above-insert {a = a} {b = x} xs,
    insert-IsIncreasing a xs h.1,
  )

  pub contains-insert_self : (a : A) (xs : List A) → contains a (insert a xs) ≡ true
  unfolding insert contains
  contains-insert_self a [] = ground (arith, o.irrefl a)
  contains-insert_self a (x ∷ xs) = ground (arith, o.irrefl a, contains-insert_self a xs)

  -- A search finds exactly the elements.
  pub mem-contains : (a : A) (xs : List A) → contains a xs ≡ true → Memᴰ a xs
  unfolding contains
  mem-contains a [] h = absurd (ground arith)
  mem-contains a (x ∷ xs) h = elim (Bool-cases (o.lt a x)) [
    | inl below ↦ Memᴰ.tail (mem-contains a xs (ground arith))
    | inr e ↦ elim (Bool-cases (o.lt x a)) [
      | inl above ↦ Memᴰ.tail (mem-contains a xs (ground arith))
      | inr d ↦ Memᴰ.head (o.total a x e d)
    ]
  ]

  pub contains-mem : {a : A} {xs : List A} → Memᴰ a xs → contains a xs ≡ true
  unfolding contains
  contains-mem {a} (Memᴰ.head {x = x} e) = rw (← e) (ground (arith, o.irrefl a))
  contains-mem (Memᴰ.tail m) = ground (arith, contains-mem m)

  -- Inserting one element changes the search for that element alone.
  pub contains-insert :
      (a b : A) (xs : List A)
      → contains b (insert a xs) ≡ ((not (o.lt b a) && not (o.lt a b)) || contains b xs)
  unfolding insert contains
  contains-insert a b [] = refl
  contains-insert a b (x ∷ xs) = ground (arith, contains-insert a b xs, o.total a x, o.irrefl b)

  -- The element type's `==`, from its order.
  pub contains-insert_ne :
      (a b : A) (xs : List A) → b ≢ a → contains b (insert a xs) ≡ contains b xs
  contains-insert_ne a b xs h = ground (arith, contains-insert a b xs, o.total b a)
