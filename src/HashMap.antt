-- ===== src/HashMap.antt =====
-- `HashMap<u64, V>` as an association list. Where the source iterates over one, the order is a
-- parameter (`Iteration` of Broker/Sweeper), or does not matter (the flags that the drop sets).
use ferrous_runtime.Prelude.{
  ◌==◌, if◌then◌else◌, ℕ, List, Option, ◌∷◌, ◌≡◌, length, none, some, ◌≤◌, [], arith, ◌+◌, Bool,
  all, true, refl, Bool-cases, inl, subst, inr,
}

module _ {ℓ} {V : Type ℓ} where
  unfoldable pub get : ℕ → List (ℕ × V) → Option V
  get k [] = none
  get k ((j, v) ∷ m) = if j == k then some v else get k m

  unfoldable pub remove : ℕ → List (ℕ × V) → List (ℕ × V)
  remove k [] = []
  remove k ((j, v) ∷ m) = let rest = remove k m in if j == k then rest else (j, v) ∷ rest

  unfoldable pub insert : ℕ → V → List (ℕ × V) → List (ℕ × V)
  unfolding remove
  insert k v m = (k, v) ∷ remove k m

  pub get-remove :
      (k j : ℕ) (m : List (ℕ × V)) → get j (remove k m) ≡ (if k == j then none else get j m)
  unfolding get remove
  get-remove k j [] = ground arith
  get-remove k j ((i, v) ∷ m) = ground (arith, get-remove k j m)

  pub get-insert :
      (k j : ℕ) (v : V) (m : List (ℕ × V))
      → get j (insert k v m) ≡ (if k == j then some v else get j m)
  unfolding get insert
  get-insert k j v m = ground (arith, get-remove k j m)

  pub length-remove-le : (k : ℕ) (m : List (ℕ × V)) → length (remove k m) ≤ length m
  unfolding remove
  length-remove-le k [] = omega arith
  length-remove-le k ((j, v) ∷ m) = ground (arith, length-remove-le k m)

  pub length-insert-le : (k : ℕ) (v : V) (m : List (ℕ × V)) → length (insert k v m) ≤ length m + 1
  unfolding insert
  length-insert-le k v m = omega (arith, length-remove-le k m)

  -- A Boolean test of all entries survives a removal, and holds of what is found.
  module _ (p : ℕ × V → Bool) where
    pub all-remove : (k : ℕ) (m : List (ℕ × V)) → all p m ≡ true → all p (remove k m) ≡ true
    unfolding remove
    all-remove k [] h = refl
    all-remove k ((j, v) ∷ m) h = ground (arith, all-remove k m)

    pub all-get :
        (k : ℕ) (m : List (ℕ × V)) {w : V} → all p m ≡ true → get k m ≡ some w → p (k, w) ≡ true
    unfolding get
    all-get k [] h e = absurd (ground arith)
    all-get k ((j, v) ∷ m) {w} h e = elim (Bool-cases (j == k)) [
      | inl same ↦
          let key : j ≡ k = ground arith in
          let value : v ≡ w = ground arith in
          subst (λ i. p (i, w) ≡ true) key (subst (λ u. p (j, u) ≡ true) value (ground arith))
      | inr other ↦ all-get k m (ground arith) (ground arith)
    ]
