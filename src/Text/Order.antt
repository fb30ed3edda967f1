-- ===== src/Text/Order.antt =====
-- Texts compare as their UTF-8 bytes do, which is lexicographically by character.
use ferrous_runtime.Prelude.{
  ℕ, ◌≡◌, refl, Bool, true, false, ◌&&◌, ◌||◌, List, [], ◌∷◌, arith, ltb, ◌==◌,
}

abbrev pub Text : Type 0
Text = List ℕ

unfoldable pub text_lt : Text → Text → Bool
text_lt [] [] = false
text_lt [] (d ∷ ds) = true
text_lt (c ∷ cs) [] = false
text_lt (c ∷ cs) (d ∷ ds) = ltb c d || (c == d && text_lt cs ds)

pub text_lt_irrefl : (t : Text) → text_lt t t ≡ false
unfolding text_lt
text_lt_irrefl [] = refl
text_lt_irrefl (c ∷ cs) = ground (arith, text_lt_irrefl cs)

pub text_lt_trans : (r s t : Text) → text_lt r s ≡ true → text_lt s t ≡ true → text_lt r t ≡ true
unfolding text_lt
text_lt_trans [] (d ∷ ds) [] h k = k
text_lt_trans [] [] t h k = k
text_lt_trans [] (d ∷ ds) (e ∷ es) h k = refl
text_lt_trans (c ∷ cs) [] t h k = absurd (ground arith)
text_lt_trans (c ∷ cs) (d ∷ ds) [] h k = absurd (ground arith)
text_lt_trans (c ∷ cs) (d ∷ ds) (e ∷ es) h k = ground (arith, text_lt_trans cs ds es)

-- Two texts of which neither is smaller are equal.
pub text_lt-total : (s t : Text) → text_lt s t ≡ false → text_lt t s ≡ false → s ≡ t
unfolding text_lt
text_lt-total [] [] h k = refl
text_lt-total [] (d ∷ ds) h k = absurd (ground arith)
text_lt-total (c ∷ cs) [] h k = absurd (ground arith)
text_lt-total (c ∷ cs) (d ∷ ds) h k = ground (arith, text_lt-total cs ds)
