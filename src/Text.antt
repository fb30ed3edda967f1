-- ===== src/Text.antt =====
-- Rust's `str` and `OsStr` as the program uses them. A text is the list of its characters (Unicode
-- scalar values). In an OS string, a byte `b` that is part of no character is written 1114112 + b,
-- so an OS string is a `str` exactly when each of its units is below 1114112.
mod Order
use Prim.Native.Char.{code}
use Prim.Native.String.{String}
use ferrous_runtime.Prelude.{
  ℕ, zero, suc, ◌+◌, ◌/◌, ◌%◌, ◌≡◌, refl, ◌≢◌, ◌↔◌, Bool, true, false, ◌&&◌, ◌||◌, List, [], ◌∷◌,
  Option, none, some, arith, all, leb, ltb, ◌==◌, if◌then◌else◌,
}
pub use Order.{Text, text_lt_irrefl, text_lt_trans, text_lt-total}
unfoldable pub use Order.{text_lt}

-- A literal of the source as a text.
abbrev pub text : String → Text
text String.[] = []
text (String.◌∷◌ c s) = code c ∷ text s

-- The decimal digits of `n`, in front of `rest`, on fuel: `n` has at most `n + 1` of them.
digits : ℕ → ℕ → Text → Text
digits zero n rest = rest
digits (suc fuel) n rest =
    let more = digits fuel (n / 10) ((48 + n % 10) ∷ rest) in
    if ltb n 10 then (48 + n) ∷ rest else more

-- `{n}` of `format!`.
unfoldable pub decimal : ℕ → Text
unfolding digits
decimal n = digits (suc n) n []

-- `==` on texts.
unfoldable pub text_eq : Text → Text → Bool
text_eq [] [] = true
text_eq [] (d ∷ ds) = false
text_eq (c ∷ cs) [] = false
text_eq (c ∷ cs) (d ∷ ds) = c == d && text_eq cs ds

pub text_eq_refl : (t : Text) → text_eq t t ≡ true
unfolding text_eq
text_eq_refl [] = refl
text_eq_refl (c ∷ cs) = ground (arith, text_eq_refl cs)

pub eq_of_text_eq : (s t : Text) → text_eq s t ≡ true → s ≡ t
unfolding text_eq
eq_of_text_eq [] [] h = refl
eq_of_text_eq [] (d ∷ ds) h = absurd (ground arith)
eq_of_text_eq (c ∷ cs) [] h = absurd (ground arith)
eq_of_text_eq (c ∷ cs) (d ∷ ds) h = ground (arith, eq_of_text_eq cs ds)

-- `char::is_whitespace`: the Unicode property White_Space.
unfoldable pub is_whitespace : ℕ → Bool
is_whitespace c =
    (leb 9 c && leb c 13)
    || c == 32
    || c == 133
    || c == 160
    || c == 5760
    || (leb 8192 c && leb c 8202)
    || c == 8232
    || c == 8233
    || c == 8239
    || c == 8287
    || c == 12288

-- `OsStr::to_str`.
unfoldable pub to_str : Text → Option Text
to_str t = if all (λ c. ltb c 1114112) t then some t else none
