-- ===== src/Text.antt =====
-- Python's `str`, as a list of code points, with the methods that the program calls on ASCII text:
-- `strip`, `casefold`, `replace` by one character, and comparison.
use blink_battery_benchmark.Common.{
  ℕ, ◌+◌, String, code, Bool, true, false, ◌&&◌, ◌||◌, List, [], ◌∷◌, map, reverse, leb, ltb, ◌==◌,
  ◌≡◌, refl, arith, if◌then◌else◌,
}

abbrev pub Text : Type 0
Text = List ℕ

-- Python's `bytes`
abbrev pub Bytes : Type 0
Bytes = List ℕ

abbrev pub codes : String → Text
codes String.[] = []
codes (String.◌∷◌ c s) = code c ∷ codes s

-- the ASCII characters that `str.strip` removes
abbrev pub is_space : ℕ → Bool
is_space c = c == 32 || (leb 9 c && leb c 13) || (leb 28 c && leb c 31)

unfoldable pub lstrip : Text → Text
lstrip [] = []
lstrip (c ∷ s) = let rest = lstrip s in if is_space c then rest else c ∷ s

unfoldable pub strip : Text → Text
unfolding lstrip
strip s = reverse (lstrip (reverse (lstrip s)))

abbrev pub fold_char : ℕ → ℕ
fold_char c = if leb b'A' c && leb c b'Z' then c + 32 else c

unfoldable pub casefold : Text → Text
casefold = map fold_char

abbrev pub swap_char : ℕ → ℕ → ℕ → ℕ
swap_char old new c = if c == old then new else c

unfoldable pub replace : ℕ → ℕ → Text → Text
replace old new = map (swap_char old new)

-- `s.startswith(p)`
unfoldable pub starts_with : Text → Text → Bool
starts_with [] s = true
starts_with (c ∷ p) [] = false
starts_with (c ∷ p) (d ∷ s) = c == d && starts_with p s

unfoldable pub text_eq : Text → Text → Bool
text_eq [] [] = true
text_eq (c ∷ s) (d ∷ t) = c == d && text_eq s t
text_eq _ _ = false

pub text_eq_refl : (s : Text) → text_eq s s ≡ true
unfolding text_eq
text_eq_refl [] = refl
text_eq_refl (c ∷ s) = ground (arith, text_eq_refl s)

pub text_eq_sym : (s t : Text) → text_eq s t ≡ text_eq t s
unfolding text_eq
text_eq_sym [] [] = refl
text_eq_sym [] (d ∷ t) = refl
text_eq_sym (c ∷ s) [] = refl
text_eq_sym (c ∷ s) (d ∷ t) = ground (arith, text_eq_sym s t)

unfoldable pub contains : Text → List Text → Bool
unfolding text_eq
contains s [] = false
contains s (t ∷ ts) = text_eq s t || contains s ts

-- `s.isascii()`
unfoldable pub is_ascii : Text → Bool
is_ascii [] = true
is_ascii (c ∷ s) = ltb c 128 && is_ascii s

-- `not s.strip()`: nothing but white space
unfoldable pub is_blank : Text → Bool
is_blank [] = true
is_blank (c ∷ s) = is_space c && is_blank s
