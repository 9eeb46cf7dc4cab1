-- ===== src/Supervisor/Laws.antt =====
-- The token stays once it is made.
use blink_battery_benchmark.Common.{
  ℕ, ◌≤◌, ◌≡◌, refl, ◌∙◌, ap, Bool, true, false, not, Option, [], ◌∷◌, ◌++◌, reverse, leb, length,
  every, arith, le→leb, Bool-cases, inl, inr,
}
use mathlib.Core.List.{reverse-append, reverse-cons, reverse-reverse}
use blink_battery_benchmark.Text.{Text, is_ascii, is_space, lstrip, strip}
use blink_battery_benchmark.Action.{ok, err, not_ascii}
use blink_battery_benchmark.Supervisor.{or_empty, load_or_create_dashboard_token}

abbrev is_solid : Text → Bool
is_solid s = every (λ c. not (is_space c)) s

lstrip_solid : (s : Text) → is_solid s ≡ true → lstrip s ≡ s
unfolding lstrip
lstrip_solid [] h = refl
lstrip_solid (c ∷ s) h = ground arith

is_solid-append : (s t : Text) → is_solid s ≡ true → is_solid t ≡ true → is_solid (s ++ t) ≡ true
is_solid-append [] t h k = k
is_solid-append (c ∷ s) t h k = ground (arith, is_solid-append s t)

is_solid-reverse : (s : Text) → is_solid s ≡ true → is_solid (reverse s) ≡ true
is_solid-reverse [] h = refl
is_solid-reverse (c ∷ s) h =
    rw (reverse-cons c s)
      (is_solid-append (reverse s) (c ∷ []) (is_solid-reverse s (ground arith)) (ground arith))

-- the newline that ends the file is stripped again
strip-newline : (s : Text) → is_solid s ≡ true → strip (s ++ 10 ∷ []) ≡ s
unfolding strip lstrip
strip-newline [] h = refl
strip-newline (c ∷ s) h =
    let solid : is_space c ≡ false = ground arith in
    let kept : lstrip ((c ∷ s) ++ 10 ∷ []) ≡ (c ∷ s) ++ 10 ∷ [] = rw solid refl in
    let turned : lstrip (reverse ((c ∷ s) ++ 10 ∷ [])) ≡ reverse (c ∷ s) =
      ap lstrip (reverse-append (c ∷ s) (10 ∷ []))
      ∙ lstrip_solid (reverse (c ∷ s)) (is_solid-reverse (c ∷ s) h) in
    ap (λ (t : Text). reverse (lstrip (reverse t))) kept
    ∙ ap (reverse {A = ℕ}) turned
    ∙ reverse-reverse (c ∷ s)

is_ascii-append : (s t : Text) → is_ascii s ≡ true → is_ascii t ≡ true → is_ascii (s ++ t) ≡ true
unfolding is_ascii
is_ascii-append [] t h k = k
is_ascii-append (c ∷ s) t h k = ground (arith, is_ascii-append s t)

-- A file that is not ASCII is an error, and stays.
load_or_create_dashboard_token_refused :
    (fresh : Text) (file : Option Text)
    → is_ascii (or_empty file) ≡ false
    → load_or_create_dashboard_token fresh file ≡ (err not_ascii, file)
unfolding load_or_create_dashboard_token
load_or_create_dashboard_token_refused fresh file h = rw h refl

-- If the file is absent or ASCII, and a fresh token has at least 32 characters, all ASCII, and no
-- white space: a token is given, it has at least 32 characters, and the next call gives the same
-- one and leaves the file alone, whatever token it could make.
pub load_or_create_dashboard_token_stable :
    (fresh other : Text) (file : Option Text)
    → is_ascii (or_empty file) ≡ true
    → is_ascii fresh ≡ true
    → 32 ≤ length fresh
    → every (λ c. not (is_space c)) fresh ≡ true
    → let kept = (load_or_create_dashboard_token fresh file).1 in
      (token : Text) × (32 ≤ length token)
      × (load_or_create_dashboard_token fresh file ≡ (ok token, kept))
      × (load_or_create_dashboard_token other kept ≡ (ok token, kept))
unfolding load_or_create_dashboard_token
load_or_create_dashboard_token_stable fresh other file a b l h =
    let written : is_ascii (fresh ++ 10 ∷ []) ≡ true =
      is_ascii-append fresh (10 ∷ []) b (unfold is_ascii in refl) in
    elim (Bool-cases (leb 32 (length (strip (or_empty file))))) [
      | inl long ↦
          (strip (or_empty file), ground arith, rw (a, long) refl, rw (a, long) (rw (a, long) refl))
      | inr short ↦ (
        fresh,
        l,
        rw (a, short) refl,
        rw (a, short) (rw (written, strip-newline fresh h, le→leb 32 (length fresh) l) refl),
      )
    ]
