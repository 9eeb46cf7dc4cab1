-- ===== src/Adapter/Cameras/Laws.antt =====
-- A camera that was selected once is selected again from its saved identity, and a saved camera that
-- is gone is never replaced without an answer.
use blink_battery_benchmark.Common.{
  ℕ, zero, suc, ◌≤◌, ◌<◌, ◌≡◌, refl, sym, ◌∙◌, ap, Bool, true, Option, none, some, List, [], ◌∷◌,
  ◌⊎◌, inl, inr, keep, get_elem?, length, arith, Bool-cases,
}
use blink_battery_benchmark.Text.{Text, text_eq, text_eq_refl, strip}
use blink_battery_benchmark.Config.Toml.{Number, plus, minus}
use blink_battery_benchmark.Adapter.Cameras.{
  Camera, CameraIdentity, Entry, is_given, or_blank, camera_entries, is_match, single,
  match_saved_camera, Selection, selected, entry_at, found_or, ask_camera, saved_or_ask,
  select_from, select_camera,
}

abbrev In : Entry → List Entry → Type 0
In e [] = ⊥
In e (x ∷ xs) = (e ≡ x) ⊎ In e xs

get_elem?-In : (xs : List Entry) (n : ℕ) (e : Entry) → get_elem? xs n ≡ some e → In e xs
get_elem?-In [] n e h = cc
get_elem?-In (x ∷ xs) zero e h = inl (cc)
get_elem?-In (x ∷ xs) (suc n) e h = inr (get_elem?-In xs n e h)

entry_at-In : (xs : List Entry) (n : Option Number) (e : Entry) → entry_at xs n ≡ some e → In e xs
entry_at-In xs none e h = cc
entry_at-In xs (some (minus n)) e h = cc
entry_at-In xs (some (plus zero)) e h = cc
entry_at-In xs (some (plus (suc n))) e h = get_elem?-In xs n e h

module _ (q : Entry → Bool) where
  keep-pos : (xs : List Entry) (e : Entry) → In e xs → q e ≡ true → 1 ≤ length (keep q xs)
  keep-pos [] e i h = absurd i
  keep-pos (x ∷ xs) e (inl i) h = let k : q x ≡ true = ap q (sym i) ∙ h in ground arith
  keep-pos (x ∷ xs) e (inr i) h = ground (arith, keep-pos xs e i)

  module _ (p : Entry → Bool) (narrower : (x : Entry) → p x ≡ true → q x ≡ true) where
    keep_none : (xs : List Entry) → length (keep q xs) ≡ 0 → keep p xs ≡ []
    keep_none [] h = refl
    keep_none (x ∷ xs) h = ground (arith, narrower x, keep_none xs)

    -- the one entry that passes the wider test passes the narrower one alone
    keep_unique :
        (xs : List Entry) (e : Entry)
        → In e xs
        → p e ≡ true
        → length (keep q xs) ≡ 1
        → keep p xs ≡ e ∷ []
    keep_unique [] e i h k = absurd i
    keep_unique (x ∷ xs) e (inl i) h k =
        let on : p x ≡ true = ap p (sym i) ∙ h in ground (arith, narrower x on, keep_none xs)
    keep_unique (x ∷ xs) e (inr i) h k =
        ground (arith, narrower x, narrower e, keep-pos xs e i, keep_unique xs e i)

-- an entry with the same identifier
abbrev pub same_id : Entry → Entry → Bool
same_id e x = text_eq x.identity.camera_id e.identity.camera_id

is_match-same_id :
    (e x : Entry)
    → is_given e.identity.camera_id ≡ true
    → is_match e.identity.camera_id (or_blank e.identity.serial) x ≡ true
    → same_id e x ≡ true
is_match-same_id e x g h = ground arith

is_match_self :
    (e : Entry)
    → is_given e.identity.camera_id ≡ true
    → is_match e.identity.camera_id (or_blank e.identity.serial) e ≡ true
is_match_self e g =
    ground (arith, text_eq_refl e.identity.camera_id, text_eq_refl (or_blank e.identity.serial))

found_or-cases :
    (o : Option Entry) (answers rest : List Text) (later : Selection) (e : Entry)
    → found_or o answers later ≡ selected e rest
    → ((o ≡ some e) × (answers ≡ rest)) ⊎ (later ≡ selected e rest)
found_or-cases none answers rest later e h = inr h
found_or-cases (some f) answers rest later e h = inl (cc, cc)

-- how a camera comes to be selected
module _ (parse_int : Text → Option Number) where
  ask_camera-In :
      (xs : List Entry) (answers : List Text) (e : Entry) (rest : List Text)
      → ask_camera parse_int xs answers ≡ selected e rest
      → In e xs × (length rest < length answers)
  unfolding ask_camera
  ask_camera-In xs [] e rest h = cc
  ask_camera-In xs (a ∷ answers) e rest h =
      elim (found_or-cases (entry_at xs (parse_int (strip a))) answers rest _ e h) [
        | inl (k, l) ↦
            (entry_at-In xs (parse_int (strip a)) e k, omega (arith, ap (length {A = Text}) l))
        | inr k ↦ let (i, l) = ask_camera-In xs answers e rest k in (i, omega arith)
      ]

  kept-In : (p : Entry → Bool) (xs ys : List Entry) (e : Entry) → keep p xs ≡ e ∷ ys → In e xs
  kept-In p [] ys e h = cc
  kept-In p (x ∷ xs) ys e h = elim (Bool-cases (p x)) [
    | inl on ↦ inl (ground arith)
    | inr off ↦ inr (kept-In p xs ys e (ground arith))
  ]

  single-eq_some : (xs : List Entry) (e : Entry) → single xs ≡ some e → xs ≡ e ∷ []
  single-eq_some [] e h = cc
  single-eq_some (x ∷ []) e h = ground arith
  single-eq_some (x ∷ y ∷ xs) e h = cc

  saved_or_ask-In :
      (xs : List Entry) (o : Option Entry) (answers : List Text) (e : Entry) (rest : List Text)
      → ((x : Entry) → o ≡ some x → In x xs)
      → saved_or_ask parse_int xs o answers ≡ selected e rest
      → In e xs
  saved_or_ask-In xs none answers e rest f h = (ask_camera-In xs answers e rest h).0
  saved_or_ask-In xs (some x) answers e rest f h = f e (ground arith)

  select_from-In :
      (xs : List Entry) (saved : Option CameraIdentity) (answers : List Text) (e : Entry)
      (rest : List Text)
      → select_from parse_int xs saved answers ≡ selected e rest
      → In e xs
  unfolding match_saved_camera
  select_from-In [] saved answers e rest h = cc
  select_from-In (x ∷ []) none answers e rest h = inl (cc)
  select_from-In (x ∷ y ∷ xs) none answers e rest h =
      (ask_camera-In (x ∷ y ∷ xs) answers e rest h).0
  select_from-In (x ∷ xs) (some saved) answers e rest h =
      saved_or_ask-In (x ∷ xs) (match_saved_camera (x ∷ xs) saved) answers e rest
        (λ y k.
          kept-In (is_match saved.camera_id (or_blank saved.serial)) (x ∷ xs) [] y
            (single-eq_some _ y k))
        h

  -- If a camera is selected, has an identifier, and is the only one with it: selecting again with
  -- its saved identity selects it, without reading an answer.
  pub select_camera-saved :
      (cameras : List (Text × Camera)) (saved : Option CameraIdentity)
      (answers later rest : List Text) (e : Entry)
      → select_camera parse_int cameras saved answers ≡ selected e rest
      → is_given e.identity.camera_id ≡ true
      → length (keep (same_id e) (camera_entries cameras)) ≡ 1
      → select_camera parse_int cameras (some e.identity) later ≡ selected e later
  unfolding select_camera match_saved_camera
  select_camera-saved cameras saved answers later rest e h g u =
      reselected (camera_entries cameras)
        (select_from-In (camera_entries cameras) saved answers e rest h)
        (keep_unique (same_id e) (is_match e.identity.camera_id (or_blank e.identity.serial))
          (λ x k. is_match-same_id e x g k) (camera_entries cameras) e
          (select_from-In (camera_entries cameras) saved answers e rest h) (is_match_self e g) u)
    where
      reselected :
          (xs : List Entry)
          → In e xs
          → keep (is_match e.identity.camera_id (or_blank e.identity.serial)) xs ≡ e ∷ []
          → select_from parse_int xs (some e.identity) later ≡ selected e later
      reselected [] i k = absurd i
      reselected (x ∷ xs) i k = rw k refl

  asked-lt :
      (xs : List Entry) (saved : CameraIdentity) (answers : List Text) (e : Entry)
      (rest : List Text)
      → match_saved_camera xs saved ≡ none
      → select_from parse_int xs (some saved) answers ≡ selected e rest
      → In e xs × (length rest < length answers)
  unfolding match_saved_camera
  asked-lt [] saved answers e rest n h = cc
  asked-lt (x ∷ xs) saved answers e rest n h =
      ask_camera-In (x ∷ xs) answers e rest (ground (arith))

  -- If no camera matches the saved identity uniquely: a camera is selected only after an answer is
  -- read, however many cameras there are.
  pub select_camera-asks :
      (cameras : List (Text × Camera)) (saved : CameraIdentity) (answers rest : List Text)
      (e : Entry)
      → match_saved_camera (camera_entries cameras) saved ≡ none
      → select_camera parse_int cameras (some saved) answers ≡ selected e rest
      → length rest < length answers
  unfolding select_camera
  select_camera-asks cameras saved answers rest e n h =
      (asked-lt (camera_entries cameras) saved answers e rest n h).1
