-- ===== src/Config/Merge/Laws.antt =====
-- What a key holds after `_merge`.
use blink_battery_benchmark.Common.{
  Bool, true, false, not, ◌≡◌, refl, sym, subst, Option, none, some, [], ◌∷◌, ◌&&◌, arith,
  Bool-cases, inl, inr,
}
use blink_battery_benchmark.Text.{Text, text_eq, contains, text_eq_refl}
use blink_battery_benchmark.Config.Toml.{
  Toml, Table, str, num, bool, array, table, end, field, get, set, keys,
}
use blink_battery_benchmark.Config.Merge.{merge_value, merge}

text_eq-eq : (s t : Text) → text_eq s t ≡ true → s ≡ t
unfolding text_eq
text_eq-eq [] [] h = refl
text_eq-eq [] (d ∷ t) h = ground arith
text_eq-eq (c ∷ s) [] h = ground arith
text_eq-eq (c ∷ s) (d ∷ t) h =
    let e = text_eq-eq s t (ground arith) in let k : c ≡ d = ground arith in rw (e, k) refl

get-set_same : (key : Text) (v : Toml) (t : Table) → get key (set key v t) ≡ some v
unfolding get set
get-set_same key v end = rw (text_eq_refl key) refl
get-set_same key v (field k x rest) = elim (Bool-cases (text_eq key k)) [
  | inl e ↦ rw (e, e) refl
  | inr n ↦ rw (n, n) (get-set_same key v rest)
]

get-set_other :
    (key other : Text) (v : Toml) (t : Table)
    → text_eq other key ≡ false
    → get other (set key v t) ≡ get other t
unfolding get set
get-set_other key other v end h = rw h refl
get-set_other key other v (field k x rest) h = elim (Bool-cases (text_eq key k)) [
  | inl e ↦
      let n : text_eq other k ≡ false =
        subst (λ z. text_eq other z ≡ false) (text_eq-eq key k e) h in
      rw (e, n) refl
  | inr n ↦ rw (n, get-set_other key other v rest h) refl
]

-- no key stands twice
abbrev pub has_unique : Table → Bool
has_unique end = true
has_unique (field k v rest) = let r = has_unique rest in not (contains k (keys rest)) && r

-- the value of a key by the values that the overriding and the base table have for it
abbrev pub merged : Option Toml → Option Toml → Option Toml
merged none old = old
merged (some (table override)) (some (table base)) = some (table (merge base override))
merged (some v) old = some v

merged_value : (v : Toml) (old : Option Toml) → some (merge_value v old) ≡ merged (some v) old
unfolding merge_value
merged_value (table override) (some (table base)) = refl
merged_value (table override) (some (str s)) = refl
merged_value (table override) (some (num n)) = refl
merged_value (table override) (some (bool b)) = refl
merged_value (table override) (some (array xs)) = refl
merged_value (table override) none = refl
merged_value (str s) old = refl
merged_value (num n) old = refl
merged_value (bool b) old = refl
merged_value (array xs) old = refl

-- a key that is not among a table's keys has no value in it
get-absent : (key : Text) (t : Table) → contains key (keys t) ≡ false → get key t ≡ none
unfolding get keys contains
get-absent key end h = refl
get-absent key (field k v rest) h = let e = get-absent key rest (ground arith) in ground arith

-- If the overriding table names no key twice: each key of the merged tables holds the merged
-- tables where both have a table for it, else the overriding value where there is one, and else
-- the base value.
pub get-merge :
    (key : Text) (base override : Table)
    → has_unique override ≡ true
    → get key (merge base override) ≡ merged (get key override) (get key base)
unfolding get merge keys
get-merge key base end h = refl
get-merge key base (field k v rest) h =
    let next = set k (merge_value v (get k base)) base in
    let ih = get-merge key next rest (ground arith) in
    elim (Bool-cases (text_eq key k)) [
      | inl e ↦
          let same = sym (text_eq-eq key k e) in
          let gone = subst (λ z. get z rest ≡ none) same (get-absent k rest (ground arith)) in
          let held =
            subst (λ z. get z next ≡ some (merge_value v (get z base))) same
              (get-set_same k (merge_value v (get k base)) base) in
          rw (ih, e, gone, held) (merged_value v (get key base))
      | inr n ↦
          let other = get-set_other k key (merge_value v (get k base)) base n in
          rw (ih, n, other) refl
    ]
