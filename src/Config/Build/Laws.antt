-- ===== src/Config/Build/Laws.antt =====
-- What a configuration that `_build_config` accepts is like.
use blink_battery_benchmark.Common.{
  zero, suc, ◌≤◌, ◌<◌, ◌≡◌, refl, Bool, true, false, Option, none, some, List, [], ◌∷◌, leb, leb→le,
  ap, subst, arith, every,
}
use blink_battery_benchmark.Text.{Text, codes}
use blink_battery_benchmark.Action.{Result, ok, err}
use blink_battery_benchmark.Storage.Types.{Time}
use blink_battery_benchmark.Config.Types.{
  Kind, snapshot, stream, ExperimentTestConfig, ExperimentConfig,
}
use blink_battery_benchmark.Config.Toml.{
  Float, finite, infinity, minus_infinity, nan, plus, minus, Toml, str, num, bool, array, table,
  Items, nil, item, Table, get,
}
use blink_battery_benchmark.Experiment.Invariant.{IsStandard}
use blink_battery_benchmark.Config.Build.{
  ◌>>=◌, ◌>>◌, check, above_zero, finite_duration, positive_duration, build_interval, build_named,
  build_test, positive, four_kinds, has_four_stages, build_all, build_tests, tests_or, duration_or,
  duration, build_experiment,
}

ok-injective : {A : Type 0} (a b : A) → ok a ≡ ok b → a ≡ b
ok-injective a b h = ap (λ r. elim r [ ok x ↦ x | err e ↦ a ]) h

-- the first step of a result that is a value is a value
step-ok :
    {A B : Type 0} (r : Result A) (f : A → Result B) (b : B)
    → (r >>= f) ≡ ok b
    → (a : A) × (r ≡ ok a) × (f a ≡ ok b)
step-ok (ok a) f b h = (a, refl, h)
step-ok (err e) f b h = ground arith

-- the guard of a block that is a value held
guard-ok :
    {B : Type 0} (b : Bool) (m : Text) (k : Result B) (v : B)
    → (check b m >> k) ≡ ok v
    → (b ≡ true) × (k ≡ ok v)
guard-ok true m k v h = (refl, h)
guard-ok false m k v h = ground arith

-- A value that the block gives satisfies `Q`.
pub record Gives {ℓ} {A : Type 0} (Q : A → Type ℓ) (r : Result A) : Type ℓ where
  pub holds : (a : A) → r ≡ ok a → Q a

pub Gives-bind {ℓ κ} :
    {A B : Type 0} {P : A → Type ℓ} {Q : B → Type κ} {r : Result A} {f : A → Result B}
    → Gives P r
    → ((a : A) → P a → Gives Q (f a))
    → Gives Q (r >>= f)
Gives-bind {r = r} {f = f} h k = record {
  holds = λ b e. let (a, e₁, e₂) = step-ok r f b e in (k a (h.holds a e₁)).holds b e₂;
}

pub Gives-any : {A : Type 0} (r : Result A) → Gives (λ (_ : A). Unit {0}) r
Gives-any r = record { holds = λ a e. tt }

pub Gives-check {κ} :
    {B : Type 0} {Q : B → Type κ} (b : Bool) (m : Text) {k : Result B}
    → (b ≡ true → Gives Q k)
    → Gives Q (check b m >> k)
Gives-check b m {k = k} h = record {
  holds = λ v e. let (e₁, e₂) = guard-ok b m k v e in (h e₁).holds v e₂;
}

pub Gives-ok {κ} : {B : Type 0} {Q : B → Type κ} (v : B) → Q v → Gives Q (ok v)
Gives-ok {Q = Q} v q = record { holds = λ a e. subst Q (ok-injective v a e) q }

-- a snapshot test has an interval above 0, and a stream test has none
abbrev pub fits_kind : Kind → Option Time → Bool
fits_kind snapshot (some (suc n)) = true
fits_kind stream none = true
fits_kind _ _ = false

abbrev pub has_interval : ExperimentTestConfig → Bool
has_interval t = fits_kind t.kind t.snapshot_interval_seconds

-- What the checks of `_build_config` establish.
pub record Checked (c : ExperimentConfig) : Type 0 where
  pub stages : has_four_stages c.tests ≡ true
  pub intervals : every has_interval c.tests ≡ true
  pub test : 0 < c.test_duration_seconds
  pub recovery : 0 < c.recovery_duration_seconds
  pub battery : 0 < c.battery_poll_seconds
  pub measurement : 0 < c.measurement_interval_seconds
  pub checkpoint : 0 < c.stream_checkpoint_seconds
  pub timeout : 0 < c.stream_data_timeout_seconds
  pub outage : c.stream_data_timeout_seconds ≤ c.fatal_outage_seconds

finite_duration-lt :
    (name : Text) (v : Option Float) (t : Time)
    → above_zero name v >>= finite_duration name ≡ ok t
    → 0 < t
finite_duration-lt name none t h = ground arith
finite_duration-lt name (some (finite (minus n))) t h = ground arith
finite_duration-lt name (some (finite (plus zero))) t h = ground arith
finite_duration-lt name (some (finite (plus (suc n)))) t h = ground arith
finite_duration-lt name (some infinity) t h = ground arith
finite_duration-lt name (some minus_infinity) t h = ground arith
finite_duration-lt name (some nan) t h = ground arith

fits_some : (t : Time) (i : Option Time) → 0 < t → ok (some t) ≡ ok i → fits_kind snapshot i ≡ true
fits_some zero i p h = ground arith
fits_some (suc n) i p h = ground arith

four_kinds-eq :
    (a b d e : Kind)
    → four_kinds a b d e ≡ true
    → (a ≡ snapshot) × (b ≡ snapshot) × (d ≡ snapshot) × (e ≡ stream)
four_kinds-eq snapshot snapshot snapshot stream h = (refl, refl, refl, refl)
four_kinds-eq snapshot snapshot snapshot snapshot h = ground arith
four_kinds-eq snapshot snapshot stream e h = ground arith
four_kinds-eq snapshot stream d e h = ground arith
four_kinds-eq stream b d e h = ground arith

-- Four checked stages are those of a standard configuration.
pub four_stages-IsStandard : (c : ExperimentConfig) → has_four_stages c.tests ≡ true → IsStandard c
four_stages-IsStandard c h = stages c.tests refl h
  where
    stages :
        (ts : List ExperimentTestConfig) → c.tests ≡ ts → has_four_stages ts ≡ true → IsStandard c
    stages [] e h = ground arith
    stages (a ∷ []) e h = ground arith
    stages (a ∷ b ∷ []) e h = ground arith
    stages (a ∷ b ∷ d ∷ []) e h = ground arith
    stages (a ∷ b ∷ d ∷ x ∷ []) e h =
        let k = four_kinds-eq a.kind b.kind d.kind x.kind h in
        record {
          first = a;
          second = b;
          third = d;
          last = x;
          all = e;
          snapshots = (k.0, k.1, k.2);
          streams = k.3;
        }
    stages (a ∷ b ∷ d ∷ x ∷ y ∷ ts) e h = ground arith

module _ (float_of : Toml → Option Float) (str_of : Toml → Text) (is_true : Toml → Bool) where
  pub duration_or-lt :
      (name : Text) (v : Option Toml) (default t : Time)
      → 0 < default
      → duration_or float_of str_of is_true name v default ≡ ok t
      → 0 < t
  duration_or-lt name none d t p h = ground arith
  duration_or-lt name (some v) d t p h =
      unfold positive in finite_duration-lt name (float_of v) t (unfold positive in h)

  -- The check of a setting takes nan.
  positive-nan :
      (name : Text) (v : Toml)
      → float_of v ≡ some nan
      → positive float_of str_of is_true name v ≡ ok nan
  unfolding positive
  positive-nan name v h = rw h refl

  duration-Gives :
      (data_ : Table) (key : Text) (default : Time)
      → 0 < default
      → Gives (λ t. 0 < t) (duration float_of str_of is_true data_ key default)
  unfolding duration
  duration-Gives data_ key default p = record { holds = λ t e. duration_or-lt _ _ default t p e }

  build_interval-fits :
      (k : Kind) (v : Option Toml) (i : Option Time)
      → build_interval float_of str_of is_true k v ≡ ok i
      → fits_kind k i ≡ true
  build_interval-fits snapshot none i h = ground arith
  build_interval-fits snapshot (some v) i h =
      let (t, e, k) =
        step-ok (positive_duration float_of str_of is_true (codes "snapshot_interval_seconds") v) _
          i h in
      let p =
        finite_duration-lt (codes "snapshot_interval_seconds") (float_of v) t
          (unfold positive in e) in
      fits_some t i p k
  build_interval-fits stream none i h = ground arith
  build_interval-fits stream (some v) i h = ground arith

  build_named-fits :
      (name : Text) (k : Option Kind) (v : Option Toml) (t : ExperimentTestConfig)
      → build_named float_of str_of is_true name k v ≡ ok t
      → has_interval t ≡ true
  build_named-fits [] k v t h = ground arith
  build_named-fits (c ∷ s) none v t h = ground arith
  build_named-fits (c ∷ s) (some k) v t h =
      let (i, e, g) = step-ok (build_interval float_of str_of is_true k v) _ t h in
      let f = build_interval-fits k v i e in ground arith

  build_test-fits :
      (v : Toml) (t : ExperimentTestConfig)
      → build_test float_of str_of is_true v ≡ ok t
      → has_interval t ≡ true
  unfolding build_test
  build_test-fits (table values) t h =
      let (known, k) = guard-ok _ _ _ t h in build_named-fits _ _ _ t k
  build_test-fits (str s) t h = ground arith
  build_test-fits (num n) t h = ground arith
  build_test-fits (bool b) t h = ground arith
  build_test-fits (array vs) t h = ground arith

  build_all-fits :
      (vs : Items) (ts : List ExperimentTestConfig)
      → build_all float_of str_of is_true vs ≡ ok ts
      → every has_interval ts ≡ true
  unfolding build_all
  build_all-fits nil ts h = ground arith
  build_all-fits (item v vs) ts h =
      let (t, e, k) = step-ok (build_test float_of str_of is_true v) _ ts h in
      let (us, f, g) = step-ok (build_all float_of str_of is_true vs) _ ts k in
      let one = build_test-fits v t e in let rest = build_all-fits vs us f in ground arith

  -- A list of tests that is accepted has the four stages, each with the interval that its kind needs.
  build_tests-checked :
      (vs : Items) (ts : List ExperimentTestConfig)
      → build_tests float_of str_of is_true vs ≡ ok ts
      → (has_four_stages ts ≡ true) × (every has_interval ts ≡ true)
  unfolding build_tests
  build_tests-checked vs ts h =
      let (us, e, k) = step-ok (build_all float_of str_of is_true vs) _ ts h in
      let (four, same) = guard-ok (has_four_stages us) _ (ok us) ts k in
      let fits = build_all-fits vs us e in ground arith

  tests_or-checked :
      (v : Option Toml) (default ts : List ExperimentTestConfig)
      → (has_four_stages default ≡ true) × (every has_interval default ≡ true)
      → tests_or float_of str_of is_true v default ≡ ok ts
      → (has_four_stages ts ≡ true) × (every has_interval ts ≡ true)
  tests_or-checked none default ts p h = ground arith
  tests_or-checked (some (array vs)) default ts p h = build_tests-checked vs ts h
  tests_or-checked (some (str s)) default ts p h = ground arith
  tests_or-checked (some (num n)) default ts p h = ground arith
  tests_or-checked (some (bool b)) default ts p h = ground arith
  tests_or-checked (some (table t)) default ts p h = ground arith

  tests_or-Gives :
      (v : Option Toml) (default : List ExperimentTestConfig)
      → (has_four_stages default ≡ true) × (every has_interval default ≡ true)
      → Gives
          (λ ts. (has_four_stages ts ≡ true) × (every has_interval ts ≡ true))
          (tests_or float_of str_of is_true v default)
  tests_or-Gives v default p = record { holds = λ ts e. tests_or-checked v default ts p e }

  build_experiment-Gives :
      (defaults : ExperimentConfig) (data_ : Table)
      → Checked defaults
      → Gives
          (λ c. Checked c × IsStandard c)
          (build_experiment float_of str_of is_true defaults data_)
  unfolding build_experiment
  build_experiment-Gives defaults data_ d =
      Gives-bind
        (duration-Gives data_ (codes "test_duration_seconds") defaults.test_duration_seconds d.test)
        λ a₁ p₁.
          Gives-bind
            (duration-Gives data_ (codes "recovery_duration_seconds")
              defaults.recovery_duration_seconds d.recovery)
            λ a₂ p₂.
              Gives-bind
                (duration-Gives data_ (codes "battery_poll_seconds") defaults.battery_poll_seconds
                  d.battery)
                λ a₃ p₃.
                  Gives-bind
                    (duration-Gives data_ (codes "measurement_interval_seconds")
                      defaults.measurement_interval_seconds d.measurement)
                    λ a₄ p₄.
                      Gives-bind
                        (duration-Gives data_ (codes "stream_checkpoint_seconds")
                          defaults.stream_checkpoint_seconds d.checkpoint)
                        λ a₅ p₅.
                          Gives-bind
                            (duration-Gives data_ (codes "stream_data_timeout_seconds")
                              defaults.stream_data_timeout_seconds d.timeout)
                            λ a₆ p₆.
                              Gives-bind
                                (Gives-any (
                                  duration float_of str_of is_true data_
                                    (codes "fatal_outage_seconds") defaults.fatal_outage_seconds))
                                λ a₇ p₇. Gives-check (leb a₆ a₇) _ λ le.
                                  Gives-bind
                                    (tests_or-Gives (get (codes "tests") data_) defaults.tests
                                      (d.stages, d.intervals))
                                    λ ts t. Gives-ok _ (
                                      record {
                                        stages = t.0;
                                        intervals = t.1;
                                        test = p₁;
                                        recovery = p₂;
                                        battery = p₃;
                                        measurement = p₄;
                                        checkpoint = p₅;
                                        timeout = p₆;
                                        outage = leb→le a₆ a₇ le;
                                      },
                                      four_stages-IsStandard _ t.0,
                                    )

  -- Over defaults that pass the checks, whatever `float`, `str` and `bool` give: an experiment
  -- configuration that is built from a file passes the checks too, so that it has three snapshot
  -- tests with an interval above 0 and then one stream test without one, its checked durations are
  -- above 0 and its stream timeout is at most its outage limit, and it is a standard
  -- configuration.
  pub build_experiment-Checked :
      (defaults c : ExperimentConfig) (data_ : Table)
      → Checked defaults
      → build_experiment float_of str_of is_true defaults data_ ≡ ok c
      → Checked c × IsStandard c
  unfolding build_experiment
  build_experiment-Checked defaults c data_ d h =
      (build_experiment-Gives defaults data_ d).holds c h
