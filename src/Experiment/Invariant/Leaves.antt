-- ===== src/Experiment/Invariant/Leaves.antt =====
-- Calls that leave a valid world, whether they return or raise.
use blink_battery_benchmark.Action.{Result, ok, err, continue}
use blink_battery_benchmark.Experiment.World.{World, M}
use blink_battery_benchmark.Experiment.Invariant.{IsValid, Returns}

pub record Leaves {A : Type 0} (r : Result A × World) : Type 0 where
  pub valid : IsValid r.1

pub Leaves-of_Returns {ℓ} :
    {A : Type 0} {Q : A → World → Type ℓ} {r : Result A × World}
    → Returns Q r
    → ((a : A) (w' : World) → Q a w' → IsValid w')
    → Leaves r
Leaves-of_Returns h k = record { valid = rw h.returns (k h.value h.after h.holds) }

pub Leaves-pure : {A : Type 0} (a : A) (w : World) → IsValid w → Leaves (ok a, w)
Leaves-pure a w v = record { valid = v }

pub Leaves-raise : {A : Type 0} {r : Result A} (w : World) → IsValid w → Leaves (r, w)
Leaves-raise w v = record { valid = v }

continue-Leaves :
    {A B : Type 0} (r : Result A) (f : A → M B) (w : World)
    → IsValid w
    → ((a : A) (w' : World) → IsValid w' → Leaves (f a w'))
    → Leaves (continue r f w)
continue-Leaves (ok a) f w v k = k a w v
continue-Leaves (err e) f w v k = record { valid = v }

-- the first call of a block leaves a valid world, and the rest of it keeps it so
pub Leaves-bind :
    {A B : Type 0} {r : Result A × World} {f : A → M B}
    → Leaves r
    → ((a : A) (w : World) → IsValid w → Leaves (f a w))
    → Leaves (continue r.0 f r.1)
Leaves-bind {r = r} {f = f} h k = continue-Leaves r.0 f r.1 h.valid k
