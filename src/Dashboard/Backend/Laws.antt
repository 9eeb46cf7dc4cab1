-- ===== src/Dashboard/Backend/Laws.antt =====
-- What the adapter does for a snapshot is what the experiment counts.
use blink_battery_benchmark.Common.{
  ℕ, ◌≡◌, refl, ◌∙◌, ap, Bool, true, false, not, ◌&&◌, Option, none, some, List, [], ◌∷◌, ◌==◌,
  is_some, Bool-cases, inl, inr,
}
use blink_battery_benchmark.Text.{Bytes, Text, text_eq}
use blink_battery_benchmark.Action.{Done}
use blink_battery_benchmark.Storage.Types.{Time}
use blink_battery_benchmark.Config.Types.{ExperimentConfig}
use blink_battery_benchmark.Experiment.World.{Instant, World}
use blink_battery_benchmark.Experiment.Controls.{Outcome}
use blink_battery_benchmark.Experiment.Sections.{is_stale, capture_outcome}
use blink_battery_benchmark.Experiment.Sections.Laws.{counted, capture_outcome-Returns}
use blink_battery_benchmark.Experiment.Invariant.{counters, IsValid, Returns, IsStandard}
use blink_battery_benchmark.Adapter.Operations.{
  Reply, got, unavailable, Awaited, gave, broke, Shot, failed_shot, refresh, fetched_image,
  thumbnail_image, cached_image, after_taken, adapter_snapshot, handle_snapshot,
}
use blink_battery_benchmark.Dashboard.Backend.{
  Inspected, verify_jpeg, atomic_write_jpeg, capture_snapshot, Transport, delivered, overdue,
  broken, over_http,
}
use blink_battery_benchmark.Dashboard.Backend.Pictures.{
  first_picture, is_true, tally, result_of, is_kept, expected_capture, fails, verify_jpeg-is_jpeg,
}

module _ (inspect : Bytes → Inspected) where
  module _ (write : Option Text) (shown : Bytes → Text) (body : Text → Bytes) where
    abbrev end_of : Reply Bytes → Outcome Done
    end_of reply =
        capture_snapshot inspect shown write (over_http body delivered (handle_snapshot reply))

    counted_failure :
        (text : Text) (n : ℕ × ℕ × ℕ × ℕ) → counted (end_of (unavailable text)) n ≡ tally fails n
    unfolding capture_snapshot handle_snapshot text_eq
    counted_failure text n = refl

    counted_written :
        (o w : Option Text) (n : ℕ × ℕ × ℕ × ℕ)
        → counted (atomic_write_jpeg inspect o w) n
          ≡ tally (result_of (not (is_some o) && not (is_some w))) n
    counted_written none none n = refl
    counted_written none (some text) n = refl
    counted_written (some text) w n = refl

    counted_picture :
        (bytes : Bytes) (n : ℕ × ℕ × ℕ × ℕ)
        → counted (end_of (got bytes)) n ≡ tally (result_of (is_kept inspect write (some bytes))) n
    unfolding capture_snapshot handle_snapshot
    counted_picture bytes n =
        counted_written (verify_jpeg inspect bytes) write n
        ∙ ap (λ b. tally (result_of (b && not (is_some write))) n)
            (verify_jpeg-is_jpeg inspect bytes)

    module _ (now : Time) (last : Option Time) (n : ℕ × ℕ × ℕ × ℕ) where
      counted_fetched :
          (call : Awaited (ℕ × Bytes)) (c : ℕ) (s : Text)
          → counted (end_of (fetched_image now last call).0) n
            ≡ tally (result_of (is_kept inspect write (first_picture none (some (c ∷ s)) call))) n
      counted_fetched broke c s = counted_failure _ n
      counted_fetched (gave (status, [])) c s = elim (Bool-cases (status == 200)) [
        | inl on ↦ rw on (counted_failure _ n)
        | inr off ↦ rw off (counted_failure _ n)
      ]
      counted_fetched (gave (status, b ∷ bs)) c s = elim (Bool-cases (status == 200)) [
        | inl on ↦ rw on (counted_picture (b ∷ bs) n)
        | inr off ↦ rw off (counted_failure _ n)
      ]

      counted_thumbnail :
          (thumbnail : Option Text) (call : Awaited (ℕ × Bytes))
          → counted (end_of (thumbnail_image now last thumbnail call).0) n
            ≡ tally (result_of (is_kept inspect write (first_picture none thumbnail call))) n
      counted_thumbnail none call = counted_failure _ n
      counted_thumbnail (some []) call = counted_failure _ n
      counted_thumbnail (some (c ∷ s)) call = counted_fetched call c s

      counted_cached :
          (cached : Option Bytes) (thumbnail : Option Text) (call : Awaited (ℕ × Bytes))
          → counted (end_of (cached_image now last cached thumbnail call).0) n
            ≡ tally (result_of (is_kept inspect write (first_picture cached thumbnail call))) n
      counted_cached none thumbnail call = counted_thumbnail thumbnail call
      counted_cached (some []) thumbnail call = counted_thumbnail thumbnail call
      counted_cached (some (b ∷ bs)) thumbnail call = counted_picture (b ∷ bs) n

      counted_refreshed :
          (refreshed : Awaited Bool) (cached : Option Bytes) (thumbnail : Option Text)
          (call : Awaited (ℕ × Bytes))
          → counted
              (end_of
                (refresh now last refreshed
                  (λ text. (unavailable text, last))
                  failed_shot
                  (cached_image now last cached thumbnail call)).0)
              n
            ≡ tally
                (result_of (
                  is_true refreshed && is_kept inspect write (first_picture cached thumbnail call)))
                n
      counted_refreshed broke cached thumbnail call = counted_failure _ n
      counted_refreshed (gave false) cached thumbnail call = counted_failure _ n
      counted_refreshed (gave true) cached thumbnail call = counted_cached cached thumbnail call

      counted_taken :
          (taken : Awaited Bool) (shot : Shot)
          → counted (end_of (after_taken now last taken shot).0) n
            ≡ tally
                (result_of (
                  is_true taken
                  && is_true shot.refreshed
                  && is_kept inspect write (first_picture shot.cached shot.thumbnail shot.fetched)))
                n
      counted_taken broke shot = counted_failure _ n
      counted_taken (gave false) shot = counted_failure _ n
      counted_taken (gave true) shot =
          counted_refreshed shot.refreshed shot.cached shot.thumbnail shot.fetched

    counted_shot :
        (transport : Transport) (now : Time) (last : Option Time) (shot : Shot) (n : ℕ × ℕ × ℕ × ℕ)
        → counted
            (capture_snapshot inspect shown write
              (over_http body transport (handle_snapshot (adapter_snapshot now last shot).0)))
            n
          ≡ tally (expected_capture inspect write transport shot) n
    unfolding adapter_snapshot capture_snapshot text_eq
    counted_shot delivered now last shot n = counted_taken now last n shot.taken shot
    counted_shot overdue now last shot n = refl
    counted_shot (broken text) now last shot n = refl

    module _ (c : ExperimentConfig) (std : IsStandard c) (low : List Text) (limit_text : Text)
        (t : Instant) where
      -- For a standard configuration, a valid world and a runner of the current generation: what
      -- the adapter does for a snapshot reaches the runner, over its handler, HTTP, the client and
      -- the JPEG test. A response that is overdue is counted as one timeout, and one that HTTP
      -- breaks as one failure. Otherwise one success is counted exactly if the camera took a
      -- picture, Blink refreshed, the first picture of the cache and the thumbnail that is not
      -- empty has the two markers of a JPEG and is one for Pillow, and the file is written without
      -- an error; else one failure is counted. The other counters stay, and the world is valid.
      pub snapshot-Returns :
          (transport : Transport) (now : Time) (last : Option Time) (shot : Shot) (generation : ℕ)
          (w : World)
          → IsValid w
          → is_stale generation w ≡ false
          → Returns
              (λ (_ : Done) w'.
                IsValid w'
                × (counters w'.run
                    ≡ tally (expected_capture inspect write transport shot) (counters w.run)))
              (capture_outcome c low limit_text t generation
                (capture_snapshot inspect shown write
                  (over_http body transport (handle_snapshot (adapter_snapshot now last shot).0)))
                w)
      snapshot-Returns transport now last shot generation w v fresh =
          let ended = capture_outcome-Returns c std low limit_text t generation _ w v fresh in
          record {
            value = ended.value;
            after = ended.after;
            returns = ended.returns;
            holds = (
              ended.holds.valid,
              ended.holds.counts ∙ counted_shot transport now last shot (counters w.run),
            );
          }
