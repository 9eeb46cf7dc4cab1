-- ===== src/Dashboard/Backend/Battery.antt =====
-- The battery's way from the adapter to the experiment.
use blink_battery_benchmark.Common.{◌≡◌, refl, Bool, true, false, Option, some, if◌then◌else◌}
use blink_battery_benchmark.Text.{codes}
use blink_battery_benchmark.Storage.Types.{Time, Raw}
use blink_battery_benchmark.Experiment.Controls.{returned, raised}
use blink_battery_benchmark.Adapter.Operations.{
  Awaited, gave, broke, BatteryFields, battery, handle_battery,
}
use blink_battery_benchmark.Dashboard.Backend.{read_battery, battery_over_http}
use blink_battery_benchmark.Dashboard.Backend.Pictures.{is_true}

-- What the battery endpoint gives is what the experiment reads: on a refresh of Blink every field
-- comes through as the camera has it, with the adapter's time, and without one the poll fails.
pub battery-read_battery :
    (volts : Option Raw → Option Raw) (now received : Time) (last : Option Time)
    (call : Awaited Bool) (fields : BatteryFields)
    → read_battery received
        (battery_over_http (handle_battery (battery volts now last call fields).0))
      ≡ (if is_true call
          then returned (record {
            observed_at_utc = now;
            battery_level_raw = fields.battery_level_raw;
            battery_state = fields.battery_state;
            battery_voltage_raw = fields.battery_voltage_raw;
            battery_voltage_volts = volts fields.battery_voltage_raw;
            blink_battery_check_time = fields.blink_battery_check_time;
            camera_status = fields.camera_status;
          })
          else raised (some (codes "battery_endpoint_failure")) (codes "battery_unavailable"))
unfolding battery handle_battery read_battery
battery-read_battery volts now received last broke fields = refl
battery-read_battery volts now received last (gave false) fields = refl
battery-read_battery volts now received last (gave true) fields = refl
