-- ===== src/Examples/Devices.antt =====
-- The adapter, the secret store, the stream and the token, at concrete ones.
use blink_battery_benchmark.Examples.Requests.{integers, busy, busy-Reach}
use blink_battery_benchmark.Examples.Logins.{
  house, garden, garden-selected, garden_unique, session, kept_payload, failing, first_time, tokens,
  plain, plain-decrypts, plain-parses, empty_disk, turn, consumer, long_token,
}
use blink_battery_benchmark.Common.{◌≤◌, ◌≡◌, refl, true, false, none, some, [], ◌∷◌, arith}
use blink_battery_benchmark.Text.{Text, codes, is_ascii}
use blink_battery_benchmark.Action.{ok}
use blink_battery_benchmark.Common.{length, every}
use blink_battery_benchmark.Adapter.Clients.{
  refused, connected, enter, leave, begin_stop, finish_stop, started,
}
use blink_battery_benchmark.Adapter.Clients.Traces.{here}
use blink_battery_benchmark.Adapter.Clients.Laws.{IsSound, Reach-IsSound}
use blink_battery_benchmark.Adapter.Clients.Stop.{IsIdle, stop-IsIdle}
use blink_battery_benchmark.Adapter.Clients.Stranded.{enter-leave-stranded}
use blink_battery_benchmark.Adapter.Cameras.{selected, select_camera}
use blink_battery_benchmark.Adapter.Cameras.Laws.{select_camera-saved}
use blink_battery_benchmark.Adapter.Login.{start_returned, authenticate_blink}
use blink_battery_benchmark.Adapter.Login.Secrecy.{is_rejected, authenticate_blink-saved}
use blink_battery_benchmark.Adapter.Login.Codes.{payload_has_no_code, authenticate_blink-codes}
use blink_battery_benchmark.SecretStore.{save}
use blink_battery_benchmark.SecretStore.Laws.{Preserved, save-Preserved}
use blink_battery_benchmark.Media.{run}
use blink_battery_benchmark.Media.Laws.{Ran, run-Ran}
use blink_battery_benchmark.Supervisor.{load_or_create_dashboard_token}
use blink_battery_benchmark.Supervisor.Laws.{load_or_create_dashboard_token_stable}

Reach-IsSound_example : IsSound busy
Reach-IsSound_example = Reach-IsSound busy busy-Reach

stop-IsIdle_example : IsIdle (begin_stop started).created (finish_stop (begin_stop started))
stop-IsIdle_example =
    stop-IsIdle started (begin_stop started) (finish_stop (begin_stop started)) here here

enter-leave-stranded_example :
    let failing = (enter 3 refused started).1 in
    let after = leave true 3 (enter 4 connected failing).1 in
    ((enter 4 connected failing).0 ≡ true)
    × (after.clients ≡ 4 ∷ [])
    × (after.livestream ≡ none)
    × (after.stopping ≡ false)
unfolding enter
enter-leave-stranded_example =
    enter-leave-stranded 3 4 refused connected started refl refl refl refl refl

select_camera-saved_example :
    select_camera integers house (some garden.identity) (codes "9" ∷ [])
    ≡ selected garden (codes "9" ∷ [])
select_camera-saved_example =
    select_camera-saved integers house none (codes "2" ∷ []) (codes "9" ∷ []) [] garden
      garden-selected refl garden_unique

authenticate_blink-saved_example :
    let run_login = authenticate_blink integers tokens 2 60 2 in
    (is_rejected (run_login first_time).result ≡ false)
    × (run_login (record first_time {
      username = codes "me";
      password = codes "pw";
      startup = start_returned false;
    })
        ≡ run_login first_time)
authenticate_blink-saved_example =
    authenticate_blink-saved integers tokens 2 60 2 first_time kept_payload session (codes "me")
      (codes "pw") (start_returned false) refl refl

authenticate_blink-codes_example :
    every payload_has_no_code (authenticate_blink integers tokens 2 60 2 first_time).saved ≡ true
authenticate_blink-codes_example = authenticate_blink-codes integers tokens 2 60 2 first_time

save-Preserved_example :
    Preserved plain (7 ∷ 8 ∷ []) empty_disk (save plain (7 ∷ 8 ∷ []) none empty_disk)
save-Preserved_example =
    save-Preserved plain plain-decrypts plain-parses (7 ∷ 8 ∷ []) none empty_disk

run-Ran_example : Ran (turn ∷ turn ∷ []) 0 (run (turn ∷ turn ∷ []) consumer)
run-Ran_example = run-Ran (turn ∷ turn ∷ []) consumer

load_or_create_dashboard_token_stable_example :
    let kept = (load_or_create_dashboard_token long_token none).1 in
    (token : Text) × (32 ≤ length token)
    × (load_or_create_dashboard_token long_token none ≡ (ok token, kept))
    × (load_or_create_dashboard_token ([]) kept ≡ (ok token, kept))
unfolding is_ascii
load_or_create_dashboard_token_stable_example =
    load_or_create_dashboard_token_stable long_token [] none refl refl (omega arith) refl
