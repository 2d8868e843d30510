-- ===== src/Lib.antt =====
-- The firmware of the cat litter box: the program of main/, without the vendored components/ and
-- managed_components/.
--
-- The box has a main cover, a scoop that slides in and out (`scpinout`) and spins (`scpspin`), a waste
-- cover, a turning plate, photo sensors at the ends of each movement, a TOF distance sensor and load
-- cells. A scenario, such as `do_clean`, is a task that sends messages to one task per motor and
-- waits on the sensors' values and the motors' run flags; keys and weights start scenarios
-- through the task of the user interface.
--
-- Parts:
--   Sensor        main/sensor.c: the sensors' stored values, the ring buffer of TOF distances and
--                 the approach state. A record `Sensor` holds the static variables. Sensor/Parser
--                 is `sensor_data_parser`, Sensor/Serial the task of main/main.c that feeds it.
--   Motion        main/motor.h, the enums of the other headers: motors, directions, commands, and
--                 `Action`, a message that a scenario sends.
--   Clean         main/motor.c: Clean/Flags the flags that other tasks set, Clean/Wait the waits,
--                 Clean/Origin the calibrations, Clean/Recovery the return to idle, Clean/Cycle
--                 `do_clean`, Clean/Manage `do_manage_start` and `do_manage_finish`.
--   DcMotor       main/dc_motor_control.c: a function for a round of each motor task.
--   StepMotor     main/step_motor_control.c: the rounds of the two tasks, the two timer callbacks.
--   Loadcell      main/loadcell.c: `process_cat_detection_fsm` and its ring buffer; Loadcell/Weights
--                 the weights from the raw values, and the tare.
--   Ui            main/ui.c: which command may start which task; Ui/Proximity is `proximity_task`.
--   Keyscan       main/keyscan.c: a round of `key_polling_task`.
--   Console       main/main.c: Console/RxRing the ring buffer of the console's bytes, Console/Parser
--                 `uart_parser` and `uart_process`, Console/Command `Process_Command`, Console/Boot
--                 what runs at power-up and `system_reset`.
--   Led           main/led.c: the modes of `led_process_task`, the commands of `led_task`.
--   Tracker       main/ble/ble_tracker_id.c: the trackers near the box and the water that was drunk.
--   Ble           main/ble/ble_parse.c: the packets with a tracker's motion data; Ble/AppCommand is
--                 `BLE_APP_Command`, Ble/Phone what it reads and answers, Ble/Crypto its key in
--                 main/crypto/ble_crypto.c, Ble/Transmit the sender of main/ble/ble_task.c.
--   Settings      main/app_config_flash.c, with the blobs of main/app_nvs.c.
--   Diag          main/diag.c: the factory diagnosis.
--   Wifi          main/wifi/wifi_task.c: Wifi/Scan the search for access points, Wifi/Link the
--                 driver's events and `Wifi_Connect`.
--   Mqtt          main/mqtt/tx_mqtt.c: Mqtt/Tx the messages about the box, Mqtt/TrackerTx those of a
--                 tracker, Mqtt/Json their trees; Mqtt/Queue the queue of aws_iot_task.c.
--   Current       main/current_monitor.c: the rounds of `current_monitor_task`.
--   Examples      concrete runs.
--   Common        names of the libraries, integers and lists over the native numbers.
-- Proofs stand below the part they are about: Sensor/Distance and Sensor/Approach, Clean/Interlock
-- (with rules that carry a posture through a scenario), Clean/Exits, Clean/Wait/Returns,
-- DcMotor/Limits, StepMotor/WasteTurns and SpinTurns, Loadcell/Machine and Ring, Ui/Exclusion,
-- Ui/Proximity/Visit, Keyscan/Presses, Sensor/Split and Chunks, Loadcell/Tare, Console/Fifo,
-- Stream, Lines and Stops, Led/Finishing and Blinking, Tracker/Identifiers, Registry, Water and
-- Unknown, Ble/Acknowledge, Ble/AppCommand/Connect, Authentic and Keyed, Ble/Crypto/Handshake,
-- Settings/Saved, Current/Means and Faults, Diag/Alternation, Wifi/Scan/Best, Distinct and Found,
-- Wifi/Link/Waiting and Attempts, Mqtt/Topics, Mqtt/Queue/Memory.
--
-- A scenario is a program in the monad of Clean/World: it reads and writes shared variables, delays
-- and sends. Before each access, and during each `vTaskDelay`, the other tasks change the shared state by
-- a function of an environment `Env`, over which the theorems quantify. A `goto` is an `abort` that
-- the label's code catches. Messages are kept in a log, newest first; a second
-- list, `events`, has them together with what the rounds of a wait have seen of its motor.
--
-- Loops that wait for other tasks run on fuel, since the source's do not end by themselves; a run out
-- of fuel is `starved`, apart from the results of the source, and theorems on logs hold of it too.
-- Loops with a counter are recursion on the rounds left. A `uint32_t` is a natural number whose sums
-- wrap by `% 2 ^ 32`; the clock is a natural number of microseconds that does not go back.
--
-- The loops of the parsers run on fuel that is at least the number of bytes at hand, and each round
-- uses one: 256 for the console's ring of 255 bytes, the text's length for the sensor board's lines.
-- A message for the phone is sent with its length as the fuel, since each piece has a byte.
--
-- Parameters stand for what is not in the repository: the other tasks (`Env`), `float`s and
-- `double`s (`Floats`, `Doubles`, `Weights`), DEG_TO_STEPS, `sscanf`, the flash (`Nvs`), cJSON
-- (`Cjson`) and the cryptography (`MbedTls`). What the converter of the currents reads is an
-- argument. Queues, mutexes, drivers and log output are left out: a message that a task receives
-- is an argument of its round, and what is written to a driver is kept in the record of the
-- motor.
--
-- Not modelled: the UV LED, which is set once; the queues and events of the BLE stack, the server's
-- commands, the update and provisioning, which are calls of libraries; set-up of tasks, pins and
-- drivers.
pub mod Common
pub mod Sensor
pub mod Motion
pub mod Clean
pub mod Current
pub mod DcMotor
pub mod Diag
pub mod StepMotor
pub mod Loadcell
pub mod Wifi
pub mod Ui
pub mod Keyscan
pub mod Examples
pub mod Console
pub mod Led
pub mod Mqtt
pub mod Tracker
pub mod Settings
pub mod Ble
