-- ===== src/IoProcess/Station.antt =====
-- The state of the IO process: the requests of the MQTT thread, its outputs, lights and LEDs, the Modbus
-- server, and the texts it has published.
use vision_box_dual_cam.Base.{
  ℕ, ◌==◌, ltb, ◌&&◌, Bool, String, List, [], ◌∷◌, ◌++◌, Option, none, some, if◌then◌else◌, length,
  codes,
}
use vision_box_dual_cam.Base.Int.{ℤ}
use vision_box_dual_cam.Base.Camera.{Camera, camera_1, camera_2}
use vision_box_dual_cam.Io.Sysfs.{Os, Sysfs}
use vision_box_dual_cam.Io.Dout.{Dout}
use vision_box_dual_cam.Io.Led.{Bus, Led}
use vision_box_dual_cam.Io.Status.{Lamps}
use vision_box_dual_cam.Command.{Requests, ModbusSetParams, RtcSetMode}
use vision_box_dual_cam.IoProcess.Answer.{Value, System}
use vision_box_dual_cam.IoProcess.Clock.{Shell}

-- Where the program runs. The `stack` fields are what uninitialised variables hold.
pub record Env (Chip : Type 0) : Type 0 where
  pub os : Os
  pub bus : Bus Chip
  pub stack_read : ℕ → ℤ  -- the buffer in `pwm_read_duty_cycle`
  pub stack_ret : ℤ  -- `ret` of `ios_lightGetPWM`
  pub stack_value : ℕ  -- `ios_setpwm_tmp.value`
  pub stack_ch : ℕ → ℕ  -- `ch` of `gpio_get_value`
  pub stack_period : ℕ  -- `ios_dout_tmp.OneShotPeriod`
  pub stack_buf : String  -- `buf` of `ios_sys_get_params_json_create`
  pub iwconfig : Option String
  pub connects : ModbusSetParams → Bool  -- the calls of libmodbus in `ios_modbus_init`
  pub max_read_registers : ℕ  -- MODBUS_MAX_READ_REGISTERS
  pub serial_read : String → Option String  -- what the serial line answers to a text
  pub settimeofday : RtcSetMode → Bool
  pub sys : System

-- The variables behind `ios_modbusSetParameters`, and whether the server runs.
pub record Modbus : Type 0 where
  pub params : ModbusSetParams  -- RTU_BAUDRATE, GI_Testing_Register and so on
  pub modbus_status : ℕ

pub record Plant (Chip : Type 0) : Type 0 where
  pub requests : Requests
  pub ios_cameraid : ℕ
  pub dout : Dout
  pub led : Led Chip
  pub update_led_status_flg : ℕ
  pub trig_trigger1 : ℕ
  pub trig_trigger2 : ℕ
  pub trig_pin : ℕ → ℕ
  pub trig_edge : ℕ → String
  pub modbus : Modbus
  pub published : List (Camera × Value)  -- by ext_mqtt_publisher_Dual, oldest first
  pub ran : List Shell  -- by popen, oldest first

-- A number that is converted to `bool` as the index of a topic, and that is compared with 0.
unfoldable pub camera_of : ℕ → Camera
camera_of n = if n == 0 then camera_1 else camera_2

module _ {Chip : Type 0} where
  -- A change of the shared structures, and one of the files under /sys.
  abbrev pub with_requests : Requests → Plant Chip → Plant Chip
  with_requests r p = record p { requests = r }

  abbrev pub with_sysfs : Sysfs → Plant Chip → Plant Chip
  with_sysfs s p = record p { dout = record p.dout { sysfs = s } }

  -- The part of the state that `ios_LED_Status_Handler` uses.
  abbrev pub lamps : Plant Chip → Lamps Chip
  lamps p = record {
    led = p.led;
    sysfs = p.dout.sysfs;
    update_led_status_flg = p.update_led_status_flg;
    trig_trigger1 = p.trig_trigger1;
    trig_trigger2 = p.trig_trigger2;
  }

  abbrev pub with_lamps : Lamps Chip → Plant Chip → Plant Chip
  with_lamps l p = record p {
    led = l.led;
    dout = record p.dout { sysfs = l.sysfs };
    update_led_status_flg = l.update_led_status_flg;
    trig_trigger1 = l.trig_trigger1;
    trig_trigger2 = l.trig_trigger2;
  }

  -- `ext_mqtt_publisher_Dual`.
  unfoldable pub mqtt_publisher_dual : Value → ℕ → Plant Chip → Plant Chip
  unfolding camera_of
  mqtt_publisher_dual v id p = record p { published = p.published ++ ((camera_of id, v) ∷ []) }

module _ {Chip : Type 0} (env : Env Chip) where
  -- `ios_modbus_free`, then the parameters, then `ios_modbus_init`. The two registers are written into a
  -- mapping of `max_read_registers` registers.
  unfoldable pub modbus_set_parameters : ModbusSetParams → Modbus → Option Modbus
  modbus_set_parameters m s =
      if env.connects m
      then (if ltb m.gi_test_status_register env.max_read_registers
            && ltb m.gi_testing_result_register env.max_read_registers
          then some (record { params = m; modbus_status = 1 })
          else none)
      else some (record { params = m; modbus_status = 0 })

  -- `ios_sfc_send_msg` on `msg`: the answer is read into 256 bytes that were cleared before.
  unfoldable pub sfc_send_msg : String → Option String
  sfc_send_msg msg = elim (env.serial_read msg) [
    | some s ↦ if ltb (length (codes s)) 256 then some s else none
    | none ↦ some "Error reading from serial port"
  ]
