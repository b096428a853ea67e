-- ===== src/IoProcess/Ranges/Servers.antt =====
-- The branches of `ios_process` for the Modbus server and the serial line.
use vision_box_dual_cam.Command.Bounds.Parts.{part_9}
use vision_box_dual_cam.Base.{
  ltb, ◌&&◌, String, codes, length, Option, none, some, if◌then◌else◌, arith,
}
use vision_box_dual_cam.Command.{IoCmd}
use vision_box_dual_cam.Command.Bounds.{Fits, InRange, ModbusInRange}
use vision_box_dual_cam.Command.Keeps.{ltb_lem}
use vision_box_dual_cam.IoProcess.Station.{
  Env, Modbus, Plant, with_requests, modbus_set_parameters, sfc_send_msg, mqtt_publisher_dual,
}
use vision_box_dual_cam.IoProcess.Handle.{answer, handle}
use vision_box_dual_cam.IoProcess.Answer.{sfc_params_json_create}
use vision_box_dual_cam.Base.{Bool-cases, inl, inr}
use vision_box_dual_cam.Base.{either}
use vision_box_dual_cam.IoProcess.Bounds.{PlantInRange, Leaves}

module _ {Chip : Type 0} (env : Env Chip) where
  abbrev ModbusKept : Option Modbus → Type 0
  ModbusKept none = Unit
  ModbusKept (some m) = ModbusInRange m.params

  modbus_kept :
      (o : Option Modbus) (p : Plant Chip)
      → InRange p.requests
      → ModbusKept o
      → Leaves (elim o as (λ _. Option (Plant Chip)) [
        | some m ↦ some (record p { modbus = m })
        | none ↦ none
      ])
  modbus_kept none p h g = tt
  modbus_kept (some m) p h g = (h, g)

  abbrev Short : Option String → Type 0
  Short none = Unit
  Short (some s) = Fits 256 s

  serial-Short :
      (o : Option String)
      → Short (elim o as (λ _. Option String) [
        | some s ↦ if ltb (length (codes s)) 256 then some s else none
        | none ↦ some "Error reading from serial port"
      ])
  serial-Short none = omega arith
  serial-Short (some s) = elim (Bool-cases (ltb (length (codes s)) 256)) [
    | inl e ↦ rw e (ltb_lem (length (codes s)) 256 e)
    | inr e ↦ rw e tt
  ]

  sfc_kept :
      (o : Option String) (p : Plant Chip)
      → PlantInRange p
      → Short o
      → Leaves (elim o as (λ _. Option (Plant Chip)) [
        | some msg ↦ some (
            answer
              (sfc_params_json_create msg p.requests.cmd_info)
              (with_requests (record p.requests { sfc_msg = msg }) p))
        | none ↦ none
      ])
  unfolding answer mqtt_publisher_dual
  sfc_kept none p h g = tt
  sfc_kept (some s) p h g = (
    (part_9 h.0 (h.0.9.0, h.0.9.1, omega (arith, g), h.0.9.3, h.0.9.4, h.0.9.5, h.0.9.6, h.0.9.7)),
    h.1,
  )

  pub modbus_set-InRange :
      (p : Plant Chip) → PlantInRange p → Leaves (handle env IoCmd.modbus_set_params p)
  unfolding handle modbus_set_parameters
  modbus_set-InRange p h =
      modbus_kept (modbus_set_parameters env p.requests.modbus p.modbus) p h.0 (
        either ModbusKept (env.connects p.requests.modbus) _ _
          (either ModbusKept
            (ltb p.requests.modbus.gi_test_status_register env.max_read_registers
              && ltb p.requests.modbus.gi_testing_result_register env.max_read_registers)
            _ _ h.0.8 tt)
          h.0.8)

  pub sfc-InRange :
      (p : Plant Chip) → PlantInRange p → Leaves (handle env IoCmd.io_shop_floor_control p)
  unfolding handle sfc_send_msg answer mqtt_publisher_dual
  sfc-InRange p h =
      sfc_kept (sfc_send_msg env p.requests.sfc_msg) p h
        (serial-Short (env.serial_read p.requests.sfc_msg))
