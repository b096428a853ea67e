-- ===== src/IoProcess/Effects.antt =====
-- What single commands of the IO process do, and what they leave undone.
use vision_box_dual_cam.Base.{
  ◌≡◌, refl, sym, ap, ◌∙◌, ◌==◌, false, arith, String, streq, [], ◌∷◌, ◌++◌, Option, none, some,
  some-injective, if◌then◌else◌, inl, inr, bind_inv, if_inv,
}
use vision_box_dual_cam.Base.Camera.{Dual}
use vision_box_dual_cam.Node.{ProcessNode, gi_start}
use vision_box_dual_cam.Io.Status.{Lamps, led_status_handler}
use vision_box_dual_cam.Command.{Requests, IoCmd, ModbusSetParams}
use vision_box_dual_cam.IoProcess.Answer.{
  response_json_create, Value, Fields, text, object, end, field, System, read_into,
  sys_get_params_json_create,
}
use vision_box_dual_cam.IoProcess.Station.{
  Env, Modbus, Plant, lamps, with_lamps, with_requests, camera_of, mqtt_publisher_dual,
  modbus_set_parameters,
}
use vision_box_dual_cam.IoProcess.Mode.{assign_led, indicate, colour_status, led_set_mode_step}
use vision_box_dual_cam.IoProcess.Handle.{
  answer, ack, resp_str, led_set_mode_handle, auto_test_set_mode_step, handle,
}

module _ {Chip : Type 0} (env : Env Chip) where
  asked : Plant Chip → Requests
  unfolding assign_led indicate
  asked p = assign_led p.requests.set_led_mode (indicate p.requests.set_led_mode p.requests)

  asked_info : (p : Plant Chip) → (asked p).cmd_info ≡ p.requests.cmd_info
  unfolding asked assign_led indicate colour_status
  asked_info p = ground arith

  asked_step :
      (p : Plant Chip)
      → streq p.requests.set_led_mode.indication "" ≡ false
      → led_set_mode_step env p ≡ with_requests (asked p) p
  unfolding led_set_mode_step asked
  asked_step p i = rw (led_set_mode_step, i) refl

  quiet :
      (nodes : Dual ProcessNode) (l : Lamps Chip)
      → l.update_led_status_flg ≡ 0
      → led_status_handler env.bus env.os env.stack_read env.stack_ret env.stack_value env.stack_ch
          env.iwconfig nodes l
        ≡ some l
  unfolding led_status_handler
  quiet nodes l u = rw (led_status_handler, u) refl

  kept_lem :
      (p q : Plant Chip)
      → led_set_mode_step env p ≡ q
      → q.update_led_status_flg ≡ 0
      → handle env IoCmd.led_set_mode p ≡ some (answer (ack IoCmd.led_set_mode q.requests) q)
  unfolding handle led_set_mode_handle
  kept_lem p q e u =
      ap
        (λ (x : Plant Chip). shown x (
          led_status_handler env.bus env.os env.stack_read env.stack_ret env.stack_value
            env.stack_ch env.iwconfig x.requests.nodes (lamps x)))
        e
      ∙ ap (shown q) (quiet q.requests.nodes (lamps q) u)
    where
      shown : Plant Chip → Option (Lamps Chip) → Option (Plant Chip)
      shown x o = elim o [
        | some l ↦ some (answer (ack IoCmd.led_set_mode x.requests) (with_lamps l x))
        | none ↦ none
      ]

  -- A command for an LED with an `Indication` sets no LED: it is acknowledged, and the LEDs, which only
  -- `ios_LED_Status_Handler` could change, stay as they are unless something else had asked for an update.
  pub led_set_mode-kept :
      (p : Plant Chip)
      → streq p.requests.set_led_mode.indication "" ≡ false
      → p.update_led_status_flg ≡ 0
      → (p' : Plant Chip) × (handle env IoCmd.led_set_mode p ≡ some p')
        × (p'.led ≡ p.led)
        × (p'.dout ≡ p.dout)
        × (p'.published
            ≡ p.published ++ ((camera_of p.ios_cameraid, ack IoCmd.led_set_mode p.requests) ∷ []))
  unfolding answer mqtt_publisher_dual ack
  led_set_mode-kept p i u = (
    answer (ack IoCmd.led_set_mode (asked p)) (with_requests (asked p) p),
    kept_lem p (with_requests (asked p) p) (asked_step p i) u,
    refl,
    refl,
    ap
        (λ t.
          p.published
          ++ ((camera_of p.ios_cameraid, response_json_create (resp_str IoCmd.led_set_mode) t)
              ∷ []))
        (asked_info p),
  )

  -- AUTO_TEST_SET_MODE restarts the flow of the first camera if its message was for the first, and never the flow
  -- of the second.
  pub auto_test_set_mode-flow :
      (p : Plant Chip)
      → (p' : Plant Chip) × (handle env IoCmd.auto_test_set_mode p ≡ some p')
        × (p'.requests.nodes.first.gi_flow
            ≡ (if p.ios_cameraid == 0 then gi_start else p.requests.nodes.first.gi_flow))
        × (p'.requests.nodes.second ≡ p.requests.nodes.second)
  unfolding handle auto_test_set_mode_step answer mqtt_publisher_dual
  auto_test_set_mode-flow p = (auto_test_set_mode_step p, refl, ground arith, ground arith)

  modbus_given :
      (m : ModbusSetParams) (s t : Modbus) → modbus_set_parameters env m s ≡ some t → t.params ≡ m
  unfolding modbus_set_parameters
  modbus_given m s t h = elim (if_inv (env.connects m) _ _ (some t) h) [
    | inl g ↦ elim (if_inv _ (some (record { params = m; modbus_status = 1 })) none (some t) g) [
      | inl g1 ↦ ap (λ (x : Modbus). x.params) (sym (some-injective _ _ g1))
      | inr n ↦ cc
    ]
    | inr g ↦ ap (λ (x : Modbus). x.params) (sym (some-injective _ _ g))
  ]

  -- The parameters that the Modbus server was given are those that MODBUS_GET_PARAMS puts into the shared
  -- structure later, whatever requests came between; neither command publishes an answer.
  pub modbus_get-modbus_set :
      (p p1 : Plant Chip) (r : Requests)
      → handle env IoCmd.modbus_set_params p ≡ some p1
      → (p2 : Plant Chip) × (handle env IoCmd.modbus_get_params (with_requests r p1) ≡ some p2)
        × (p2.requests.modbus ≡ p.requests.modbus)
        × (p2.published ≡ p.published)
  unfolding handle
  modbus_get-modbus_set p p1 r h =
      elim (bind_inv (modbus_set_parameters env p.requests.modbus p.modbus)
        (λ m. some (record p { modbus = m })) none p1 h) [
          | inl (m, f, g) ↦ (
            with_requests (record r { modbus = p1.modbus.params }) p1,
            refl,
            ap (λ (x : Plant Chip). x.modbus.params) (sym (some-injective _ _ g))
                ∙ modbus_given p.requests.modbus p.modbus m f,
            ap (λ (x : Plant Chip). x.published) (sym (some-injective _ _ g)),
          )
          | inr n ↦ cc
        ]

-- The value of a field.
abbrev pub look : String → Fields → Option Value
look key end = none
look key (field k v fs) = if streq key k then some v else look key fs

-- The arguments of an answer.
abbrev pub args_of_answer : Value → Option Value
args_of_answer (object (field k v (field l w fs))) = some w
args_of_answer v = none

-- The answer on the system names for an interface without an address that of an interface before it: when only
-- the first has one, all four fields show it.
pub sys_get_params-stale :
    (sys : System) (stack info a : String)
    → sys.eth_addr "eth0" ≡ some a
    → sys.eth_addr "eth1" ≡ none
    → sys.eth_addr "eth2" ≡ none
    → sys.eth_addr "wlan0" ≡ none
    → (fs : Fields) × (args_of_answer (sys_get_params_json_create sys stack info)
        ≡ some (object fs))
      × (look "eth0_ipaddr" fs ≡ some (text a))
      × (look "eth1_ipaddr" fs ≡ some (text a))
      × (look "eth2_ipaddr" fs ≡ some (text a))
      × (look "wlan0_ipaddr" fs ≡ some (text a))
unfolding sys_get_params_json_create read_into streq
sys_get_params-stale sys stack info a e0 e1 e2 w = (
  field "fw_vision" (text (read_into sys.version_file stack)) (
      field "vsb_vision" (text sys.vsb_version) (
        field "ios_vision" (text sys.ios_version) (
          field "eth0_ipaddr" (text a) (
            field "eth1_ipaddr" (text a)
              (field "eth2_ipaddr" (text a) (field "wlan0_ipaddr" (text a) end)))))),
  rw (e0, e1, e2, w) refl,
  refl,
  refl,
  refl,
  refl,
)
