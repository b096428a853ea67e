-- ===== src/IoProcess/Answer.antt =====
-- mainCtl/mainCtl.c: the JSON texts with which the IO process answers, as the values they print.
use vision_box_dual_cam.Base.{ℕ, String, Option, none, some}
use vision_box_dual_cam.Command.{Requests, ModbusSetParams}
use vision_box_dual_cam.Io.Status.{IoStatus}

mutual
  pub data Value : Type 0 where
    text : String → Value
    number_of : ℕ → Value
    object : Fields → Value

  -- The fields of an object in the order in which they were added. Adding one again replaces its value.
  pub data Fields : Type 0 where
    end : Fields
    field : String → Value → Fields → Fields

-- `ios_response_json_create`.
unfoldable pub response_json_create : (cmd pset : String) → Value
response_json_create cmd pset = object (
    field "cmd" (text cmd) (
      field "args" (object end) (
        field "response" (object (field "status" (text "Ack") (field "pset" (text pset) end)))
          end)))

-- The frame of the answers that have a result.
unfoldable pub with_result : (cmd : String) → (info : String) → Fields → Value
with_result cmd info result = object (
    field "cmd" (text cmd) (
      field "args" (object end) (
        field "response"
          (object (
            field "status" (text "Ack")
              (field "pset" (text info) (field "result" (object result) end))))
          end)))

-- `ios_din_get_process_json_create`, for `ios_CmdInfo`.
unfoldable pub din_get_process_json_create : (info : String) → Value
unfolding response_json_create
din_get_process_json_create info = response_json_create "DIN_SET_PROCESS" info

-- `ios_get_status_json_create`.
unfoldable pub get_status_json_create : (info : String) → IoStatus → Value
unfolding with_result
get_status_json_create info g = with_result "DIO_SET_STATUS" info (
    field "dout1" (number_of g.dout1) (
      field "dout2" (number_of g.dout2) (
        field "dout3" (number_of g.dout3) (
          field "dout4" (number_of g.dout4) (
            field "din1" (number_of g.din1) (
              field "din2" (number_of g.din2)
                (field "din3" (number_of g.din3) (field "din4" (number_of g.din4) end))))))))

-- `ios_light_get_brightness_json_create`.
unfoldable pub light_get_brightness_json_create :
    (info : String) → (brightness1 brightness2 : ℕ) → Value
unfolding with_result
light_get_brightness_json_create info brightness1 brightness2 =
    with_result "LIGHT_SET_BRIGHTNESS" info (
      field "lightSource1" (number_of brightness1)
        (field "lightSource2" (number_of brightness2) end))

-- The frame of the two answers under "IOS".
unfoldable pub under_ios : (cmd : String) → Fields → Value
under_ios cmd result = object (
    field "IOS"
      (object (
        field "cmd" (text cmd) (
          field "args" (object end) (
            field "response"
              (object (field "status" (text "Ack") (field "result" (object result) end))) end))))
      end)

-- `ios_led_get_process_json_create`.
unfoldable pub led_get_process_json_create : Requests → Value
unfolding under_ios
led_get_process_json_create r = under_ios "LED_SET_PROCESS" (
    field "outPin" (number_of r.setled.out_pin) (
      field "outMode" (text r.led_out_mode) (
        field "outStatus" (text r.setled.out_status) (
          field "outBlinkDelay" (number_of r.led_blink_delay)
            (field "outOffDelay" (number_of r.led_off_delay) end)))))

-- `ios_modbus_get_params_json_create`.
unfoldable pub modbus_get_params_json_create : ModbusSetParams → Value
unfolding under_ios
modbus_get_params_json_create m = under_ios "MODBUS_SET_PARAMS" (
    field "Baudrate" (number_of m.rtu_baudrate) (
      field "GITriggerRegister" (number_of m.gi_testing_register) (
        field "GIStatusRegister" (number_of m.gi_test_status_register)
          (field "GIResultRegister" (number_of m.gi_testing_result_register) end))))

-- What the answer on the system is made of: the file of the version, if it can be read, the two versions with
-- which the program was built, and the address of an interface that has one.
pub record System : Type 0 where
  pub version_file : Option String
  pub vsb_version : String
  pub ios_version : String
  pub eth_addr : String → Option String

-- `buf` after `ios_readVersionFile` or `ios_readEthAddr`: without a file or an address it keeps its text.
unfoldable pub read_into : Option String → (buf : String) → String
read_into (some s) buf = s
read_into none buf = buf

-- `ios_sys_get_params_json_create`. One buffer, at first whatever the stack holds, serves all the readings.
unfoldable pub sys_get_params_json_create : System → (stack info : String) → Value
unfolding read_into
sys_get_params_json_create sys stack info =
    let fw = read_into sys.version_file stack in
    let eth0 = read_into (sys.eth_addr "eth0") fw in
    let eth1 = read_into (sys.eth_addr "eth1") eth0 in
    let eth2 = read_into (sys.eth_addr "eth2") eth1 in
    let wlan0 = read_into (sys.eth_addr "wlan0") eth2 in
    object (
      field "cmd" (text "IO_SYS_GET_PARAMS") (
        field "args"
          (object (
            field "fw_vision" (text fw) (
              field "vsb_vision" (text sys.vsb_version) (
                field "ios_vision" (text sys.ios_version) (
                  field "eth0_ipaddr" (text eth0) (
                    field "eth1_ipaddr" (text eth1) (
                      field "eth2_ipaddr" (text eth2) (field "wlan0_ipaddr" (text wlan0) end))))))))
          (field "response" (object (field "status" (text "Ack") (field "pset" (text info) end)))
            end)))

-- `ios_sfc_params_json_create`.
unfoldable pub sfc_params_json_create : (msg info : String) → Value
sfc_params_json_create msg info = object (
    field "cmd" (text "IO_SHOP_FLOOR_CONTROL") (
      field "response"
        (object
          (field "status" (text "Ack") (field "msg" (text msg) (field "pset" (text info) end))))
        end))
