-- ===== src/Node.antt =====
-- common.h: the process node of a camera, `Process_Node` and `Process_Node_Dual`.
use vision_box_dual_cam.Base.{ℕ, String}

-- `AUTO_MODE`.
pub data AutoMode : Type 0 where
  glue_inspection basic_inspection ai_inspection non_auto : AutoMode

-- `AUTO_GLUE_INSPECTION_FLOW`.
pub data GiFlow : Type 0 where
  gi_start gi_wait_trigger gi_excute_auto_gi gi_get_test_result : GiFlow

-- `PROCESS_NODE`. The character arrays are texts; a copy between two of them fits.
pub record ProcessNode : Type 0 where
  pub active : ℕ
  pub auto_mode : AutoMode
  pub gi_flow : GiFlow
  pub test_result : String
  pub dout1_mode : String
  pub dout2_mode : String
  pub dout3_mode : String
  pub dout4_mode : String
  pub dout1_select_mode : String
  pub dout2_select_mode : String
  pub dout3_select_mode : String
  pub dout4_select_mode : String
  pub usr_def1_mode : String
  pub usr_def2_mode : String
  pub brightness1 : ℕ  -- Brightness[0]
  pub brightness2 : ℕ  -- Brightness[1]

-- What `mainCtl` makes of a node before its loop: `memset` to 0, then the mode and the flow.
abbrev pub idle_node : ProcessNode
idle_node = record {
  active = 0;
  auto_mode = non_auto;
  gi_flow = gi_start;
  test_result = "";
  dout1_mode = "";
  dout2_mode = "";
  dout3_mode = "";
  dout4_mode = "";
  dout1_select_mode = "";
  dout2_select_mode = "";
  dout3_select_mode = "";
  dout4_select_mode = "";
  usr_def1_mode = "";
  usr_def2_mode = "";
  brightness1 = 0;
  brightness2 = 0;
}
