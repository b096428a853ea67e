-- ===== src/Algo/Names.antt =====
-- ipsCtl/IPS_MethodStructureDef.c: the MQTT names of the camera and algorithm commands, in the order
-- of the enum `enum_IdReg`. The tables `gAlgoParamReg` and `gAlgoMethodReg` have one row for each, in
-- the same order, so a command's number is also its row in both.
use vision_box_dual_cam.Base.{ℕ, List, [], ◌∷◌, String}

-- `enum_Subscribe_CAMReg`.
unfoldable pub enum_subscribe_cam_reg : List String
enum_subscribe_cam_reg =
    "AUTORUNNING_SET_PARAM" ∷ "TRIGGERMODE_SET_PARAM" ∷ "CAMERA_SET_INITIALIZE"
    ∷ "CAMERA_SET_INQUIRY" ∷ "CAMERA_SET_CONFIG" ∷ "CAMERA_SET_PARAM" ∷ "CAMERA_SET_RELEASE"
    ∷ "CAMERA_STREAM_SET_PREPARE" ∷ "CAMERA_STREAM_SET_INQUIRY" ∷ "CAMERA_STREAM_SET_START"
    ∷ "CAMERA_STREAM_SET_CAPTURE" ∷ "CAMERA_STREAM_SET_STOP" ∷ "CAMERA_STREAM_SET_CLOSE"
    ∷ "IMGCALIBRATION_SET_PARAM" ∷ "CROPTEMPIMG_SET_PARAM" ∷ "PATTERNMATCH_SET_PARAM"
    ∷ "FINDPROFILE_SET_PARAM" ∷ "FINDCIRCLE_SET_PARAM" ∷ "IBOXANNULUS_SET_PARAM"
    ∷ "IBOXRECT_SET_PARAM" ∷ "IBOXCIRCLE_SET_PARAM" ∷ "CALCOORDINATE_SET_PARAM"
    ∷ "CROPROIIMG_ANNULUS_SET_PARAM" ∷ "CROPROIIMG_RECT_SET_PARAM" ∷ "CROPROIIMG_CIRCLE_SET_PARAM"
    ∷ "HISTOGRAM_ANNULUS_SET_PARAM" ∷ "HISTOGRAM_RECT_SET_PARAM" ∷ "HISTOGRAM_CIRCLE_SET_PARAM"
    ∷ "THRESHOLD_SET_PARAM" ∷ "MROPHOLOGY_SET_PARAM" ∷ "NOISEREMOVAL_SET_PARAM"
    ∷ "DATAAUGMENTATION_SET_PARAM" ∷ "GLUEWIDTHMEAS_ANNULUS_SET_PARAM"
    ∷ "GLUEWIDTHMEAS_RECT_SET_PARAM" ∷ "CMD_SUBSCRIBE_END" ∷ []

-- `FLAGE_AUTO_RUNNING`, `FLAGE_TRIGGERMODETYPE`, `METHOD_GigeCam_Inquiry` and `ENUM_ALGO_END`.
abbrev pub flage_auto_running : ℕ
flage_auto_running = 0

abbrev pub flage_trigger_mode_type : ℕ
flage_trigger_mode_type = 1

abbrev pub method_gige_cam_inquiry : ℕ
method_gige_cam_inquiry = 3

abbrev pub enum_algo_end : ℕ
enum_algo_end = 34

abbrev pub auto_running_set_param : String
auto_running_set_param = "AUTORUNNING_SET_PARAM"

abbrev pub trigger_mode_set_param : String
trigger_mode_set_param = "TRIGGERMODE_SET_PARAM"

abbrev pub camera_set_inquiry : String
camera_set_inquiry = "CAMERA_SET_INQUIRY"
