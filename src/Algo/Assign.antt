-- ===== src/Algo/Assign.antt =====
-- ipsCtl/IPS_CompAlgorithm.c and ipsCtl/IPS_CompFunction.c: how a command becomes a task.
-- A result `none` is a call or a write through a null pointer, which ends the process.
pub mod Pairing
pub mod Buffers
use vision_box_dual_cam.Base.{
  ℕ, suc, ◌+◌, Bool, true, false, List, [], ◌∷◌, Option, none, some, String, streq, ◌==◌,
  if◌then◌else◌,
}
use vision_box_dual_cam.Base.Int.{ℤ, pos, negsuc, success}
use vision_box_dual_cam.Base.Camera.{Camera}
use vision_box_dual_cam.Queue.Algo.{
  ExpansionMode, MethodParm, no_parm, Task, AlgoQueues, tasks_en_q, tasks_dual_en_q, ex_mode_en_q,
  ex_mode_dual_en_q,
}
use vision_box_dual_cam.Queue.Json.{JsonInfo}
use vision_box_dual_cam.Algo.Names.{
  enum_subscribe_cam_reg, enum_algo_end, auto_running_set_param, trigger_mode_set_param,
  flage_auto_running, flage_trigger_mode_type,
}
use vision_box_dual_cam.Algo.HashMap.{HashMap, create_hash_map, compare_hash_map}

-- The parameter structures behind `pParam` of the rows of `gAlgoParamReg`: the flags of the two mode
-- commands, and the memory of the others.
pub record Args : Type 0 where
  pub flg_auto_running : ℕ
  pub flg_enable_trigger_mode : ℕ
  pub flg_trigger_mode_activate : ℕ
  pub raw : ℕ → List ℕ

-- What the rows of the two tables point to: the parser of each command, and the third of its
-- converters, which copies the parameter structure into the task.
pub record Commands (Json : Type 0) : Type 0 where
  pub parse : ℕ → Json → Args → ℤ × Args × String
  pub convert : ℕ → Args → MethodParm → MethodParm

pub record Algo : Type 0 where
  pub queues : AlgoQueues
  pub hash_param : HashMap  -- gHashMap_Param
  pub hash_method : HashMap  -- gHashMap_Method
  pub args : Args
  -- `szJsonInfo` of the rows of gAlgoParamReg, and `pJsonBuf` of the rows of gAlgoMethodReg
  pub param_json : ℕ → String
  pub method_json : ℕ → String
  pub ex_mode : ExpansionMode  -- iEnbExMode

unfoldable pub update : ℕ → String → (ℕ → String) → ℕ → String
update i s f j = if i == j then s else f j

-- The start of the program: both maps are created from the same names.
unfoldable pub create_maps : Algo → Algo
create_maps a = record a {
  hash_param = create_hash_map enum_subscribe_cam_reg a.hash_param;
  hash_method = create_hash_map enum_subscribe_cam_reg a.hash_method;
}

module _ {Json : Type 0} (cmds : Commands Json) where
  -- The body of both assign functions for row `i`, up to the enqueue: the JSON text goes into the
  -- row's buffer, and the task is filled by the row's converter. The end row has no buffer.
  unfoldable pub make_task : ℕ → String → Algo → Option (Task × Algo)
  make_task i json_arg a =
      if i == enum_algo_end
      then none
      else some (
        record { method = i; filled = cmds.convert i a.args no_parm },
        record a { method_json = update i json_arg a.method_json },
      )

  -- `setAlgo_MethodAssign`.
  unfoldable pub method_assign : String → String → Algo → Option (ℤ × Algo)
  unfolding make_task
  method_assign key json_arg a = elim (compare_hash_map key a.hash_method) [
    | pos i ↦ elim (make_task i json_arg a) [
      | some (t, a') ↦ some (success, record a' { queues = (tasks_en_q t a'.queues).1 })
      | none ↦ none
    ]
    | negsuc n ↦ some (success, a)
  ]

  -- `setAlgo_MethodAssign_Dual`.
  unfoldable pub method_assign_dual : String → String → Camera → Algo → Option (ℤ × Algo)
  unfolding make_task
  method_assign_dual key json_arg id a = elim (compare_hash_map key a.hash_method) [
    | pos i ↦ elim (make_task i json_arg a) [
      | some (t, a') ↦ some (success, record a' { queues = (tasks_dual_en_q id t a'.queues).1 })
      | none ↦ none
    ]
    | negsuc n ↦ some (success, a)
  ]

  -- The mode flags that the two mode commands change.
  unfoldable pub note_flags : String → Args → ExpansionMode → ExpansionMode
  note_flags cmd args m =
      let m' : ExpansionMode =
        if streq cmd auto_running_set_param
        then record m {
          auto_running = args.flg_auto_running;
          enb_trigger_mode = args.flg_enable_trigger_mode;
        }
        else m in
      if streq cmd trigger_mode_set_param
      then record m' { trigger_mode_activat = args.flg_trigger_mode_activate }
      else m'

  -- The part of both functions up to the enqueues: the row's parser runs, its text goes into the
  -- row's buffer, and the flags are noted. The end row has no parser. The command's name is the key
  -- by which the row was found.
  unfoldable pub parse_row : ℕ → String → Json → Algo → Option (ℤ × Algo)
  unfolding note_flags update
  parse_row i cmd j a =
      if i == enum_algo_end
      then none
      else (let (res, args, text) = cmds.parse i j a.args in
          some (
            res,
            record a {
              args = args;
              param_json = update i text a.param_json;
              ex_mode = note_flags cmd args a.ex_mode;
            },
          ))

  -- The end of both functions: the caller's record is filled if the parser returned 0, and else its
  -- result is returned.
  unfoldable pub report : ℕ → String → ℤ → JsonInfo → Algo → ℤ × JsonInfo × Algo
  report i cmd (pos n) info a =
      if n == 0
      then (success, record { algo_id = i; cmd = cmd; json_buf = a.param_json i }, a)
      else (pos n, info, a)
  report i cmd res info a = (res, info, a)

  -- `setAlgo_ParamAssign`.
  unfoldable pub param_assign : String → Json → JsonInfo → Algo → Option (ℤ × JsonInfo × Algo)
  unfolding parse_row method_assign report
  param_assign key j info a = elim (compare_hash_map key a.hash_param) [
    | pos i ↦ elim (parse_row i key j a) [
      | some (res, b) ↦
          elim (method_assign key (b.param_json i)
            (record b { queues = (ex_mode_en_q b.ex_mode b.queues).1 })) [
              | some (r, c) ↦ some (report i key res info c)
              | none ↦ none
            ]
      | none ↦ none
    ]
    | negsuc n ↦ some (success, info, a)
  ]

  -- `setAlgo_ParamAssign_Dual`.
  unfoldable pub param_assign_dual :
      String → Json → JsonInfo → Camera → Algo → Option (ℤ × JsonInfo × Algo)
  unfolding parse_row method_assign_dual report
  param_assign_dual key j info id a = elim (compare_hash_map key a.hash_param) [
    | pos i ↦ elim (parse_row i key j a) [
      | some (res, b) ↦
          elim (method_assign_dual key (b.param_json i) id
            (record b { queues = (ex_mode_dual_en_q id b.ex_mode b.queues).1 })) [
              | some (r, c) ↦ some (report i key res info c)
              | none ↦ none
            ]
      | none ↦ none
    ]
    | negsuc n ↦ some (success, info, a)
  ]
