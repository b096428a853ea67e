-- ===== src/Command/Assign.antt =====
-- iosCtl/IOS_CompFunction.c: `setIO_ParamAssign`, which finds the row of a command by its name and calls the
-- row's parser.
use vision_box_dual_cam.Base.{String, streq, List, [], ◌∷◌, Option, some, none, if◌then◌else◌}
use vision_box_dual_cam.Base.Int.{ℤ, success, failure}
use vision_box_dual_cam.Queue.Json.{JsonInfo}
use vision_box_dual_cam.Command.{IoCmd, Requests, rows, number, cmd_str}
use vision_box_dual_cam.Command.Json.{JsonC}
use vision_box_dual_cam.Command.Parse.{parse}

-- The rows are compared in their order.
unfoldable pub find_row : String → List IoCmd → Option IoCmd
unfolding cmd_str
find_row key [] = none
find_row key (c ∷ cs) = if streq key (cmd_str c) then some c else find_row key cs

module _ {J : Type 0} (lib : JsonC J) where
  -- `setIO_ParamAssign`. The parsers write nothing into `szJsonInfo`, a static array, and their results are
  -- dropped. The name of the last row is read behind the end of `ios_cmdStr`, where `beyond` stands; that row
  -- has no parser, and a command of that name calls a null pointer.
  unfoldable pub io_param_assign :
      (beyond : String)
      → (key : String) → J
      → JsonInfo
      → Requests
      → Option (ℤ × JsonInfo × Requests)
  unfolding find_row parse number cmd_str
  io_param_assign beyond key root info r = elim (find_row key rows) [
    | some c ↦ elim (parse lib c root r) [
      | some r' ↦ some (success, record { algo_id = number c; cmd = cmd_str c; json_buf = "" }, r')
      | none ↦ none
    ]
    | none ↦ if streq key beyond then none else some (failure, info, r)
  ]
