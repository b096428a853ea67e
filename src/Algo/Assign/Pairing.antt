-- ===== src/Algo/Assign/Pairing.antt =====
-- A command puts a task and its mode flags into two queues; the image thread takes one of each.
use vision_box_dual_cam.Base.{
  ℕ, ◌≡◌, refl, sym, ap, ◌∙◌, ◌↔◌, true, List, [], ◌∷◌, ◌++◌, none, some, String, streq, arith,
  some-injective,
}
use vision_box_dual_cam.Base.Int.{pos}
use vision_box_dual_cam.Base.Camera.{Camera, other, at}
use vision_box_dual_cam.Queue.Algo.{
  ExpansionMode, Task, no_parm, tasks_dual_en_q, ex_mode_dual_en_q,
}
use vision_box_dual_cam.Queue.Json.{JsonInfo}
use vision_box_dual_cam.Algo.Names.{enum_subscribe_cam_reg, enum_algo_end}
use vision_box_dual_cam.Algo.HashMap.{create_hash_map, compare_hash_map}
use vision_box_dual_cam.Algo.HashMap.Laws.{distinct, compare-create}
use vision_box_dual_cam.Algo.Assign.{
  Commands, Algo, make_task, method_assign_dual, parse_row, note_flags, update, report,
  param_assign_dual,
}

-- The two maps answer the key alike, as they do when both are created from the one table.
abbrev pub SameRow : String → Algo → Type 0
SameRow key a = compare_hash_map key a.hash_param ≡ compare_hash_map key a.hash_method

abbrev pub tasks : Camera → Algo → List Task
tasks c a = at c a.queues.tasks_dual

abbrev pub modes : Camera → Algo → List ExpansionMode
modes c a = at c a.queues.ex_modes_dual

-- One task for row `i` and one set of flags, the current ones, go to the end of the queues of camera
-- `c`; the other camera's queues and the single camera's are left.
abbrev pub Queued : ℕ → Camera → Algo → Algo → Type 0
Queued i c a b =
    ((t : Task) × (t.method ≡ i) × (tasks c b ≡ tasks c a ++ (t ∷ [])))
    × (modes c b ≡ modes c a ++ (b.ex_mode ∷ []))
    × (tasks (other c) b ≡ tasks (other c) a)
    × (modes (other c) b ≡ modes (other c) a)
    × (b.queues.tasks ≡ a.queues.tasks)
    × (b.queues.ex_modes ≡ a.queues.ex_modes)

names_distinct : distinct enum_subscribe_cam_reg ≡ true
unfolding distinct enum_subscribe_cam_reg streq
names_distinct = refl

module _ {Json : Type 0} (cmds : Commands Json) where
  -- The state that the call leaves for a row that is not the end row.
  filled : ℕ → String → Json → Camera → Algo → Algo
  unfolding note_flags update
  filled i key j c a =
      let (res, args, text) = cmds.parse i j a.args in
      let flags = note_flags cmds key args a.ex_mode in
      record a {
        args = args;
        param_json = update i text a.param_json;
        ex_mode = flags;
        method_json = update i (update i text a.param_json i) a.method_json;
        queues =
            (tasks_dual_en_q c (record { method = i; filled = cmds.convert i args no_parm })
              (ex_mode_dual_en_q c flags a.queues).1).1;
      }

  pub param_assign_dual-none :
      (key : String) (j : Json) (info : JsonInfo) (c : Camera) (a : Algo)
      → SameRow key a
      → (param_assign_dual cmds key j info c a ≡ none)
        ↔ (compare_hash_map key a.hash_param ≡ pos enum_algo_end)
  unfolding param_assign_dual parse_row method_assign_dual make_task report
  param_assign_dual-none key j info c a s = ground arith

  -- With the maps that the start of the program creates, the only name whose assignment calls through a
  -- null pointer is that of the table's end row, "CMD_SUBSCRIBE_END"; every other name, known or
  -- not, comes back with a result.
  param_assign_dual-end :
      (key : String) (j : Json) (info : JsonInfo) (c : Camera) (a : Algo)
      → a.hash_param ≡ create_hash_map enum_subscribe_cam_reg []
      → a.hash_method ≡ create_hash_map enum_subscribe_cam_reg []
      → (param_assign_dual cmds key j info c a ≡ none) ↔ (key ≡ "CMD_SUBSCRIBE_END")
  unfolding enum_subscribe_cam_reg
  param_assign_dual-end key j info c a p m =
      let (to_row, of_row) =
        param_assign_dual-none key j info c a
          (ap (compare_hash_map key) p ∙ ap (compare_hash_map key) (sym m)) in
      let (to_name, of_name) =
        compare-create enum_subscribe_cam_reg key enum_algo_end names_distinct in
      (
        λ n. some-injective _ _ (sym (to_name (sym (ap (compare_hash_map key) p) ∙ to_row n))),
        λ e. of_row (ap (compare_hash_map key) p ∙ of_name (ap some (sym e))),
      )
