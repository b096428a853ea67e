-- ===== src/Image.antt =====
-- mainCtl/mainCtl.c: what `ips_process_Dual` does with one task out of its queue. The algorithm methods and
-- the parameter converters of the table's rows are a parameter, over all memory that they work on.
pub mod Auto
pub mod Normal
pub mod Laws
pub mod Stuck
pub mod Loop
mod Tests
use vision_box_dual_cam.Base.{
  ℕ, ◌==◌, leb, Bool, true, false, ◌||◌, ◌&&◌, not, List, [], ◌∷◌, ◌++◌, Option, some, none, String,
  if◌then◌else◌,
}
use vision_box_dual_cam.Base.Int.{ℤ, pos, negsuc}
use vision_box_dual_cam.Base.Camera.{Camera}
use vision_box_dual_cam.Queue.Inner.{InnerQueues, ips_dual_en_q}
use vision_box_dual_cam.Queue.Algo.{Task, ExpansionMode}
use vision_box_dual_cam.Threads.{Threads, resume_mp}

-- `phandler`: the camera's handle or the vision library's.
pub data Handle : Type 0 where
  gige ipl : Handle

pub record Methods (W : Type 0) : Type 0 where
  pub algo_mthd : Camera → Handle → (with_img : Bool) → Task → W → ℤ × W  -- with_img: is &imgBuf passed, or nullptr
  pub to_parm : Task → W → Task × W  -- converter 0, from the common parameters
  pub to_all : Task → W → W  -- converter 1, into the common parameters
  pub reset_all_param : W → W  -- seAllParam = ...()
  pub release_img : W → W  -- delete[] imgBuf.pbImgBuf
  pub ret_state : Task → W → Bool  -- pResult->retState
  pub recover : Camera → W → W  -- release and init of library and camera

-- The variables of the function that outlive a round. Those named after `bEnb` and `bPrev` are static, so the
-- threads of both cameras have them in common.
pub record Image (W : Type 0) : Type 0 where
  pub enb_auto_running_mode : Bool
  pub prev_auto_running_mode : Bool
  pub enb_auto_running_mode_activate : Bool
  pub prev_auto_running_mode_activate : Bool
  pub enb_trigger_mode : Bool
  pub prev_trigger_mode : Bool
  pub enb_trigger_mode_activate : Bool
  pub recorded : List Task  -- vecMthParmTasksRespo
  pub inner : InnerQueues
  pub threads : Threads
  pub replies : List (ℕ × Option ℕ)  -- calls of JsonGenerator: the row, and the `roi_id` if one is added
  pub memory : W

unfoldable pub nonzero : ℕ → Bool
nonzero n = not (n == 0)

unfoldable pub failed : ℤ → Bool
failed (pos n) = not (n == 0)
failed (negsuc n) = true

-- The commands that use the camera's handle: inquiry, configuration, capture and release, and the streaming
-- commands but its inquiry.
unfoldable pub handle_of : ℕ → Handle
handle_of m = if leb 3 m && leb m 12 && not (m == 8) then gige else ipl

-- The commands after whose failure the camera may be opened again, in the test's two halves.
unfoldable pub is_camera : ℕ → Bool
is_camera m = leb 3 m && leb m 5

unfoldable pub is_streaming : ℕ → Bool
is_streaming m = leb 7 m && leb m 12 && not (m == 8)

module _ {W : Type 0} where
  -- `JsonGenerator`.
  unfoldable pub reply : ℕ → Option ℕ → Image W → Image W
  reply m roi s = record s { replies = s.replies ++ ((m, roi) ∷ []) }

  -- The message and the status at the end of a run: `innerQ_IPS_EnQ_Dual` and `resume_mp`.
  unfoldable pub finish : Camera → String → ℤ → Image W → Image W
  finish id msg status s = record s {
    inner = (ips_dual_en_q id msg s.inner).1;
    threads = resume_mp status s.threads;
  }
