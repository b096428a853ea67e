-- ===== src/Cameras.antt =====
-- ipsCtl/IPS_CompAlgorithm.c: the handles of the camera driver and of the vision library. What the
-- driver answers to a call is an argument.
pub mod Laws
use vision_box_dual_cam.Base.{ℕ, ◌+◌, ◌==◌, Bool, true, false, Option, none, some, if◌then◌else◌}
use vision_box_dual_cam.Base.Int.{ℤ, pos, negsuc, success, failure}
use vision_box_dual_cam.Base.Camera.{Camera, Dual, at, put_at}

-- What the driver answers: whether an object is created, and the results of `Init` and `Release`.
pub record Answers : Type 0 where
  pub creates : Bool
  pub init : ℤ
  pub release : ℤ

-- The handles, each the number of the object that it points at, and how many objects were created.
pub record Handles : Type 0 where
  pub ipl : Option ℕ  -- pter_hdl_IPL
  pub gige : Option ℕ  -- pter_hdl_GigE
  pub gige_dual : Dual (Option ℕ)  -- pter_hdl_GigE_Dual
  pub created : ℕ

unfoldable pub is_zero : ℤ → Bool
is_zero (pos n) = n == 0
is_zero (negsuc n) = false

-- A handle that is null gets a new object, if there is one, and any other stays.
unfoldable pub create : Bool → Option ℕ → ℕ → Option ℕ × ℕ
create answer (some h) n = (some h, n)
create true none n = (some n, n + 1)
create false none n = (none, n)

-- `ipsComp_IPL_Init`, which returns 0 in every case.
unfoldable pub ipl_init : Answers → Handles → ℤ × Handles
unfolding create
ipl_init a s =
    let (h, n) = create a.creates s.ipl s.created in (success, record s { ipl = h; created = n })

-- `ipsComp_IPL_Release`. `after` is what the library leaves in the handle it is given.
unfoldable pub ipl_release : (after : Option ℕ) → Handles → ℤ × Handles
ipl_release after s = elim s.ipl [
  | some h ↦ (success, record s { ipl = after })
  | none ↦ (success, s)
]

-- `ipsComp_Camera_Release`.
unfoldable pub camera_release : Answers → Handles → ℤ × Handles
unfolding is_zero
camera_release a s = elim s.gige [
  | some h ↦ (if is_zero a.release then success else failure, record s { gige = none })
  | none ↦ (success, s)
]

-- `ipsComp_Camera_Init`.
unfoldable pub camera_init : Answers → Handles → ℤ × Handles
unfolding create is_zero camera_release
camera_init a s =
    let (h, n) = create a.creates s.gige s.created in
    let s1 : Handles = record s { gige = h; created = n } in
    elim h [
      | some k ↦ if is_zero a.init then (success, s1) else (failure, (camera_release a s1).1)
      | none ↦ (failure, s1)
    ]

-- `ipsComp_Camera_Release_Dual`.
unfoldable pub camera_release_dual : Answers → Camera → Handles → ℤ × Handles
unfolding is_zero
camera_release_dual a id s = elim (at id s.gige_dual) [
  | some h ↦ (
    if is_zero a.release then success else failure,
    record s { gige_dual = put_at id none s.gige_dual },
  )
  | none ↦ (success, s)
]

-- `ipsComp_Camera_Init_Dual`.
unfoldable pub camera_init_dual : Answers → Camera → Handles → ℤ × Handles
unfolding create is_zero camera_release_dual
camera_init_dual a id s =
    let (h, n) = create a.creates (at id s.gige_dual) s.created in
    let s1 : Handles = record s { gige_dual = put_at id h s.gige_dual; created = n } in
    elim h [
      | some k ↦
          if is_zero a.init then (success, s1) else (failure, (camera_release_dual a id s1).1)
      | none ↦ (failure, s1)
    ]
