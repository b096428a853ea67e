-- ===== src/Command/Bounds/Nodes.antt =====
-- The two parsers of iosCtl/IOS_CompFunction.c that write into the nodes.
use vision_box_dual_cam.Base.{
  subst, some-injective, Bool-cases, inl, inr, ℕ, ◌%◌, ◌<◌, ◌≡◌, ◌==◌, ◌||◌, refl, Bool, true,
  false, String, codes, length, ltb, Option, some, none, if◌then◌else◌, arith,
}
use vision_box_dual_cam.Base.Camera.{Dual}
use vision_box_dual_cam.Node.{ProcessNode}
use vision_box_dual_cam.Io.Report.{ReportArgs, report_test_result, copy_result, copy_for}
use vision_box_dual_cam.Io.Activate.{set_both, set_for, get_int}
use vision_box_dual_cam.Command.Keeps.{taken, bound, ltb_lem}
use vision_box_dual_cam.Command.Bounds.{Fits, NodeInRange}

-- The nodes, of which two parsers set a field.
abbrev pub BothInRange : Dual ProcessNode → Type 0
BothInRange d = NodeInRange d.first × (NodeInRange d.second)

pub get_int-lt : (o : Option ℕ) → get_int o < 256
unfolding get_int
get_int-lt none = omega arith
get_int-lt (some n) = omega arith

pub active-InRange :
    (n : ProcessNode) (v : ℕ) → v < 256 → NodeInRange n → NodeInRange (record n { active = v })
active-InRange n v q h = (q, h.1, h.2, h.3, h.4, h.5, h.6, h.7, h.8, h.9, h.10, h.11, h.12, h.13)

pub result-InRange :
    (n : ProcessNode) (s : String)
    → Fits 8 s
    → NodeInRange n
    → NodeInRange (record n { test_result = s })
result-InRange n s q h = (h.0, q, h.2, h.3, h.4, h.5, h.6, h.7, h.8, h.9, h.10, h.11, h.12, h.13)

pub set_both-InRange :
    (o : Option ℕ) (d : Dual ProcessNode) → BothInRange d → BothInRange (set_both o d)
unfolding set_both
set_both-InRange none d h = h
set_both-InRange (some n) d h = (
  active-InRange d.first _ (get_int-lt (some n)) h.0,
  active-InRange d.second _ (get_int-lt (some n)) h.1,
)

pub set_for-InRange :
    (c o : Option ℕ) (d : Dual ProcessNode) → BothInRange d → BothInRange (set_for c o d)
unfolding set_for
set_for-InRange none o d h = h
set_for-InRange (some i) o d h = elim (Bool-cases (i % 256 == 1 || i % 256 == 2)) [
  | inl e ↦ rw e (h.0, active-InRange d.second (get_int o) (get_int-lt o) h.1)
  | inr e ↦ rw e h
]

pub copy_result-InRange :
    (r : Option String) (n n' : ProcessNode)
    → NodeInRange n
    → copy_result r n ≡ some n'
    → NodeInRange n'
unfolding copy_result
copy_result-InRange none n n' h e = cc
copy_result-InRange (some s) n n' h e =
    let (q, e2) = taken (ltb (length (codes s)) 8) (record n { test_result = s }) n' e in
    subst NodeInRange e2 (result-InRange n s (ltb_lem (length (codes s)) 8 q) h)

pub copied_second :
    (r : Option String) (d d' : Dual ProcessNode)
    → BothInRange d
    → elim (copy_result r d.second) as (λ _. Option (Dual ProcessNode)) [
      | some n ↦ some (record d { second = n })
      | none ↦ none
    ]
      ≡ some d'
    → BothInRange d'
copied_second r d d' h e =
    let (n, e1, e2) = bound (copy_result r d.second) (λ n. record d { second = n }) d' e in
    subst BothInRange e2 (h.0, copy_result-InRange r d.second n h.1 e1)

pub copy_for-InRange :
    (c : Option ℕ) (r : Option String) (d d' : Dual ProcessNode)
    → BothInRange d
    → copy_for c r d ≡ some d'
    → BothInRange d'
unfolding copy_for
copy_for-InRange none r d d' h e = subst BothInRange (some-injective d d' e) h
copy_for-InRange (some i) r d d' h e = chosen (i % 256 == 1 || i % 256 == 2) e
  where
    chosen :
        (b : Bool)
        → (if b
            then elim (copy_result r d.second) as (λ _. Option (Dual ProcessNode)) [
              | some n ↦ some (record d { second = n })
              | none ↦ none
            ]
            else some d)
          ≡ some d'
        → BothInRange d'
    chosen true e = copied_second r d d' h e
    chosen false e = subst BothInRange (some-injective d d' e) h

pub report-InRange :
    (a : ReportArgs) (d d' : Dual ProcessNode)
    → BothInRange d
    → report_test_result (some a) d ≡ some d'
    → BothInRange d'
unfolding report_test_result
report-InRange a d d' h e = reported a.result e
  where
    copied :
        (s : String) (o : Option ProcessNode)
        → copy_result (some s) d.first ≡ o
        → elim o as (λ _. Option (Dual ProcessNode)) [
          | some n ↦ copy_for a.camera_id a.result (record d { first = n })
          | none ↦ none
        ]
          ≡ some d'
        → BothInRange d'
    copied s (some n) e1 e2 =
        copy_for-InRange a.camera_id a.result (record d { first = n }) d'
          (copy_result-InRange (some s) d.first n h.0 e1, h.1) e2
    copied s none e1 e2 = cc

    reported :
        (o : Option String)
        → elim o as (λ _. Option (Dual ProcessNode)) [
          | some r ↦ elim (copy_result (some r) d.first) [
            | some n ↦ copy_for a.camera_id a.result (record d { first = n })
            | none ↦ none
          ]
          | none ↦ copy_for a.camera_id a.result d
        ]
          ≡ some d'
        → BothInRange d'
    reported (some s) e = copied s (copy_result (some s) d.first) refl e
    reported none e = copy_for-InRange a.camera_id a.result d d' h e
