-- ===== src/Command/Bounds/Inputs.antt =====
-- The parsers of iosCtl/IOS_CompFunction.c for the trigger and the inputs.
use vision_box_dual_cam.Command.Bounds.Parts.{part_0, part_1, part_5, part_9}
use vision_box_dual_cam.Base.{Bool-cases, inl, inr, ℕ, ◌==◌}
use vision_box_dual_cam.Command.{Requests}
use vision_box_dual_cam.Command.Json.{JsonC}
use vision_box_dual_cam.Command.Parse.{
  u8, assign_din, trigger_set_process_args, trigger_get_process_args, trigger_set_mode_args,
  din_set_process_args, din_get_process_args, din_set_mode_args,
}
use vision_box_dual_cam.Command.Bounds.{InRange, u8-lt, u16-lt, u32-lt}
use vision_box_dual_cam.Command.Bounds.{KeepsRange}

pub assign_din-InRange : (i : ℕ) (r : Requests) → InRange r → InRange (assign_din i r)
unfolding assign_din
assign_din-InRange i r h = elim (Bool-cases (i == 1)) [
  | inl e ↦ rw e (part_9 h (h.9.0, h.9.1, h.9.2, h.9.3, h.9.4, h.5.0, h.9.6, h.9.7))
  | inr e ↦ elim (Bool-cases (i == 2)) [
    | inl e2 ↦ rw (e, e2) (part_9 h (h.9.0, h.9.1, h.9.2, h.9.3, h.9.4, h.9.5, h.5.0, h.9.7))
    | inr e2 ↦ rw (e, e2) h
  ]
]

module _ {J : Type 0} (lib : JsonC J) where
  pub trigger_set_process-InRange : KeepsRange lib trigger_set_process_args
  unfolding trigger_set_process_args
  trigger_set_process-InRange = (
    (λ n r h. (part_0 h (u8-lt n, h.0.1, h.0.2, h.0.3))),
    (
      (λ s r q h. (part_0 h (h.0.0, q, h.0.2, h.0.3))),
      (
        (λ n r h. (part_0 h (h.0.0, h.0.1, u8-lt n, h.0.3))),
        ((λ n r h. (part_0 h (h.0.0, h.0.1, h.0.2, u32-lt n))), tt),
      ),
    ),
  )

  pub trigger_get_process-InRange : KeepsRange lib trigger_get_process_args
  unfolding trigger_get_process_args
  trigger_get_process-InRange = (
    (λ n r h. (part_0 h (u8-lt n, h.0.1, h.0.2, h.0.3))),
    ((λ n r h. (part_0 h (h.0.0, h.0.1, u8-lt n, h.0.3))), tt),
  )

  pub trigger_set_mode-InRange : KeepsRange lib trigger_set_mode_args
  unfolding trigger_set_mode_args
  trigger_set_mode-InRange = (
    (λ n r h. (part_0 h (u8-lt n, h.0.1, h.0.2, h.0.3))),
    (
      (λ s r q h. (part_0 h (h.0.0, q, h.0.2, h.0.3))),
      (
        (λ n r h. (part_0 h (h.0.0, h.0.1, u8-lt n, h.0.3))),
        ((λ n r h. (part_0 h (h.0.0, h.0.1, h.0.2, u32-lt n))), tt),
      ),
    ),
  )

  pub din_set_process-InRange : KeepsRange lib din_set_process_args
  unfolding din_set_process_args
  din_set_process-InRange = (
    (λ n r h. (part_1 h (u8-lt n, h.1.1, h.1.2, h.1.3, h.1.4, h.1.5, h.1.6, h.1.7, h.1.8))),
    (
      (λ s r q h. (part_1 h (h.1.0, q, h.1.2, h.1.3, h.1.4, h.1.5, h.1.6, h.1.7, h.1.8))),
      (
        (λ n r h. (part_1 h (h.1.0, h.1.1, u16-lt n, h.1.3, h.1.4, h.1.5, h.1.6, h.1.7, h.1.8))),
        (
          (λ n r h. (part_1 h (h.1.0, h.1.1, h.1.2, u32-lt n, h.1.4, h.1.5, h.1.6, h.1.7, h.1.8))),
          (
            (λ n r h. (part_1 h (h.1.0, h.1.1, h.1.2, h.1.3, u8-lt n, h.1.5, h.1.6, h.1.7, h.1.8))),
            (
              (λ s r q h. (part_1 h (h.1.0, h.1.1, h.1.2, h.1.3, h.1.4, q, h.1.6, h.1.7, h.1.8))),
              (
                (λ n r h.
                    (part_1 h (h.1.0, h.1.1, h.1.2, h.1.3, h.1.4, h.1.5, u16-lt n, h.1.7, h.1.8))),
                (
                  (λ n r h.
                      (part_1 h
                        (h.1.0, h.1.1, h.1.2, h.1.3, h.1.4, h.1.5, h.1.6, u32-lt n, h.1.8))),
                  (
                    (λ n r h.
                        (part_1 h
                          (h.1.0, h.1.1, h.1.2, h.1.3, h.1.4, h.1.5, h.1.6, h.1.7, u8-lt n))),
                    tt,
                  ),
                ),
              ),
            ),
          ),
        ),
      ),
    ),
  )

  pub din_get_process-InRange : KeepsRange lib din_get_process_args
  unfolding din_get_process_args
  din_get_process-InRange = (
    (λ n r h. (part_1 h (u8-lt n, h.1.1, h.1.2, h.1.3, h.1.4, h.1.5, h.1.6, h.1.7, h.1.8))),
    ((λ n r h. (part_1 h (h.1.0, h.1.1, h.1.2, h.1.3, u8-lt n, h.1.5, h.1.6, h.1.7, h.1.8))), tt),
  )

  pub din_set_mode-InRange : KeepsRange lib din_set_mode_args
  unfolding din_set_mode_args
  din_set_mode-InRange = (
    (λ n r h. (part_5 h (u8-lt n, h.5.1, h.5.2))),
    (
      (λ s r q h. (part_5 h (h.5.0, q, h.5.2))),
      ((λ s r q h. (part_5 h (h.5.0, h.5.1, q))), ((λ n r h. assign_din-InRange (u8 n) r h), tt)),
    ),
  )
