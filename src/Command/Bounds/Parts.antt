-- ===== src/Command/Bounds/Parts.antt =====
-- One component of a predicate with twelve is proved anew, the others are kept.
module _ {A0 A1 A2 A3 A4 A5 A6 A7 A8 A9 A10 A11 B : Type 0} where
  pub part_0 :
      A0 × A1 × A2 × A3 × A4 × A5 × A6 × A7 × A8 × A9 × A10 × A11
      → B
      → B × A1 × A2 × A3 × A4 × A5 × A6 × A7 × A8 × A9 × A10 × A11
  part_0 h x = (x, h.1, h.2, h.3, h.4, h.5, h.6, h.7, h.8, h.9, h.10, h.11)

  pub part_1 :
      A0 × A1 × A2 × A3 × A4 × A5 × A6 × A7 × A8 × A9 × A10 × A11
      → B
      → A0 × B × A2 × A3 × A4 × A5 × A6 × A7 × A8 × A9 × A10 × A11
  part_1 h x = (h.0, x, h.2, h.3, h.4, h.5, h.6, h.7, h.8, h.9, h.10, h.11)

  pub part_2 :
      A0 × A1 × A2 × A3 × A4 × A5 × A6 × A7 × A8 × A9 × A10 × A11
      → B
      → A0 × A1 × B × A3 × A4 × A5 × A6 × A7 × A8 × A9 × A10 × A11
  part_2 h x = (h.0, h.1, x, h.3, h.4, h.5, h.6, h.7, h.8, h.9, h.10, h.11)

  pub part_3 :
      A0 × A1 × A2 × A3 × A4 × A5 × A6 × A7 × A8 × A9 × A10 × A11
      → B
      → A0 × A1 × A2 × B × A4 × A5 × A6 × A7 × A8 × A9 × A10 × A11
  part_3 h x = (h.0, h.1, h.2, x, h.4, h.5, h.6, h.7, h.8, h.9, h.10, h.11)

  pub part_4 :
      A0 × A1 × A2 × A3 × A4 × A5 × A6 × A7 × A8 × A9 × A10 × A11
      → B
      → A0 × A1 × A2 × A3 × B × A5 × A6 × A7 × A8 × A9 × A10 × A11
  part_4 h x = (h.0, h.1, h.2, h.3, x, h.5, h.6, h.7, h.8, h.9, h.10, h.11)

  pub part_5 :
      A0 × A1 × A2 × A3 × A4 × A5 × A6 × A7 × A8 × A9 × A10 × A11
      → B
      → A0 × A1 × A2 × A3 × A4 × B × A6 × A7 × A8 × A9 × A10 × A11
  part_5 h x = (h.0, h.1, h.2, h.3, h.4, x, h.6, h.7, h.8, h.9, h.10, h.11)

  pub part_6 :
      A0 × A1 × A2 × A3 × A4 × A5 × A6 × A7 × A8 × A9 × A10 × A11
      → B
      → A0 × A1 × A2 × A3 × A4 × A5 × B × A7 × A8 × A9 × A10 × A11
  part_6 h x = (h.0, h.1, h.2, h.3, h.4, h.5, x, h.7, h.8, h.9, h.10, h.11)

  pub part_7 :
      A0 × A1 × A2 × A3 × A4 × A5 × A6 × A7 × A8 × A9 × A10 × A11
      → B
      → A0 × A1 × A2 × A3 × A4 × A5 × A6 × B × A8 × A9 × A10 × A11
  part_7 h x = (h.0, h.1, h.2, h.3, h.4, h.5, h.6, x, h.8, h.9, h.10, h.11)

  pub part_8 :
      A0 × A1 × A2 × A3 × A4 × A5 × A6 × A7 × A8 × A9 × A10 × A11
      → B
      → A0 × A1 × A2 × A3 × A4 × A5 × A6 × A7 × B × A9 × A10 × A11
  part_8 h x = (h.0, h.1, h.2, h.3, h.4, h.5, h.6, h.7, x, h.9, h.10, h.11)

  pub part_9 :
      A0 × A1 × A2 × A3 × A4 × A5 × A6 × A7 × A8 × A9 × A10 × A11
      → B
      → A0 × A1 × A2 × A3 × A4 × A5 × A6 × A7 × A8 × B × A10 × A11
  part_9 h x = (h.0, h.1, h.2, h.3, h.4, h.5, h.6, h.7, h.8, x, h.10, h.11)
