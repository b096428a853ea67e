-- ===== src/Receive/Arrays.antt =====
-- A message with an array of commands.
use mathlib.Core.List.{append-nil, append_assoc}
use vision_box_dual_cam.Base.{
  bind_inv, ℕ, ◌+◌, ◌≡◌, inl, inr, refl, sym, ap, ◌∙◌, subst, String, length, List, [], ◌∷◌, ◌++◌,
  some, none, some-injective,
}
use vision_box_dual_cam.Base.Camera.{Camera, other, at, put_at, at-put_at_self, at-put_at-other}
use vision_box_dual_cam.Queue.Deque.{en_q}
use vision_box_dual_cam.Queue.Inner.{main_en_q}
use vision_box_dual_cam.Queue.Json.{JsonInfo, json_dual_en_q}
use vision_box_dual_cam.Algo.Assign.{Commands, Algo, param_assign_dual}
use vision_box_dual_cam.Command.Json.{JsonC}
use vision_box_dual_cam.Receive.{
  Inbox, no_info, tell_main, assign_camera, parse_element, parse_array, parse_normal,
  ext_json_parse_dual, str_key,
}

abbrev pub names : List JsonInfo → List String
names [] = []
names (q ∷ qs) = q.cmd ∷ names qs

names-append : (xs ys : List JsonInfo) → names (xs ++ ys) ≡ names xs ++ names ys
names-append [] ys = refl
names-append (x ∷ xs) ys = ap (λ t. x.cmd ∷ t) (names-append xs ys)

-- From `b` to `b'` records were queued for camera `id`, in the same order one message for each with its name,
-- and nothing else was queued or requested.
abbrev pub Followed : Camera → Inbox → Inbox → Type 0
Followed id b b' =
    (qs : List JsonInfo) × (at id b'.shared.json.json_dual ≡ at id b.shared.json.json_dual ++ qs)
    × (b'.shared.inner.main ≡ b.shared.inner.main ++ names qs)
    × (at (other id) b'.shared.json.json_dual ≡ at (other id) b.shared.json.json_dual)
    × (b'.shared.json.io_json ≡ b.shared.json.io_json)
    × (b'.requests ≡ b.requests)

stays : (id : Camera) (b : Inbox) → Followed id b b
stays id b = ([], sym (append-nil _), sym (append-nil _), refl, refl, refl)

follows : (id : Camera) (a b c : Inbox) → Followed id a b → Followed id b c → Followed id a c
follows id a b c (ps, p1, p2, p3, p4, p5) (qs, q1, q2, q3, q4, q5) = (
  ps ++ qs,
  q1 ∙ ap (λ t. t ++ qs) p1 ∙ append_assoc _ ps qs,
  q2
      ∙ ap (λ t. t ++ names qs) p2
      ∙ append_assoc _ (names ps) (names qs)
      ∙ ap (λ t. a.shared.inner.main ++ t) (sym (names-append ps qs)),
  q3 ∙ p3,
  q4 ∙ p4,
  q5 ∙ p5,
)

-- The state after a command of the image process was assigned, its record queued and its message sent.
abbrev sent : Camera → JsonInfo → Algo → Inbox → Inbox
sent id info a b = record b {
  shared = record b.shared {
    algo = a;
    json = record b.shared.json {
      json_dual = put_at id (at id b.shared.json.json_dual ++ (info ∷ [])) b.shared.json.json_dual;
    };
    inner = record b.shared.inner { main = b.shared.inner.main ++ (info.cmd ∷ []) };
  };
}

sent-Followed :
    (id : Camera) (info : JsonInfo) (a : Algo) (b : Inbox) → Followed id b (sent id info a b)
sent-Followed id info a b =
    (info ∷ [], at-put_at_self id _ _, refl, at-put_at-other id _ _, refl, refl)

module _ {J : Type 0} (lib : JsonC J) (cmds : Commands J) (beyond : String) where
  pub assign_sent :
      (id : Camera) (key : String) (root : J) (b b1 : Inbox) (cmd : String)
      → assign_camera lib cmds beyond id key root b ≡ some (cmd, b1)
      → (info : JsonInfo) × (a : Algo) × (tell_main cmd b1 ≡ sent id info a b)
  unfolding assign_camera tell_main json_dual_en_q main_en_q en_q
  assign_sent id key root b b1 cmd h =
      elim (bind_inv (param_assign_dual cmds key root no_info id b.shared.algo)
        (λ p. some (
          p.1.cmd,
          record b {
            shared = record b.shared { algo = p.2; json = (json_dual_en_q id p.1 b.shared.json).1 };
          },
        ))
        none (cmd, b1) h) [
          | inl (p, e, g) ↦ (p.1, p.2, ap (λ t. tell_main t.0 t.1) (sym (some-injective _ _ g)))
          | inr n ↦ cc
        ]

  element-Followed :
      (id : Camera) (xs : List J) (b b' : Inbox)
      → parse_element lib cmds beyond id xs b ≡ some b'
      → Followed id b b'
  unfolding parse_element
  element-Followed id [] b b' h = subst (Followed id b) (some-injective _ _ h) (stays id b)
  element-Followed id (x ∷ xs) b b' h =
      elim (bind_inv (lib.object_get "cmd" x)
        (λ v. elim (assign_camera lib cmds beyond id (lib.get_string v) x b) [
          | some p ↦ parse_element lib cmds beyond id xs (tell_main p.0 p.1)
          | none ↦ none
        ])
        (parse_element lib cmds beyond id xs b) b' h) [
          | inl (v, e, g) ↦
              elim (bind_inv (assign_camera lib cmds beyond id (lib.get_string v) x b)
                (λ p. parse_element lib cmds beyond id xs (tell_main p.0 p.1)) none b' g) [
                  | inl (p, e1, g1) ↦
                      (let (info, a, q) = assign_sent id (lib.get_string v) x b p.1 p.0 e1 in
                        follows id b (tell_main p.0 p.1) b'
                          (subst (Followed id b) (sym q) (sent-Followed id info a b))
                          (element-Followed id xs (tell_main p.0 p.1) b' g1))
                  | inr n ↦ cc
                ]
          | inr g ↦ element-Followed id xs b b' g
        ]

  pub array-Followed :
      (id : Camera) (n i : ℕ) (xs : List J) (b b' : Inbox)
      → parse_array lib cmds beyond id n i xs b ≡ some b'
      → Followed id b b'
  unfolding parse_array
  array-Followed id n i [] b b' h = subst (Followed id b) (some-injective _ _ h) (stays id b)
  array-Followed id n i (x ∷ xs) b b' h =
      elim (bind_inv (lib.object_get (str_key n i) x)
        (λ y. elim (parse_element lib cmds beyond id (lib.array y) b) [
          | some b1 ↦ parse_array lib cmds beyond id n (i + 1) xs b1
          | none ↦ none
        ])
        (some b) b' h) [
          | inl (y, e, g) ↦
              elim (bind_inv (parse_element lib cmds beyond id (lib.array y) b)
                (parse_array lib cmds beyond id n (i + 1) xs) none b' g) [
                  | inl (b1, e1, g1) ↦
                      follows id b b1 b' (element-Followed id (lib.array y) b b1 e1)
                        (array-Followed id n (i + 1) xs b1 b' g1)
                  | inr n ↦ cc
                ]
          | inr g ↦ subst (Followed id b) (some-injective _ _ g) (stays id b)
        ]

  pub ext_json_parse_dual-Followed :
      (id : Camera) (root y : J) (b b' : Inbox)
      → lib.object_get "ARRAY" root ≡ some y
      → ext_json_parse_dual lib cmds beyond id (some root) b ≡ some b'
      → Followed id b b'
  unfolding ext_json_parse_dual
  ext_json_parse_dual-Followed id root y b b' a h =
      array-Followed id (length (lib.array y)) 0 (lib.array y) b b' (
        subst
          (λ o.
            elim o [
              | some z ↦ parse_array lib cmds beyond id (length (lib.array z)) 0 (lib.array z) b
              | none ↦ parse_normal lib cmds beyond id root b
            ]
            ≡ some b')
          a h)
