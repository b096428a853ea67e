-- ===== src/Receive/Bounds.antt =====
-- The requests that a message leaves, against the types and array sizes of common.h.
use vision_box_dual_cam.Base.{
  ◌≡◌, refl, sym, ◌∙◌, subst, String, streq, ◌==◌, not, codes, length, Option, some, none,
  some-injective, inl, inr, bind_inv, if_inv, if◌then◌else◌,
}
use vision_box_dual_cam.Base.Int.{ℤ, pos, negsuc, success, failure}
use vision_box_dual_cam.Base.Camera.{Camera, camera_1, camera_2}
use vision_box_dual_cam.Queue.Json.{JsonInfo, io_json_en_q}
use vision_box_dual_cam.Algo.Assign.{Commands}
use vision_box_dual_cam.Command.{Requests, rows, number, cmd_str}
use vision_box_dual_cam.Command.Json.{JsonC, strcpy}
use vision_box_dual_cam.Command.Parse.{parse}
use vision_box_dual_cam.Command.Assign.{find_row, io_param_assign}
use vision_box_dual_cam.Command.Bounds.{InRange}
use vision_box_dual_cam.Command.Bounds.Laws.{parse-InRange}
use vision_box_dual_cam.Receive.{
  Inbox, Message, no_info, accepted, tell_main, json_parse_ios, assign_camera, parse_array,
  parse_normal, ext_json_parse_dual, message_callback,
}
use vision_box_dual_cam.Receive.Arrays.{assign_sent, ext_json_parse_dual-Followed}

module _ {J : Type 0} (lib : JsonC J) (cmds : Commands J) (beyond : String) where
  io_param-InRange :
      (key : String) (root : J) (info : JsonInfo) (r : Requests) (q : ℤ × JsonInfo × Requests)
      → InRange r
      → io_param_assign lib beyond key root info r ≡ some q
      → InRange q.2
  unfolding io_param_assign
  io_param-InRange key root info r q h e =
      elim (bind_inv (find_row key rows)
        (λ c. elim (parse lib c root r) [
          | some r' ↦
              some (success, record { algo_id = number c; cmd = cmd_str c; json_buf = "" }, r')
          | none ↦ none
        ])
        (if streq key beyond then none else some (failure, info, r)) q e) [
          | inl (c, f, g) ↦
              elim (bind_inv (parse lib c root r)
                (λ r'.
                  some (success, record { algo_id = number c; cmd = cmd_str c; json_buf = "" }, r'))
                none q g) [
                  | inl (r', p, g1) ↦
                      subst (λ (t : ℤ × JsonInfo × Requests). InRange t.2) (some-injective _ _ g1)
                        (parse-InRange lib c root r r' h p)
                  | inr n ↦ cc
                ]
          | inr g ↦ elim (if_inv (streq key beyond) none (some (failure, info, r)) (some q) g) [
            | inl n ↦ cc
            | inr g1 ↦
                subst (λ (t : ℤ × JsonInfo × Requests). InRange t.2) (some-injective _ _ g1) h
          ]
        ]

  ios-InRange :
      (root : J) (b : Inbox) (p : ℤ × Inbox)
      → InRange b.requests
      → json_parse_ios lib cmds beyond root b ≡ some p
      → InRange p.1.requests
  unfolding json_parse_ios
  ios-InRange root b p h e =
      elim (bind_inv (lib.object_get "cmd" root)
        (λ v. elim (io_param_assign lib beyond (lib.get_string v) root no_info b.requests) [
          | some q ↦ queued q
          | none ↦ none
        ])
        (some (failure, b)) p e) [
          | inl (v, f, g) ↦
              elim (bind_inv (io_param_assign lib beyond (lib.get_string v) root no_info b.requests)
                queued none p g) [
                  | inl (q, f1, g1) ↦
                      requested q.0 q.1 q.2
                        (io_param-InRange (lib.get_string v) root no_info b.requests q h f1) g1
                  | inr n ↦ cc
                ]
          | inr g ↦ subst (λ (t : ℤ × Inbox). InRange t.1.requests) (some-injective _ _ g) h
        ]
    where
      queued : ℤ × JsonInfo × Requests → Option (ℤ × Inbox)
      queued (ret, info, r) = elim ret [
        | pos n ↦ some (
          pos n,
          record b {
            requests = r;
            shared = record b.shared { json = (io_json_en_q info b.shared.json).1 };
          },
        )
        | negsuc n ↦ some (negsuc n, record b { requests = r })
      ]

      requested :
          (z : ℤ) (info : JsonInfo) (r : Requests)
          → InRange r
          → queued (z, info, r) ≡ some p
          → InRange p.1.requests
      requested (pos n) info r h e =
          subst (λ (t : ℤ × Inbox). InRange t.1.requests) (some-injective _ _ e) h
      requested (negsuc n) info r h e =
          subst (λ (t : ℤ × Inbox). InRange t.1.requests) (some-injective _ _ e) h

  -- The two ends of a command that is not one of the IO process, and of one that is.
  camera-InRange :
      (id : Camera) (key : String) (root : J) (b b' : Inbox)
      → InRange b.requests
      → elim (assign_camera lib cmds beyond id key root b) as (λ _. Option Inbox) [
        | some (cmd, b2) ↦ some (tell_main cmd b2)
        | none ↦ none
      ]
        ≡ some b'
      → InRange b'.requests
  camera-InRange id key root b b' h e =
      elim (bind_inv (assign_camera lib cmds beyond id key root b) (λ p. some (tell_main p.0 p.1))
        none b' e) [
          | inl (p, f, g) ↦
              (let (info, a, q) = assign_sent lib cmds beyond id key root b p.1 p.0 f in
                subst (λ (t : Inbox). InRange t.requests) (sym q ∙ some-injective _ _ g) h)
          | inr n ↦ cc
        ]

  told-InRange :
      (msg : String) (b : Inbox) → InRange b.requests → InRange (tell_main msg b).requests
  unfolding tell_main
  told-InRange msg b h = h

  normal-InRange :
      (id : Camera) (root : J) (b b' : Inbox)
      → InRange b.requests
      → parse_normal lib cmds beyond id root b ≡ some b'
      → InRange b'.requests
  unfolding parse_normal
  normal-InRange id root b b' h e = elim (bind_inv (lib.object_get "cmd" root) named none b' e) [
    | inl (v, f, g) ↦ elim (bind_inv (strcpy 1024 (lib.get_string v)) (copied v) none b' g) [
      | inl (s, f1, g1) ↦
          elim (bind_inv (json_parse_ios lib cmds beyond root b) (parsed v s) none b' g1) [
            | inl (p, f2, g2) ↦ answered v s p (ios-InRange root b p h f2) g2
            | inr n ↦ cc
          ]
      | inr n ↦ cc
    ]
    | inr n ↦ cc
  ]
    where
      parsed : J → String → ℤ × Inbox → Option Inbox
      parsed v s (ret, b1) =
          if accepted ret
          then some (tell_main s b1)
          else elim (assign_camera lib cmds beyond id (lib.get_string v) root b1) [
            | some (cmd, b2) ↦ some (tell_main cmd b2)
            | none ↦ none
          ]

      copied : J → String → Option Inbox
      copied v s = elim (json_parse_ios lib cmds beyond root b) [
        | some p ↦ parsed v s p
        | none ↦ none
      ]

      named : J → Option Inbox
      named v = elim (strcpy 1024 (lib.get_string v)) [ some s ↦ copied v s | none ↦ none ]

      answered :
          (v : J) (s : String) (p : ℤ × Inbox)
          → InRange p.1.requests
          → parsed v s p ≡ some b'
          → InRange b'.requests
      answered v s (ret, b1) h e =
          elim (if_inv (accepted ret) (some (tell_main s b1)) _ (some b') e) [
            | inl g ↦
                subst (λ (t : Inbox). InRange t.requests) (some-injective _ _ g)
                  (told-InRange s b1 h)
            | inr g ↦ camera-InRange id (lib.get_string v) root b1 b' h g
          ]

  ext-InRange :
      (id : Camera) (o : Option J) (b b' : Inbox)
      → InRange b.requests
      → ext_json_parse_dual lib cmds beyond id o b ≡ some b'
      → InRange b'.requests
  unfolding ext_json_parse_dual
  ext-InRange id none b b' h e = cc
  ext-InRange id (some root) b b' h e = by_array (lib.object_get "ARRAY" root) refl
    where
      by_array : (o : Option J) → lib.object_get "ARRAY" root ≡ o → InRange b'.requests
      by_array (some y) f =
          let (qs, p1, p2, p3, p4, same) =
            ext_json_parse_dual-Followed lib cmds beyond id root y b b' f e in
          subst InRange (sym same) h
      by_array none f = normal-InRange id root b b' h (
          subst
            (λ o.
              elim o [
                | some z ↦ parse_array lib cmds beyond id (length (lib.array z)) 0 (lib.array z) b
                | none ↦ parse_normal lib cmds beyond id root b
              ]
              ≡ some b')
            f e)

  -- A message that the process survives leaves the shared structures within their types and arrays.
  pub message_callback-InRange :
      (tokener_parse : String → Option J) (m : Message) (b b' : Inbox)
      → InRange b.requests
      → message_callback lib cmds beyond tokener_parse m b ≡ some b'
      → InRange b'.requests
  unfolding message_callback
  message_callback-InRange tokener_parse m b b' h e =
      let o = tokener_parse m.payload in
      elim (if_inv (m.payloadlen == 0) (some b) _ (some b') e) [
        | inl g ↦ subst (λ (t : Inbox). InRange t.requests) (some-injective _ _ g) h
        | inr g ↦
            elim (if_inv (not (m.payloadlen == length (codes m.payload))) none _ (some b') g) [
              | inl n ↦ cc
              | inr g1 ↦ elim (if_inv (streq m.topic "PX/VBS/Cmd/Cam2") _ _ (some b') g1) [
                | inl g2 ↦ ext-InRange camera_2 o (record b { ios_cameraid = 1 }) b' h g2
                | inr g2 ↦ ext-InRange camera_1 o (record b { ios_cameraid = 0 }) b' h g2
              ]
            ]
      ]
