-- ===== src/Engine/WebSocket/Frames.antt =====
-- `WSMatchFrame` of internal/engine/matcher.go.
use mockly.Base.{
  ◌≡◌, ◌≢◌, ◌↔◌, refl, ap, Bool, true, false, Option, none, some, List, [], ◌∷◌, ◌++◌, ◌⊎◌, inl,
  inr, arith, All, Bytes, text_eq, text_eq_iff, filter, Bool-cases, Option-cases,
}
use mockly.Engine.Platform.{Platform}
use mockly.Engine.Values.{match_pattern}
use mockly.Engine.WebSocket.{WebSocketRule, ws_match, takes_frame, ws_match_frame}

abbrev has_no_binary : WebSocketRule → Bool
has_no_binary r = text_eq r.match_binary []

module _ (lib : Platform) where
  -- A binary rule takes the binary frames of exactly its decoded bytes, any other rule the frames
  -- that its pattern accepts.
  abbrev pub Takes : WebSocketRule → Bool → Bytes → Type 0
  Takes r is_binary contents =
      ((r.match_binary ≢ []) × (is_binary ≡ true) × (lib.base64 r.match_binary ≡ some contents))
      ⊎ ((r.match_binary ≡ []) × (match_pattern lib r.pattern contents ≡ true))

  takes_frame_iff :
      (r : WebSocketRule) (is_binary : Bool) (contents : Bytes)
      → (takes_frame lib r is_binary contents ≡ true) ↔ Takes r is_binary contents
  unfolding takes_frame
  takes_frame_iff r is_binary contents = elim (Option-cases (lib.base64 r.match_binary)) [
    | inl invalid ↦ ground (arith, text_eq_iff r.match_binary [])
    | inr (want, found) ↦ ground (arith, text_eq_iff r.match_binary [], text_eq_iff contents want)
  ]

  abbrev pub FirstRule : List WebSocketRule → Bool → Bytes → Option WebSocketRule → Type 0
  FirstRule rules is_binary contents none = All (λ r. Takes r is_binary contents → ⊥) rules
  FirstRule rules is_binary contents (some r) =
      (before : List WebSocketRule) × (after : List WebSocketRule) × (rules ≡ before ++ r ∷ after)
      × All (λ x. Takes x is_binary contents → ⊥) before
      × Takes r is_binary contents

  skip :
      (r : WebSocketRule) (rules : List WebSocketRule) (is_binary : Bool) (contents : Bytes)
      (found : Option WebSocketRule)
      → (Takes r is_binary contents → ⊥)
      → FirstRule rules is_binary contents found
      → FirstRule (r ∷ rules) is_binary contents found
  skip r rules is_binary contents none missed h = (missed, h)
  skip r rules is_binary contents (some x) missed (before, after, split, none_before, takes) =
      (r ∷ before, after, ap (λ l. r ∷ l) split, (missed, none_before), takes)

  -- `WSMatchFrame` returns the first rule that takes the frame, and none when no rule does: a rule
  -- for binary frames takes the binary frames of exactly its decoded bytes, any other rule the
  -- frames, text or binary, that its pattern accepts.
  pub ws_match_frame-FirstRule :
      (rules : List WebSocketRule) (is_binary : Bool) (contents : Bytes)
      → FirstRule rules is_binary contents (ws_match_frame lib rules is_binary contents)
  unfolding ws_match_frame
  ws_match_frame-FirstRule [] is_binary contents = tt
  ws_match_frame-FirstRule (r ∷ rules) is_binary contents =
      elim (Bool-cases (takes_frame lib r is_binary contents)) [
        | inl takes ↦ rw takes ([], rules, refl, tt, (takes_frame_iff r is_binary contents).0 takes)
        | inr not_taken ↦ rw not_taken (
            skip r rules is_binary contents _
              (λ takes. cc (not_taken, (takes_frame_iff r is_binary contents).1 takes))
              (ws_match_frame-FirstRule rules is_binary contents))
      ]

  -- For a text frame `WSMatchFrame` returns what `WSMatch` returns for the rules that are not for
  -- binary frames.
  pub ws_match_frame-ws_match :
      (rules : List WebSocketRule) (contents : Bytes)
      → ws_match_frame lib rules false contents ≡ ws_match lib (filter has_no_binary rules) contents
  unfolding ws_match_frame ws_match takes_frame
  ws_match_frame-ws_match [] contents = refl
  ws_match_frame-ws_match (r ∷ rules) contents =
      ground (arith, ws_match_frame-ws_match rules contents)
