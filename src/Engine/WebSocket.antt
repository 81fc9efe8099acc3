-- ===== src/Engine/WebSocket.antt =====
-- `WSMatch` and `WSMatchFrame`: which rule answers a message. The field `Match` is `pattern`.
pub mod Frames
use mockly.Base.{
  Bool, true, false, not, Option, none, some, List, [], ◌∷◌, Bytes, if◌then◌else◌, text_eq,
}
use mockly.Config.Faults.{Duration}
use mockly.Engine.Platform.{Platform}
use mockly.Engine.Values.{match_pattern}

pub record WebSocketRule : Type 0 where
  pub pattern : Bytes
  pub respond : Bytes
  pub match_binary : Bytes
  pub respond_binary : Bytes
  pub close : Bool
  pub delay : Duration

module _ (lib : Platform) where
  unfoldable pub ws_match : List WebSocketRule → Bytes → Option WebSocketRule
  ws_match [] message = none
  ws_match (r ∷ rules) message =
      if match_pattern lib r.pattern message then some r else ws_match rules message

  -- One round of the loop of `WSMatchFrame`: whether it returns the rule.
  unfoldable pub takes_frame : WebSocketRule → Bool → Bytes → Bool
  takes_frame r is_binary contents =
      if not (text_eq r.match_binary [])
      then (if not is_binary then false else elim (lib.base64 r.match_binary) [
        | none ↦ false
        | some want ↦ text_eq contents want
      ])
      else match_pattern lib r.pattern contents

  unfoldable pub ws_match_frame : List WebSocketRule → Bool → Bytes → Option WebSocketRule
  ws_match_frame [] is_binary contents = none
  ws_match_frame (r ∷ rules) is_binary contents =
      if takes_frame r is_binary contents then some r else ws_match_frame rules is_binary contents
