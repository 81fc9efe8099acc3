-- ===== src/Amqp/Topic.antt =====
-- internal/protocols/amqpserver/server.go: `topicMatchSegments` and the tests on routing keys.
pub mod Laws
use mockly.Base.{
  Bool, true, false, List, [], ◌∷◌, ◌&&◌, ◌||◌, Bytes, codes, if◌then◌else◌, text_eq, split, is_nil,
}

module _ {ℓ} {A : Type ℓ} where
  -- `for i := 0; i <= len(key); i++ { if f(key[i:]) { return true } }`
  unfoldable pub any_suffix : (List A → Bool) → List A → Bool
  any_suffix f [] = f []
  any_suffix f (k ∷ key) = f (k ∷ key) || any_suffix f key

-- The case of `*` and the default case of the `switch`.
unfoldable pub one_word : (List Bytes → Bool) → Bytes → List Bytes → Bool
one_word f p [] = false
one_word f p (k ∷ key) = if text_eq p (codes "*") then f key else text_eq k p && f key

unfoldable pub topic_match_segments : List Bytes → List Bytes → Bool
unfolding any_suffix one_word
topic_match_segments [] key = is_nil key
topic_match_segments (p ∷ pattern) key =
    if text_eq p (codes "#")
    then is_nil pattern || any_suffix (topic_match_segments pattern) key
    else one_word (topic_match_segments pattern) p key

unfoldable pub amqp_topic_matches : Bytes → Bytes → Bool
unfolding topic_match_segments
amqp_topic_matches pattern key = topic_match_segments (split b'.' pattern) (split b'.' key)

unfoldable pub binding_matches : Bytes → Bytes → Bytes → Bool
unfolding amqp_topic_matches
binding_matches exchange_type pattern routing_key =
    if text_eq exchange_type (codes "fanout")
    then true
    else if text_eq exchange_type (codes "topic")
    then is_nil pattern || amqp_topic_matches pattern routing_key
    else is_nil pattern || text_eq pattern routing_key
