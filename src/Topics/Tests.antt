-- ===== src/Topics/Tests.antt =====
-- Patterns of topics and subjects at concrete texts.
use mockly.Base.{
  ◌≡◌, ◌⊎◌, refl, inl, inr, Bool, true, false, Option, none, some, List, [], ◌∷◌, Bytes, codes,
  split,
}
use mockly.Topics.{match_mqtt_topic, match_nats_subject}
use mockly.Topics.Laws.{Parts, match_mqtt_topic_iff}

levels_taken :
    match_mqtt_topic (codes "a/{id}/+") (codes "a/7/x") ≡ some ((codes "id", codes "7") ∷ [])
unfolding match_mqtt_topic mockly.Base.text_eq split mockly.Engine.Path.is_named
    mockly.Base.has_prefix mockly.Base.has_suffix mockly.Engine.Path.capture
    mockly.Engine.Path.name_of mockly.Base.insert
levels_taken = refl

too_short : match_mqtt_topic (codes "a/+") (codes "a") ≡ none
unfolding match_mqtt_topic mockly.Base.text_eq split mockly.Engine.Path.is_named
    mockly.Base.has_prefix
too_short = refl

-- Nothing has to follow what stands before the >.
rest_may_be_empty : match_nats_subject (codes "a.>") (codes "a") ≡ some []
unfolding match_nats_subject mockly.Base.text_eq split mockly.Engine.Path.is_named
    mockly.Base.has_prefix
rest_may_be_empty = refl

match_mqtt_topic_iff_example :
    (codes "a/#" ≡ codes "a/b")
    ⊎ Parts (codes "#") (codes "+") (split b'/' (codes "a/#")) (split b'/' (codes "a/b"))
unfolding match_mqtt_topic mockly.Base.text_eq split mockly.Engine.Path.is_named
    mockly.Base.has_prefix
match_mqtt_topic_iff_example = (match_mqtt_topic_iff (codes "a/#") (codes "a/b")).0 refl
