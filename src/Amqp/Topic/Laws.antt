-- ===== src/Amqp/Topic/Laws.antt =====
-- `topicMatchSegments` of internal/protocols/amqpserver/server.go.
use mockly.Base.{
  ◌≡◌, refl, sym, ap, ◌∙◌, ◌↔◌, ◌⊎◌, inl, inr, Bool, true, false, List, [], ◌∷◌, ◌++◌, ◌||◌, Bytes,
  codes, arith, text_eq, text_eq_iff, Bool-cases, or_true, append_nil, is_nil,
}
use mockly.Amqp.Topic.{any_suffix, one_word, topic_match_segments}

module _ {ℓ} {A : Type ℓ} where
  any_suffix_sound :
      (f : List A → Bool) (key : List A)
      → any_suffix f key ≡ true
      → (front : List A) × (rest : List A) × (key ≡ front ++ rest) × (f rest ≡ true)
  unfolding any_suffix
  any_suffix_sound f [] h = ([], [], refl, h)
  any_suffix_sound f (k ∷ key) h = elim (Bool-cases (f (k ∷ key))) [
    | inl e ↦ ([], k ∷ key, refl, e)
    | inr e ↦
        let (front, rest, eq, ok) = any_suffix_sound f key (rw e at h) in
        (k ∷ front, rest, ap (◌∷◌ k) eq, ok)
  ]

  any_suffix_complete :
      (f : List A → Bool) (front rest : List A)
      → f rest ≡ true
      → any_suffix f (front ++ rest) ≡ true
  unfolding any_suffix
  any_suffix_complete f [] [] h = h
  any_suffix_complete f [] (k ∷ rest) h = rw h refl
  any_suffix_complete f (k ∷ front) rest h = ground (arith, any_suffix_complete f front rest)

-- A word of a pattern stands for a block of words: `#` for any block, `*` for one word, and another
-- word for itself.
abbrev pub StandsFor : Bytes → List Bytes → Type 0
StandsFor p block = (p ≡ codes "#") ⊎ ((k : Bytes) × (block ≡ k ∷ []) × ((p ≡ codes "*") ⊎ (k ≡ p)))

-- The key is made of blocks, one for each word of the pattern.
abbrev pub Matches : List Bytes → List Bytes → Type 0
Matches [] key = key ≡ []
Matches (p ∷ pattern) key =
    (block : List Bytes) × (rest : List Bytes) × (key ≡ block ++ rest)
    × StandsFor p block
    × Matches pattern rest

topic-hash :
    (p : Bytes) (pattern key : List Bytes)
    → text_eq p (codes "#") ≡ true
    → topic_match_segments (p ∷ pattern) key
      ≡ (is_nil pattern || any_suffix (topic_match_segments pattern) key)
unfolding topic_match_segments
topic-hash p pattern key e = rw e refl

topic-word :
    (p : Bytes) (pattern key : List Bytes)
    → text_eq p (codes "#") ≡ false
    → topic_match_segments (p ∷ pattern) key ≡ one_word (topic_match_segments pattern) p key
unfolding topic_match_segments
topic-word p pattern key e = rw e refl

one_word_sound :
    (f : List Bytes → Bool) (p : Bytes) (key : List Bytes)
    → one_word f p key ≡ true
    → (k : Bytes) × (rest : List Bytes) × (key ≡ k ∷ rest)
      × ((p ≡ codes "*") ⊎ (k ≡ p))
      × (f rest ≡ true)
unfolding one_word
one_word_sound f p [] h = ground arith
one_word_sound f p (k ∷ key) h = elim (Bool-cases (text_eq p (codes "*"))) [
  | inl e ↦ (k, key, refl, inl ((text_eq_iff p (codes "*")).0 e), ground arith)
  | inr e ↦ (k, key, refl, inr ((text_eq_iff k p).0 (ground arith)), ground arith)
]

one_word_complete :
    (f : List Bytes → Bool) (p k : Bytes) (key : List Bytes)
    → (p ≡ codes "*") ⊎ (k ≡ p)
    → f key ≡ true
    → one_word f p (k ∷ key) ≡ true
unfolding one_word
one_word_complete f p k key h e = ground (arith, text_eq_iff k p, text_eq_iff p (codes "*"))

-- A `#` stands for some block, and the rest of the pattern matches what follows it.
hash_sound :
    (pattern key : List Bytes)
    → (is_nil pattern || any_suffix (topic_match_segments pattern) key) ≡ true
    → (block : List Bytes) × (rest : List Bytes) × (key ≡ block ++ rest)
      × (topic_match_segments pattern rest ≡ true)
unfolding topic_match_segments
hash_sound [] key h = (key, [], sym (append_nil key), refl)
hash_sound (p ∷ pattern) key h = any_suffix_sound (topic_match_segments (p ∷ pattern)) key h

sound : (pattern key : List Bytes) → topic_match_segments pattern key ≡ true → Matches pattern key
unfolding topic_match_segments
sound [] [] h = refl
sound [] (k ∷ key) h = ground arith
sound (p ∷ pattern) key h = elim (Bool-cases (text_eq p (codes "#"))) [
  | inl e ↦
      let (block, rest, eq, ok) = hash_sound pattern key (sym (topic-hash p pattern key e) ∙ h) in
      (block, rest, eq, inl ((text_eq_iff p (codes "#")).0 e), sound pattern rest ok)
  | inr e ↦
      let (k, rest, eq, stands, ok) =
        one_word_sound (topic_match_segments pattern) p key
          (sym (topic-word p pattern key e) ∙ h) in
      (k ∷ [], rest, eq, inr (k, refl, stands), sound pattern rest ok)
]

block_complete :
    (f : List Bytes → Bool) (p : Bytes) (block rest : List Bytes)
    → text_eq p (codes "#") ≡ false
    → StandsFor p block
    → f rest ≡ true
    → one_word f p (block ++ rest) ≡ true
block_complete f p block rest e (inl q) h = ground (arith, text_eq_iff p (codes "#"))
block_complete f p block rest e (inr (k, eq, d)) h =
    ap (λ b. one_word f p (b ++ rest)) eq ∙ one_word_complete f p k rest d h

complete :
    (pattern key : List Bytes) → Matches pattern key → topic_match_segments pattern key ≡ true
unfolding topic_match_segments
complete [] key h = rw h refl
complete (p ∷ pattern) key (block, rest, e, stands, h) = elim (Bool-cases (text_eq p (codes "#"))) [
  | inl q ↦
      topic-hash p pattern key q
      ∙ ap (λ k. is_nil pattern || any_suffix (topic_match_segments pattern) k) e
      ∙ ap (λ b. is_nil pattern || b)
          (any_suffix_complete (topic_match_segments pattern) block rest (complete pattern rest h))
      ∙ or_true (is_nil pattern)
  | inr q ↦
      topic-word p pattern key q
      ∙ ap (one_word (topic_match_segments pattern) p) e
      ∙ block_complete (topic_match_segments pattern) p block rest q stands
          (complete pattern rest h)
]

-- A key matches the pattern of a topic exchange exactly if it is made of blocks of words, one for
-- each word of the pattern in their order, where `#` stands for any block, also the empty one, `*`
-- for one word and any other word for itself.
pub topic_match_segments_iff :
    (pattern key : List Bytes) → (topic_match_segments pattern key ≡ true) ↔ Matches pattern key
topic_match_segments_iff pattern key = (sound pattern key, complete pattern key)
