-- ===== src/Topics/Laws.antt =====
-- The patterns of internal/protocols/mqttserver/server.go and natsserver/server.go.
use mathlib.Core.Path.{subst}
use mockly.Base.{
  ◌≡◌, refl, sym, ap, ◌∙◌, ◌↔◌, ◌⊎◌, inl, inr, Bool, true, false, Option, none, some, List, [], ◌∷◌,
  ◌||◌, ◌&&◌, Bytes, codes, Dict, split, text_eq, text_eq_iff, arith, Bool-cases,
}
use mockly.Engine.Path.{is_named, name_of, capture}
use mockly.Topics.{match_parts, match_mqtt_topic, match_nats_subject}

abbrev pub is_some : Option (Dict Bytes) → Bool
is_some none = false
is_some (some params) = true

-- What one part of a pattern, that does not stand for the rest, takes.
abbrev pub Takes : Bytes → Bytes → Bytes → Type 0
Takes one p s = (p ≡ one) ⊎ ((is_named p ≡ true) ⊎ (p ≡ s))

-- The parts are taken one by one, up to a part of the pattern that takes all the rest.
abbrev pub Parts : Bytes → Bytes → List Bytes → List Bytes → Type 0
Parts rest one [] parts = parts ≡ []
Parts rest one (p ∷ pattern) parts =
    (p ≡ rest)
    ⊎ ((s : Bytes) × (others : List Bytes) × (parts ≡ s ∷ others)
        × Takes one p s
        × Parts rest one pattern others)

-- The step of the loop as a test.
takes : Bytes → Bytes → Bytes → Bool
takes one p s = text_eq p one || (is_named p || text_eq p s)

match_parts-step :
    (rest one p s : Bytes) (pattern parts : List Bytes) (params : Dict Bytes)
    → ((ps : Dict Bytes)
        → is_some (match_parts rest one pattern parts ps)
          ≡ is_some (match_parts rest one pattern parts []))
    → is_some (match_parts rest one (p ∷ pattern) (s ∷ parts) params)
      ≡ (text_eq p rest || (takes one p s && is_some (match_parts rest one pattern parts [])))
unfolding match_parts takes
match_parts-step rest one p s pattern parts params h =
    ground (arith, h params, h (capture (name_of p) s params))

-- The captures do not decide the match.
match_parts-params :
    (rest one : Bytes) (pattern parts : List Bytes) (params : Dict Bytes)
    → is_some (match_parts rest one pattern parts params)
      ≡ is_some (match_parts rest one pattern parts [])
unfolding match_parts
match_parts-params rest one [] [] params = refl
match_parts-params rest one [] (s ∷ parts) params = refl
match_parts-params rest one (p ∷ pattern) [] params = ground arith
match_parts-params rest one (p ∷ pattern) (s ∷ parts) params =
    let ih : (ps : Dict Bytes)
        → is_some (match_parts rest one pattern parts ps)
          ≡ is_some (match_parts rest one pattern parts []) =
      λ ps. match_parts-params rest one pattern parts ps in
    match_parts-step rest one p s pattern parts params ih
    ∙ sym (match_parts-step rest one p s pattern parts [] ih)

match_parts-cons :
    (rest one p s : Bytes) (pattern parts : List Bytes) (params : Dict Bytes)
    → is_some (match_parts rest one (p ∷ pattern) (s ∷ parts) params)
      ≡ (text_eq p rest || (takes one p s && is_some (match_parts rest one pattern parts [])))
match_parts-cons rest one p s pattern parts params =
    match_parts-step rest one p s pattern parts params (match_parts-params rest one pattern parts)

Takes-takes : (one p s : Bytes) → Takes one p s → takes one p s ≡ true
unfolding takes
Takes-takes one p s (inl e) = rw ((text_eq_iff p one).1 e) refl
Takes-takes one p s (inr (inl e)) = ground arith
Takes-takes one p s (inr (inr e)) = ground (arith, (text_eq_iff p s).1 e)

takes-Takes : (one p s : Bytes) → takes one p s ≡ true → Takes one p s
unfolding takes
takes-Takes one p s h = elim (Bool-cases (text_eq p one)) [
  | inl e ↦ inl ((text_eq_iff p one).0 e)
  | inr differs ↦ elim (Bool-cases (is_named p)) [
    | inl e ↦ inr (inl e)
    | inr unnamed ↦ inr (inr ((text_eq_iff p s).0 (ground arith)))
  ]
]

-- A match takes the parts one by one.
match_parts-Parts :
    (rest one : Bytes) (pattern parts : List Bytes)
    → is_some (match_parts rest one pattern parts []) ≡ true
    → Parts rest one pattern parts
unfolding match_parts
match_parts-Parts rest one [] [] h = refl
match_parts-Parts rest one [] (s ∷ parts) h = ground arith
match_parts-Parts rest one (p ∷ pattern) [] h = inl ((text_eq_iff p rest).0 (ground arith))
match_parts-Parts rest one (p ∷ pattern) (s ∷ parts) h =
    let step = sym (match_parts-cons rest one p s pattern parts []) ∙ h in
    elim (Bool-cases (text_eq p rest)) [
      | inl e ↦ inl ((text_eq_iff p rest).0 e)
      | inr differs ↦ inr (
        s,
        parts,
        refl,
        takes-Takes one p s (ground arith),
        match_parts-Parts rest one pattern parts (ground arith),
      )
    ]

Parts-match_parts :
    (rest one : Bytes) (pattern parts : List Bytes)
    → Parts rest one pattern parts
    → is_some (match_parts rest one pattern parts []) ≡ true
unfolding match_parts
Parts-match_parts rest one [] [] h = refl
Parts-match_parts rest one [] (s ∷ parts) h = ground arith
Parts-match_parts rest one (p ∷ pattern) [] (inl e) = rw ((text_eq_iff p rest).1 e) refl
Parts-match_parts rest one (p ∷ pattern) [] (inr (s, others, e, t, h)) = ground arith
Parts-match_parts rest one (p ∷ pattern) (s ∷ parts) (inl e) = rw ((text_eq_iff p rest).1 e) refl
Parts-match_parts rest one (p ∷ pattern) (first ∷ parts) (inr (s, others, e, t, h)) =
    ap (λ l. is_some (match_parts rest one (p ∷ pattern) l [])) e
    ∙ match_parts-cons rest one p s pattern others []
    ∙ ground (arith, Takes-takes one p s t, Parts-match_parts rest one pattern others h)

all_levels :
    (filter : Bytes) (parts : List Bytes)
    → filter ≡ codes "#"
    → Parts (codes "#") (codes "+") (split b'/' filter) parts
unfolding split
all_levels filter parts e =
    subst (λ f. Parts (codes "#") (codes "+") (split b'/' f) parts) (sym e) (inl refl)

-- The topics of a filter of MQTT: the filter itself, all of them for the filter "#", and otherwise
-- those whose levels it takes.
pub match_mqtt_topic_iff :
    (filter topic : Bytes)
    → (is_some (match_mqtt_topic filter topic) ≡ true)
      ↔ ((filter ≡ topic) ⊎ Parts (codes "#") (codes "+") (split b'/' filter) (split b'/' topic))
unfolding match_mqtt_topic
match_mqtt_topic_iff filter topic = (
  λ h. elim (Bool-cases (text_eq filter (codes "#"))) [
    | inl e ↦ inr (all_levels filter (split b'/' topic) ((text_eq_iff filter (codes "#")).0 e))
    | inr differs ↦ elim (Bool-cases (text_eq filter topic)) [
      | inl e ↦ inl ((text_eq_iff filter topic).0 e)
      | inr other ↦ inr (
          match_parts-Parts (codes "#") (codes "+") (split b'/' filter) (split b'/' topic)
            (ground arith))
    ]
  ],
  λ h. elim h [
    | inl e ↦ ground (arith, (text_eq_iff filter topic).1 e)
    | inr ok ↦
        ground (
          arith,
          Parts-match_parts (codes "#") (codes "+") (split b'/' filter) (split b'/' topic) ok,
        )
  ],
)

-- The subjects of a pattern of NATS: the pattern itself, and those whose tokens it takes.
pub match_nats_subject_iff :
    (pattern subject : Bytes)
    → (is_some (match_nats_subject pattern subject) ≡ true) ↔ (
        (pattern ≡ subject)
        ⊎ Parts (codes ">") (codes "*") (split b'.' pattern) (split b'.' subject))
unfolding match_nats_subject
match_nats_subject_iff pattern subject = (
  λ h. elim (Bool-cases (text_eq pattern subject)) [
    | inl e ↦ inl ((text_eq_iff pattern subject).0 e)
    | inr differs ↦ inr (
        match_parts-Parts (codes ">") (codes "*") (split b'.' pattern) (split b'.' subject)
          (ground arith))
  ],
  λ h. elim h [
    | inl e ↦ rw ((text_eq_iff pattern subject).1 e) refl
    | inr ok ↦ ground (
      arith,
      Parts-match_parts (codes ">") (codes "*") (split b'.' pattern) (split b'.' subject) ok,
    )
  ],
)
