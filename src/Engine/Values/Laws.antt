-- ===== src/Engine/Values/Laws.antt =====
-- The headers and queries of internal/engine/matcher.go.
use mockly.Base.{
  or_true, ◌&&◌, ◌≡◌, ◌≢◌, ◌↔◌, ◌⊎◌, inl, inr, refl, Bool, true, false, not, Option, none, some,
  List, [], ◌∷◌, arith, Bytes, codes, Any, text_eq, text_eq_iff, Dict, lookup, has_distinct_keys,
  has_key-lookup, all_pairs_iff, Bool-cases, Option-cases,
}
use mockly.Engine.Platform.{Platform}
use mockly.Engine.Values.{
  match_pattern, header_value, header_ok, match_headers, query_absent, match_query_value, given,
  is_given, some_matches, query_ok, match_query, first_query_values,
}

-- What the request has under a configured name: under the name as it is spelled, or else under its
-- canonical form.
abbrev pub Finds : Platform → Dict Bytes → Bytes → Bytes → Type 0
Finds lib got k actual =
    (lookup k got ≡ some actual)
    ⊎ ((lookup k got ≡ none) × (lookup (lib.canonical k) got ≡ some actual))

header_value-Finds :
    (lib : Platform) (got : Dict Bytes) (k actual : Bytes)
    → header_value lib k got ≡ some actual
    → Finds lib got k actual
unfolding header_value
header_value-Finds lib got k actual h = elim (Option-cases (lookup k got)) [
  | inl missing ↦ inr (missing, ground arith)
  | inr (v, found) ↦ inl (ground arith)
]

Finds-header_value :
    (lib : Platform) (got : Dict Bytes) (k actual : Bytes)
    → Finds lib got k actual
    → header_value lib k got ≡ some actual
unfolding header_value
Finds-header_value lib got k actual (inl found) = ground arith
Finds-header_value lib got k actual (inr (missing, found)) = ground arith

abbrev HasHeader : Platform → Dict Bytes → Bytes → Bytes → Type 0
HasHeader lib got k v =
    (actual : Bytes) × Finds lib got k actual × (match_pattern lib v actual ≡ true)

header_ok-HasHeader :
    (lib : Platform) (got : Dict Bytes) (k v : Bytes)
    → header_ok lib got k v ≡ true
    → HasHeader lib got k v
unfolding header_ok
header_ok-HasHeader lib got k v h = elim (Option-cases (header_value lib k got)) [
  | inl missing ↦ absurd (ground arith)
  | inr (actual, found) ↦ (actual, header_value-Finds lib got k actual found, ground arith)
]

HasHeader-header_ok :
    (lib : Platform) (got : Dict Bytes) (k v : Bytes)
    → HasHeader lib got k v
    → header_ok lib got k v ≡ true
unfolding header_ok
HasHeader-header_ok lib got k v (actual, found, h) =
    rw (Finds-header_value lib got k actual found, header_ok) h

-- The configured headers match exactly when the request has each of them, under the name as it is
-- spelled or, if it has none under that, in canonical form, with a value that its pattern accepts.
-- The headers are a map, with each key once; no order of them matters.
pub match_headers_iff :
    (lib : Platform) (want got : Dict Bytes)
    → has_distinct_keys want ≡ true
    → (match_headers lib want got ≡ true) ↔ (
        (k v : Bytes)
        → lookup k want ≡ some v
        → (actual : Bytes) × Finds lib got k actual × (match_pattern lib v actual ≡ true))
unfolding match_headers
match_headers_iff lib want got d =
    let (to, from) = all_pairs_iff (header_ok lib got) want d in
    (
      λ h k v e. header_ok-HasHeader lib got k v (to h k v e),
      λ h. from (λ k v e. HasHeader-header_ok lib got k v (h k v e)),
    )

-- A value of a query parameter is accepted.
abbrev pub Accepts : Platform → Bytes → Bytes → Type 0
Accepts lib v actual = (v ≡ codes "*") ⊎ (match_query_value lib v actual ≡ true)

-- What a configured value asks of the values of its parameter.
abbrev pub QueryFits : Platform → Bytes → List Bytes → Type 0
QueryFits lib v values =
    ((v ≡ query_absent) × (values ≡ [])) ⊎ ((v ≢ query_absent) × Any (Accepts lib v) values)

some_matches-Any :
    (lib : Platform) (v : Bytes) (values : List Bytes)
    → some_matches lib v values ≡ true
    → Any (Accepts lib v) values
unfolding some_matches
some_matches-Any lib v [] h = cc
some_matches-Any lib v (x ∷ xs) h = elim (Bool-cases (text_eq v (codes "*"))) [
  | inl star ↦ inl (inl ((text_eq_iff v _).0 star))
  | inr plain ↦ elim (Bool-cases (match_query_value lib v x)) [
    | inl here ↦ inl (inr here)
    | inr missed ↦ inr (some_matches-Any lib v xs (rw (plain, missed) at h))
  ]
]

Any-some_matches :
    (lib : Platform) (v : Bytes) (values : List Bytes)
    → Any (Accepts lib v) values
    → some_matches lib v values ≡ true
unfolding some_matches
Any-some_matches lib v [] h = absurd h
Any-some_matches lib v (x ∷ xs) (inl (inl star)) = rw ((text_eq_iff v (codes "*")).1 star)
Any-some_matches lib v (x ∷ xs) (inl (inr here)) = rw (here, or_true)
Any-some_matches lib v (x ∷ xs) (inr later) = rw (Any-some_matches lib v xs later, or_true)

is_given-Any :
    (lib : Platform) (v : Bytes) (values : List Bytes)
    → Any (Accepts lib v) values
    → is_given values ≡ true
is_given-Any lib v [] h = absurd h
is_given-Any lib v (x ∷ xs) h = refl

query_ok-QueryFits :
    (lib : Platform) (got : Dict (List Bytes)) (k v : Bytes)
    → query_ok lib got k v ≡ true
    → QueryFits lib v (given (lookup k got))
unfolding query_ok
query_ok-QueryFits lib got k v h = elim (Bool-cases (text_eq v query_absent)) [
  | inl absent ↦ inl ((text_eq_iff v query_absent).0 absent, nothing _ (rw absent at h))
  | inr wanted ↦ inr (
    λ e. cc ((text_eq_iff v query_absent).1 e, wanted),
    some_matches-Any lib v _ (and_right _ _ (rw wanted at h)),
  )
]
  where
    nothing : (values : List Bytes) → not (is_given values) ≡ true → values ≡ []
    nothing [] e = refl
    nothing (x ∷ xs) e = cc

    and_right : (a b : Bool) → (a && b) ≡ true → b ≡ true
    and_right true b e = e
    and_right false b e = cc

QueryFits-query_ok :
    (lib : Platform) (got : Dict (List Bytes)) (k v : Bytes)
    → QueryFits lib v (given (lookup k got))
    → query_ok lib got k v ≡ true
unfolding query_ok
QueryFits-query_ok lib got k v (inl (absent, none_given)) =
    rw ((text_eq_iff v query_absent).1 absent, none_given)
QueryFits-query_ok lib got k v (inr (wanted, some_fit)) =
    elim (Bool-cases (text_eq v query_absent)) [
      | inl absent ↦ absurd (wanted ((text_eq_iff v query_absent).0 absent))
      | inr other ↦ rw (other, is_given-Any lib v _ some_fit, Any-some_matches lib v _ some_fit)
    ]

-- The configured query matches exactly when each parameter that is configured as absent has no value
-- in the request, and each other one has some value, among those it is repeated with, that is
-- accepted. The parameters are a map, with each key once; no order of them matters.
pub match_query_iff :
    (lib : Platform) (want : Dict Bytes) (got : Dict (List Bytes))
    → has_distinct_keys want ≡ true
    → (match_query lib want got ≡ true)
      ↔ ((k v : Bytes) → lookup k want ≡ some v → QueryFits lib v (given (lookup k got)))
unfolding match_query
match_query_iff lib want got d =
    let (to, from) = all_pairs_iff (query_ok lib got) want d in
    (
      λ h k v e. query_ok-QueryFits lib got k v (to h k v e),
      λ h. from (λ k v e. QueryFits-query_ok lib got k v (h k v e)),
    )

abbrev head_of : List Bytes → Option Bytes
head_of [] = none
head_of (v ∷ vs) = some v

-- The single-value view of a query has under each key the first of its values, and nothing under a
-- key without values.
pub lookup-first_query_values :
    (k : Bytes) (query : Dict (List Bytes))
    → has_distinct_keys query ≡ true
    → lookup k (first_query_values query) ≡ head_of (given (lookup k query))
unfolding first_query_values lookup has_distinct_keys
lookup-first_query_values k [] d = refl
lookup-first_query_values k ((j, []) ∷ query) d =
    ground (arith, lookup-first_query_values k query, text_eq_iff j k, has_key-lookup k query)
lookup-first_query_values k ((j, v ∷ vs) ∷ query) d =
    ground (arith, lookup-first_query_values k query)
