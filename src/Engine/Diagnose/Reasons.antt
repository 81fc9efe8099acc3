-- ===== src/Engine/Diagnose/Reasons.antt =====
-- The reasons of `HTTPDiagnose` for headers and queries.
use mathlib.Core.Path.{subst}
use mockly.Base.{
  ◌≡◌, sym, true, false, none, some, List, [], ◌∷◌, arith, Bytes, Any, text_eq, Bool-cases,
  Option-cases, Dict, lookup, ◌⊎◌, inl, inr,
}
use mockly.Engine.Platform.{Platform}
use mockly.Engine.Values.{
  match_pattern, header_value, header_ok, match_headers, query_absent, query_ok, match_query, given,
  is_given, some_matches,
}
use mockly.Engine.Diagnose.{
  Reason, header_not_present, header_value_mismatch, query_present, query_not_present,
  query_value_mismatch, first_failing_header, first_failing_query,
}

-- A configured header that the request lacks, or has with a value that its pattern does not accept.
abbrev pub Blames : Platform → Dict Bytes → Reason → Bytes × Bytes → Type 0
Blames lib got reason (k, v) =
    ((reason ≡ header_not_present k) × (header_value lib k got ≡ none))
    ⊎ ((actual : Bytes) × (reason ≡ header_value_mismatch k actual v)
        × (header_value lib k got ≡ some actual)
        × (match_pattern lib v actual ≡ false))

-- A configured parameter that must be absent and is not, or that is missing, or has no value that is
-- accepted.
abbrev pub BlamesQuery : Platform → Dict (List Bytes) → Reason → Bytes × Bytes → Type 0
BlamesQuery lib got reason (k, v) =
    ((reason ≡ query_present k)
      × (text_eq v query_absent ≡ true)
      × (is_given (given (lookup k got)) ≡ true))
    ⊎ ((reason ≡ query_not_present k)
        × (text_eq v query_absent ≡ false)
        × (is_given (given (lookup k got)) ≡ false))
    ⊎ ((reason ≡ query_value_mismatch k (given (lookup k got)) v)
        × (text_eq v query_absent ≡ false)
        × (some_matches lib v (given (lookup k got)) ≡ false))

module _ (lib : Platform) where
  -- When the headers do not match, the reason of `HTTPDiagnose` is that of a configured header that
  -- the request lacks, or has with a value, which is named, that the pattern does not accept.
  pub first_failing_header-Blames :
      (want got : Dict Bytes)
      → match_headers lib want got ≡ false
      → Any (Blames lib got (first_failing_header lib want got)) want
  unfolding match_headers first_failing_header header_ok
  first_failing_header-Blames [] got h = cc
  first_failing_header-Blames ((k, v) ∷ want) got h = elim (Option-cases (header_value lib k got)) [
    | inl missing ↦ inl (inl (ground arith, missing))
    | inr (actual, found) ↦ elim (Bool-cases (match_pattern lib v actual)) [
      | inl fits ↦ inr (
          subst (λ r. Any (Blames lib got r) want) (sym (skip actual found fits))
            (first_failing_header-Blames want got (ground arith)))
      | inr fails ↦ inl (inr (actual, ground arith, found, fails))
    ]
  ]
    where
      skip :
          (actual : Bytes)
          → header_value lib k got ≡ some actual
          → match_pattern lib v actual ≡ true
          → first_failing_header lib ((k, v) ∷ want) got ≡ first_failing_header lib want got
      skip actual found fits = ground arith

  -- When the query does not match, the reason of `HTTPDiagnose` is that of a configured parameter
  -- that must be absent and is not, or that has no value, or none that is accepted.
  pub first_failing_query-BlamesQuery :
      (want : Dict Bytes) (got : Dict (List Bytes))
      → match_query lib want got ≡ false
      → Any (BlamesQuery lib got (first_failing_query lib want got)) want
  unfolding match_query first_failing_query query_ok
  first_failing_query-BlamesQuery [] got h = cc
  first_failing_query-BlamesQuery ((k, v) ∷ want) got h =
      let values = given (lookup k got) in
      elim (Bool-cases (text_eq v query_absent)) [
        | inl absent ↦ elim (Bool-cases (is_given values)) [
          | inl present ↦ inl (inl (ground arith, absent, present))
          | inr gone ↦
              inr (later (ground arith) (first_failing_query-BlamesQuery want got (ground arith)))
        ]
        | inr wanted ↦ elim (Bool-cases (is_given values)) [
          | inr gone ↦ inl (inr (inl (ground arith, wanted, gone)))
          | inl present ↦ elim (Bool-cases (some_matches lib v values)) [
            | inl fits ↦
                inr (later (ground arith) (first_failing_query-BlamesQuery want got (ground arith)))
            | inr fails ↦ inl (inr (inr (ground arith, wanted, fails)))
          ]
        ]
      ]
    where
      later :
          first_failing_query lib ((k, v) ∷ want) got ≡ first_failing_query lib want got
          → Any (BlamesQuery lib got (first_failing_query lib want got)) want
          → Any (BlamesQuery lib got (first_failing_query lib ((k, v) ∷ want) got)) want
      later skip rest = subst (λ r. Any (BlamesQuery lib got r) want) (sym skip) rest
