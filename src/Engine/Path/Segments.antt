-- ===== src/Engine/Path/Segments.antt =====
-- `matchPathSegments` of internal/engine/matcher.go.
use mockly.Base.{
  ◌≡◌, ◌≢◌, ◌↔◌, ◌⊎◌, inl, inr, refl, true, Option, none, some, List, [], ◌∷◌, arith, Bytes, codes,
  length, ◌==◌, if◌then◌else◌, text_eq, text_eq_iff, split, Dict, lookup, lookup-insert, Bool-cases,
  Option-cases,
}
use mockly.Engine.Path.{
  is_named, name_of, capture, match_segment, match_segments, match_path_segments,
}

-- A segment of a pattern fits a segment of a path.
abbrev pub FitsOne : Bytes → Bytes → Type 0
FitsOne seg part = (seg ≡ codes "*") ⊎ (is_named seg ≡ true) ⊎ (seg ≡ part)

abbrev pub Fits : List Bytes → List Bytes → Type 0
Fits [] [] = Unit
Fits (seg ∷ pp) (part ∷ sp) = FitsOne seg part × Fits pp sp
Fits _ _ = ⊥

match_segment-FitsOne :
    (seg part : Bytes) (params : Dict Bytes)
    → FitsOne seg part
    → (found : Dict Bytes) × (match_segment seg part params ≡ some found)
unfolding match_segment
match_segment-FitsOne seg part params h = elim (Bool-cases (text_eq seg (codes "*"))) [
  | inl star ↦ (params, rw star)
  | inr plain ↦ elim (Bool-cases (is_named seg)) [
    | inl named ↦ (capture (name_of seg) part params, rw (plain, named))
    | inr literal ↦ (params, ground (arith, text_eq_iff seg (codes "*"), text_eq_iff seg part))
  ]
]

FitsOne-of_match_segment :
    (seg part : Bytes) (params found : Dict Bytes)
    → match_segment seg part params ≡ some found
    → FitsOne seg part
unfolding match_segment
FitsOne-of_match_segment seg part params found e =
    ground (arith, text_eq_iff seg (codes "*"), text_eq_iff seg part)

match_segments-Fits :
    (pp sp : List Bytes) (params : Dict Bytes)
    → Fits pp sp
    → (found : Dict Bytes) × (match_segments pp sp params ≡ some found)
unfolding match_segments
match_segments-Fits [] [] params h = (params, refl)
match_segments-Fits [] (part ∷ sp) params h = absurd h
match_segments-Fits (seg ∷ pp) [] params h = absurd h
match_segments-Fits (seg ∷ pp) (part ∷ sp) params (one, h) =
    let (next, e) = match_segment-FitsOne seg part params one in
    let (found, rest) = match_segments-Fits pp sp next h in (found, rw (e, match_segments) rest)

Fits-of_match_segments :
    (pp sp : List Bytes) (params found : Dict Bytes)
    → match_segments pp sp params ≡ some found
    → Fits pp sp
unfolding match_segments
Fits-of_match_segments [] [] params found e = tt
Fits-of_match_segments [] (part ∷ sp) params found e = cc
Fits-of_match_segments (seg ∷ pp) [] params found e = cc
Fits-of_match_segments (seg ∷ pp) (part ∷ sp) params found e =
    elim (Option-cases (match_segment seg part params)) [
      | inl missed ↦ absurd (ground arith)
      | inr (next, first) ↦ (
        FitsOne-of_match_segment seg part params next first,
        Fits-of_match_segments pp sp next found (ground arith),
      )
    ]

length-Fits : (pp sp : List Bytes) → Fits pp sp → (length pp == length sp) ≡ true
length-Fits [] [] h = refl
length-Fits [] (part ∷ sp) h = absurd h
length-Fits (seg ∷ pp) [] h = absurd h
length-Fits (seg ∷ pp) (part ∷ sp) (one, h) = ground (arith, length-Fits pp sp h)

-- A path matches a pattern by segments exactly when they have as many segments and each segment of
-- the pattern is `*`, is a name in braces, or is the segment of the path.
pub match_path_segments_iff :
    (pattern path : Bytes)
    → ((params : Dict Bytes) × (match_path_segments pattern path ≡ some params))
      ↔ Fits (split b'/' pattern) (split b'/' path)
unfolding match_path_segments
match_path_segments_iff pattern path = (
  λ m.
      let (params, e) = m in
      Fits-of_match_segments (split b'/' pattern) (split b'/' path) [] params (ground arith),
  λ h.
      let (params, e) = match_segments-Fits (split b'/' pattern) (split b'/' path) [] h in
      (params, rw (length-Fits (split b'/' pattern) (split b'/' path) h) e),
)

-- The part that the last segment called `{name}` stands at, or else `before`.
pub last_at : Bytes → List Bytes → List Bytes → Option Bytes → Option Bytes
last_at name (seg ∷ pp) (part ∷ sp) before = last_at name pp sp (
    if text_eq seg (codes "*")
    then before
    else if is_named seg
    then (if text_eq (name_of seg) name then some part else before)
    else before)
last_at name _ _ before = before

lookup-match_segment :
    (name seg part : Bytes) (params found : Dict Bytes)
    → name ≢ []
    → match_segment seg part params ≡ some found
    → lookup name found ≡ (
        if text_eq seg (codes "*")
        then lookup name params
        else if is_named seg
        then (if text_eq (name_of seg) name then some part else lookup name params)
        else lookup name params)
unfolding match_segment capture
lookup-match_segment name seg part params found named e = ground (
  arith,
  lookup-insert (name_of seg) name part params,
  text_eq_iff (name_of seg) [],
  text_eq_iff (name_of seg) name,
)

lookup-match_segments :
    (name : Bytes) (pp sp : List Bytes) (params found : Dict Bytes)
    → name ≢ []
    → match_segments pp sp params ≡ some found
    → lookup name found ≡ last_at name pp sp (lookup name params)
unfolding match_segments last_at
lookup-match_segments name [] [] params found named e = ground arith
lookup-match_segments name [] (part ∷ sp) params found named e = cc
lookup-match_segments name (seg ∷ pp) [] params found named e = cc
lookup-match_segments name (seg ∷ pp) (part ∷ sp) params found named e =
    elim (Option-cases (match_segment seg part params)) [
      | inl missed ↦ absurd (ground arith)
      | inr (next, first) ↦
          rw (← lookup-match_segment name seg part params next named first)
            (lookup-match_segments name pp sp next found named (ground arith))
    ]

-- When a path matches by segments, every name but the empty one has as its parameter the part of the path at the last
-- segment that is called so, and no parameter if no segment is.
pub lookup-match_path_segments :
    (name pattern path : Bytes) (params : Dict Bytes)
    → name ≢ []
    → match_path_segments pattern path ≡ some params
    → lookup name params ≡ last_at name (split b'/' pattern) (split b'/' path) none
unfolding match_path_segments lookup
lookup-match_path_segments name pattern path params named e =
    lookup-match_segments name (split b'/' pattern) (split b'/' path) [] params named (ground arith)
