-- ===== src/Engine/Values.antt =====
-- The values of headers and query parameters, and the text patterns they are held against.
pub mod Laws
use mockly.Base.{
  ℕ, Bool, true, false, not, Option, none, some, List, [], ◌∷◌, ◌||◌, ◌&&◌, Bytes, codes, any,
  if◌then◌else◌, text_eq, has_prefix, trim_prefix, contains, equal_fold, Dict, lookup, all_pairs,
}
use mockly.Engine.Platform.{Platform}
use mockly.Engine.Path.{run_regex}

-- `matchPattern`, which `matchBody` calls
unfoldable pub match_pattern : Platform → Bytes → Bytes → Bool
match_pattern lib pattern text =
    if text_eq pattern [] || text_eq pattern (codes "*")
    then true
    else if has_prefix pattern (codes "re:")
    then run_regex (lib.compile (trim_prefix pattern (codes "re:"))) text
    else contains text pattern

-- `hasHeader` and `getHeader`
unfoldable pub has_header : Dict Bytes → Bytes → Bool
has_header [] name = false
has_header ((k, v) ∷ headers) name = equal_fold k name || has_header headers name

unfoldable pub get_header : Dict Bytes → Bytes → Bytes
get_header [] name = []
get_header ((k, v) ∷ headers) name = if equal_fold k name then v else get_header headers name

-- The lookup of a configured header: as it is spelled, and then in canonical form.
unfoldable pub header_value : Platform → Bytes → Dict Bytes → Option Bytes
header_value lib k got = elim (lookup k got) [
  | none ↦ lookup (lib.canonical k) got
  | some actual ↦ some actual
]

-- One round of the loop of `matchHeaders`.
unfoldable pub header_ok : Platform → Dict Bytes → Bytes → Bytes → Bool
header_ok lib got k v = elim (header_value lib k got) [
  | none ↦ false
  | some actual ↦ match_pattern lib v actual
]

unfoldable pub match_headers : Platform → Dict Bytes → Dict Bytes → Bool
match_headers lib want got = all_pairs (header_ok lib got) want

abbrev pub query_absent : Bytes
query_absent = codes "!present"

-- `matchQueryValue` and `matchAuthValue`
unfoldable pub match_query_value : Platform → Bytes → Bytes → Bool
match_query_value lib pattern actual =
    if has_prefix pattern (codes "re:")
    then run_regex (lib.compile (trim_prefix pattern (codes "re:"))) actual
    else text_eq pattern actual

abbrev pub given : Option (List Bytes) → List Bytes
given none = []
given (some values) = values

abbrev pub is_given : List Bytes → Bool
is_given [] = false
is_given (v ∷ vs) = true

-- Some value is accepted.
unfoldable pub some_matches : Platform → Bytes → List Bytes → Bool
some_matches lib v values =
    any (λ actual. text_eq v (codes "*") || match_query_value lib v actual) values

-- One round of the loop of `matchQuery`.
unfoldable pub query_ok : Platform → Dict (List Bytes) → Bytes → Bytes → Bool
query_ok lib got k v =
    if text_eq v query_absent
    then not (is_given (given (lookup k got)))
    else is_given (given (lookup k got)) && some_matches lib v (given (lookup k got))

unfoldable pub match_query : Platform → Dict Bytes → Dict (List Bytes) → Bool
match_query lib want got = all_pairs (query_ok lib got) want

-- `firstQueryValues`
unfoldable pub first_query_values : Dict (List Bytes) → Dict Bytes
first_query_values [] = []
first_query_values ((k, []) ∷ query) = first_query_values query
first_query_values ((k, v ∷ vs) ∷ query) = (k, v) ∷ first_query_values query
