-- ===== src/Engine/Path.antt =====
-- `matchPath` and `matchPathSegments`. The result `(true, params)` is `some params`, with no entry
-- for nil, and `(false, nil)` is `none`.
pub mod Segments
pub mod Wildcard
use mockly.Base.{
  ℕ, ◌-◌, Bool, true, false, Option, none, some, List, [], ◌∷◌, ◌++◌, ◌&&◌, ◌||◌, Bytes, codes,
  length, take, drop, ◌==◌, if◌then◌else◌, text_eq, has_prefix, has_suffix, trim_prefix,
  trim_suffix, contains, split, Dict, insert,
}
use mockly.Engine.Platform.{Platform}

-- `{name}`
unfoldable pub is_named : Bytes → Bool
is_named seg = has_prefix seg (codes "{") && has_suffix seg (codes "}")

-- `seg[1 : len(seg)-1]`
unfoldable pub name_of : Bytes → Bytes
name_of seg = take (length seg - 2) (drop 1 seg)

-- `if name := …; name != "" { params[name] = sp[i] }`
unfoldable pub capture : Bytes → Bytes → Dict Bytes → Dict Bytes
capture name part params = if text_eq name [] then params else insert name part params

-- One round of the loop: `none` is `return false, nil`.
unfoldable pub match_segment : Bytes → Bytes → Dict Bytes → Option (Dict Bytes)
unfolding capture
match_segment seg part params =
    if text_eq seg (codes "*")
    then some params
    else if is_named seg
    then some (capture (name_of seg) part params)
    else if text_eq seg part
    then some params
    else none

-- The loop, after the lengths were compared.
unfoldable pub match_segments : List Bytes → List Bytes → Dict Bytes → Option (Dict Bytes)
match_segments [] [] params = some params
match_segments (seg ∷ pp) (part ∷ sp) params = elim (match_segment seg part params) [
  | none ↦ none
  | some found ↦ match_segments pp sp found
]
match_segments _ _ params = none

unfoldable pub match_path_segments : Bytes → Bytes → Option (Dict Bytes)
match_path_segments pattern path =
    let pp = split b'/' pattern in
    let sp = split b'/' path in if length pp == length sp then match_segments pp sp [] else none

-- `(b, nil)`
abbrev pub when : Bool → Option (Dict Bytes)
when true = some []
when false = none

-- A pattern that may be a regular expression that does not compile.
abbrev pub run_regex : Option (Bytes → Bool) → Bytes → Bool
run_regex none text = false
run_regex (some re) text = re text

unfoldable pub match_path : Platform → Bytes → Bytes → Option (Dict Bytes)
match_path lib pattern path =
    if text_eq pattern [] || text_eq pattern (codes "*")
    then some []
    else if has_prefix pattern (codes "re:")
    then when (run_regex (lib.compile (trim_prefix pattern (codes "re:"))) path)
    else if has_suffix pattern (codes "/*")
    then (let prefix = trim_suffix pattern (codes "/*") in
        when (text_eq path prefix || has_prefix path (prefix ++ codes "/")))
    else if contains pattern (codes "*")
        || (contains pattern (codes "{") && contains pattern (codes "}"))
    then match_path_segments pattern path
    else when (text_eq pattern path)
