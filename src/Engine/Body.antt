-- ===== src/Engine/Body.antt =====
-- The four structured tests of a request body: JSON, form, multipart and XML.
pub mod Xml
use mockly.Base.{
  ℕ, Bool, true, false, not, Option, none, some, List, [], ◌∷◌, ◌++◌, ◌||◌, ◌&&◌, Bytes, codes,
  if◌then◌else◌, text_eq, equal_fold, split, Dict, lookup, insert, all_pairs,
}
use mockly.Engine.Platform.{
  Platform, Json, null, bool, num, str, arr, obj, Items, nil, cons, Fields, end, field, Part,
}
use mockly.Engine.Values.{get_header, given, some_matches}

-- `m[k]` on a decoded object
unfoldable pub member : Bytes → Fields → Option Json
member k end = none
member k (field j v fs) = if text_eq j k then some v else member k fs

abbrev pub fields_of : Json → Option Fields
fields_of (obj fs) = some fs
fields_of _ = none

unfoldable pub json_path_get : Json → List Bytes → Option Json
json_path_get v [] = some v
json_path_get v (seg ∷ path) = elim (fields_of v) [
  | none ↦ none
  | some fs ↦ elim (member seg fs) [ none ↦ none | some next ↦ json_path_get next path ]
]

unfoldable pub json_value_string : Platform → Json → Bytes
json_value_string lib (str t) = t
json_value_string lib (num t) = t
json_value_string lib (bool true) = codes "true"
json_value_string lib (bool false) = codes "false"
json_value_string lib null = codes "null"
json_value_string lib (arr xs) = lib.marshal (arr xs)
json_value_string lib (obj fs) = lib.marshal (obj fs)

unfoldable pub json_field_ok : Platform → Json → Bytes → Bytes → Bool
json_field_ok lib root dot_path expected = elim (json_path_get root (split b'.' dot_path)) [
  | none ↦ false
  | some actual ↦ text_eq expected (codes "*") || text_eq (json_value_string lib actual) expected
]

unfoldable pub match_body_json : Platform → Dict Bytes → Bytes → Bool
match_body_json lib want body = if text_eq body [] then false else elim (lib.unmarshal body) [
  | none ↦ false
  | some root ↦ all_pairs (json_field_ok lib root) want
]

-- The declared media type is that of a form.
unfoldable pub is_form : Platform → Dict Bytes → Bool
is_form lib headers = elim (lib.media_type (get_header headers (codes "Content-Type"))) [
  | none ↦ false
  | some (media_type, params) ↦ equal_fold media_type (codes "application/x-www-form-urlencoded")
]

unfoldable pub form_field_ok : Platform → Dict (List Bytes) → Bytes → Bytes → Bool
form_field_ok lib values key expected = some_matches lib expected (given (lookup key values))

unfoldable pub match_body_form : Platform → Dict Bytes → Bytes → Dict Bytes → Bool
match_body_form lib want body headers =
    if text_eq body []
    then false
    else if not (is_form lib headers)
    then false
    else elim (lib.parse_query body) [
      | none ↦ false
      | some values ↦ all_pairs (form_field_ok lib values) want
    ]

-- The field that a part adds to the map; a part without a form name adds none.
unfoldable pub part_fields : Part → Dict Bytes → Dict Bytes
part_fields p fields =
    if text_eq p.form_name []
    then fields
    else if text_eq p.file_name []
    then insert p.form_name p.contents fields
    else insert (p.form_name ++ codes ".content_type") p.content_type
        (insert (p.form_name ++ codes ".filename") p.file_name fields)

unfoldable pub multipart_fields : List Part → Dict Bytes → Dict Bytes
multipart_fields [] fields = fields
multipart_fields (p ∷ ps) fields = multipart_fields ps (part_fields p fields)

-- A configured field: present, and equal unless `*` is asked for.
unfoldable pub field_ok : Dict Bytes → Bytes → Bytes → Bool
field_ok fields key expected = elim (lookup key fields) [
  | none ↦ false
  | some actual ↦ text_eq expected (codes "*") || text_eq actual expected
]

content_type : Platform → Dict Bytes → Option Bytes
content_type lib headers = elim (lookup (codes "Content-Type") headers) [
  | none ↦ lookup (lib.canonical (codes "content-type")) headers
  | some v ↦ some v
]

-- The fields of a multipart body; `none` is any of the early returns.
unfoldable pub read_multipart : Platform → Bytes → Dict Bytes → Option (Dict Bytes)
unfolding content_type
read_multipart lib body headers = elim (content_type lib headers) [
  | none ↦ none
  | some declared ↦ elim (lib.media_type declared) [
    | none ↦ none
    | some (media_type, params) ↦ elim (lookup (codes "boundary") params) [
      | none ↦ none
      | some boundary ↦ elim (lib.parts body boundary) [
        | none ↦ none
        | some ps ↦ some (multipart_fields ps [])
      ]
    ]
  ]
]

unfoldable pub match_body_multipart : Platform → Dict Bytes → Bytes → Dict Bytes → Bool
match_body_multipart lib want body headers =
    if text_eq body [] then false else elim (read_multipart lib body headers) [
      | none ↦ false
      | some fields ↦ all_pairs (field_ok fields) want
    ]
