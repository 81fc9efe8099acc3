-- ===== src/Engine/Body/Xml.antt =====
-- `parseXMLBody`, `xmlPathGet` and `matchBodyXML`. A node is put under its parent when it ends, which
-- for the nested elements of a document is the order of the source.
use mockly.Base.{
  Bool, false, Option, none, some, List, [], ◌∷◌, ◌++◌, ◌||◌, Bytes, codes, if◌then◌else◌, text_eq,
  has_prefix, trim_prefix, trim_space, split, Dict, lookup, insert, all_pairs,
}
use mockly.Engine.Platform.{Platform, XmlToken, start, text, stop, other}

mutual
  pub data XmlNode : Type 0 where
    node : Dict Bytes → Bytes → XmlChildren → XmlNode

  pub data XmlChildren : Type 0 where
    end : XmlChildren
    child : Bytes → XmlNode → XmlChildren → XmlChildren

abbrev pub attrs_of : XmlNode → Dict Bytes
attrs_of (node attrs t cs) = attrs

abbrev pub text_of : XmlNode → Bytes
text_of (node attrs t cs) = t

abbrev pub children_of : XmlNode → XmlChildren
children_of (node attrs t cs) = cs

unfoldable pub child_named : Bytes → XmlChildren → Option XmlNode
child_named k end = none
child_named k (child j n cs) = if text_eq j k then some n else child_named k cs

-- `Children[name] = node`
unfoldable pub put_child : Bytes → XmlNode → XmlChildren → XmlChildren
put_child k n end = child k n end
put_child k n (child j m cs) = if text_eq j k then child j n cs else child j m (put_child k n cs)

attributes : List (Bytes × Bytes) → Dict Bytes → Dict Bytes
attributes [] m = m
attributes ((k, v) ∷ attrs) m = attributes attrs (insert k v m)

-- The open elements, innermost first, and the root once it has ended.
abbrev Stack : Type 0
Stack = List (Bytes × XmlNode)

abbrev add_text : Bytes → Stack → Stack
add_text t [] = []
add_text t ((name, node attrs old cs) ∷ stack) = (name, node attrs (old ++ t) cs) ∷ stack

abbrev close : Stack → Option XmlNode → Stack × Option XmlNode
close [] root = ([], root)
close ((name, n) ∷ []) root = ([], some n)
close ((name, n) ∷ (parent, node attrs t cs) ∷ stack) root =
    ((parent, node attrs t (put_child name n cs)) ∷ stack, root)

abbrev xml_step : XmlToken → Stack × Option XmlNode → Stack × Option XmlNode
xml_step (start name attrs) (stack, root) =
    ((name, node (attributes attrs []) [] end) ∷ stack, root)
xml_step (text t) (stack, root) = (add_text (trim_space t) stack, root)
xml_step stop (stack, root) = close stack root
xml_step other (stack, root) = (stack, root)

build : List XmlToken → Stack × Option XmlNode → Option XmlNode
unfolding put_child attributes
build [] (stack, root) = root
build (t ∷ tokens) s = build tokens (xml_step t s)

-- `none` is an error: a document that the decoder refuses or one without a root.
unfoldable pub parse_xml_body : Platform → Bytes → Option XmlNode
unfolding build
parse_xml_body lib body = elim (lib.xml_tokens body) [
  | none ↦ none
  | some tokens ↦ build tokens ([], none)
]

unfoldable pub xml_path_get : XmlNode → List Bytes → Option Bytes
unfolding child_named
xml_path_get cur [] = none
xml_path_get cur (seg ∷ path) =
    if has_prefix seg (codes "@")
    then lookup (trim_prefix seg (codes "@")) (attrs_of cur)
    else elim (child_named seg (children_of cur)) [
      | none ↦ none
      | some next ↦ elim path [ [] ↦ some (text_of next) | _ ↦ xml_path_get next path ]
    ]

unfoldable pub xml_field_ok : XmlNode → Bytes → Bytes → Bool
xml_field_ok root dot_path expected = elim (xml_path_get root (split b'.' dot_path)) [
  | none ↦ false
  | some actual ↦ text_eq expected (codes "*") || text_eq actual expected
]

unfoldable pub match_body_xml : Platform → Dict Bytes → Bytes → Bool
unfolding xml_field_ok
match_body_xml lib want body = if text_eq body [] then false else elim (parse_xml_body lib body) [
  | none ↦ false
  | some root ↦ all_pairs (xml_field_ok root) want
]
