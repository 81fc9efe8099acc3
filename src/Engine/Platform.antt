-- ===== src/Engine/Platform.antt =====
-- What the matcher calls of the standard library and does not implement: any functions, bundled.
-- Each depends on its arguments alone.
use mockly.Base.{Bool, Option, Bytes, Dict, List}

-- A decoded JSON value. A number is the text that `jsonValueString` writes for it.
mutual
  pub data Json : Type 0 where
    null : Json
    bool : Bool → Json
    num str : Bytes → Json
    arr : Items → Json
    obj : Fields → Json

  pub data Items : Type 0 where
    nil : Items
    cons : Json → Items → Items

  pub data Fields : Type 0 where
    end : Fields
    field : Bytes → Json → Fields → Fields

-- A part of a multipart body: form name, file name, content type and data.
pub record Part : Type 0 where
  pub form_name : Bytes
  pub file_name : Bytes
  pub content_type : Bytes
  pub contents : Bytes

-- A token of an XML document; comments, directives and instructions are `other`.
pub data XmlToken : Type 0 where
  start : Bytes → List (Bytes × Bytes) → XmlToken
  text : Bytes → XmlToken
  stop other : XmlToken

pub record Platform : Type 0 where
  -- `regexp.Compile`, and `MatchString` of what it returns
  pub compile : Bytes → Option (Bytes → Bool)
  -- `http.CanonicalHeaderKey`
  pub canonical : Bytes → Bytes
  -- `mime.ParseMediaType`
  pub media_type : Bytes → Option (Bytes × Dict Bytes)
  -- `url.ParseQuery`
  pub parse_query : Bytes → Option (Dict (List Bytes))
  -- `json.Unmarshal` into an `interface{}`, and `json.Marshal`
  pub unmarshal : Bytes → Option Json
  pub marshal : Json → Bytes
  -- the parts that `multipart.Reader` yields for a body and a boundary; `none` is an error
  pub parts : Bytes → Bytes → Option (List Part)
  -- the tokens that `xml.Decoder` yields for a body; `none` is an error
  pub xml_tokens : Bytes → Option (List XmlToken)
  -- `base64.StdEncoding.DecodeString`
  pub base64 : Bytes → Option Bytes
