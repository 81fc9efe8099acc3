-- ===== src/Snmp/Agent.antt =====
-- internal/protocols/snmpserver/agent.go: the answers to Get, GetNext, GetBulk and Set. A name is a
-- text, which `parse` reads as an identifier (oid_to_byte_string); `V` holds the values. What the
-- callbacks of an item give, panics included, is a field of the item.
pub mod Places
pub mod Walk
mod Tests
use mockly.Base.{
  ℕ, zero, suc, ◌+◌, ◌-◌, ◌%◌, ◌^◌, Bool, true, false, not, Option, none, some, List, [], ◌∷◌, ◌++◌,
  ◌&&◌, Bytes, codes, if◌then◌else◌, ltb, leb, ◌==◌, any, is_nil, length, take, drop, get_elem?,
  map,
}
use mockly.Snmp.{Oid, find_oid}

pub data Version : Type 0 where
  v1 v2c v3 : Version

pub data Kind : Type 0 where
  get get_next get_bulk set other : Kind

pub data Status : Type 0 where
  no_error no_such_name read_only not_writable : Status

abbrev pub is_v1 : Version → Bool
is_v1 v1 = true
is_v1 _ = false

abbrev pub is_no_error : Status → Bool
is_no_error no_error = true
is_no_error _ = false

-- `limit := 1; if req.MaxRepetitions != 0 { limit = … }`
abbrev pub repetitions : ℕ → ℕ
repetitions n = if n == 0 then 1 else n

-- What a variable of a response says.
pub data Binding (V : Type 0) : Type 0 where
  value : V → Binding V
  -- an octet string with "ERROR: " in front of the text
  failed : Bytes → Binding V
  no_such_instance no_such_object end_of_mib_view null : Binding V

pub record Variable (V : Type 0) : Type 0 where
  pub name : Bytes
  pub binding : Binding V

-- What the callback of an item returns: a value, or the text of an error.
pub data Got (V : Type 0) : Type 0 where
  got : V → Got V
  error_text : Bytes → Got V

-- `none` as `on_set` is a nil callback; an error is a text.
pub record Item (V : Type 0) : Type 0 where
  pub oid : Bytes
  pub on_get : Got V
  pub on_set : Option (V → Option Bytes)

pub record Request (V : Type 0) : Type 0 where
  pub version : Version
  pub kind : Kind
  pub variables : List (Bytes × V)
  pub non_repeaters : ℕ
  pub max_repetitions : ℕ

pub record Response (V : Type 0) : Type 0 where
  pub error : Status
  pub error_index : ℕ
  pub variables : List (Variable V)

module _ {V : Type 0} where
  unfoldable pub response_for : Request V → Response V
  response_for req = record { error = no_error; error_index = 0; variables = [] }

  abbrev pub binding_of : Got V → Binding V
  binding_of (got v) = value v
  binding_of (error_text text) = failed text

  -- `a.get(item)`
  unfoldable pub get_item : Item V → Variable V
  get_item item = record { name = item.oid; binding = binding_of item.on_get }

  -- `if resp.Error == gosnmp.NoError { resp.Error = …; resp.ErrorIndex = uint8(idx + 1) }`
  unfoldable pub mark_error : Status → ℕ → Response V → Response V
  mark_error status idx resp =
      if is_no_error resp.error
      then record resp { error = status; error_index = (idx + 1) % 2 ^ 8 }
      else resp

  unfoldable pub append_variable : Bytes → Binding V → Response V → Response V
  append_variable name b resp = record resp {
    variables = resp.variables ++ record { name = name; binding = b } ∷ [];
  }

module _ {V : Type 0} (parse : Bytes → Option Oid) where
  -- The identifiers of the items; one that does not parse counts as the empty one.
  unfoldable pub oid_of : Item V → Oid
  oid_of item = elim (parse item.oid) [ none ↦ [] | some oid ↦ oid ]

  unfoldable pub find_item : List (Item V) → Bytes → Bool × ℕ
  unfolding find_oid oid_of
  find_item items name = find_oid (map oid_of items) (parse name)

  -- `item, idx := findOID(…); if item != nil { idx++ }`
  unfoldable pub next_index : List (Item V) → Bytes → ℕ
  unfolding find_item
  next_index items name = let (found, i) = find_item items name in if found then suc i else i

  -- `item, _ := findOID(…)`
  unfoldable pub exact_item : List (Item V) → Bytes → Option (Item V)
  unfolding find_item
  exact_item items name =
      let (found, i) = find_item items name in if found then get_elem? items i else none

  unfoldable pub get_missing : Version → ℕ → Bytes → Response V → Response V
  unfolding mark_error append_variable
  get_missing version idx name resp =
      if is_v1 version
      then append_variable name no_such_instance (mark_error no_such_name idx resp)
      else append_variable name no_such_object resp

  -- The loop of `serveGet` from the variable `idx` on.
  unfoldable pub get_each : Version → List (Item V) → ℕ → List (Bytes × V) → Response V → Response V
  unfolding exact_item get_missing
  get_each version items idx [] resp = resp
  get_each version items idx ((name, v) ∷ variables) resp =
      get_each version items (idx + 1) variables (elim (exact_item items name) [
        | none ↦ get_missing version idx name resp
        | some item ↦ record resp { variables = resp.variables ++ get_item item ∷ [] }
      ])

  unfoldable pub serve_get : List (Item V) → Request V → Response V
  unfolding get_each response_for
  serve_get items req = get_each req.version items 0 req.variables (response_for req)

  -- The name of the last variable.
  unfoldable pub last_name : List (Bytes × V) → Option Bytes
  last_name [] = none
  last_name ((name, v) ∷ []) = some name
  last_name (first ∷ second ∷ variables) = last_name (second ∷ variables)

  unfoldable pub exhausted : Version → Bytes → Response V → Response V
  unfolding append_variable
  exhausted version query resp =
      if is_v1 version
      then record resp { error = no_such_name; error_index = 1 }
      else append_variable query end_of_mib_view resp

  -- The items from `idx` on, as many as are asked for and are there.
  unfoldable pub some_items : List (Item V) → ℕ → ℕ → List (Variable V)
  unfolding get_item
  some_items items idx limit =
      let n = if ltb (length items) (idx + limit) then length items - idx else limit in
      map get_item (take n (drop idx items))

  unfoldable pub serve_get_next : List (Item V) → Request V → Response V
  unfolding last_name exhausted some_items next_index response_for
  serve_get_next items req = elim (last_name req.variables) [
    | none ↦ response_for req
    | some query ↦
        let idx = next_index items query in
        if leb (length items) idx
        then exhausted req.version query (response_for req)
        else elim (some_items items idx (repetitions req.max_repetitions)) [
          | [] ↦ exhausted req.version query (response_for req)
          | (x ∷ xs) ↦ record (response_for req) { variables = x ∷ xs }
        ]
  ]

  -- A variable of `serveGetBulk` at the index of an item, or the end of the table.
  unfoldable pub at_index : List (Item V) → ℕ → Option (Variable V)
  unfolding get_item
  at_index items i = elim (get_elem? items i) [ none ↦ none | some item ↦ some (get_item item) ]

  abbrev ended : Bytes → Variable V
  ended query = record { name = query; binding = end_of_mib_view }

  -- The loop over the variables that do not repeat.
  unfoldable pub non_repeating : List (Item V) → List (Bytes × V) → List (Variable V)
  unfolding at_index next_index
  non_repeating items [] = []
  non_repeating items ((query, v) ∷ variables) =
      let rest = non_repeating items variables in
      elim (at_index items (next_index items query)) [
        | none ↦ ended query ∷ rest
        | some x ↦ x ∷ rest
      ]

  -- One round of the loop over the repeaters, from the position `k` on: the variables that are
  -- appended and the positions that have reached the end.
  unfoldable pub bulk_round :
      List (Item V) → ℕ → ℕ → List (Bytes × V) → List ℕ → List (Variable V) × List ℕ
  unfolding at_index next_index
  bulk_round items rep k [] sent = ([], sent)
  bulk_round items rep k ((query, v) ∷ variables) sent =
      elim (at_index items (next_index items query + rep)) [
        | some x ↦
            let (rest, after) = bulk_round items rep (k + 1) variables sent in (x ∷ rest, after)
        | none ↦
            if any (λ j. j == k) sent
            then bulk_round items rep (k + 1) variables sent
            else (let (rest, after) = bulk_round items rep (k + 1) variables (k ∷ sent) in
                (ended query ∷ rest, after))
      ]

  -- The rounds that are left, up to the one in which every repeater has reached the end.
  unfoldable pub bulk_rounds : List (Item V) → ℕ → ℕ → List (Bytes × V) → List ℕ → List (Variable V)
  unfolding bulk_round
  bulk_rounds items zero rep variables sent = []
  bulk_rounds items (suc left) rep variables sent =
      let (out, after) = bulk_round items rep 0 variables sent in
      let rest = bulk_rounds items left (rep + 1) variables after in
      if length after == length variables then out else out ++ rest

  unfoldable pub serve_get_bulk : List (Item V) → Request V → Response V
  unfolding non_repeating bulk_rounds response_for
  serve_get_bulk items req =
      let n = length req.variables in
      let non_repeaters = if ltb n req.non_repeaters then n else req.non_repeaters in
      let max_reps =
        if ltb (length items) req.max_repetitions then length items else req.max_repetitions in
      record (response_for req) {
        variables =
            non_repeating items (take non_repeaters req.variables)
            ++ bulk_rounds items max_reps 0 (drop non_repeaters req.variables) [];
      }

  -- One round of the loop of `serveSet`.
  unfoldable pub set_one : Version → List (Item V) → ℕ → Bytes → V → Response V → Response V
  unfolding exact_item mark_error append_variable
  set_one version items idx name v resp = elim (exact_item items name) [
    | none ↦
        append_variable name no_such_instance
          (mark_error (if is_v1 version then no_such_name else not_writable) idx resp)
    | some item ↦ elim item.on_set [
      | none ↦
          append_variable name null
            (mark_error (if is_v1 version then read_only else not_writable) idx resp)
      | some on_set ↦ elim (on_set v) [
        | none ↦ append_variable name (value v) resp
        | some text ↦ append_variable name (failed text) resp
      ]
    ]
  ]

  unfoldable pub set_each : Version → List (Item V) → ℕ → List (Bytes × V) → Response V → Response V
  unfolding set_one
  set_each version items idx [] resp = resp
  set_each version items idx ((name, v) ∷ variables) resp =
      set_each version items (idx + 1) variables (set_one version items idx name v resp)

  unfoldable pub serve_set : List (Item V) → Request V → Response V
  unfolding set_each response_for
  serve_set items req = set_each req.version items 0 req.variables (response_for req)

  -- The variables of the request, unchanged.
  unfoldable pub echoed : List (Bytes × V) → List (Variable V)
  echoed [] = []
  echoed ((name, v) ∷ variables) = record { name = name; binding = value v } ∷ echoed variables

  unfoldable pub echo_v1 : Request V → Response V → Response V
  unfolding echoed
  echo_v1 req resp =
      if is_v1 req.version && not (is_no_error resp.error)
      then record resp { variables = echoed req.variables }
      else resp

  -- `serve`; `none` is the error of an unsupported request.
  unfoldable pub serve : List (Item V) → Request V → Option (Response V)
  unfolding echo_v1 serve_get serve_get_next serve_get_bulk serve_set
  serve items req = elim req.kind [
    | get ↦ some (echo_v1 req (serve_get items req))
    | get_next ↦ some (echo_v1 req (serve_get_next items req))
    | get_bulk ↦ some (echo_v1 req (serve_get_bulk items req))
    | set ↦ some (echo_v1 req (serve_set items req))
    | other ↦ none
  ]
