-- ===== src/Engine/Diagnose.antt =====
-- `HTTPDiagnose`: for each mock the first test that it fails, the closest mocks first.
-- A reason is a value with the arguments that the program formats into its text.
pub mod Laws
pub mod Closest
pub mod Reasons
use mockly.Base.{
  ℕ, ◌+◌, suc, Bool, true, false, not, Option, none, some, List, [], ◌∷◌, ◌||◌, ◌&&◌, Bytes, codes,
  if◌then◌else◌, text_eq, leb, take, Dict, lookup, map,
}
use mockly.State.{Store}
use mockly.Config.Http.{HttpMock, HttpRequest}
use mockly.Engine.Platform.{Platform}
use mockly.Engine.Path.{match_path, run_regex}
use mockly.Engine.Values.{
  match_pattern, match_headers, match_query, first_query_values, header_value, query_absent, given,
  is_given, some_matches,
}
use mockly.Engine.Auth.{match_auth}
use mockly.Engine.Body.{match_body_json, match_body_form, match_body_multipart}
use mockly.Engine.Body.Xml.{match_body_xml}
use mockly.Engine.Match.{Request, match_method, unless_empty, match_state}
use mockly.Engine.Match.Laws.{is_found}

pub data Reason : Type 0 where
  matches_all header_mismatch query_mismatch : Reason
  method_mismatch path_regex_mismatch path_mismatch : Bytes → Bytes → Reason
  header_not_present query_present query_not_present body_mismatch : Bytes → Reason
  header_value_mismatch : Bytes → Bytes → Bytes → Reason
  query_value_mismatch : Bytes → List Bytes → Bytes → Reason
  json_mismatch form_mismatch multipart_mismatch xml_mismatch : Reason
  state_not_satisfied authentication_failed : Reason

pub record NearMiss : Type 0 where
  pub mock_id : Bytes
  pub reason : Reason

pub record Candidate : Type 0 where
  pub near_miss : NearMiss
  pub depth : ℕ

module _ (lib : Platform) where
  unfoldable pub first_failing_header : Dict Bytes → Dict Bytes → Reason
  first_failing_header [] got = header_mismatch
  first_failing_header ((k, v) ∷ want) got =
      let rest = first_failing_header want got in
      elim (header_value lib k got) [
        | none ↦ header_not_present k
        | some actual ↦
            if not (match_pattern lib v actual) then header_value_mismatch k actual v else rest
      ]

  unfoldable pub first_failing_query : Dict Bytes → Dict (List Bytes) → Reason
  first_failing_query [] got = query_mismatch
  first_failing_query ((k, v) ∷ want) got =
      let rest = first_failing_query want got in
      let values = given (lookup k got) in
      if text_eq v query_absent
      then (if is_given values then query_present k else rest)
      else if not (is_given values)
      then query_not_present k
      else if not (some_matches lib v values)
      then query_value_mismatch k values v
      else rest

abbrev star_for_empty : Bytes → Bytes
star_for_empty want = if text_eq want [] then codes "*" else want

module _ (lib : Platform) (req : Request) where
  -- The path's test: `none` when it passes, else the reason.
  unfoldable pub path_reason : HttpRequest → Option Reason
  path_reason r =
      if not (text_eq r.path_regex [])
      then (if run_regex (lib.compile r.path_regex) req.path
          then none
          else some (path_regex_mismatch r.path_regex req.path))
      else if is_found (match_path lib r.path req.path)
      then none
      else some (path_mismatch r.path req.path)

  -- The last two tests, with the depth that is reached before them.
  unfoldable pub evaluate_end : ℕ → HttpMock → Option Store → (Reason × ℕ) × Option Store
  evaluate_end now m s =
      let (state_ok, t) = match_state m.state now s in
      if not state_ok
      then ((state_not_satisfied, 9), t)
      else if not (match_auth lib m.request.auth req.headers (first_query_values req.query))
      then ((authentication_failed, 10), t)
      else ((matches_all, 11), t)

  -- The tests of the bodies.
  unfoldable pub evaluate_body : ℕ → HttpMock → Option Store → (Reason × ℕ) × Option Store
  evaluate_body now m s =
      let r = m.request in
      if not (text_eq r.body []) && not (match_pattern lib r.body req.body)
      then ((body_mismatch r.body, 4), s)
      else if not (unless_empty r.body_json (match_body_json lib r.body_json req.body))
      then ((json_mismatch, 5), s)
      else if not (unless_empty r.body_form (match_body_form lib r.body_form req.body req.headers))
      then ((form_mismatch, 6), s)
      else if not (
          unless_empty r.body_multipart
            (match_body_multipart lib r.body_multipart req.body req.headers))
      then ((multipart_mismatch, 7), s)
      else if not (unless_empty r.body_xml (match_body_xml lib r.body_xml req.body))
      then ((xml_mismatch, 8), s)
      else evaluate_end now m s

  -- The body of the loop labelled `evaluate`.
  unfoldable pub evaluate : ℕ → HttpMock → Option Store → (Reason × ℕ) × Option Store
  evaluate now m s =
      let r = m.request in
      if not (match_method r.method req.method)
      then ((method_mismatch (star_for_empty r.method) req.method, 0), s)
      else elim (path_reason r) [
        | some reason ↦ ((reason, 1), s)
        | none ↦
            if not (match_headers lib r.headers req.headers)
            then ((first_failing_header lib r.headers req.headers, 2), s)
            else if not (match_query lib r.query req.query)
            then ((first_failing_query lib r.query req.query, 3), s)
            else evaluate_body now m s
      ]

  -- The loop that appends the candidates.
  unfoldable pub collect : ℕ → List HttpMock → Option Store → List Candidate × Option Store
  collect now [] s = ([], s)
  collect now (m ∷ mocks) s =
      let ((reason, depth), t) = evaluate now m s in
      let (rest, u) = collect now mocks t in
      (record { near_miss = record { mock_id = m.id; reason = reason }; depth = depth } ∷ rest, u)

-- `sort.SliceStable` by falling depth
unfoldable pub place : Candidate → List Candidate → List Candidate
place c [] = c ∷ []
place c (d ∷ ds) = let rest = place c ds in if leb d.depth c.depth then c ∷ d ∷ ds else d ∷ rest

unfoldable pub sort_candidates : List Candidate → List Candidate
unfolding place
sort_candidates [] = []
sort_candidates (c ∷ cs) = place c (sort_candidates cs)

abbrev pub top_n : ℕ
top_n = 3

unfoldable pub near_misses : List Candidate → List NearMiss
near_misses [] = []
near_misses (c ∷ cs) = c.near_miss ∷ near_misses cs

unfoldable pub http_diagnose :
    Platform → Request → ℕ → List HttpMock → Option Store → List NearMiss × Option Store
unfolding near_misses
http_diagnose lib req now mocks s =
    let (candidates, t) = collect lib req now mocks s in
    (near_misses (take top_n (sort_candidates candidates)), t)
