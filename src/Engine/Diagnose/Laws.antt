-- ===== src/Engine/Diagnose/Laws.antt =====
-- The candidates of `HTTPDiagnose` in internal/engine/matcher.go.
use mathlib.Core.Path.{subst}
use mockly.Base.{
  ℕ, ◌+◌, suc, ◌≡◌, refl, sym, ap, ◌∙◌, Bool, true, false, Option, none, some, List, [], ◌∷◌, arith,
  Bytes, if◌then◌else◌, drop, ◌⊎◌, inl, inr,
}
use mockly.State.{Store}
use mockly.Config.Http.{HttpMock, HttpRequest}
use mockly.Engine.Platform.{Platform}
use mockly.Engine.Values.{first_query_values}
use mockly.Engine.Auth.{match_auth}
use mockly.Engine.Match.{Request, match_state, path_params}
use mockly.Engine.Match.Laws.{
  is_found, checks, state_holds, SameView, SameView-refl, state_holds-SameView,
  match_state-state_holds,
}
use mockly.Engine.Diagnose.{Candidate, path_reason, evaluate_end, evaluate_body, evaluate, collect}

-- How many tests pass before the first that fails.
abbrev pub leading : List Bool → ℕ
leading [] = 0
leading (b ∷ bs) = if b then suc (leading bs) else 0

-- The identifiers and depths of candidates.
abbrev pub grades : List Candidate → List (Bytes × ℕ)
grades [] = []
grades (c ∷ cs) = (c.near_miss.mock_id, c.depth) ∷ grades cs

module _ (lib : Platform) (req : Request) where
  path_reason-path_params :
      (r : HttpRequest)
      → is_found (path_params lib r req.path)
        ≡ elim (path_reason lib req r) [ none ↦ true | some reason ↦ false ]
  unfolding path_reason path_params
  path_reason-path_params r = ground arith

  evaluate_end-leading :
      (now : ℕ) (m : HttpMock) (s : Option Store)
      → (evaluate_end lib req now m s).0.1 ≡ (
          if state_holds m.state now s
          then (if match_auth lib m.request.auth req.headers (first_query_values req.query)
              then 11
              else 10)
          else 9)
  unfolding evaluate_end
  evaluate_end-leading now m s = ground (arith, (match_state-state_holds m.state now s).0)

  body_checks : ℕ → HttpMock → Option Store → List Bool
  body_checks now m s = drop 4 (checks lib req now m s)

  evaluate_body-leading :
      (now : ℕ) (m : HttpMock) (s : Option Store)
      → (evaluate_body lib req now m s).0.1 ≡ 4 + leading (body_checks now m s)
  unfolding evaluate_body body_checks
  evaluate_body-leading now m s = ground (arith, evaluate_end-leading now m s)

  -- The depth that `HTTPDiagnose` gives a mock is the number of tests that the mock passes before
  -- the first that it fails, in the order in which `HTTPMatch` applies them, eleven if it passes
  -- them all; the state is read at the request's instant.
  pub evaluate-leading :
      (now : ℕ) (m : HttpMock) (s : Option Store)
      → (evaluate lib req now m s).0.1 ≡ leading (checks lib req now m s)
  unfolding evaluate body_checks
  evaluate-leading now m s =
      ground (arith, evaluate_body-leading now m s, path_reason-path_params m.request)

  evaluate_end-store :
      (now : ℕ) (m : HttpMock) (s : Option Store)
      → (evaluate_end lib req now m s).1 ≡ (match_state m.state now s).1
  unfolding evaluate_end
  evaluate_end-store now m s = ground arith

  evaluate_body-store :
      (now : ℕ) (m : HttpMock) (s : Option Store)
      → ((evaluate_body lib req now m s).1 ≡ s)
        ⊎ ((evaluate_body lib req now m s).1 ≡ (match_state m.state now s).1)
  unfolding evaluate_body
  evaluate_body-store now m s = ground (arith, evaluate_end-store now m s)

  evaluate-store :
      (now : ℕ) (m : HttpMock) (s : Option Store)
      → ((evaluate lib req now m s).1 ≡ s)
        ⊎ ((evaluate lib req now m s).1 ≡ (match_state m.state now s).1)
  unfolding evaluate
  evaluate-store now m s = ground (arith, evaluate_body-store now m s)

  evaluate-SameView :
      (now : ℕ) (m : HttpMock) (s : Option Store) → SameView now s (evaluate lib req now m s).1
  evaluate-SameView now m s = elim (evaluate-store now m s) [
    | inl same ↦ subst (SameView now s) (sym same) (SameView-refl now s)
    | inr read ↦ subst (SameView now s) (sym read) (match_state-state_holds m.state now s).1
  ]

  -- The identifier and the depth that `HTTPDiagnose` gives each mock for a store.
  abbrev pub graded : ℕ → List HttpMock → Option Store → List (Bytes × ℕ)
  graded now [] s = []
  graded now (m ∷ mocks) s = (m.id, leading (checks lib req now m s)) ∷ graded now mocks s

  graded-SameView :
      (now : ℕ) (mocks : List HttpMock) (s t : Option Store)
      → SameView now s t
      → graded now mocks t ≡ graded now mocks s
  graded-SameView now [] s t h = refl
  graded-SameView now (m ∷ mocks) s t h =
      rw (state_holds-SameView m.state now s t h, graded-SameView now mocks s t h) refl

  pub collect-graded :
      (now : ℕ) (mocks : List HttpMock) (s : Option Store)
      → grades (collect lib req now mocks s).0 ≡ graded now mocks s
  unfolding collect
  collect-graded now [] s = refl
  collect-graded now (m ∷ mocks) s =
      ap (λ d. (m.id, d) ∷ grades (collect lib req now mocks (evaluate lib req now m s).1).0)
        (evaluate-leading now m s)
      ∙ ap (λ l. (m.id, leading (checks lib req now m s)) ∷ l)
          (collect-graded now mocks (evaluate lib req now m s).1
            ∙ graded-SameView now mocks s (evaluate lib req now m s).1 (evaluate-SameView now m s))
