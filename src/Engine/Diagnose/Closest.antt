-- ===== src/Engine/Diagnose/Closest.antt =====
-- The report of `HTTPDiagnose` in internal/engine/matcher.go.
use mockly.Base.{
  ℕ, ◌≤◌, ◌≡◌, refl, ap, ◌∙◌, Option, List, [], ◌∷◌, arith, All, if◌then◌else◌, take, leb, ◌==◌,
  Bool-cases, filter, inl, inr,
}
use mockly.State.{Store}
use mockly.Config.Http.{HttpMock}
use mockly.Engine.Platform.{Platform}
use mockly.Engine.Match.{Request}
use mockly.Engine.Diagnose.{
  Candidate, NearMiss, collect, place, sort_candidates, http_diagnose, near_misses, top_n,
}
use mockly.Engine.Diagnose.Laws.{graded, grades, collect-graded}

abbrev pub Bounded : ℕ → List Candidate → Type 0
Bounded d cs = All (λ c. c.depth ≤ d) cs

abbrev pub Falling : List Candidate → Type 0
Falling [] = Unit
Falling (c ∷ cs) = Bounded c.depth cs × Falling cs

abbrev pub at_depth : ℕ → List Candidate → List Candidate
at_depth d cs = filter (λ c. c.depth == d) cs

Bounded-mono : (d e : ℕ) (cs : List Candidate) → d ≤ e → Bounded d cs → Bounded e cs
Bounded-mono d e [] h b = tt
Bounded-mono d e (c ∷ cs) h (one, b) = (omega arith, Bounded-mono d e cs h b)

Bounded-place :
    (d : ℕ) (c : Candidate) (cs : List Candidate)
    → c.depth ≤ d
    → Bounded d cs
    → Bounded d (place c cs)
unfolding place
Bounded-place d c [] h b = (h, tt)
Bounded-place d c (x ∷ cs) h (one, b) = elim (Bool-cases (leb x.depth c.depth)) [
  | inl deeper ↦ rw deeper (h, (one, b))
  | inr less ↦ rw less (one, Bounded-place d c cs h b)
]

Falling-place : (c : Candidate) (cs : List Candidate) → Falling cs → Falling (place c cs)
unfolding place
Falling-place c [] f = (tt, tt)
Falling-place c (x ∷ cs) (b, f) = elim (Bool-cases (leb x.depth c.depth)) [
  | inl deeper ↦
      let le : x.depth ≤ c.depth = ground arith in
      rw deeper ((le, Bounded-mono x.depth c.depth cs le b), (b, f))
  | inr less ↦
      let le : c.depth ≤ x.depth = ground arith in
      rw less (Bounded-place x.depth c cs le b, Falling-place c cs f)
]

at_depth-place :
    (d : ℕ) (c : Candidate) (cs : List Candidate) → at_depth d (place c cs) ≡ at_depth d (c ∷ cs)
unfolding place
at_depth-place d c [] = refl
at_depth-place d c (x ∷ cs) = ground (arith, at_depth-place d c cs)

Falling-sort_candidates : (cs : List Candidate) → Falling (sort_candidates cs)
unfolding sort_candidates
Falling-sort_candidates [] = tt
Falling-sort_candidates (c ∷ cs) = Falling-place c (sort_candidates cs) (Falling-sort_candidates cs)

at_depth-sort_candidates :
    (d : ℕ) (cs : List Candidate) → at_depth d (sort_candidates cs) ≡ at_depth d cs
unfolding sort_candidates
at_depth-sort_candidates d [] = refl
at_depth-sort_candidates d (c ∷ cs) =
    at_depth-place d c (sort_candidates cs)
    ∙ ap (λ l. if c.depth == d then c ∷ l else l) (at_depth-sort_candidates d cs)

-- The candidates in the order of the mocks, and in the order of the report.
abbrev pub Report : Platform → Request → ℕ → List HttpMock → Option Store → List NearMiss → Type 0
Report lib req now mocks s report =
    (listed : List Candidate) × (ranked : List Candidate) × (grades listed
      ≡ graded lib req now mocks s)
    × Falling ranked
    × ((d : ℕ) → at_depth d ranked ≡ at_depth d listed)
    × (report ≡ near_misses (take top_n ranked))

-- `HTTPDiagnose` grades each mock by the number of tests that it passes before the first that it
-- fails, ranks the mocks by falling grade, those of one grade in the order of the list, and reports
-- the first three of them, or all of them if there are fewer.
pub http_diagnose-Report :
    (lib : Platform) (req : Request) (now : ℕ) (mocks : List HttpMock) (s : Option Store)
    → Report lib req now mocks s (http_diagnose lib req now mocks s).0
unfolding http_diagnose
http_diagnose-Report lib req now mocks s =
    let listed = (collect lib req now mocks s).0 in
    (
      listed,
      sort_candidates listed,
      collect-graded lib req now mocks s,
      Falling-sort_candidates listed,
      λ d. at_depth-sort_candidates d listed,
      refl,
    )
