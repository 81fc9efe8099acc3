-- ===== src/HttpServer/Sequence/Laws.antt =====
-- The sequences of `handleRequest` in internal/protocols/httpserver/server.go, call after call.
use native.Mathlib.Nat.{mod-eq_of_lt}
use mockly.Base.{
  ℕ, suc, ◌+◌, ◌-◌, ◌^◌, ◌%◌, ◌<◌, ◌≤◌, ◌&&◌, ◌≡◌, refl, sym, ap, ◌∙◌, Bool, true, false, Option,
  some, List, [], ◌∷◌, Bytes, codes, length, ltb, leb, text_eq, text_eq_iff, text_eq_refl,
  if◌then◌else◌, arith, lookup, lookup-insert, Bool-cases, inl, inr,
}
use mockly.Base.Int.{ℤ, pos, wrap64, wrap64_fits, ◌+ℤ◌, ◌-ℤ◌}
use mockly.Config.Http.{HttpMock, HttpResponse}
use mockly.HttpServer.Counts.{Server, new, count_of, call_count, count_call}
use mockly.HttpServer.Sequence.{Choice, not_found, entry_at, past_end, choose_at, choose}

-- The server after calls of the mocks with the identifiers of a list.
abbrev pub after : List Bytes → Server → Server
after [] s = s
after (id ∷ ids) s = after ids (count_call id s).1

-- How often an identifier stands in a list.
abbrev pub occurrences : Bytes → List Bytes → ℕ
occurrences id [] = 0
occurrences id (x ∷ ids) = let n = occurrences id ids in if text_eq id x then suc n else n

-- What the calls of a mock promise: the `k`-th, from 0, gives the `k`-th entry; past the end the
-- entries start again, or nothing is found, or the last entry stays.
abbrev pub promised : List HttpResponse → Bytes → ℕ → Choice
promised seq exhausted k =
    if text_eq exhausted (codes "loop")
    then entry_at seq (k % length seq)
    else if text_eq exhausted (codes "not_found") && leb (length seq) k
    then not_found
    else entry_at seq (if ltb k (length seq) then k else length seq - 1)

up : (n : ℕ) → pos n +ℤ pos 1 ≡ pos (suc n)
up n = ground arith

down : (n : ℕ) → pos (suc n) -ℤ pos 1 ≡ pos n
down n = ground arith

-- The number that a call is given, and its index.
count-next : (n : ℕ) → n < 2 ^ 63 - 1 → wrap64 (pos n +ℤ pos 1) ≡ pos (suc n)
count-next n h = ap wrap64 (up n) ∙ wrap64_fits (pos (suc n)) (omega (arith, h)) (omega arith)

index-next : (n : ℕ) → n < 2 ^ 63 - 1 → wrap64 (pos (suc n) -ℤ pos 1) ≡ pos n
index-next n h = ap wrap64 (down n) ∙ wrap64_fits (pos n) (omega (arith, h)) (omega arith)

given :
    (id : Bytes) (s : Server) (n : ℕ)
    → call_count id s ≡ pos n
    → n < 2 ^ 63 - 1
    → (count_call id s).0 ≡ pos (suc n)
unfolding count_call
given id s n h k = ap (λ c. wrap64 (c +ℤ pos 1)) h ∙ count-next n k

count_of-if :
    (b : Bool) (v : ℤ) (o : Option ℤ)
    → count_of (if b then some v else o) ≡ (if b then v else count_of o)
unfolding count_of
count_of-if true v o = refl
count_of-if false v o = refl

-- A call counts for its mock and for no other.
count-insert :
    (id x : Bytes) (s : Server)
    → call_count id (count_call x s).1
      ≡ (if text_eq x id then (count_call x s).0 else call_count id s)
unfolding call_count count_of count_call
count-insert id x s =
    ap count_of (lookup-insert x id (count_call x s).0 s.call_counts)
    ∙ count_of-if (text_eq x id) (count_call x s).0 (lookup id s.call_counts)

count-call :
    (id x : Bytes) (s : Server) (n : ℕ)
    → call_count id s ≡ pos n
    → n < 2 ^ 63 - 1
    → call_count id (count_call x s).1 ≡ pos (if text_eq id x then suc n else n)
count-call id x s n h k = elim (Bool-cases (text_eq id x)) [
  | inl e ↦
      let same : id ≡ x = (text_eq_iff id x).0 e in
      count-insert id x s
      ∙ rw (same, text_eq_refl x) (given x s n (ap (λ i. call_count i s) (sym same) ∙ h) k)
  | inr e ↦ count-insert id x s ∙ ground (arith, text_eq_iff id x, text_eq_iff x id, h)
]

zero_plus : (n : ℕ) → 0 + n ≡ n
zero_plus n = omega arith

occurrences_le : (id : Bytes) (ids : List Bytes) → occurrences id ids ≤ length ids
occurrences_le id [] = omega arith
occurrences_le id (x ∷ ids) = ground (arith, occurrences_le id ids)

-- The count of a mock is the number of its calls.
count-after :
    (id : Bytes) (ids : List Bytes) (s : Server) (n : ℕ)
    → call_count id s ≡ pos n
    → n + length ids < 2 ^ 63
    → call_count id (after ids s) ≡ pos (n + occurrences id ids)
count-after id [] s n h k = h ∙ ap pos (plain n)
  where
    plain : (n : ℕ) → n ≡ n + 0
    plain n = omega arith
count-after id (x ∷ ids) s n h k =
    let m : ℕ = if text_eq id x then suc n else n in
    let bound : m + length ids < 2 ^ 63 = ground arith in
    let sum : m + occurrences id ids ≡ n + occurrences id (x ∷ ids) = ground arith in
    count-after id ids (count_call x s).1 m (count-call id x s n h (omega (arith, k))) bound
    ∙ ap pos sum

choose-promised :
    (seq : List HttpResponse) (exhausted : Bytes) (k : ℕ)
    → 0 < length seq
    → k < 2 ^ 63 - 1
    → choose seq exhausted (pos (suc k)) ≡ promised seq exhausted k
unfolding choose choose_at past_end
choose-promised seq exhausted k h l =
    ap (choose_at seq exhausted) (index-next k l) ∙ elim (Bool-cases (ltb k (length seq))) [
      | inl e ↦
          let same : entry_at seq (k % length seq) ≡ entry_at seq k =
            ap (entry_at seq) (mod-eq_of_lt (ground arith)) in
          ground arith
      | inr e ↦ ground arith
    ]

-- However the calls of the mocks follow each other after the mocks were set, the next call of a mock
-- with a sequence gets the entry that stands at the number of its earlier calls; past the end a
-- sequence that loops starts again, one that is exhausted answers 404, and another keeps its last
-- entry. There are fewer than 2 ^ 63 - 1 calls.
pub choose-after :
    (mocks : List HttpMock) (ids : List Bytes) (id : Bytes) (seq : List HttpResponse)
    (exhausted : Bytes)
    → 0 < length seq
    → length ids < 2 ^ 63 - 1
    → choose seq exhausted (count_call id (after ids (new mocks))).0
      ≡ promised seq exhausted (occurrences id ids)
unfolding new call_count count_of lookup
choose-after mocks ids id seq exhausted h k =
    let few : occurrences id ids < 2 ^ 63 - 1 = omega (arith, occurrences_le id ids, k) in
    let counted : call_count id (after ids (new mocks)) ≡ pos (0 + occurrences id ids) =
      count-after id ids (new mocks) 0 refl (omega (arith, k)) in
    ap (choose seq exhausted)
      (given id (after ids (new mocks)) (occurrences id ids) (counted ∙ ap pos (zero_plus _)) few)
    ∙ choose-promised seq exhausted (occurrences id ids) h few
