-- ===== src/HttpServer/Counts.antt =====
-- internal/protocols/httpserver/server.go: the mocks of the server and the counts of their calls.
use mockly.Base.{
  Option, none, some, List, [], ◌∷◌, ◌&&◌, Bytes, Dict, lookup, insert, all, filter, text_eq,
  is_nil, if◌then◌else◌,
}
use mockly.Base.Int.{ℤ, pos, wrap64, ◌+ℤ◌}
use mockly.Config.Http.{HttpMock}

-- The fields of a server that its methods change; a missing count is 0.
pub record Server : Type 0 where
  pub mocks : List HttpMock
  pub call_counts : Dict ℤ

unfoldable pub new : List HttpMock → Server
new mocks = record { mocks = mocks; call_counts = [] }

unfoldable pub set_mocks : List HttpMock → Server → Server
set_mocks mocks s = record s { mocks = mocks; call_counts = [] }

unfoldable pub get_mocks : Server → List HttpMock
get_mocks s = s.mocks

unfoldable pub count_of : Option ℤ → ℤ
count_of none = pos 0
count_of (some n) = n

unfoldable pub call_count : Bytes → Server → ℤ
unfolding count_of
call_count mock_id s = count_of (lookup mock_id s.call_counts)

unfoldable pub reset_call_counts : Server → Server
reset_call_counts s = record s { call_counts = [] }

-- `s.callCounts[matchedID]++` and the count that is read back under the same lock.
unfoldable pub count_call : Bytes → Server → ℤ × Server
unfolding call_count
count_call mock_id s =
    let n = wrap64 (call_count mock_id s +ℤ pos 1) in
    (n, record s { call_counts = insert mock_id n s.call_counts })

-- `mocksForListener`
unfoldable pub mocks_for_listener : List HttpMock → Bytes → List HttpMock
mocks_for_listener mocks name =
    if is_nil name && all (λ m. is_nil m.listener) mocks
    then mocks
    else filter (λ m. text_eq m.listener name) mocks

-- The loop that finds the mock again by its identifier.
unfoldable pub find_mock : Bytes → List HttpMock → Option HttpMock
find_mock mock_id [] = none
find_mock mock_id (m ∷ mocks) =
    let rest = find_mock mock_id mocks in if text_eq m.id mock_id then some m else rest
