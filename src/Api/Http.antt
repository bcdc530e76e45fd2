-- ===== src/Api/Http.antt =====
-- What the API uses of Go's `net/http` and `net/url`: a request with its query, and a response.
use weave_fs.Base.{ℕ, ℤ, List, [], ◌∷◌, Text, ◌==◌, nat_eq, list_eq, if◌then◌else◌}
use weave_fs.Disk.{Reader}

-- The query in the order of the request. A content length that is not known is -1.
pub record Request : Type 0 where
  pub method : Text
  pub path : Text
  pub query : List (Text × Text)
  pub content_length : ℤ
  pub body : Reader

-- `Values.Get`: the first value under the name, or the empty text.
unfoldable pub query_get : Text → List (Text × Text) → Text
query_get name [] = []
query_get name ((k, v) ∷ q) = let rest = query_get name q in if k == name then v else rest

-- All values under the name.
unfoldable pub query_all : Text → List (Text × Text) → List Text
query_all name [] = []
query_all name ((k, v) ∷ q) = let rest = query_all name q in if k == name then v ∷ rest else rest

abbrev pub status_ok : ℕ
status_ok = 200

abbrev pub status_bad_request : ℕ
status_bad_request = 400

abbrev pub status_not_found : ℕ
status_not_found = 404

abbrev pub status_internal_server_error : ℕ
status_internal_server_error = 500
