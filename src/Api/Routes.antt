-- ===== src/Api/Routes.antt =====
-- internal/api/handlers.go: which handler answers which method and path.
use weave_fs.Base.{
  Bool, ◌&&◌, ◌||◌, Option, none, some, List, [], ◌∷◌, Text, codes, ◌==◌, nat_eq, list_eq,
  if◌then◌else◌,
}
use weave_fs.Exec.{World}
use weave_fs.Server.Types.{FileServer}
use weave_fs.Api.Http.{Request}
use weave_fs.Api.Handlers.{
  Libp2p, Response, handle_put, handle_get, handle_share, handle_delete, handle_versions, handle_id,
  handle_disconnect,
}

abbrev pub Handler : Type 0
Handler = FileServer → Libp2p → Request → World → Response × World

-- A pattern of `ServeMux` with a method, and its handler.
pub record Route : Type 0 where
  pub method : Text
  pub path : Text
  pub handler : Handler

unfoldable pub routes : List Route
unfolding handle_put
routes =
    record { method = codes "PUT"; path = codes "/v1/files"; handler = handle_put }
    ∷ record { method = codes "GET"; path = codes "/v1/files"; handler = handle_get }
    ∷ record { method = codes "DELETE"; path = codes "/v1/files"; handler = handle_delete }
    ∷ record { method = codes "POST"; path = codes "/v1/share"; handler = handle_share }
    ∷ record { method = codes "GET"; path = codes "/v1/versions"; handler = handle_versions }
    ∷ record { method = codes "GET"; path = codes "/v1/id"; handler = handle_id }
    ∷ record { method = codes "DELETE"; path = codes "/v1/peers"; handler = handle_disconnect }
    ∷ []

-- A pattern with the method GET matches HEAD too.
takes_method : Text → Text → Bool
takes_method pattern method =
    pattern == method || (pattern == codes "GET" && method == codes "HEAD")

-- The handler of the pattern that the request matches; without one the mux answers.
unfoldable pub select : List Route → Request → Option Handler
unfolding takes_method
select [] req = none
select (r ∷ rs) req =
    if takes_method r.method req.method && r.path == req.path then some r.handler else select rs req
