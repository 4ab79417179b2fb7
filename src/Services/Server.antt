-- ===== src/Services/Server.antt =====
-- The set-up of the services: SchedulerHTTPService of services/http.go and SchedulerRPCService of
-- services/rpc.go. What gin, gRPC and the operating system do with it is outside; a route that a
-- program adds by a function is a parameter.
use mathlib.Core.List.{map-append}
use agscheduler.Base.{
  String, ◌≡◌, refl, Option, none, some, List, [], ◌∷◌, ◌++◌, map, append_assoc, if◌then◌else◌,
  ◌==◌,
}
use agscheduler.Base.Dict.{Dict, insert, lookup, lookup-insert}
use agscheduler.Errors.{rpc_listen_failed}
use agscheduler.Result.{ok, err}
use agscheduler.Exec.{Exec}

pub data Method : Type 0 where
  get : Method
  post : Method
  put : Method
  delete : Method

-- What `Start` tells gin, in order.
pub data Setup (R : Type 0) : Type 0 where
  route : Method → (path : String) → Setup R  -- to a handler of the scheduler
  load_glob : (pattern : String) → Setup R
  static : (url_path local_path : String) → Setup R
  extra : R → Setup R
  page : (url_path html_file : String) → Setup R  -- a `GET` that serves the file
  listen : (address : String) → Setup R

pub record HtmlRoute : Type 0 where
  pub url_path : String
  pub html_file : String

-- A nil map of static paths is the empty one.
pub record HttpService (R : Type 0) : Type 0 where
  pub address : String
  pub static_paths : Dict String
  pub extra_routes : List R
  pub html_routes : List HtmlRoute
  pub html_glob_path : String

module _ {R : Type 0} where
  unfoldable pub register_routes : List (Setup R)
  register_routes =
      route post "/scheduler/job"
      ∷ route get "/scheduler/job/:id"
      ∷ route get "/scheduler/jobs"
      ∷ route put "/scheduler/job"
      ∷ route delete "/scheduler/job/:id"
      ∷ route delete "/scheduler/jobs"
      ∷ route post "/scheduler/job/:id/pause"
      ∷ route post "/scheduler/job/:id/resume"
      ∷ route post "/scheduler/job/run"
      ∷ route post "/scheduler/start"
      ∷ route post "/scheduler/stop"
      ∷ []

  unfoldable pub add_static_path : (url_path local_path : String) → HttpService R → HttpService R
  add_static_path url_path local_path s = record s {
    static_paths = insert url_path local_path s.static_paths;
  }

  unfoldable pub add_route : R → HttpService R → HttpService R
  add_route r s = record s { extra_routes = s.extra_routes ++ r ∷ [] }

  unfoldable pub add_html_route : (url_path html_file : String) → HttpService R → HttpService R
  add_html_route url_path html_file s = record s {
    html_routes = s.html_routes ++ record { url_path = url_path; html_file = html_file } ∷ [];
  }

  unfoldable pub add_html_glob_path : String → HttpService R → HttpService R
  add_html_glob_path pattern s = record s { html_glob_path = pattern }

  static_of : String × String → Setup R
  static_of (url_path, local_path) = static url_path local_path

  page_of : HtmlRoute → Setup R
  page_of r = page r.url_path r.html_file

  unfoldable pub pages : HttpService R → List (Setup R)
  unfolding static_of page_of
  pages s =
      (if s.html_glob_path == "" then [] else load_glob s.html_glob_path ∷ [])
      ++ (map static_of s.static_paths
          ++ (map (λ r. extra r) s.extra_routes ++ map page_of s.html_routes))

  -- `Start`, which never returns an error: what it tells gin, and the service with its address.
  unfoldable pub start : HttpService R → List (Setup R) × HttpService R
  unfolding register_routes pages
  start s =
      let address = if s.address == "" then "127.0.0.1:36370" else s.address in
      (register_routes ++ (pages s ++ listen address ∷ []), record s { address = address })

pub record RpcService : Type 0 where
  pub address : String

-- `Start` of SchedulerRPCService, up to its goroutine; the argument is what `net.Listen` reports.
unfoldable pub start_rpc : (bind : String → Option String) → Exec RpcService Unit
start_rpc bind s =
    let address = if s.address == "" then "127.0.0.1:36360" else s.address in
    elim (bind address) [
      | none ↦ (ok tt, record s { address = address })
      | some e ↦ (err (rpc_listen_failed e), record s { address = address })
    ]

-- A page that is added is set up behind all that was there before, and nothing else changes.
pages-add_html_route :
    {R : Type 0} (url_path html_file : String) (s : HttpService R)
    → pages (add_html_route url_path html_file s) ≡ pages s ++ page url_path html_file ∷ []
unfolding pages add_html_route page_of
pages-add_html_route url_path html_file s =
    rw
      (
        map-append page_of s.html_routes
            (record { url_path = url_path; html_file = html_file } ∷ []),
        append_assoc,
        append_assoc,
        append_assoc,
      )
      refl

-- A static path that is added serves its directory, and the others serve what they did.
lookup-add_static_path :
    {R : Type 0} (url_path local_path asked : String) (s : HttpService R)
    → lookup asked (add_static_path url_path local_path s).static_paths
      ≡ (if url_path == asked then some local_path else lookup asked s.static_paths)
unfolding add_static_path
lookup-add_static_path url_path local_path asked s =
    lookup-insert url_path asked local_path s.static_paths
