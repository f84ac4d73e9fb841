-- ===== src/WebServer.antt =====
-- example/WebServer/WebServer.cpp: a server of the files in a directory, as the callback that it gives to
-- its HttpServer. `fstatat` and `openat` in that directory are parameters: what is known of a path, and
-- the descriptor that a path is opened as, or none for -1.
pub mod Files
use Prim.Native.Nat.{bit_and}
use yvent.Prelude.{
  ℕ, List, [], ◌∷◌, ◌++◌, Bool, true, false, not, ◌==◌, if◌then◌else◌, Option, none, some, length,
}
use yvent.Fault.{Result, ok, err, out_of_range, ◌>>=◌}
use yvent.Text.{codes, Entry, find}
use yvent.TcpConnection
use yvent.TcpConnection.{TcpConnection}
use yvent.Http.Request.{HttpRequest}
use yvent.Http.Response.{HttpResponse, set_content_type}

pub record Stat : Type 0 where
  pub mode : ℕ
  pub size : ℕ

-- `location_` and `contentTypes`.
pub record Site : Type 0 where
  pub indexs : List (List ℕ)
  pub content_types : List Entry

unfoldable pub site : Site
site = record {
  indexs = codes "index.html" ∷ codes "index.htm" ∷ [];
  content_types =
      (codes "html", codes "text/html; charset=utf-8")
      ∷ (codes "txt", codes "text/plain; charset=utf-8")
      ∷ (codes "xml", codes "text/xml")
      ∷ (codes "asp", codes "text/asp")
      ∷ (codes "css", codes "text/css")
      ∷ (codes "gif", codes "image/gif")
      ∷ (codes "ico", codes "image/x-icon")
      ∷ (codes "png", codes "image/png")
      ∷ (codes "jpg", codes "image/jpeg")
      ∷ (codes "js", codes "application/javascript")
      ∷ (codes "pdf", codes "application/pdf")
      ∷ [];
}

-- What stands from the last `c` on: `rfind` and `substr` from there.
unfoldable pub from_last : ℕ → List ℕ → Option (List ℕ)
from_last c [] = none
from_last c (x ∷ xs) =
    let later = from_last c xs in
    elim later [ none ↦ if x == c then some (x ∷ xs) else none | some s ↦ some s ]

-- `substr(1)`.
abbrev pub substr1 : List ℕ → Result (List ℕ)
substr1 [] = err out_of_range
substr1 (x ∷ xs) = ok xs

-- What a function of C sees of a string: all before the first NUL.
unfoldable pub c_str : List ℕ → List ℕ
c_str [] = []
c_str (x ∷ xs) = let rest = c_str xs in if x == 0 then [] else x ∷ rest

abbrev pub is_directory : Stat → Bool
is_directory stats = not (bit_and stats.mode 0x4000 == 0)

-- With a slash at its end.
unfoldable pub with_slash : List ℕ → List ℕ
with_slash [] = b'/' ∷ []
with_slash (x ∷ []) = if x == b'/' then x ∷ [] else x ∷ b'/' ∷ []
with_slash (x ∷ y ∷ xs) = x ∷ with_slash (y ∷ xs)

-- The loop over the names of index files.
unfoldable pub find_index : (List ℕ → Option Stat) → List ℕ → List (List ℕ) → Option (List ℕ × Stat)
find_index fstatat path [] = none
find_index fstatat path (name ∷ names) =
    let rest = find_index fstatat path names in
    elim (fstatat (c_str (path ++ name))) [ none ↦ rest | some stats ↦ some (path ++ name, stats) ]

abbrev pub or_else : List ℕ → Option (List ℕ) → List ℕ
or_else s none = s
or_else s (some t) = t

abbrev pub with_type : Option (List ℕ) → HttpResponse → HttpResponse
with_type none rsp = rsp
with_type (some content_type) rsp = set_content_type content_type rsp

unfoldable pub not_found : HttpResponse → HttpResponse
not_found rsp = record rsp { status_code = 404 }

-- The path that is opened for an index file that is there, and its suffix.
unfoldable pub choose_index : List ℕ → List ℕ → List ℕ → List ℕ × List ℕ
choose_index path suffix index = elim (from_last b'.' index) [
  | none ↦ (path, suffix)
  | some tail ↦ (index, tail)
]

-- The end of `onRequest`, from `openat` on.
unfoldable pub serve :
    Site
    → (List ℕ → Option ℕ)
    → List ℕ
    → List ℕ
    → Stat
    → TcpConnection
    → HttpResponse
    → Result (TcpConnection × HttpResponse)
serve at openat path suffix stats conn rsp = do
  extension ← substr1 suffix
  ok (
    TcpConnection.set_send_fd (openat (c_str path)) stats.size conn,
    with_type (find extension at.content_types) (record rsp { body_len = stats.size }),
  )

-- The part for what the path names.
unfoldable pub serve_path :
    Site
    → (List ℕ → Option Stat)
    → (List ℕ → Option ℕ)
    → List ℕ
    → List ℕ
    → TcpConnection
    → HttpResponse
    → Result (TcpConnection × HttpResponse)
unfolding serve not_found choose_index
serve_path at fstatat openat path suffix conn rsp = elim (fstatat (c_str path)) [
  | none ↦ ok (conn, not_found rsp)
  | some stats ↦
      if is_directory stats
      then elim (find_index fstatat (with_slash path) at.indexs) [
        | none ↦ ok (conn, not_found rsp)
        | some (index, found) ↦
            let (opened, tail) = choose_index (with_slash path) suffix index in
            serve at openat opened tail found conn rsp
      ]
      else serve at openat path suffix stats conn rsp
]

unfoldable pub on_request :
    Site
    → (List ℕ → Option Stat)
    → (List ℕ → Option ℕ)
    → TcpConnection
    → HttpRequest
    → HttpResponse
    → Result (TcpConnection × HttpResponse)
unfolding serve_path
on_request at fstatat openat conn req rsp = do
  path ← (if length req.path == 1 then ok (codes "./") else substr1 req.path)
  serve_path at fstatat openat path (or_else [] (from_last b'.' req.path)) conn rsp
