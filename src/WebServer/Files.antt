-- ===== src/WebServer/Files.antt =====
-- What the server of files answers, and how a request ends it.
use yvent.Prelude.{
  Mem, suc, ==_iff, arith, All, ◌++◌, ℕ, ◌≡◌, ◌≢◌, refl, ap, ◌∙◌, List, [], ◌∷◌, ◌⊎◌, inl, inr,
  false, Bool-cases, Option, none, some, length, ◌==◌, if◌then◌else◌,
}
use yvent.Fault.{ok, err, out_of_range, ◌>>=◌}
use yvent.Text.{codes}
use yvent.TcpConnection
use yvent.TcpConnection.{TcpConnection}
use yvent.Http.Request.{HttpRequest}
use yvent.Http.Response.{HttpResponse}
use yvent.WebServer.{
  Stat, Site, from_last, substr1, c_str, is_directory, with_slash, or_else, serve, serve_path,
  on_request,
}

-- Nothing is there: the status says so, and nothing else changes.
pub record IsMissing (at : Site) (fstatat : List ℕ → Option Stat) (path : List ℕ)
    (conn : TcpConnection) (rsp : HttpResponse) (answer : TcpConnection × HttpResponse)
    : Type 0 where
  pub absent :
      (fstatat (c_str path) ≡ none)
      ⊎ All (λ name. fstatat (c_str (with_slash path ++ name)) ≡ none) at.indexs
  pub conn_kept : answer.0 ≡ conn
  pub status : answer.1.status_code ≡ 404
  pub rest : record answer.1 { status_code = rsp.status_code } ≡ rsp

-- What is opened for a request of `path` where `file` was found: the file; or, for an index file on
-- whose path is no dot, the directory.
abbrev pub IsNamed : Site → (path file opened : List ℕ) → Stat → Type 0
IsNamed at path file opened stats =
    ((file ≡ path) × (is_directory stats ≡ false) × (opened ≡ file))
    ⊎ ((name : List ℕ) × Mem name at.indexs
        × (file ≡ with_slash path ++ name)
        × ((opened ≡ file) ⊎ ((from_last b'.' file ≡ none) × (opened ≡ with_slash path))))

-- A file is there, or an index file in the directory: the length that is announced is the size of the file,
-- and the connection has that size and the descriptor of what is opened for it.
pub record IsServed (at : Site) (fstatat : List ℕ → Option Stat) (openat : List ℕ → Option ℕ)
    (path : List ℕ) (conn : TcpConnection) (answer : TcpConnection × HttpResponse) : Type 0 where
  pub file : List ℕ
  pub opened : List ℕ
  pub stats : Stat
  pub there : fstatat (c_str file) ≡ some stats
  pub which : IsNamed at path file opened stats
  pub announced : answer.1.body_len ≡ stats.size
  pub to_send : answer.0 ≡ record conn { send_fd = openat (c_str opened); file_size = stats.size }

module _ (at : Site) (fstatat : List ℕ → Option Stat) (openat : List ℕ → Option ℕ)
    (conn : TcpConnection) (rsp : HttpResponse) where
  abbrev pub Answer : List ℕ → TcpConnection × HttpResponse → Type 0
  Answer path answer =
      IsMissing at fstatat path conn rsp answer ⊎ IsServed at fstatat openat path conn answer

-- What a request's path names in the directory: the path less its first byte, whatever that is.
abbrev pub looked_up : List ℕ → List ℕ
looked_up [] = []
looked_up (x ∷ []) = codes "./"
looked_up (x ∷ y ∷ path) = y ∷ path

two_not_one : (n : ℕ) → (suc (suc n) == 1) ≡ false
two_not_one n = elim (Bool-cases (suc (suc n) == 1)) [
  | inl q ↦ let e = (==_iff (suc (suc n)) 1).0 q in absurd (omega arith)
  | inr q ↦ q
]

on_request_serves :
    (at : Site) (fstatat : List ℕ → Option Stat) (openat : List ℕ → Option ℕ) (conn : TcpConnection)
    (req : HttpRequest) (rsp : HttpResponse)
    → req.path ≢ []
    → on_request at fstatat openat conn req rsp
      ≡ serve_path at fstatat openat
          (looked_up req.path)
          (or_else [] (from_last b'.' req.path))
          conn
          rsp
unfolding on_request
on_request_serves at fstatat openat conn req rsp n = go req.path n
  where
    go :
        (path : List ℕ)
        → path ≢ []
        → (do
          p ← (if length path == 1 then ok (codes "./") else substr1 path)
          serve_path at fstatat openat p (or_else [] (from_last b'.' req.path)) conn rsp)
          ≡ serve_path at fstatat openat
              (looked_up path)
              (or_else [] (from_last b'.' req.path))
              conn
              rsp
    go [] n = absurd (n refl)
    go (x ∷ []) n = refl
    go (x ∷ y ∷ path) n = rw (two_not_one (length path)) refl

no_suffix :
    (at : Site) (fstatat : List ℕ → Option Stat) (openat : List ℕ → Option ℕ) (conn : TcpConnection)
    (rsp : HttpResponse) (path : List ℕ) (stats : Stat)
    → fstatat (c_str path) ≡ some stats
    → is_directory stats ≡ false
    → serve_path at fstatat openat path [] conn rsp ≡ err out_of_range
unfolding serve_path serve
no_suffix at fstatat openat conn rsp path stats e d = rw (serve_path, e, d) refl

-- A request for a file whose path has no dot ends the server: the exception of `substr(1)` on an empty suffix
-- is caught nowhere. So does a request with an empty path.
pub on_request_throws :
    (at : Site) (fstatat : List ℕ → Option Stat) (openat : List ℕ → Option ℕ) (conn : TcpConnection)
    (req : HttpRequest) (rsp : HttpResponse)
    → (req.path ≡ [])
      ⊎ ((stats : Stat) × (req.path ≢ [])
          × (from_last b'.' req.path ≡ none)
          × (fstatat (c_str (looked_up req.path)) ≡ some stats)
          × (is_directory stats ≡ false))
    → on_request at fstatat openat conn req rsp ≡ err out_of_range
unfolding on_request
on_request_throws at fstatat openat conn req rsp (inl e) = rw (on_request, e) refl
on_request_throws at fstatat openat conn req rsp (inr (stats, n, none_there, e, d)) =
    on_request_serves at fstatat openat conn req rsp n
    ∙ ap (λ o. serve_path at fstatat openat (looked_up req.path) (or_else [] o) conn rsp) none_there
    ∙ no_suffix at fstatat openat conn rsp (looked_up req.path) stats e d
