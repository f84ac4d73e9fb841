-- ===== src/TcpServer/Forgotten.antt =====
-- Which connections a server forgets.
use mathlib.Core.Path.{subst}
use yvent.Prelude.{
  Mem, Mem-rest, Mem-nil, ℕ, ◌+◌, ◌-◌, ◌^◌, ◌≤◌, ◌≡◌, refl, ◌∙◌, List, [], ◌∷◌, length, Bool-cases,
  Bool, true, false, some, inl, inr, ◌==◌, ltb, ◌||◌, if◌then◌else◌,
}
use yvent.Fault.{ok, err, fatal, check, bind-ok, ok-inj}
use yvent.TcpConnection
use yvent.TcpConnection.{TcpConnection, is_disconnected}
use yvent.ThreadPool
use yvent.ThreadPool.{EventLoopThreadPool, get_next_event_loop}
use yvent.Acceptor
use yvent.InetAddr.{InetAddr}
use yvent.Acceptor.{Accepted, accept_failed, accepted}
use yvent.TcpServer.{
  make, start, connection_name, TcpServer, Connection, update, store, handle_close,
  handle_close_in_loop, enable, close_connection, new_connection, handle_accept, User, Step,
  accepts, enables, closes, works, erases, Reach, started, later, call, in_base, callbacks_of,
}
use yvent.TcpServer.Held.{IsSound}
use yvent.TcpServer.Objects.{stored_same, enable_read_opens}
use yvent.TcpServer.Reached.{Reach-IsSound}
use yvent.TcpServer.Entries.{
  IsTidy, update-IsTidy, closed_forgotten, insert-IsTidy, made-IsTidy, erased_some,
}

-- A callback that leaves the connection open.
abbrev pub LeavesOpen : User → Type 0
LeavesOpen user =
    (c d : TcpConnection)
    → call user.connection c ≡ ok d
    → is_disconnected c.state ≡ false
    → is_disconnected d.state ≡ false

module _ (user : User) (leaves_open : LeavesOpen user) where
  enable-IsTidy :
      (s t : TcpServer) (id : ℕ) (o : Connection)
      → IsTidy s
      → s.objects id ≡ some o
      → enable user id o s ≡ ok t
      → IsTidy t
        × (p : Connection) × (t.objects id ≡ some p)
        × (p.name ≡ o.name)
        × (is_disconnected p.conn.state ≡ false)
  unfolding enable
  enable-IsTidy s t id o tidy e h =
      let (opened, eo, f) = bind-ok (TcpConnection.enable_read o.conn) _ h in
      let (d, ed, g) = bind-ok (call user.connection opened) _ f in
      let c = leaves_open opened d ed (enable_read_opens o.conn eo) in
      let q : (if is_disconnected d.state
            then handle_close (in_base s o) o.name (update id o d s)
            else update id o d s)
          ≡ t =
        ok-inj g in
      let w : update id o d s ≡ t = rw c at q in
      subst
        (λ t.
          IsTidy t
          × (p : Connection) × (t.objects id ≡ some p)
          × (p.name ≡ o.name)
          × (is_disconnected p.conn.state ≡ false))
        w
        (
          update-IsTidy s id o d tidy e (λ z. c),
          record o { conn = d },
          stored_same id _ s.objects,
          refl,
          c,
        )

  told-IsTidy :
      (b : Bool) (s t : TcpServer) (id : ℕ) (o : Connection)
      → IsTidy s
      → s.objects id ≡ some o
      → is_disconnected o.conn.state ≡ false
      → (if b then enable user id o s else ok s) ≡ ok t
      → IsTidy t
        × (p : Connection) × (t.objects id ≡ some p)
        × (p.name ≡ o.name)
        × (is_disconnected p.conn.state ≡ false)
  told-IsTidy true s t id o tidy e c h = enable-IsTidy s t id o tidy e h
  told-IsTidy false s t id o tidy e c h =
      subst
        (λ t.
          IsTidy t
          × (p : Connection) × (t.objects id ≡ some p)
          × (p.name ≡ o.name)
          × (is_disconnected p.conn.state ≡ false))
        (ok-inj h) (tidy, o, e, refl, c)

  new_connection-IsTidy :
      (text_of : ℕ → List ℕ) (cfd : ℕ) (peer : InetAddr) (s t : TcpServer)
      → IsSound text_of s.next_conn_id s
      → IsTidy s
      → new_connection text_of user cfd peer s ≡ ok t
      → IsTidy t
  unfolding new_connection TcpConnection.make
  new_connection-IsTidy text_of cfd peer s t inv tidy h =
      let id = s.next_conn_id in
      let name = connection_name text_of peer id in
      let (u, eu, f) = bind-ok (check (ltb id (2 ^ 31 - 1))) _ h in
      let (chosen, ec, g) = bind-ok (get_next_event_loop s.threads) _ f in
      let o : Connection = record {
        name = name;
        peer = peer;
        loop = chosen.0;
        conn = TcpConnection.make cfd (callbacks_of user);
      } in
      let made : TcpServer = record s {
        next_conn_id = id + 1;
        threads = chosen.1;
        objects = store id o s.objects;
      } in
      let (told, et, k) = bind-ok (if in_base made o then enable user id o made else ok made) _ g in
      let fresh = made-IsTidy s chosen.1 o tidy inv.numbered in
      let (tidy2, p, ep, en, c) =
        told-IsTidy (in_base made o) made told id o fresh (stored_same id o s.objects) refl et in
      subst IsTidy (ok-inj k) (insert-IsTidy told id p name tidy2 ep en c)

  accept-IsTidy :
      (text_of : ℕ → List ℕ) (answer : Accepted) (s t : TcpServer)
      → IsSound text_of s.next_conn_id s
      → IsTidy s
      → handle_accept text_of user answer s ≡ ok t
      → IsTidy t
  unfolding handle_accept Acceptor.handle_read
  accept-IsTidy text_of (accept_failed e) s t inv tidy h =
      elim (Bool-cases (e == Acceptor.econnaborted || e == Acceptor.emfile)) [
        | inl q ↦ let w : ok s ≡ ok t = rw q at h in subst IsTidy (ok-inj w) tidy
        | inr q ↦ let w : err fatal ≡ ok t = rw q at h in absurd cc
      ]
  accept-IsTidy text_of (accepted cfd peer) s t inv tidy h =
      new_connection-IsTidy text_of cfd peer s t inv tidy h

  erase-IsTidy :
      (s : TcpServer) (name : List ℕ) (rest : List (List ℕ))
      → s.erasures ≡ name ∷ rest
      → IsTidy s
      → IsTidy (handle_close_in_loop name (record s { erasures = rest }))
  unfolding handle_close_in_loop
  erase-IsTidy s name rest e tidy n i h =
      let (d, g) = erased_some name n s.connections h in
      let entry = tidy n i g in
      record {
        object = entry.object;
        there = entry.there;
        called = entry.called;
        due = elim entry.due [ inl c ↦ inl c | inr m ↦ inr (Mem-rest d (subst (Mem n) e m)) ];
      }

  Step-IsTidy :
      {text_of : ℕ → List ℕ} {s t : TcpServer}
      → Step text_of user s t
      → IsSound text_of s.next_conn_id s
      → IsTidy s
      → IsTidy t
  unfolding close_connection
  Step-IsTidy {text_of} {s} {t} (accepts answer h) inv tidy =
      accept-IsTidy text_of answer s t inv tidy h
  Step-IsTidy {text_of} {s} {t} (enables id o e h) inv tidy = (enable-IsTidy s t id o tidy e h).0
  Step-IsTidy {text_of} {s} {t} (closes id o e h) inv tidy =
      let (d, ed, f) = bind-ok (TcpConnection.handle_close o.conn) _ h in
      subst IsTidy (ok-inj f) (closed_forgotten (in_base s o) s id o d tidy e)
  Step-IsTidy {text_of} {s} (works id o d e q) inv tidy = update-IsTidy s id o d tidy e (λ c. q ∙ c)
  Step-IsTidy {text_of} {s} (erases name rest e) inv tidy = erase-IsTidy s name rest e tidy

  start-IsTidy :
      (base_loop lfd thread_num : ℕ) (new_loop : ℕ → ℕ) (t : TcpServer)
      → (let s = make base_loop lfd in
          start new_loop (record s { threads = ThreadPool.set_thread_num thread_num s.threads }))
        ≡ ok t
      → IsTidy t
  unfolding start make
  start-IsTidy base_loop lfd thread_num new_loop t h =
      let s = make base_loop lfd in
      let (threads, et, f) =
        bind-ok (ThreadPool.start new_loop (ThreadPool.set_thread_num thread_num s.threads)) _ h in
      let (acceptor, ea, g) = bind-ok (Acceptor.listen s.acceptor) _ f in
      subst IsTidy (ok-inj g) (λ name i q. absurd cc)

  Reach-IsTidy :
      {text_of : ℕ → List ℕ}
      → ((host : ℕ) → length (text_of host) ≤ 15)
      → {t : TcpServer} → Reach text_of user t
      → IsTidy t
  Reach-IsTidy short (started {t} base_loop lfd thread_num new_loop h) =
      start-IsTidy base_loop lfd thread_num new_loop t h
  Reach-IsTidy {text_of} short (later r st) =
      Step-IsTidy st (Reach-IsSound text_of short r) (Reach-IsTidy short r)

-- A server forgets every connection that is closed: when no task of a close is left, what its map has under a
-- name is a connection of this name that is not closed. This needs a connection callback that does not close
-- its connection at the begin, and texts of addresses of at most 15 bytes.
pub closed_connection_forgotten :
    (text_of : ℕ → List ℕ) (user : User)
    → ((host : ℕ) → length (text_of host) ≤ 15)
    → LeavesOpen user
    → {s : TcpServer} (name : List ℕ) (id : ℕ) → Reach text_of user s
    → s.erasures ≡ []
    → s.connections name ≡ some id
    → (o : Connection) × (s.objects id ≡ some o)
      × (o.name ≡ name)
      × (is_disconnected o.conn.state ≡ false)
closed_connection_forgotten text_of user short stays {s} name id r none_left h =
    let entry = Reach-IsTidy user stays short r name id h in
    (
      entry.object,
      entry.there,
      entry.called,
      elim entry.due [ inl c ↦ c | inr m ↦ absurd (Mem-nil (subst (Mem name) none_left m)) ],
    )
