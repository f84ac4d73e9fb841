-- ===== src/TcpServer/Reached.antt =====
-- The invariant of a server in every state that it can be in.
use mathlib.Core.Path.{subst}
use yvent.Prelude.{
  All, ℕ, ◌+◌, ◌-◌, ◌^◌, ◌<◌, ◌≤◌, ◌≡◌, ◌≢◌, refl, sym, ◌∙◌, List, ◌∷◌, length, Bool-cases, Bool,
  true, false, ==_iff, some, arith, inl, inr, ◌==◌, ltb→lt, ltb, ◌||◌, if◌then◌else◌,
}
use yvent.Fault.{ok, err, fatal, check, bind-ok, ok-inj}
use yvent.TcpConnection
use yvent.TcpConnection.{TcpConnection, is_disconnected}
use yvent.ThreadPool
use yvent.ThreadPool.{EventLoopThreadPool, get_next_event_loop}
use yvent.Acceptor
use yvent.InetAddr.{InetAddr}
use yvent.Acceptor.{Accepted, accept_failed, accepted, Outcome, ignored, closed, handed_on}
use yvent.TcpServer.{
  make, start, connection_name, TcpServer, Connection, store, insert, handle_close_in_loop, enable,
  new_connection, handle_accept, User, Step, accepts, enables, closes, works, erases, Reach,
  started, later, in_base, callbacks_of,
}
use yvent.TcpServer.Held.{
  IsSound, same_name, enable-IsSound, close-IsSound, erase-IsSound, update-IsSound,
}
use yvent.TcpServer.Objects.{
  stored, stored_same, inserted_other, inserted_same, All-map, IsGone, check-true, enable_keeps,
  close_keeps, IsGone-fresh,
}

module _ (text_of : ℕ → List ℕ) (short : (host : ℕ) → length (text_of host) ≤ 15) where
  -- A new connection, which is not in the map yet.
  made-IsSound :
      (s : TcpServer) (pool : EventLoopThreadPool) (o : Connection)
      → IsSound text_of s.next_conn_id s
      → s.next_conn_id + 1 < 2 ^ 31
      → o.name ≡ connection_name text_of o.peer s.next_conn_id
      → IsSound text_of s.next_conn_id (record s {
        next_conn_id = s.next_conn_id + 1;
        threads = pool;
        objects = store s.next_conn_id o s.objects;
      })
  made-IsSound s pool o inv h en = record {
    small = h;
    numbered = λ i p q. elim (stored s.next_conn_id i o p s.objects q) [
      | inl (r, w) ↦ omega arith
      | inr (r, w) ↦ let l = inv.numbered i p w in omega arith
    ];
    named = λ i p q. elim (stored s.next_conn_id i o p s.objects q) [
      | inl (r, w) ↦ rw (r, sym w) en
      | inr (r, w) ↦ inv.named i p w
    ];
    held = λ i p q n c. elim (stored s.next_conn_id i o p s.objects q) [
      | inl (r, w) ↦ absurd (n r)
      | inr (r, w) ↦ inv.held i p w n c
    ];
    gone = All-map _ _ s.erasures (λ k. IsGone-fresh s.next_conn_id o inv.numbered) inv.gone;
  }

  insert-IsSound :
      (s : TcpServer) (id : ℕ) (o : Connection)
      → IsSound text_of id s
      → s.objects id ≡ some o
      → s.next_conn_id ≡ id + 1
      → IsSound text_of s.next_conn_id (record s { connections = insert o.name id s.connections })
  insert-IsSound s id o inv e next = record {
    small = inv.small;
    numbered = inv.numbered;
    named = inv.named;
    held = λ i p q n c. elim (Bool-cases (i == id)) [
      | inl r ↦
          let w = (==_iff i id).0 r in
          let same : s.objects id ≡ some p = rw w at q in
          let w2 : some p ≡ some o = sym same ∙ e in
          let w3 : p ≡ o = cc in rw (w3, w) (inserted_same o.name id s.connections)
      | inr r ↦
          let d : i ≢ id = λ w. let z = (==_iff i id).1 w in cc in
          inserted_other o.name p.name id s.connections (λ w. d (same_name text_of short inv q e w))
          ∙ inv.held i p q d c
    ];
    gone = inv.gone;
  }

  inserted-IsSound :
      (s t : TcpServer) (id : ℕ) (o : Connection) (name : List ℕ)
      → IsSound text_of id s
      → s.objects id ≡ some o
      → s.next_conn_id ≡ id + 1
      → o.name ≡ name
      → record s { connections = insert name id s.connections } ≡ t
      → IsSound text_of t.next_conn_id t
  inserted-IsSound s t id o name inv e next en q =
      subst (λ x. IsSound text_of x.next_conn_id x) q
        (subst
          (λ n.
            IsSound text_of s.next_conn_id (record s { connections = insert n id s.connections }))
          en (insert-IsSound s id o inv e next))

  at_next : {t : TcpServer} {m n : ℕ} → m ≡ n → IsSound text_of n t → IsSound text_of m t
  at_next {t} e inv = subst (λ n. IsSound text_of n t) (sym e) inv

  told_or_not-IsSound :
      (b : Bool) (user : User) (s t : TcpServer) (id : ℕ) (o : Connection)
      → IsSound text_of id s
      → s.objects id ≡ some o
      → (if b then enable user id o s else ok s) ≡ ok t
      → IsSound text_of id t
        × (t.next_conn_id ≡ s.next_conn_id)
        × (p : Connection) × (t.objects id ≡ some p)
        × (p.name ≡ o.name)
  told_or_not-IsSound true user s t id o inv e h =
      let (next, p, ep, en) = enable_keeps user s t id o h in
      (enable-IsSound text_of short user s t id o inv e h, next, p, ep, en)
  told_or_not-IsSound false user s t id o inv e h = rw (sym (ok-inj h)) (inv, refl, o, e, refl)

  pub new_connection-IsSound :
      (user : User) (cfd : ℕ) (peer : InetAddr) (s t : TcpServer)
      → IsSound text_of s.next_conn_id s
      → new_connection text_of user cfd peer s ≡ ok t
      → IsSound text_of t.next_conn_id t
  unfolding new_connection
  new_connection-IsSound user cfd peer s t inv h =
      let id = s.next_conn_id in
      let name = connection_name text_of peer id in
      let (u, eu, f) = bind-ok (check (ltb id (2 ^ 31 - 1))) _ h in
      let (chosen, ec, g) = bind-ok (get_next_event_loop s.threads) _ f in
      let o : Connection = record {
        name = name;
        peer = peer;
        loop = chosen.0;
        conn = TcpConnection.make cfd (callbacks_of user);
      } in
      let made : TcpServer = record s {
        next_conn_id = id + 1;
        threads = chosen.1;
        objects = store id o s.objects;
      } in
      let (told, et, k) = bind-ok (if in_base made o then enable user id o made else ok made) _ g in
      let room = ltb→lt id (2 ^ 31 - 1) (check-true (ltb id (2 ^ 31 - 1)) eu) in
      let sound = made-IsSound s chosen.1 o inv (omega arith) refl in
      let (inv2, next, p, ep, en) =
        told_or_not-IsSound (in_base made o) user made told id o sound (stored_same id o s.objects)
          et in
      inserted-IsSound told t id p name inv2 ep next en (ok-inj k)

  start-IsSound :
      (base_loop lfd thread_num : ℕ) (new_loop : ℕ → ℕ) (t : TcpServer)
      → (let s = make base_loop lfd in
          start new_loop (record s { threads = ThreadPool.set_thread_num thread_num s.threads }))
        ≡ ok t
      → IsSound text_of t.next_conn_id t
  unfolding start make
  start-IsSound base_loop lfd thread_num new_loop t h =
      let s = make base_loop lfd in
      let (threads, et, f) =
        bind-ok (ThreadPool.start new_loop (ThreadPool.set_thread_num thread_num s.threads)) _ h in
      let (acceptor, ea, g) = bind-ok (Acceptor.listen s.acceptor) _ f in
      rw (sym (ok-inj g)) (record {
        small = omega arith;
        numbered = λ i p q. absurd cc;
        named = λ i p q. absurd cc;
        held = λ i p q n c. absurd cc;
        gone = tt;
      })

  accept-IsSound :
      (user : User) (answer : Accepted) (s t : TcpServer)
      → IsSound text_of s.next_conn_id s
      → handle_accept text_of user answer s ≡ ok t
      → IsSound text_of t.next_conn_id t
  unfolding handle_accept Acceptor.handle_read
  accept-IsSound user (accept_failed e) s t inv h =
      elim (Bool-cases (e == Acceptor.econnaborted || e == Acceptor.emfile)) [
        | inl q ↦
            let w : ok s ≡ ok t = rw q at h in
            subst (λ x. IsSound text_of x.next_conn_id x) (ok-inj w) inv
        | inr q ↦ let w : err fatal ≡ ok t = rw q at h in absurd cc
      ]
  accept-IsSound user (accepted cfd peer) s t inv h = new_connection-IsSound user cfd peer s t inv h

  -- A step keeps the number of the next connection, or accepts.
  pub Step-IsSound :
      {user : User} {s t : TcpServer}
      → Step text_of user s t
      → IsSound text_of s.next_conn_id s
      → IsSound text_of t.next_conn_id t
  unfolding handle_close_in_loop
  Step-IsSound {user} {s} {t} (accepts answer h) inv = accept-IsSound user answer s t inv h
  Step-IsSound {user} {s} {t} (enables id o e h) inv =
      at_next (enable_keeps user s t id o h).0 (enable-IsSound text_of short user s t id o inv e h)
  Step-IsSound {user} {s} {t} (closes id o e h) inv =
      at_next (close_keeps s t id o h) (close-IsSound text_of short s t id o inv e h)
  Step-IsSound {user} {s} (works id o d e q) inv =
      update-IsSound text_of short s id o d inv e (λ c. q ∙ c)
  Step-IsSound {user} {s} (erases name rest e) inv =
      let gone : All (IsGone s.objects) (name ∷ rest) = rw e at inv.gone in
      erase-IsSound text_of short (record s { erasures = rest }) name
        (record {
          small = inv.small;
          numbered = inv.numbered;
          named = inv.named;
          held = inv.held;
          gone = gone.1;
        })
        gone.0

  pub Reach-IsSound :
      {user : User} {t : TcpServer} → Reach text_of user t → IsSound text_of t.next_conn_id t
  Reach-IsSound (started {t} base_loop lfd thread_num new_loop h) =
      start-IsSound base_loop lfd thread_num new_loop t h
  Reach-IsSound (later r st) = Step-IsSound st (Reach-IsSound r)

-- The map of a server has every connection that is not closed, under its own name, in every state that can be
-- reached and whatever the user's callback does. The text of an address has at most 15 bytes.
pub live_connection_held :
    (text_of : ℕ → List ℕ)
    → ((host : ℕ) → length (text_of host) ≤ 15)
    → {user : User} {s : TcpServer} (id : ℕ) (o : Connection) → Reach text_of user s
    → s.objects id ≡ some o
    → is_disconnected o.conn.state ≡ false
    → s.connections o.name ≡ some id
live_connection_held text_of short {user} {s} id o r e c =
    let inv = Reach-IsSound text_of short r in
    let l = inv.numbered id o e in
    inv.held id o e (λ q. let z : s.next_conn_id < s.next_conn_id = rw q at l in omega arith) c
