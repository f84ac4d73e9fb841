-- ===== src/TcpServer/Stuck.antt =====
-- A closed connection that is in the map of its server, with nothing left to erase it.
use mathlib.Core.Path.{subst}
use yvent.Prelude.{
  Mem, at_head, further, Mem-rest, ℕ, ◌+◌, ◌-◌, ◌^◌, ◌≤◌, ◌≡◌, ◌≢◌, refl, sym, ◌∙◌, List, [], ◌∷◌,
  ◌++◌, length, Bool-cases, Bool, true, false, some, arith, inl, inr, ◌==◌, ltb, ◌||◌,
  if◌then◌else◌,
}
use yvent.Fault.{ok, err, fatal, check, bind-ok, ok-inj}
use yvent.TcpConnection
use yvent.TcpConnection.{
  TcpConnection, ConnectionState, connecting, connected, disconnecting, disconnected,
  is_disconnected, is_connected, is_disconnecting,
}
use yvent.ThreadPool.{get_next_event_loop}
use yvent.Acceptor
use yvent.InetAddr.{InetAddr}
use yvent.Acceptor.{Accepted, accept_failed, accepted}
use yvent.TcpServer.{
  connection_name, TcpServer, Connection, update, store, handle_close, handle_close_in_loop, enable,
  close_connection, new_connection, handle_accept, User, Step, accepts, enables, closes, works,
  erases, call, in_base, callbacks_of,
}
use yvent.TcpServer.Objects.{
  stored_same, erased_other, inserted_other, IsGone, IsGone-store, IsGone-fresh, enable_read_state,
  handle_close_state, check-true,
}
use yvent.TcpServer.Held.{IsSound, is_the_one}
use yvent.TcpServer.Names.{connection_name_inj}
use yvent.TcpServer.Reached.{Step-IsSound}

-- The connection of this name is closed, the map has it, and no task is there that would erase it.
pub record IsStuck (name : List ℕ) (id : ℕ) (s : TcpServer) : Type 0 where
  pub gone : IsGone s.objects name
  pub kept : s.connections name ≡ some id
  pub undue : Mem name s.erasures → ⊥

-- Steps of a server, one after the other.
pub data Steps (text_of : ℕ → List ℕ) (user : User) (s : TcpServer) : TcpServer → Type 0 where
  done : Steps text_of user s s
  and_then :
      {t u : TcpServer} → Steps text_of user s t → Step text_of user t u → Steps text_of user s u

Mem-snoc : {name k : List ℕ} (ks : List (List ℕ)) → name ≢ k → Mem name (ks ++ k ∷ []) → Mem name ks
Mem-snoc [] d m = Mem-rest d m
Mem-snoc (j ∷ ks) d (at_head e) = at_head e
Mem-snoc (j ∷ ks) d (further m) = further (Mem-snoc ks d m)

was_open :
    (c : TcpConnection) {d : TcpConnection}
    → TcpConnection.handle_close c ≡ ok d
    → is_disconnected c.state ≡ false
unfolding TcpConnection.handle_close
was_open c e =
    let (u, eu, f) = bind-ok (check (is_connected c.state || is_disconnecting c.state)) _ e in
    go c.state (check-true (is_connected c.state || is_disconnecting c.state) eu)
  where
    go :
        (k : ConnectionState)
        → (is_connected k || is_disconnecting k) ≡ true
        → is_disconnected k ≡ false
    go connecting h = refl
    go connected h = refl
    go disconnecting h = refl
    go disconnected h = absurd cc

update-IsStuck :
    {name : List ℕ} {id : ℕ} (s : TcpServer) (i : ℕ) (o : Connection) (d : TcpConnection)
    → IsStuck name id s
    → s.objects i ≡ some o
    → (is_disconnected o.conn.state ≡ true → is_disconnected d.state ≡ true)
    → IsStuck name id (update i o d s)
update-IsStuck s i o d g e stays = record {
  gone = IsGone-store i o d e stays g.gone;
  kept = g.kept;
  undue = g.undue;
}

handle_close-IsStuck :
    {name : List ℕ} {id : ℕ} (b : Bool) (other : List ℕ) (s : TcpServer)
    → name ≢ other
    → IsStuck name id s
    → IsStuck name id (handle_close b other s)
unfolding handle_close handle_close_in_loop
handle_close-IsStuck {name} true other s n g = record {
  gone = g.gone;
  kept = erased_other other name s.connections n ∙ g.kept;
  undue = g.undue;
}
handle_close-IsStuck {name} false other s n g = record {
  gone = g.gone;
  kept = g.kept;
  undue = λ m. g.undue (Mem-snoc s.erasures n m);
}

enable-IsStuck :
    {name : List ℕ} {id : ℕ} (user : User) (s t : TcpServer) (i : ℕ) (o : Connection)
    → IsStuck name id s
    → s.objects i ≡ some o
    → (is_disconnected o.conn.state ≡ false → name ≢ o.name)
    → enable user i o s ≡ ok t
    → IsStuck name id t
unfolding enable
enable-IsStuck {name} {id} user s t i o g e other h =
    let (opened, eo, f) = bind-ok (TcpConnection.enable_read o.conn) _ h in
    let (d, ed, k) = bind-ok (call user.connection opened) _ f in
    let q : is_disconnected o.conn.state ≡ false = enable_read_state o.conn eo in
    let stays : is_disconnected o.conn.state ≡ true → is_disconnected d.state ≡ true =
      λ z. absurd cc in
    let u : IsStuck name id (update i o d s) = update-IsStuck s i o d g e stays in
    subst (IsStuck name id) (ok-inj k) (elim (Bool-cases (is_disconnected d.state)) [
      | inl c ↦ rw c (handle_close-IsStuck (in_base s o) o.name (update i o d s) (other q) u)
      | inr c ↦ rw c u
    ])

-- The name of the next connection is new.
pub new_name :
    (text_of : ℕ → List ℕ) (short : (host : ℕ) → length (text_of host) ≤ 15) {name : List ℕ}
    (s : TcpServer) (peer : InetAddr)
    → IsSound text_of s.next_conn_id s
    → IsGone s.objects name
    → name ≢ connection_name text_of peer s.next_conn_id
new_name text_of short s peer inv g q =
    let low = inv.numbered g.id g.object g.there in
    let top = inv.small in
    let same =
      connection_name_inj text_of g.object.peer peer g.id s.next_conn_id short (omega arith) top
        (sym (inv.named g.id g.object g.there) ∙ g.called ∙ q) in
    absurd (omega arith)

module _ (text_of : ℕ → List ℕ) (short : (host : ℕ) → length (text_of host) ≤ 15) {name : List ℕ}
    {id : ℕ} where
  -- A connection that is open has another name.
  other_name :
      {s : TcpServer} {i : ℕ} {o : Connection}
      → IsSound text_of s.next_conn_id s
      → IsStuck name id s
      → s.objects i ≡ some o
      → is_disconnected o.conn.state ≡ false
      → name ≢ o.name
  other_name inv g e c q = let w = is_the_one text_of short inv g.gone e (sym q) in cc

  told-IsStuck :
      (b : Bool) (user : User) (s t : TcpServer) (i : ℕ) (o : Connection)
      → IsStuck name id s
      → s.objects i ≡ some o
      → name ≢ o.name
      → (if b then enable user i o s else ok s) ≡ ok t
      → IsStuck name id t
  told-IsStuck true user s t i o g e n h = enable-IsStuck user s t i o g e (λ c. n) h
  told-IsStuck false user s t i o g e n h = subst (IsStuck name id) (ok-inj h) g

  new_connection-IsStuck :
      (user : User) (cfd : ℕ) (peer : InetAddr) (s t : TcpServer)
      → IsSound text_of s.next_conn_id s
      → IsStuck name id s
      → new_connection text_of user cfd peer s ≡ ok t
      → IsStuck name id t
  unfolding new_connection
  new_connection-IsStuck user cfd peer s t inv g h =
      let next = s.next_conn_id in
      let own = connection_name text_of peer next in
      let (u, eu, f) = bind-ok (check (ltb next (2 ^ 31 - 1))) _ h in
      let (chosen, ec, k) = bind-ok (get_next_event_loop s.threads) _ f in
      let o : Connection = record {
        name = own;
        peer = peer;
        loop = chosen.0;
        conn = TcpConnection.make cfd (callbacks_of user);
      } in
      let made : TcpServer = record s {
        next_conn_id = next + 1;
        threads = chosen.1;
        objects = store next o s.objects;
      } in
      let (told, et, l) =
        bind-ok (if in_base made o then enable user next o made else ok made) _ k in
      let n = new_name text_of short s peer inv g.gone in
      let fresh : IsStuck name id made = record {
        gone = IsGone-fresh next o inv.numbered g.gone;
        kept = g.kept;
        undue = g.undue;
      } in
      let p =
        told-IsStuck (in_base made o) user made told next o fresh (stored_same next o s.objects) n
          et in
      subst (IsStuck name id) (ok-inj l) (record {
        gone = p.gone;
        kept = inserted_other own name next told.connections n ∙ p.kept;
        undue = p.undue;
      })

  accept-IsStuck :
      (user : User) (answer : Accepted) (s t : TcpServer)
      → IsSound text_of s.next_conn_id s
      → IsStuck name id s
      → handle_accept text_of user answer s ≡ ok t
      → IsStuck name id t
  unfolding handle_accept Acceptor.handle_read
  accept-IsStuck user (accept_failed e) s t inv g h =
      elim (Bool-cases (e == Acceptor.econnaborted || e == Acceptor.emfile)) [
        | inl q ↦ let w : ok s ≡ ok t = rw q at h in subst (IsStuck name id) (ok-inj w) g
        | inr q ↦ let w : err fatal ≡ ok t = rw q at h in absurd cc
      ]
  accept-IsStuck user (accepted cfd peer) s t inv g h =
      new_connection-IsStuck user cfd peer s t inv g h

  Step-IsStuck :
      {user : User} {s t : TcpServer}
      → Step text_of user s t
      → IsSound text_of s.next_conn_id s
      → IsStuck name id s
      → IsStuck name id t
  unfolding close_connection handle_close_in_loop
  Step-IsStuck {user} {s} {t} (accepts answer h) inv g = accept-IsStuck user answer s t inv g h
  Step-IsStuck {user} {s} {t} (enables i o e h) inv g =
      enable-IsStuck user s t i o g e (other_name inv g e) h
  Step-IsStuck {user} {s} {t} (closes i o e h) inv g =
      let (d, ed, f) = bind-ok (TcpConnection.handle_close o.conn) _ h in
      subst (IsStuck name id) (ok-inj f) (
        handle_close-IsStuck (in_base s o) o.name (update i o d s)
          (other_name inv g e (was_open o.conn ed))
          (update-IsStuck s i o d g e (λ z. handle_close_state o.conn ed)))
  Step-IsStuck {user} {s} (works i o d e q) inv g = update-IsStuck s i o d g e (λ c. q ∙ c)
  Step-IsStuck {user} {s} (erases k rest e) inv g = record {
    gone = g.gone;
    kept =
        erased_other k name s.connections (λ q. g.undue (subst (Mem name) (sym e) (at_head q)))
        ∙ g.kept;
    undue = λ m. g.undue (subst (Mem name) (sym e) (further m));
  }

  pub Steps-IsStuck :
      {user : User} {s t : TcpServer}
      → Steps text_of user s t
      → IsSound text_of s.next_conn_id s
      → IsStuck name id s
      → IsSound text_of t.next_conn_id t × IsStuck name id t
  Steps-IsStuck done inv g = (inv, g)
  Steps-IsStuck (and_then r st) inv g =
      let (inv2, g2) = Steps-IsStuck r inv g in
      (Step-IsSound text_of short st inv2, Step-IsStuck st inv2 g2)
