-- ===== src/TcpServer/Held.antt =====
-- Which connections a server holds: what its operations keep true of it.
use yvent.Prelude.{
  All, ℕ, ◌^◌, ◌<◌, ◌≤◌, ◌≡◌, ◌≢◌, refl, sym, ap, ◌∙◌, List, length, Bool-cases, Bool, true, false,
  some, arith, inl, inr,
}
use yvent.Fault.{ok, bind-ok, ok-inj}
use yvent.TcpConnection
use yvent.TcpConnection.{
  TcpConnection, is_disconnected, ConnectionState, connecting, connected, disconnecting,
  disconnected, is_connecting, is_connected, is_disconnecting, make,
}
use yvent.TcpServer.{
  connection_name, TcpServer, Connection, update, handle_close, handle_close_in_loop, enable,
  close_connection, User, call, in_base,
}
use yvent.TcpServer.Names.{connection_name_inj}
use yvent.TcpServer.Objects.{
  stored, stored_same, erased_other, All-map, All-snoc, still_open, handle_close_state,
  enable_read_state, IsGone, IsGone-store,
}

-- What holds between the steps, with the connection `skip` left out: `newConnection` tells the connection
-- before it is in the map.
pub record IsSound (text_of : ℕ → List ℕ) (skip : ℕ) (s : TcpServer) : Type 0 where
  pub small : s.next_conn_id < 2 ^ 31
  pub numbered : (id : ℕ) (o : Connection) → s.objects id ≡ some o → id < s.next_conn_id
  pub named :
      (id : ℕ) (o : Connection) → s.objects id ≡ some o → o.name ≡ connection_name text_of o.peer id
  pub held :
      (id : ℕ) (o : Connection)
      → s.objects id ≡ some o
      → id ≢ skip
      → is_disconnected o.conn.state ≡ false
      → s.connections o.name ≡ some id
  pub gone : All (IsGone s.objects) s.erasures

module _ (text_of : ℕ → List ℕ) (short : (host : ℕ) → length (text_of host) ≤ 15) where
  -- Connections of the same name are the same.
  pub same_name :
      {skip : ℕ} {s : TcpServer} (inv : IsSound text_of skip s) {i j : ℕ} {o p : Connection}
      → s.objects i ≡ some o
      → s.objects j ≡ some p
      → o.name ≡ p.name
      → i ≡ j
  same_name inv {i} {j} {o} {p} ei ej e =
      connection_name_inj text_of o.peer p.peer i j short
        (let a = inv.numbered i o ei in let b = inv.small in omega arith)
        (let a = inv.numbered j p ej in let b = inv.small in omega arith)
        (sym (inv.named i o ei) ∙ e ∙ inv.named j p ej)

  pub is_the_one :
      {skip : ℕ} {s : TcpServer} (inv : IsSound text_of skip s) {name : List ℕ}
      → IsGone s.objects name
      → {i : ℕ} {o : Connection} → s.objects i ≡ some o
      → o.name ≡ name
      → is_disconnected o.conn.state ≡ true
  is_the_one {skip} {s} inv g {i} {o} e q =
      let same : s.objects g.id ≡ some o = rw (same_name inv e g.there (q ∙ sym g.called)) at e in
      let w : some g.object ≡ some o = sym g.there ∙ same in
      let w2 : g.object ≡ o = cc in ap (λ z. is_disconnected z.conn.state) (sym w2) ∙ g.is_closed

  pub update-IsSound :
      {skip : ℕ} (s : TcpServer) (id : ℕ) (o : Connection) (d : TcpConnection)
      → IsSound text_of skip s
      → s.objects id ≡ some o
      → (is_disconnected o.conn.state ≡ true → is_disconnected d.state ≡ true)
      → IsSound text_of skip (update id o d s)
  update-IsSound {skip} s id o d inv e stays = record {
    small = inv.small;
    numbered = λ i p q. elim (stored id i (record o { conn = d }) p s.objects q) [
      | inl (r, w) ↦ rw r (inv.numbered id o e)
      | inr (r, w) ↦ inv.numbered i p w
    ];
    named = λ i p q. elim (stored id i (record o { conn = d }) p s.objects q) [
      | inl (r, w) ↦ rw (r, sym w) (inv.named id o e)
      | inr (r, w) ↦ inv.named i p w
    ];
    held = λ i p q n c. elim (stored id i (record o { conn = d }) p s.objects q) [
      | inl (r, w) ↦
          rw (r, sym w)
            (inv.held id o e (λ z. n (r ∙ z))
              (still_open (is_disconnected o.conn.state) stays
                (ap (λ z. is_disconnected z.conn.state) w ∙ c)))
      | inr (r, w) ↦ inv.held i p w n c
    ];
    gone =
        All-map (IsGone s.objects) (IsGone (update id o d s).objects) s.erasures
          (λ k. IsGone-store id o d e stays) inv.gone;
  }

  pub erase-IsSound :
      {skip : ℕ} (s : TcpServer) (name : List ℕ)
      → IsSound text_of skip s
      → IsGone s.objects name
      → IsSound text_of skip (handle_close_in_loop name s)
  unfolding handle_close_in_loop
  erase-IsSound {skip} s name inv g = record {
    small = inv.small;
    numbered = inv.numbered;
    named = inv.named;
    held = λ id o e n c.
        erased_other name o.name s.connections (λ q. let w = is_the_one inv g e q in cc)
        ∙ inv.held id o e n c;
    gone = inv.gone;
  }

  handle_close-IsSound :
      {skip : ℕ} (in_loop : Bool) (s : TcpServer) (name : List ℕ)
      → IsSound text_of skip s
      → IsGone s.objects name
      → IsSound text_of skip (handle_close in_loop name s)
  unfolding handle_close
  handle_close-IsSound true s name inv g = erase-IsSound s name inv g
  handle_close-IsSound false s name inv g = record {
    small = inv.small;
    numbered = inv.numbered;
    named = inv.named;
    held = inv.held;
    gone = All-snoc (IsGone s.objects) s.erasures name inv.gone g;
  }

  -- A connection of the server that is closed now is closed in the map too, or will be.
  told-IsSound :
      {skip : ℕ} (b : Bool) (s : TcpServer) (id : ℕ) (o : Connection) (d : TcpConnection)
      → IsSound text_of skip s
      → s.objects id ≡ some o
      → (is_disconnected o.conn.state ≡ true → is_disconnected d.state ≡ true)
      → is_disconnected d.state ≡ true
      → IsSound text_of skip (handle_close b o.name (update id o d s))
  told-IsSound b s id o d inv e stays c =
      let upd = update-IsSound s id o d inv e stays in
      handle_close-IsSound b (update id o d s) o.name upd (record {
        id = id;
        object = record o { conn = d };
        there = stored_same id (record o { conn = d }) s.objects;
        called = refl;
        is_closed = c;
      })

  pub enable-IsSound :
      {skip : ℕ} (user : User) (s t : TcpServer) (id : ℕ) (o : Connection)
      → IsSound text_of skip s
      → s.objects id ≡ some o
      → enable user id o s ≡ ok t
      → IsSound text_of skip t
  unfolding enable
  enable-IsSound {skip} user s t id o inv e h =
      let (opened, eo, f) = bind-ok (TcpConnection.enable_read o.conn) _ h in
      let (d, ed, g) = bind-ok (call user.connection opened) _ f in
      let q : is_disconnected o.conn.state ≡ false = enable_read_state o.conn eo in
      let stays : is_disconnected o.conn.state ≡ true → is_disconnected d.state ≡ true =
        λ z. absurd cc in
      rw (sym (ok-inj g)) (elim (Bool-cases (is_disconnected d.state)) [
        | inl c ↦ rw c (told-IsSound (in_base s o) s id o d inv e stays c)
        | inr c ↦ rw c (update-IsSound s id o d inv e stays)
      ])

  pub close-IsSound :
      {skip : ℕ} (s t : TcpServer) (id : ℕ) (o : Connection)
      → IsSound text_of skip s
      → s.objects id ≡ some o
      → close_connection id o s ≡ ok t
      → IsSound text_of skip t
  unfolding close_connection
  close-IsSound s t id o inv e h =
      let (d, ed, f) = bind-ok (TcpConnection.handle_close o.conn) _ h in
      let c = handle_close_state o.conn ed in
      rw (sym (ok-inj f)) (told-IsSound (in_base s o) s id o d inv e (λ z. c) c)
