-- ===== src/TcpServer/Objects.antt =====
-- What an operation of a server does to its map, its connections and the names of closed ones.
use yvent.Prelude.{
  All, ℕ, ◌<◌, ◌≡◌, ◌≢◌, refl, sym, ap, ◌∙◌, List, [], ◌∷◌, ◌++◌, Bool-cases, Bool, true, false,
  ==_iff, Option, some, arith, inl, inr, ◌⊎◌, ◌==◌, ◌||◌, if◌then◌else◌,
}
use yvent.Fault.{ok, check, bind-ok, ok-inj}
use yvent.Channel.{Channel, without_all, with_read}
use yvent.Poll.{update_channel}
use yvent.Text.{equal}
use yvent.Text.Keys.{equal_iff}
use yvent.TcpConnection
use yvent.TcpConnection.{
  TcpConnection, is_disconnected, ConnectionState, connecting, connected, disconnecting,
  disconnected, is_connecting, is_connected, is_disconnecting,
}
use yvent.TcpServer.{
  TcpServer, Connection, update, store, insert, erase, handle_close, handle_close_in_loop, enable,
  close_connection, User, call, in_base,
}

-- Where a connection comes from in `objects` behind a store.
pub stored :
    (id i : ℕ) (o p : Connection) (m : ℕ → Option Connection)
    → store id o m i ≡ some p
    → ((i ≡ id) × (o ≡ p)) ⊎ ((i ≢ id) × (m i ≡ some p))
stored id i o p m e = elim (Bool-cases (i == id)) [
  | inl q ↦ inl ((==_iff i id).0 q, let e2 : some o ≡ some p = rw q at e in cc)
  | inr q ↦ inr (λ r. let w = (==_iff i id).1 r in cc, rw q at e)
]

pub stored_same : (id : ℕ) (o : Connection) (m : ℕ → Option Connection) → store id o m id ≡ some o
stored_same id o m = rw ((==_iff id id).1 refl)

pub erased_other : (name n : List ℕ) (m : List ℕ → Option ℕ) → n ≢ name → erase name m n ≡ m n
erased_other name n m d = elim (Bool-cases (equal n name)) [
  | inl q ↦ absurd (d ((equal_iff n name).0 q))
  | inr q ↦ rw q
]

pub inserted_other :
    (name n : List ℕ) (id : ℕ) (m : List ℕ → Option ℕ) → n ≢ name → insert name id m n ≡ m n
inserted_other name n id m d = elim (Bool-cases (equal n name)) [
  | inl q ↦ absurd (d ((equal_iff n name).0 q))
  | inr q ↦ rw q
]

pub inserted_same :
    (name : List ℕ) (id : ℕ) (m : List ℕ → Option ℕ) → insert name id m name ≡ some id
inserted_same name id m = rw ((equal_iff name name).1 refl)

pub All-map :
    (P Q : List ℕ → Type 0) (ks : List (List ℕ)) → ((k : List ℕ) → P k → Q k) → All P ks → All Q ks
All-map P Q [] f a = tt
All-map P Q (k ∷ ks) f a = (f k a.0, All-map P Q ks f a.1)

pub All-snoc :
    (P : List ℕ → Type 0) (ks : List (List ℕ)) (k : List ℕ) → All P ks → P k → All P (ks ++ k ∷ [])
All-snoc P [] k a p = (p, tt)
All-snoc P (j ∷ ks) k a p = (a.0, All-snoc P ks k a.1 p)

pub still_open : (a : Bool) {b : Bool} → (a ≡ true → b ≡ true) → b ≡ false → a ≡ false
still_open true f e = sym (f refl) ∙ e
still_open false f e = refl

pub update_events_state :
    (ch : Channel) (c : TcpConnection) {d : TcpConnection}
    → TcpConnection.update_events ch c ≡ ok d
    → d.state ≡ c.state
unfolding TcpConnection.update_events
update_events_state ch c e =
    let (r, er, f) = bind-ok (update_channel ch) _ e in ap (λ x. x.state) (sym (ok-inj f))

-- A connection that was closed is closed, and one that could be told of its begin was not.
pub handle_close_state :
    (c : TcpConnection) {d : TcpConnection}
    → TcpConnection.handle_close c ≡ ok d
    → is_disconnected d.state ≡ true
unfolding TcpConnection.handle_close
handle_close_state c e =
    let (u, eu, f) = bind-ok (check (is_connected c.state || is_disconnecting c.state)) _ e in
    let (d, ed, g) =
      bind-ok
        (TcpConnection.update_events (without_all c.channel) (record c { state = disconnected })) _
        f in
    ap (λ x. is_disconnected x.state) (sym (ok-inj g))
    ∙ ap is_disconnected (update_events_state _ _ ed)

pub enable_read_state :
    (c : TcpConnection) {d : TcpConnection}
    → TcpConnection.enable_read c ≡ ok d
    → is_disconnected c.state ≡ false
unfolding TcpConnection.enable_read
enable_read_state c e =
    let (u, eu, f) = bind-ok (check (is_connecting c.state)) _ e in connecting_open c.state (u, eu)
  where
    connecting_open :
        (k : ConnectionState)
        → ((u : Unit {0}) × (check (is_connecting k) ≡ ok u))
        → is_disconnected k ≡ false
    connecting_open connecting h = refl
    connecting_open connected h = refl
    connecting_open disconnecting h = refl
    connecting_open disconnected (u, h) = absurd cc

pub enable_read_opens :
    (c : TcpConnection) {d : TcpConnection}
    → TcpConnection.enable_read c ≡ ok d
    → is_disconnected d.state ≡ false
unfolding TcpConnection.enable_read
enable_read_opens c e =
    let (u, eu, f) = bind-ok (check (is_connecting c.state)) _ e in
    let (d, ed, g) =
      bind-ok (TcpConnection.update_events (with_read c.channel) (record c { state = connected })) _
        f in
    ap (λ x. is_disconnected x.state) (sym (ok-inj g))
    ∙ ap is_disconnected (update_events_state _ _ ed)

-- The connection of this name is closed.
pub record IsGone (objects : ℕ → Option Connection) (name : List ℕ) : Type 0 where
  pub id : ℕ
  pub object : Connection
  pub there : objects id ≡ some object
  pub called : object.name ≡ name
  pub is_closed : is_disconnected object.conn.state ≡ true

-- It stays so when a connection gets a new state and does not open again.
pub IsGone-store :
    {objects : ℕ → Option Connection} {name : List ℕ} (id : ℕ) (o : Connection) (d : TcpConnection)
    → objects id ≡ some o
    → (is_disconnected o.conn.state ≡ true → is_disconnected d.state ≡ true)
    → IsGone objects name
    → IsGone (store id (record o { conn = d }) objects) name
IsGone-store {objects} {name} id o d e stays g = elim (Bool-cases (g.id == id)) [
  | inl q ↦
      let same : objects id ≡ some g.object = rw ((==_iff g.id id).0 q) at g.there in
      let w : some o ≡ some g.object = sym e ∙ same in
      let w2 : o ≡ g.object = cc in
      record {
        id = id;
        object = record o { conn = d };
        there = stored_same id (record o { conn = d }) objects;
        called = ap (λ z. z.name) w2 ∙ g.called;
        is_closed = stays (ap (λ z. is_disconnected z.conn.state) w2 ∙ g.is_closed);
      }
  | inr q ↦ record {
    id = g.id;
    object = g.object;
    there = rw q g.there;
    called = g.called;
    is_closed = g.is_closed;
  }
]

pub check-true : (b : Bool) {u : Unit {0}} → check b ≡ ok u → b ≡ true
check-true true e = refl
check-true false e = absurd cc

pub enable_keeps :
    (user : User) (s t : TcpServer) (id : ℕ) (o : Connection)
    → enable user id o s ≡ ok t
    → (t.next_conn_id ≡ s.next_conn_id)
      × (p : Connection) × (t.objects id ≡ some p)
      × (p.name ≡ o.name)
unfolding enable handle_close handle_close_in_loop
enable_keeps user s t id o h =
    let (opened, eo, f) = bind-ok (TcpConnection.enable_read o.conn) _ h in
    let (d, ed, g) = bind-ok (call user.connection opened) _ f in
    rw (sym (ok-inj g)) (go (is_disconnected d.state) (in_base s o) d)
  where
    go :
        (c b : Bool) (d : TcpConnection)
        → (let u = update id o d s in
            let t = if c then handle_close b o.name u else u in
            (t.next_conn_id ≡ s.next_conn_id)
            × (p : Connection) × (t.objects id ≡ some p)
            × (p.name ≡ o.name))
    go true true d = (refl, record o { conn = d }, stored_same id _ s.objects, refl)
    go true false d = (refl, record o { conn = d }, stored_same id _ s.objects, refl)
    go false b d = (refl, record o { conn = d }, stored_same id _ s.objects, refl)

pub close_keeps :
    (s t : TcpServer) (id : ℕ) (o : Connection)
    → close_connection id o s ≡ ok t
    → t.next_conn_id ≡ s.next_conn_id
unfolding close_connection handle_close handle_close_in_loop
close_keeps s t id o h =
    let (d, ed, f) = bind-ok (TcpConnection.handle_close o.conn) _ h in
    rw (sym (ok-inj f)) (go (in_base s o) d)
  where
    go :
        (b : Bool) (d : TcpConnection)
        → (handle_close b o.name (update id o d s)).next_conn_id ≡ s.next_conn_id
    go true d = refl
    go false d = refl

pub IsGone-fresh :
    {objects : ℕ → Option Connection} {name : List ℕ} (id : ℕ) (o : Connection)
    → ((i : ℕ) (p : Connection) → objects i ≡ some p → i < id)
    → IsGone objects name
    → IsGone (store id o objects) name
IsGone-fresh {objects} id o low g = elim (Bool-cases (g.id == id)) [
  | inl q ↦
      let e = (==_iff g.id id).0 q in let l = low g.id g.object g.there in absurd (omega arith)
  | inr q ↦ record {
    id = g.id;
    object = g.object;
    there = rw q g.there;
    called = g.called;
    is_closed = g.is_closed;
  }
]
