-- ===== src/TcpServer/Early.antt =====
-- A connection that its callback closes at once.
use mathlib.Core.Path.{subst}
use yvent.Prelude.{
  All, ==_iff, Mem, at_head, further, ℕ, ◌+◌, ◌-◌, ◌^◌, ◌≤◌, ◌≡◌, refl, sym, List, [], ◌∷◌, length,
  true, Option, some, ◌==◌, ltb, if◌then◌else◌,
}
use yvent.Fault.{ok, check, bind-ok, ok-inj}
use yvent.TcpConnection
use yvent.TcpConnection.{
  TcpConnection, ConnectionState, connecting, connected, disconnecting, disconnected,
  is_disconnected, is_connected, is_disconnecting,
}
use yvent.ThreadPool.{EventLoopThreadPool, get_next_event_loop}
use yvent.InetAddr.{InetAddr}
use yvent.TcpServer.{
  connection_name, TcpServer, Connection, update, store, insert, erase, handle_close,
  handle_close_in_loop, enable, new_connection, User, Reach, call, in_base, callbacks_of,
}
use yvent.TcpServer.Objects.{stored_same, inserted_same, IsGone}
use yvent.TcpServer.Held.{IsSound}
use yvent.TcpServer.Reached.{Reach-IsSound, new_connection-IsSound}
use yvent.TcpServer.Stuck.{IsStuck, Steps, new_name, Steps-IsStuck}

-- A callback that closes the connection at once.
abbrev pub ClosesAtOnce : User → Type 0
ClosesAtOnce user =
    (c d : TcpConnection) → call user.connection c ≡ ok d → is_disconnected d.state ≡ true

not_due :
    {objects : ℕ → Option Connection} {name : List ℕ} (ks : List (List ℕ))
    → All (IsGone objects) ks
    → (IsGone objects name → ⊥)
    → Mem name ks
    → ⊥
not_due [] a n m = elim m [ ]
not_due (k ∷ ks) a n (at_head e) = n (subst (IsGone _) (sym e) a.0)
not_due (k ∷ ks) a n (further m) = not_due ks a.1 n m

-- With one loop, the only one there is is chosen.
base_chosen :
    (p : EventLoopThreadPool) {chosen : ℕ × EventLoopThreadPool}
    → p.loops ≡ []
    → get_next_event_loop p ≡ ok chosen
    → (chosen.0 == chosen.1.base_loop) ≡ true
unfolding get_next_event_loop
base_chosen p {chosen} e h =
    let q : ok (p.base_loop, record p { loops = [] }) ≡ ok chosen =
      rw (get_next_event_loop, e) at h in
    let w : (p.base_loop, record p { loops = [] }) ≡ chosen = ok-inj q in
    subst (λ (c : ℕ × EventLoopThreadPool). (c.0 == c.1.base_loop) ≡ true) w
      ((==_iff p.base_loop p.base_loop).1 refl)

early-IsStuck :
    (text_of : ℕ → List ℕ) (short : (host : ℕ) → length (text_of host) ≤ 15) (user : User) (cfd : ℕ)
    (peer : InetAddr) (s : TcpServer) {t : TcpServer}
    → IsSound text_of s.next_conn_id s
    → s.threads.loops ≡ []
    → ClosesAtOnce user
    → new_connection text_of user cfd peer s ≡ ok t
    → IsStuck (connection_name text_of peer s.next_conn_id) s.next_conn_id t
unfolding new_connection enable handle_close handle_close_in_loop
early-IsStuck text_of short user cfd peer s inv one closing h =
    let next = s.next_conn_id in
    let own = connection_name text_of peer next in
    let (u, eu, f) = bind-ok (check (ltb next (2 ^ 31 - 1))) _ h in
    let (chosen, ec, k) = bind-ok (get_next_event_loop s.threads) _ f in
    let o : Connection = record {
      name = own;
      peer = peer;
      loop = chosen.0;
      conn = TcpConnection.make cfd (callbacks_of user);
    } in
    let made : TcpServer = record s {
      next_conn_id = next + 1;
      threads = chosen.1;
      objects = store next o s.objects;
    } in
    let (told, et, l) = bind-ok (if in_base made o then enable user next o made else ok made) _ k in
    let b : in_base made o ≡ true = base_chosen s.threads one ec in
    let et2 : enable user next o made ≡ ok told =
      subst (λ x. (if x then enable user next o made else ok made) ≡ ok told) b et in
    let (opened, eo, g) = bind-ok (TcpConnection.enable_read o.conn) _ et2 in
    let (d, ed, r) = bind-ok (call user.connection opened) _ g in
    let c : is_disconnected d.state ≡ true = closing opened d ed in
    let w : handle_close true own (update next o d made) ≡ told =
      subst
        (λ x.
          (if x then handle_close true own (update next o d made) else update next o d made) ≡ told)
        c
        (subst
          (λ y.
            (if is_disconnected d.state
              then handle_close y own (update next o d made)
              else update next o d made)
            ≡ told)
          b (ok-inj r)) in
    subst (IsStuck own next) (ok-inj l) (
      subst (λ x. IsStuck own next (record x { connections = insert own next x.connections })) w
        (record {
          gone = record {
            id = next;
            object = record o { conn = d };
            there = stored_same next (record o { conn = d }) made.objects;
            called = refl;
            is_closed = c;
          };
          kept = inserted_same own next (erase own s.connections);
          undue = not_due s.erasures inv.gone (λ x. new_name text_of short s peer inv x refl);
        }))

-- A server with one loop whose connection callback closes the new connection at once: the connection is
-- erased from the map before it is put there, so that the map has it, closed, in all states that follow.
pub closed_early_stays :
    (text_of : ℕ → List ℕ) (user : User) (cfd : ℕ) (peer : InetAddr) {s t u : TcpServer}
    → ((host : ℕ) → length (text_of host) ≤ 15)
    → ClosesAtOnce user
    → Reach text_of user s
    → s.threads.loops ≡ []
    → new_connection text_of user cfd peer s ≡ ok t
    → Steps text_of user t u
    → (u.connections (connection_name text_of peer s.next_conn_id) ≡ some s.next_conn_id)
      × IsGone u.objects (connection_name text_of peer s.next_conn_id)
closed_early_stays text_of user cfd peer {s} short closing r one h run =
    let inv = Reach-IsSound text_of short r in
    let stuck = early-IsStuck text_of short user cfd peer s inv one closing h in
    let (sound, later) =
      Steps-IsStuck text_of short run (new_connection-IsSound text_of short user cfd peer s _ inv h)
        stuck in
    (later.kept, later.gone)
