-- ===== src/TcpServer/Entries.antt =====
-- What the map of a server's connections has, and how the parts of its operations change that.
use mathlib.Core.Path.{subst}
use yvent.Prelude.{
  Mem, Mem-append, Mem-last, ℕ, ◌+◌, ◌<◌, ◌≡◌, ◌≢◌, sym, ap, ◌∙◌, List, [], ◌∷◌, ◌++◌, Bool-cases,
  Bool, true, false, ==_iff, Option, none, some, arith, inl, inr, ◌⊎◌, ◌==◌,
}
use yvent.Text.{equal}
use yvent.Text.Keys.{equal_iff}
use yvent.TcpConnection.{TcpConnection, is_disconnected}
use yvent.ThreadPool.{EventLoopThreadPool}
use yvent.TcpServer.{
  TcpServer, Connection, update, store, insert, erase, handle_close, handle_close_in_loop,
}
use yvent.TcpServer.Objects.{stored_same}

-- What the map has under a name: a connection of this name that is open, or whose erasure is to come.
pub record IsEntry (objects : ℕ → Option Connection) (erasures : List (List ℕ)) (name : List ℕ)
    (id : ℕ) : Type 0 where
  pub object : Connection
  pub there : objects id ≡ some object
  pub called : object.name ≡ name
  pub due : (is_disconnected object.conn.state ≡ false) ⊎ Mem name erasures

abbrev pub IsTidy : TcpServer → Type 0
IsTidy s =
    (name : List ℕ) (id : ℕ) → s.connections name ≡ some id → IsEntry s.objects s.erasures name id

-- An entry when a connection gets a new state: it stays open, or its erasure is to come.
IsEntry-store :
    {objects : ℕ → Option Connection} {erasures : List (List ℕ)} {name : List ℕ} {i : ℕ} (id : ℕ)
    (o : Connection) (d : TcpConnection)
    → objects id ≡ some o
    → (o.name ≡ name
        → is_disconnected o.conn.state ≡ false
        → (is_disconnected d.state ≡ false) ⊎ Mem name erasures)
    → IsEntry objects erasures name i
    → IsEntry (store id (record o { conn = d }) objects) erasures name i
IsEntry-store {objects} {erasures} {name} {i} id o d e stays g = elim (Bool-cases (i == id)) [
  | inl q ↦
      let r : i ≡ id = (==_iff i id).0 q in
      let same : objects id ≡ some g.object = rw r at g.there in
      let w : some o ≡ some g.object = sym e ∙ same in
      let w2 : o ≡ g.object = cc in
      let en : o.name ≡ name = ap (λ z. z.name) w2 ∙ g.called in
      record {
        object = record o { conn = d };
        there = rw r (stored_same id (record o { conn = d }) objects);
        called = en;
        due = elim g.due [
          | inl c ↦ stays en (ap (λ z. is_disconnected z.conn.state) w2 ∙ c)
          | inr m ↦ inr m
        ];
      }
  | inr q ↦ record { object = g.object; there = rw q g.there; called = g.called; due = g.due }
]

pub update-IsTidy :
    (s : TcpServer) (id : ℕ) (o : Connection) (d : TcpConnection)
    → IsTidy s
    → s.objects id ≡ some o
    → (is_disconnected o.conn.state ≡ false → is_disconnected d.state ≡ false)
    → IsTidy (update id o d s)
update-IsTidy s id o d t e stays name i h =
    IsEntry-store id o d e (λ en c. inl (stays c)) (t name i h)

-- An entry of the map behind an erasure is one of another name.
pub erased_some :
    (k n : List ℕ) (m : List ℕ → Option ℕ) {i : ℕ} → erase k m n ≡ some i → (n ≢ k) × (m n ≡ some i)
erased_some k n m h = elim (Bool-cases (equal n k)) [
  | inl q ↦ let w : none ≡ some _ = rw q at h in absurd cc
  | inr q ↦ (λ e. let w = (equal_iff n k).1 e in cc, rw q at h)
]

pub closed_forgotten :
    (b : Bool) (s : TcpServer) (id : ℕ) (o : Connection) (d : TcpConnection)
    → IsTidy s
    → s.objects id ≡ some o
    → IsTidy (handle_close b o.name (update id o d s))
unfolding handle_close handle_close_in_loop
closed_forgotten true s id o d t e name i h =
    let (n, g) = erased_some o.name name s.connections h in
    IsEntry-store id o d e (λ en c. absurd (n (sym en))) (t name i g)
closed_forgotten false s id o d t e name i h =
    let g = t name i h in
    let longer : IsEntry s.objects (s.erasures ++ o.name ∷ []) name i = record {
      object = g.object;
      there = g.there;
      called = g.called;
      due = elim g.due [ inl c ↦ inl c | inr m ↦ inr (Mem-append _ m) ];
    } in
    IsEntry-store id o d e
      (λ en c. inr (subst (λ k. Mem k (s.erasures ++ o.name ∷ [])) en (Mem-last o.name s.erasures)))
      longer

-- The entry that `newConnection` adds.
pub insert-IsTidy :
    (s : TcpServer) (id : ℕ) (o : Connection) (name : List ℕ)
    → IsTidy s
    → s.objects id ≡ some o
    → o.name ≡ name
    → is_disconnected o.conn.state ≡ false
    → IsTidy (record s { connections = insert name id s.connections })
insert-IsTidy s id o name t e en c n i h = elim (Bool-cases (equal n name)) [
  | inl q ↦
      let w : some id ≡ some i = rw q at h in
      let w2 : id ≡ i = cc in
      record {
        object = o;
        there = rw w2 at e;
        called = en ∙ sym ((equal_iff n name).0 q);
        due = inl c;
      }
  | inr q ↦ t n i (rw q at h)
]

pub made-IsTidy :
    (s : TcpServer) (pool : EventLoopThreadPool) (o : Connection)
    → IsTidy s
    → ((i : ℕ) (p : Connection) → s.objects i ≡ some p → i < s.next_conn_id)
    → IsTidy (record s {
      next_conn_id = s.next_conn_id + 1;
      threads = pool;
      objects = store s.next_conn_id o s.objects;
    })
made-IsTidy s pool o t low name i h =
    let g = t name i h in
    let l = low i g.object g.there in
    elim (Bool-cases (i == s.next_conn_id)) [
      | inl q ↦ let w = (==_iff i s.next_conn_id).0 q in absurd (omega arith)
      | inr q ↦ record { object = g.object; there = rw q g.there; called = g.called; due = g.due }
    ]
