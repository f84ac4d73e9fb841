-- ===== src/Chat/Broadcast.antt =====
-- Who gets a message.
use mathlib.Core.Path.{subst}
use yvent.Prelude.{
  All, Mem, Mem-rest, Mem-cases, at_head, further, ℕ, ◌+◌, ◌*◌, ◌^◌, ◌<◌, ◌≤◌, ◌≡◌, ◌≢◌, refl, sym,
  ◌∙◌, List, [], ◌∷◌, length, length-append, true, false, Bool-cases, ==_iff, ltb, ltb→lt, ◌==◌,
  inl, inr, ◌⊎◌, arith,
}
use yvent.Fault.{ok, Returns, returns, returned, Returns-bind, Returns-ok}
use yvent.Word.{max_size}
use yvent.Buffer.{contents}
use yvent.Codec
use yvent.Codec.Frames.{frame, header, send-frame}
use yvent.TcpConnection
use yvent.TcpConnection.{TcpConnection, WriteResult, connected, is_connected}
use yvent.TcpConnection.Ports.{IsLive}
use yvent.TcpConnection.Flow.{Given}
use yvent.TcpConnection.Sends.{send_buffer-Given}
use yvent.Chat.{ChatServer, insert, erase, on_connection, store, conn_send, broadcast, on_message}

-- In order, and each once.
abbrev pub IsAscending : List ℕ → Type 0
IsAscending [] = Unit
IsAscending (x ∷ xs) = All (λ y. x < y) xs × IsAscending xs

-- A connection that can take the message.
pub record IsOnline (message : List ℕ) (conn : TcpConnection) : Type 0 where
  pub live : IsLive conn
  pub open_state : conn.state ≡ connected
  pub room : length (contents conn.out_buffer) + 2 * (length message + 4) + 8 ≤ max_size

pub All-Mem : (P : ℕ → Type 0) {x : ℕ} (xs : List ℕ) → All P xs → Mem x xs → P x
All-Mem P [] a m = elim m [ ]
All-Mem P (y ∷ xs) a (at_head e) = subst P (sym e) a.0
All-Mem P (y ∷ xs) a (further m) = All-Mem P xs a.1 m

stored_other :
    (c i : ℕ) (conn : TcpConnection) (objects : ℕ → TcpConnection)
    → i ≢ c
    → store c conn objects i ≡ objects i
stored_other c i conn objects n = elim (Bool-cases (i == c)) [
  | inl q ↦ absurd (n ((==_iff i c).0 q))
  | inr q ↦ rw q refl
]

stored_same :
    (c : ℕ) (conn : TcpConnection) (objects : ℕ → TcpConnection) → store c conn objects c ≡ conn
stored_same c conn objects = rw ((==_iff c c).1 refl) refl

send-Given :
    (write : List ℕ → WriteResult) (conn : TcpConnection) (message : List ℕ)
    → IsOnline message conn
    → length message < 2 ^ 32
    → Returns (Given conn (frame message)) (Codec.send (conn_send write) conn message)
send-Given write conn message o h =
    let (b, holds, e) = send-frame (conn_send write) conn message h in
    rw e (
      Returns-bind (TcpConnection.send_buffer true write b conn) _
        (send_buffer-Given write conn o.live o.open_state b (frame message) holds
          (let r = o.room in omega (arith, length-append (header (length message)) message)))
        λ sent g. returns _ g)

-- What the objects are behind a message to these connections.
pub record IsTold (from : ℕ) (message : List ℕ) (ids : List ℕ) (before after : ℕ → TcpConnection)
    : Type 0 where
  pub others : (c : ℕ) → Mem c ids → c ≢ from → Given (before c) (frame message) (after c)
  pub rest : (c : ℕ) → (c ≡ from) ⊎ (Mem c ids → ⊥) → after c ≡ before c

All-moved :
    (message : List ℕ) {before after : ℕ → TcpConnection} (xs : List ℕ)
    → All (λ c. IsOnline message (before c)) xs
    → ((i : ℕ) → Mem i xs → after i ≡ before i)
    → All (λ c. IsOnline message (after c)) xs
All-moved message [] a e = tt
All-moved message (x ∷ xs) a e = (
  subst (IsOnline message) (sym (e x (at_head refl))) a.0,
  All-moved message xs a.1 (λ i m. e i (further m)),
)

broadcast-IsTold :
    (write : ℕ → List ℕ → WriteResult) (from : ℕ) (message : List ℕ) (ids : List ℕ)
    (objects : ℕ → TcpConnection)
    → length message < 2 ^ 32
    → IsAscending ids
    → All (λ c. IsOnline message (objects c)) ids
    → Returns (IsTold from message ids objects) (broadcast write from message ids objects)
unfolding broadcast
broadcast-IsTold write from message [] objects h up online =
    returns _ (record { others = λ c m n. elim m [ ]; rest = λ c w. refl })
broadcast-IsTold write from message (c ∷ cs) objects h up online = elim (Bool-cases (from == c)) [
  | inl q ↦
      let e : from ≡ c = (==_iff from c).0 q in
      let (after, f, told) =
        Returns-ok (broadcast-IsTold write from message cs objects h up.1 online.1) in
      let eq : broadcast write from message (c ∷ cs) objects ≡ ok after = rw (broadcast, q) f in
      returned _ eq (record {
        others = λ i m n. told.others i (Mem-rest (λ z. n (z ∙ sym e)) m) n;
        rest = λ i w. told.rest i (elim w [ inl z ↦ inl z | inr z ↦ inr (λ m. z (further m)) ]);
      })
  | inr q ↦
      let (sent, f, given) = Returns-ok (send-Given (write c) (objects c) message online.0 h) in
      let now = store c sent objects in
      let same : (i : ℕ) → Mem i cs → now i ≡ objects i = λ i m.
        stored_other c i sent objects
          (λ z. let l = All-Mem (λ y. c < y) cs up.0 m in absurd (omega arith)) in
      let (after, g, told) =
        Returns-ok (
          broadcast-IsTold write from message cs now h up.1 (All-moved message cs online.1 same)) in
      let absent : Mem c cs → ⊥ =
        λ m. let l : c < c = All-Mem (λ y. c < y) cs up.0 m in absurd (omega arith) in
      let last : after c ≡ sent = told.rest c (inr absent) ∙ stored_same c sent objects in
      let eq : broadcast write from message (c ∷ cs) objects ≡ ok after = rw (broadcast, q, f) g in
      let apart : from ≢ c = λ z. let y = (==_iff from c).1 z in cc in
      returned _ eq (record {
        others = λ i m n. elim (Mem-cases m) [
          | inl z ↦
              subst (λ j. Given (objects j) (frame message) (after j)) (sym z)
                (subst (Given (objects c) (frame message)) (sym last) given)
          | inr k ↦ subst (λ x. Given x (frame message) (after i)) (same i k) (told.others i k n)
        ];
        rest = λ i w. elim w [
          | inl z ↦ told.rest i (inl z) ∙ stored_other c i sent objects (λ y. apart (sym z ∙ y))
          | inr z ↦
              told.rest i (inr (λ m. z (further m)))
              ∙ stored_other c i sent objects (λ y. z (at_head y))
        ];
      })
]

-- A message of one connection is handed on: all others who are online have its frame behind all that they
-- were sent before, once, and nothing else changes, for whoever sent it as well.
pub on_message-IsTold :
    (write : ℕ → List ℕ → WriteResult) (from : ℕ) (message : List ℕ) (s : ChatServer)
    → length message < 2 ^ 32
    → IsAscending s.connections
    → All (λ c. IsOnline message (s.objects c)) s.connections
    → Returns
        (λ t.
          (t.connections ≡ s.connections) × IsTold from message s.connections s.objects t.objects)
        (on_message write from message s)
unfolding on_message
on_message-IsTold write from message s h up online =
    Returns-bind (broadcast write from message s.connections s.objects) _
      (broadcast-IsTold write from message s.connections s.objects h up online)
      λ after told. returns _ (refl, told)

insert-All : (P : ℕ → Type 0) (c : ℕ) (xs : List ℕ) → P c → All P xs → All P (insert c xs)
unfolding insert
insert-All P c [] p a = (p, tt)
insert-All P c (x ∷ xs) p a = elim (Bool-cases (ltb c x)) [
  | inl q ↦ rw (insert, q) (p, a)
  | inr q ↦ elim (Bool-cases (c == x)) [
    | inl r ↦ rw (insert, q, r) a
    | inr r ↦ rw (insert, q, r) (a.0, insert-All P c xs p a.1)
  ]
]

All-less : (c x : ℕ) (xs : List ℕ) → c < x → All (λ y. x < y) xs → All (λ y. c < y) xs
All-less c x [] l a = tt
All-less c x (y ∷ ys) l a = (let m : x < y = a.0 in omega arith, All-less c x ys l a.1)

insert-IsAscending : (c : ℕ) (xs : List ℕ) → IsAscending xs → IsAscending (insert c xs)
unfolding insert
insert-IsAscending c [] a = (tt, tt)
insert-IsAscending c (x ∷ xs) a = elim (Bool-cases (ltb c x)) [
  | inl q ↦ rw (insert, q) (let l = ltb→lt c x q in ((l, All-less c x xs l a.0), a))
  | inr q ↦ elim (Bool-cases (c == x)) [
    | inl r ↦ rw (insert, q, r) a
    | inr r ↦
        rw (insert, q, r)
          (insert-All (λ y. x < y) c xs (above c x q r) a.0, insert-IsAscending c xs a.1)
  ]
]
  where
    above : (c x : ℕ) → ltb c x ≡ false → (c == x) ≡ false → x < c
    above c x q r = ground arith

erase-All : (P : ℕ → Type 0) (c : ℕ) (xs : List ℕ) → All P xs → All P (erase c xs)
unfolding erase
erase-All P c [] a = tt
erase-All P c (x ∷ xs) a = elim (Bool-cases (c == x)) [
  | inl q ↦ rw (erase, q) (erase-All P c xs a.1)
  | inr q ↦ rw (erase, q) (a.0, erase-All P c xs a.1)
]

erase-IsAscending : (c : ℕ) (xs : List ℕ) → IsAscending xs → IsAscending (erase c xs)
unfolding erase
erase-IsAscending c [] a = tt
erase-IsAscending c (x ∷ xs) a = elim (Bool-cases (c == x)) [
  | inl q ↦ rw (erase, q) (erase-IsAscending c xs a.1)
  | inr q ↦ rw (erase, q) (erase-All (λ y. x < y) c xs a.0, erase-IsAscending c xs a.1)
]

-- The set stays one, whoever comes and goes.
on_connection-IsAscending :
    (c : ℕ) (s : ChatServer)
    → IsAscending s.connections
    → IsAscending (on_connection c s).connections
unfolding on_connection
on_connection-IsAscending c s a = elim (Bool-cases (is_connected (s.objects c).state)) [
  | inl q ↦ rw (on_connection, q) (insert-IsAscending c s.connections a)
  | inr q ↦ rw (on_connection, q) (erase-IsAscending c s.connections a)
]
