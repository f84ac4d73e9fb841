-- ===== src/Chat/Relay.antt =====
-- From the bytes that one connection of the chat receives to those that all others are sent.
use mathlib.Core.Path.{subst}
use yvent.Prelude.{
  All, Mem, at_head, further, ℕ, ◌+◌, ◌*◌, ◌<◌, ◌≤◌, ◌≡◌, ◌≢◌, refl, sym, ap, ◌∙◌, List, [], ◌∷◌,
  ◌++◌, length, length-append, append-nil, append_assoc, Bool-cases, ==_iff, ◌==◌, inl, inr, ◌⊎◌,
  arith,
}
use yvent.Fault.{ok, Returns, returns, returned, Returns-ok}
use yvent.Word.{max_size}
use yvent.Buffer.{Buffer, contents}
use yvent.Buffer.Contents.{Holds}
use yvent.Codec.Frames.{frame, frames}
use yvent.Codec.Receive.{IsPartial, AllShort, deliver_all}
use yvent.Codec.Stream.{joined, AllSmall, feed, feed-frames}
use yvent.TcpConnection.{TcpConnection, WriteResult, connected}
use yvent.TcpConnection.Ports.{IsLive, stream, on_wire}
use yvent.TcpConnection.Flow.{Given}
use yvent.Chat.{ChatServer, told, stop}
use yvent.Chat.Broadcast.{IsAscending, IsOnline, IsTold, All-Mem, on_message-IsTold}

-- A connection that can take this many bytes more.
pub record HasRoom (n : ℕ) (conn : TcpConnection) : Type 0 where
  pub live : IsLive conn
  pub open_state : conn.state ≡ connected
  pub room : 2 * (length (stream conn) + n) + 8 ≤ max_size

-- What the objects are behind these messages of one connection: all others were given the frames.
pub record IsRelayed (from : ℕ) (messages : List (List ℕ)) (ids : List ℕ)
    (before after : ℕ → TcpConnection) : Type 0 where
  pub others : (c : ℕ) → Mem c ids → c ≢ from → Given (before c) (frames messages) (after c)
  pub rest : (c : ℕ) → (c ≡ from) ⊎ (Mem c ids → ⊥) → after c ≡ before c

All-from : (P : ℕ → Type 0) (xs : List ℕ) → ((x : ℕ) → Mem x xs → P x) → All P xs
All-from P [] f = tt
All-from P (x ∷ xs) f = (f x (at_head refl), All-from P xs (λ y m. f y (further m)))

pub Given-trans :
    {x y : List ℕ} {a b c : TcpConnection} → Given a x b → Given b y c → Given a (x ++ y) c
Given-trans {x} {y} {a} g h = record {
  live = h.live;
  kept = h.kept ∙ ap (λ t. t ++ y) g.kept ∙ append_assoc (stream a) x y;
  state = h.state ∙ g.state;
  input = h.input ∙ g.input;
}

HasRoom-IsOnline :
    (m : List ℕ) (n : ℕ) (c : TcpConnection) → HasRoom (length (frame m) + n) c → IsOnline m c
HasRoom-IsOnline m n c h = record {
  live = h.live;
  open_state = h.open_state;
  room = omega (arith, h.room, length-append (on_wire c.trace) (contents c.out_buffer));
}

-- The room that is left behind a message.
told-HasRoom :
    (from n : ℕ) (m : List ℕ) (ids : List ℕ) (before after : ℕ → TcpConnection)
    → IsTold from m ids before after
    → All (λ c. HasRoom (length (frame m) + n) (before c)) ids
    → All (λ c. HasRoom n (after c)) ids
told-HasRoom from n m ids before after told rooms =
    All-from (λ c. HasRoom n (after c)) ids
      λ c k.
        let h = All-Mem (λ x. HasRoom (length (frame m) + n) (before x)) ids rooms k in
        elim (Bool-cases (c == from)) [
          | inl q ↦
              subst (HasRoom n) (sym (told.rest c (inl ((==_iff c from).0 q))))
                (record { live = h.live; open_state = h.open_state; room = omega (arith, h.room) })
          | inr q ↦
              let g = told.others c k (λ e. let y = (==_iff c from).1 e in cc) in
              record {
                live = g.live;
                open_state = g.state ∙ h.open_state;
                room =
                    omega (
                      arith,
                      h.room,
                      ap length g.kept,
                      length-append (stream (before c)) (frame m),
                    );
              }
        ]

pub keeps : {n : ℕ} {c : TcpConnection} → HasRoom n c → Given c [] c
keeps {c} h = record {
  live = h.live;
  kept = sym (append-nil (stream c));
  state = refl;
  input = refl;
}

-- The messages, one after the other.
told_all-IsRelayed :
    (write : ℕ → List ℕ → WriteResult) (from : ℕ) (ms : List (List ℕ)) (s : ChatServer)
    → AllShort ms
    → IsAscending s.connections
    → All (λ c. HasRoom (length (frames ms)) (s.objects c)) s.connections
    → Returns
        (λ t. (t.connections ≡ s.connections) × IsRelayed from ms s.connections s.objects t.objects)
        (deliver_all (told write from) (ok s) ms)
told_all-IsRelayed write from [] s short up rooms = returns _ (
  refl,
  record {
    others = λ c m n. keeps (All-Mem (λ x. HasRoom 0 (s.objects x)) s.connections rooms m);
    rest = λ c w. refl;
  },
)
told_all-IsRelayed write from (m ∷ ms) s short up rooms =
    let size : length (frame m ++ frames ms) ≡ length (frame m) + length (frames ms) =
      length-append (frame m) (frames ms) in
    let wide = subst (λ n. All (λ c. HasRoom n (s.objects c)) s.connections) size rooms in
    let online =
      All-from (λ c. IsOnline m (s.objects c)) s.connections
        λ c k. HasRoom-IsOnline m (length (frames ms)) (s.objects c) (
          All-Mem (λ x. HasRoom (length (frame m) + length (frames ms)) (s.objects x)) s.connections
            wide k) in
    let (t, e, (same, told1)) =
      Returns-ok (on_message-IsTold write from m s (omega (arith, short.0)) up online) in
    let left =
      told-HasRoom from (length (frames ms)) m s.connections s.objects t.objects told1 wide in
    let (u, f, (same2, rel)) = Returns-ok (
      told_all-IsRelayed write from ms t short.1 (rw same up)
        (subst (λ cs. All (λ c. HasRoom (length (frames ms)) (t.objects c)) cs) (sym same) left)) in
    rw (e) (
      returned _ f (
        same2 ∙ same,
        both from m ms s t u told1
            (subst (λ cs. IsRelayed from ms cs t.objects u.objects) same rel),
      ))
  where
    both :
        (from : ℕ) (m : List ℕ) (ms : List (List ℕ)) (s t u : ChatServer)
        → IsTold from m s.connections s.objects t.objects
        → IsRelayed from ms s.connections t.objects u.objects
        → IsRelayed from (m ∷ ms) s.connections s.objects u.objects
    both from m ms s t u a b = record {
      others = λ c k n. Given-trans (a.others c k n) (b.others c k n);
      rest = λ c w. b.rest c w ∙ a.rest c w;
    }

-- However the bytes of a stream of frames reach one connection of the chat server, in what chunks, all other
-- connections that are online were given the same frames, once each and in order, behind all that they
-- were sent before; nothing else changes, and the beginning of the next frame is kept. This is where
-- every connection is live and has room for what the stream brings.
pub feed-IsRelayed :
    (write : ℕ → List ℕ → WriteResult) (from fuel : ℕ) (chunks : List (List ℕ)) (b : Buffer)
    (ms : List (List ℕ)) (q0 q : List ℕ) (s : ChatServer)
    → Holds q0 b
    → IsPartial q0
    → q0 ++ joined chunks ≡ frames ms ++ q
    → AllSmall chunks
    → AllShort ms
    → IsPartial q
    → length ms < fuel
    → IsAscending s.connections
    → All (λ c. HasRoom (length (frames ms)) (s.objects c)) s.connections
    → Returns
        (λ r.
          Holds q r.1
          × Returns
              (λ t.
                (t.connections ≡ s.connections)
                × IsRelayed from ms s.connections s.objects t.objects)
              r.0)
        (feed (told write from) (stop from) fuel (ok s) b chunks)
feed-IsRelayed write from fuel chunks b ms q0 q s h p0 e small short p l up rooms =
    let (r, f, (g, k)) = Returns-ok (
      feed-frames (told write from) (stop from) fuel chunks (ok s) b ms q0 q h p0 e small short p
        l) in
    returned _ f (k, rw g (told_all-IsRelayed write from ms s short up rooms))
