-- ===== src/Chat/Talk.antt =====
-- A conversation in the chat: from the lines that one client reads to those that another shows.
use yvent.Prelude.{
  All, Mem, ℕ, ◌+◌, ◌^◌, ◌<◌, ◌≡◌, ◌≢◌, refl, sym, ap, ◌∙◌, List, [], ◌∷◌, ◌++◌, length,
  length-append, append-nil, append_assoc, some, true, arith,
}
use yvent.Fault.{ok, ◌>>=◌, Returns, returns, returned, Returns-ok}
use yvent.Buffer.{Buffer, contents}
use yvent.Buffer.Contents.{Holds}
use yvent.Buffer.Retrieve.{retrieve_all_as_string_lem}
use yvent.Codec.Frames.{frame, frames, send-frame}
use yvent.Codec.Receive.{IsPartial, AllShort, deliver_all}
use yvent.Codec.Stream.{joined, AllSmall, feed, feed-frames}
use yvent.TcpConnection
use yvent.TcpConnection.{TcpConnection, Task, send_task, post, WriteResult, connected, is_connected}
use yvent.TcpConnection.Ports.{stream, on_wire}
use yvent.TcpConnection.Flow.{Given, send_in_loop-Given}
use yvent.Chat.Client.{
  ChatClient, conn_send, send, send_all, run_tasks, loop_runs, with_connection, on_message, stop,
}
use yvent.Chat
use yvent.Chat.{ChatServer, told}
use yvent.Chat.Broadcast.{IsAscending}
use yvent.Chat.Relay.{HasRoom, Given-trans, keeps, feed-IsRelayed}

abbrev tasks_of : List (List ℕ) → List Task
tasks_of [] = []
tasks_of (m ∷ ms) = send_task (frame m) ∷ tasks_of ms

send-posts :
    (write : List ℕ → WriteResult) (m : List ℕ) (c : ChatClient) {conn : TcpConnection}
    → c.connection ≡ some conn
    → conn.state ≡ connected
    → length m < 2 ^ 32
    → send write m c ≡ ok (with_connection (post (send_task (frame m)) conn) c)
unfolding send TcpConnection.send_buffer
send-posts write m c {conn} e o h =
    let online : is_connected conn.state ≡ true = ap is_connected o in
    let (b, holds, f) = send-frame (conn_send write) conn m h in
    let (r, g, (k, _)) = Returns-ok (retrieve_all_as_string_lem b holds.valid) in
    rw (e, f, online, g, k ∙ holds.held) refl

send_all-posts :
    (write : List ℕ → WriteResult) (ms : List (List ℕ)) (c : ChatClient) {conn : TcpConnection}
    → c.connection ≡ some conn
    → conn.state ≡ connected
    → AllShort ms
    → send_all write ms c
      ≡ ok (with_connection (record conn { tasks = conn.tasks ++ tasks_of ms }) c)
unfolding send_all
send_all-posts write [] c {conn} e o s =
    ap (λ x. ok (record c { connection = x }))
      (e ∙ ap (λ t. some (record conn { tasks = t })) (sym (append-nil conn.tasks)))
send_all-posts write (m ∷ ms) c {conn} e o s =
    let next = post (send_task (frame m)) conn in
    rw (send-posts write m c e o (omega (arith, s.0))) (
      send_all-posts write ms (with_connection next c) refl o s.1
      ∙ ap (λ t. ok (with_connection (record conn { tasks = t }) c))
          (append_assoc conn.tasks (send_task (frame m) ∷ []) (tasks_of ms)))

run_tasks-Given :
    (write : List ℕ → WriteResult) (ms : List (List ℕ)) (conn : TcpConnection)
    → HasRoom (length (frames ms)) conn
    → Returns (Given conn (frames ms)) (run_tasks write (tasks_of ms) conn)
unfolding run_tasks TcpConnection.run_task
run_tasks-Given write [] conn h = returns _ (keeps h)
run_tasks-Given write (m ∷ ms) conn h =
    let size : length (frame m ++ frames ms) ≡ length (frame m) + length (frames ms) =
      length-append (frame m) (frames ms) in
    let (d, e, g) = Returns-ok (
      send_in_loop-Given conn write (frame m) h.live (
        omega
          (arith, size, h.room, length-append (on_wire conn.trace) (contents conn.out_buffer)))) in
    let left : HasRoom (length (frames ms)) d = record {
      live = g.live;
      open_state = g.state ∙ h.open_state;
      room = omega (arith, size, h.room, ap length g.kept, length-append (stream conn) (frame m));
    } in
    let (u, f, k) = Returns-ok (run_tasks-Given write ms d left) in
    rw e (returned _ f (Given-trans g k))

-- A client whose connection was given these frames.
pub record Said (ms : List (List ℕ)) (conn : TcpConnection) (d : ChatClient) : Type 0 where
  pub now : TcpConnection
  pub there : d.connection ≡ some now
  pub given : Given conn (frames ms) now

-- The lines that `main` reads, and the tasks that the loop then runs.
says :
    (write : List ℕ → WriteResult) (ms : List (List ℕ)) (c : ChatClient) {conn : TcpConnection}
    → c.connection ≡ some conn
    → conn.tasks ≡ []
    → AllShort ms
    → HasRoom (length (frames ms)) conn
    → Returns (Said ms conn) (send_all write ms c >>= loop_runs write)
unfolding loop_runs
says write ms c {conn} e n s h =
    let idle : TcpConnection = record conn { tasks = [] } in
    let roomy : HasRoom (length (frames ms)) idle = record {
      live = record {
        open_state = h.live.open_state;
        in_valid = h.live.in_valid;
        out_valid = h.live.out_valid;
        bits = h.live.bits;
        reading = h.live.reading;
        registered = h.live.registered;
        armed = h.live.armed;
      };
      open_state = h.open_state;
      room = h.room;
    } in
    let (d, f, g) = Returns-ok (run_tasks-Given write ms idle roomy) in
    rw (send_all-posts write ms c e h.open_state s, n, f)
      (returns _ (record {
        now = d;
        there = refl;
        given = record { live = g.live; kept = g.kept; state = g.state; input = g.input };
      }))

prints :
    (ms : List (List ℕ)) (c : ChatClient) → (deliver_all on_message c ms).printed ≡ c.printed ++ ms
unfolding on_message
prints [] c = sym (append-nil c.printed)
prints (m ∷ ms) c = prints ms (on_message c m) ∙ append_assoc c.printed (m ∷ []) ms

-- The bytes of frames that a client reads, in whatever chunks.
hears :
    (fuel : ℕ) (chunks : List (List ℕ)) (b : Buffer) (ms : List (List ℕ)) (c : ChatClient)
    → Holds [] b
    → IsPartial []
    → joined chunks ≡ frames ms
    → AllSmall chunks
    → AllShort ms
    → length ms < fuel
    → Returns (λ r. r.0.printed ≡ c.printed ++ ms) (feed on_message stop fuel c b chunks)
hears fuel chunks b ms c h p e small short l =
    let (r, f, (g, k)) = Returns-ok (
      feed-frames on_message stop fuel chunks c b ms [] [] h p (e ∙ sym (append-nil (frames ms)))
        small short p l) in
    returned _ f (ap (λ d. d.printed) g ∙ prints ms c)

nothing-IsPartial : IsPartial []
nothing-IsPartial = record {
  message = [];
  missing = frame [];
  short = omega arith;
  unfinished = omega arith;
  completes = refl;
}

-- A conversation. A client that is connected and was sent nothing to reads lines; a chat server reads, in
-- whatever chunks, the bytes of these lines from that client's connection; and another client reads,
-- in whatever chunks, what the server gave to its connection. Then the first connection was given exactly
-- the frames of the lines, and so was the second one by the server, and the other client shows the
-- lines, once each and in order, behind what it showed before.
pub conversation :
    (write : List ℕ → WriteResult) (answers : ℕ → List ℕ → WriteResult) (from to fuel : ℕ)
    (lines sent received : List (List ℕ)) (speaker listener : ChatClient) (conn : TcpConnection)
    (s : ChatServer) (b d : Buffer)
    → speaker.connection ≡ some conn
    → conn.tasks ≡ []
    → stream conn ≡ []
    → HasRoom (length (frames lines)) conn
    → AllShort lines
    → length lines < fuel
    → IsAscending s.connections
    → All (λ c. HasRoom (length (frames lines)) (s.objects c)) s.connections
    → Mem to s.connections
    → to ≢ from
    → stream (s.objects to) ≡ []
    → Holds [] b
    → AllSmall sent
    → joined sent ≡ frames lines
    → Holds [] d
    → AllSmall received
    → joined received ≡ frames lines
    → Returns
        (λ c. (now : TcpConnection) × (c.connection ≡ some now) × (stream now ≡ frames lines))
        (send_all write lines speaker >>= loop_runs write)
      × Returns
          (λ r. Returns (λ t. stream (t.objects to) ≡ frames lines) r.0)
          (feed (told answers from) (Chat.stop from) fuel (ok s) b sent)
      × Returns
          (λ r. r.0.printed ≡ listener.printed ++ lines)
          (feed on_message stop fuel listener d received)
conversation write answers from to fuel lines sent received speaker listener conn s b d e n z room
      short l up rooms mem apart z2 h small j h2 small2 j2 =
    let (c, f, said) = Returns-ok (says write lines speaker e n short room) in
    let (r, g, (_, told_all)) = Returns-ok (
      feed-IsRelayed answers from fuel sent b lines [] [] s h nothing-IsPartial
        (j ∙ sym (append-nil (frames lines))) small short nothing-IsPartial l up rooms) in
    let (t, k, (_, relayed)) = Returns-ok told_all in
    (
      returned _ f (said.now, said.there, said.given.kept ∙ ap (λ x. x ++ frames lines) z),
      returned _ g
          (returned _ k ((relayed.others to mem apart).kept ∙ ap (λ x. x ++ frames lines) z2)),
      hears fuel received d lines listener h2 nothing-IsPartial j2 small2 short l,
    )
