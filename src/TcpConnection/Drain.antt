-- ===== src/TcpConnection/Drain.antt =====
-- `handleWrite`: what waits goes to the wire, and what was put off until then happens.
use yvent.Prelude.{
  ℕ, ◌-◌, ◌≤◌, ◌≡◌, refl, sym, ap, ◌∙◌, inl, inr, List, [], ◌∷◌, ◌++◌, append_assoc, append-nil,
  Bool, true, not, ◌&&◌, ◌==◌, if◌then◌else◌, Bool-cases, length, take, drop, take-append-drop,
  Option, none, some, arith,
}
use yvent.Fault.{ok, Returns, returns, Returns-bind}
use yvent.Buffer
use yvent.Word.{sub_size}
use yvent.Buffer.Contents.{IsValid, Holds}
use yvent.Buffer.Retrieve.{retrieve-Holds}
use yvent.Buffer.{Buffer, contents, readable_bytes}
use yvent.Channel.Bits.{without_write-writing, some_event}
use yvent.Channel.{Channel, is_writing, without_write}
use yvent.Poll.{ctl_mod}
use yvent.TcpConnection.Flow.{IsLive-trace, Given}
use yvent.TcpConnection.Ports.{
  on_wire, on_wire_quiet, on_wire_wrote, stream, IsLive, update_events_live,
}
use yvent.TcpConnection.{
  TcpConnection, Effect, WriteResult, write_failed, taken, direct_count, is_disconnecting, emit,
  emit_if, wrote_if, sent_file, epoll_ctl, shut_down_writing, closed_file, called_write_complete,
  update_events, stop_writing, shutdown_in_loop, written_out, file_sent, handle_write,
}

-- What `stop_writing` leaves.
record Stopped (c d : TcpConnection) : Type 0 where
  live : IsLive d
  wire : on_wire d.trace ≡ on_wire c.trace
  waits : d.out_buffer ≡ c.out_buffer
  state : d.state ≡ c.state
  input : d.in_buffer ≡ c.in_buffer

without_write-state : (ch : Channel) → (without_write ch).state ≡ ch.state
unfolding without_write
without_write-state ch = refl

empty_contents : (b : Buffer) → IsValid b → readable_bytes b == 0 ≡ true → contents b ≡ []
empty_contents b v h =
    let z : b.writer_index - b.reader_index ≡ 0 = ground arith in
    ap (λ n. take n (drop b.reader_index b.buffer)) z

module _ (c : TcpConnection) (l : IsLive c) (empty : contents c.out_buffer ≡ []) where
  abbrev disarmed : TcpConnection
  disarmed =
      emit (epoll_ctl ctl_mod (without_write c.channel).events)
        (record c { channel = without_write c.channel })

  disarmed-IsLive : IsLive disarmed
  disarmed-IsLive = record {
    open_state = l.open_state;
    in_valid = l.in_valid;
    out_valid = l.out_valid;
    bits = (without_write-writing c.channel l.bits).1;
    reading = (without_write-writing c.channel l.bits).2 ∙ l.reading;
    registered = without_write-state c.channel ∙ l.registered;
    armed = λ h. empty;
  }

  update_disarmed : update_events (without_write c.channel) c ≡ ok disarmed
  update_disarmed =
      update_events_live (without_write c.channel) c (without_write-state c.channel ∙ l.registered)
        (some_event (without_write c.channel) (without_write-writing c.channel l.bits).1
          (inl disarmed-IsLive.reading))

  disarmed_wire : on_wire disarmed.trace ≡ on_wire c.trace
  disarmed_wire =
      on_wire_quiet true c.trace (epoll_ctl ctl_mod (without_write c.channel).events) refl

  stop_writing-Stopped : Returns (Stopped c) (stop_writing c)
  unfolding stop_writing shutdown_in_loop
  stop_writing-Stopped = rw (update_disarmed) (elim (Bool-cases (is_disconnecting c.state)) [
    | inl s ↦ rw (s) (
        returns _ (record {
          live = IsLive-trace disarmed _ disarmed-IsLive;
          wire =
              on_wire_quiet (not (is_writing (without_write c.channel))) disarmed.trace
                shut_down_writing refl
              ∙ disarmed_wire;
          waits = refl;
          state = refl;
          input = refl;
        }))
    | inr s ↦ rw (s) (
        returns _ (record {
          live = disarmed-IsLive;
          wire = disarmed_wire;
          waits = refl;
          state = refl;
          input = refl;
        }))
  ])

-- The same bytes given, no more.
same_stream :
    (c d : TcpConnection)
    → IsLive d
    → on_wire d.trace ≡ on_wire c.trace
    → d.out_buffer ≡ c.out_buffer
    → d.state ≡ c.state
    → d.in_buffer ≡ c.in_buffer
    → Given c [] d
same_stream c d l w o s i = record {
  live = l;
  state = s;
  input = i;
  kept =
      ap (◌++◌ (on_wire d.trace)) (ap contents o)
      ∙ ap (λ x. x ++ contents c.out_buffer) w
      ∙ sym (append-nil (stream c));
}

after_stop :
    (c d e : TcpConnection) (b : Bool) (x : Effect)
    → on_wire (x ∷ []) ≡ []
    → stream d ≡ stream c
    → d.state ≡ c.state
    → d.in_buffer ≡ c.in_buffer
    → Stopped d e
    → Given c [] (emit_if b x e)
after_stop c d e b x quiet same s i q = record {
  state = q.state ∙ s;
  input = q.input ∙ i;
  live = IsLive-trace e (if b then e.trace ++ x ∷ [] else e.trace) q.live;
  kept =
      ap (λ t. t ++ contents e.out_buffer) (on_wire_quiet b e.trace x quiet ∙ q.wire)
      ∙ ap (λ o. on_wire d.trace ++ contents o) q.waits
      ∙ same
      ∙ sym (append-nil (stream c));
}

module _ (c : TcpConnection) (l : IsLive c) where
  -- `n` bytes of the buffer went.
  module _ (n : ℕ) (out : Buffer) (holds : Holds (drop n (contents c.out_buffer)) out) where
    abbrev advanced : TcpConnection
    advanced = wrote_if (take n (contents c.out_buffer)) (record c { out_buffer = out })

    advanced-stream : stream advanced ≡ stream c
    advanced-stream =
        ap (◌++◌ (on_wire advanced.trace)) holds.held
        ∙ ap (λ x. x ++ drop n (contents c.out_buffer))
            (on_wire_wrote (take n (contents c.out_buffer)) c.trace)
        ∙ append_assoc (on_wire c.trace) (take n (contents c.out_buffer))
            (drop n (contents c.out_buffer))
        ∙ ap (◌++◌ (on_wire c.trace)) (take-append-drop n (contents c.out_buffer))

    advanced-IsLive : is_writing c.channel ≡ true → IsLive advanced
    advanced-IsLive w = record {
      open_state = l.open_state;
      in_valid = l.in_valid;
      out_valid = holds.valid;
      bits = l.bits;
      reading = l.reading;
      registered = l.registered;
      armed = λ h. cc;
    }

  written_out-Given :
      (r : WriteResult)
      → is_writing c.channel ≡ true
      → direct_count r ≤ length (contents c.out_buffer)
      → Returns (Given c []) (written_out r c)
  unfolding written_out
  written_out-Given (write_failed e) w k = returns _ (same_stream c c l refl refl refl refl)
  written_out-Given (taken n) w k =
      Returns-bind (Buffer.retrieve c.out_buffer n) _ (retrieve-Holds c.out_buffer l.out_valid n k)
        λ out holds. elim (Bool-cases (readable_bytes out == 0 && c.file_size == 0)) [
          | inl t ↦ rw (t) (
              Returns-bind (stop_writing (advanced n out holds)) _
                (stop_writing-Stopped (advanced n out holds) (advanced-IsLive n out holds w)
                  (empty_contents out holds.valid (ground arith)))
                λ e q. returns _ (
                  after_stop c (advanced n out holds) e e.callbacks.write_complete
                    called_write_complete refl (advanced-stream n out holds) refl refl q))
          | inr t ↦ rw (t) (
              returns _ (record {
                live = advanced-IsLive n out holds w;
                kept = advanced-stream n out holds ∙ sym (append-nil (stream c));
                state = refl;
                input = refl;
              }))
        ]

  IsLive-file : (left : ℕ) (t : List Effect) → IsLive (record c { file_size = left; trace = t })
  IsLive-file left t = record {
    open_state = l.open_state;
    in_valid = l.in_valid;
    out_valid = l.out_valid;
    bits = l.bits;
    reading = l.reading;
    registered = l.registered;
    armed = l.armed;
  }

  file_sent-Given :
      (r : Option ℕ)
      → readable_bytes c.out_buffer == 0 ≡ true
      → Returns (Given c []) (file_sent r c)
  unfolding file_sent
  file_sent-Given none z = returns _ (same_stream c c l refl refl refl refl)
  file_sent-Given (some n) z = elim (Bool-cases (left == 0)) [
    | inl t ↦ rw (t) (
        Returns-bind (stop_writing d) _
          (stop_writing-Stopped d (IsLive-file left d.trace)
            (empty_contents c.out_buffer l.out_valid z))
          λ e q. returns _ (after_stop c d e true closed_file refl same refl refl q))
    | inr t ↦ rw (t) (
        returns _ (record {
          live = IsLive-file left d.trace;
          kept = same ∙ sym (append-nil (stream c));
          state = refl;
          input = refl;
        }))
  ]
    where
      left : ℕ
      left = sub_size c.file_size n

      d : TcpConnection
      d = emit (sent_file n) (record c { file_size = left })

      same : stream d ≡ stream c
      same = ap (λ t. t ++ contents c.out_buffer) (on_wire_quiet true c.trace (sent_file n) refl)

  -- `handleWrite` on a live connection loses, adds and reorders no byte that was given to be sent,
  -- whatever `::write` and `::sendfile` answer, and the connection stays live: where bytes still wait,
  -- it is still called for them.
  pub handle_write-Given :
      (write : List ℕ → WriteResult) (sendfile : Option ℕ)
      → direct_count (write (contents c.out_buffer)) ≤ length (contents c.out_buffer)
      → Returns (Given c []) (handle_write write sendfile c)
  unfolding handle_write
  handle_write-Given write sendfile k = elim (Bool-cases (is_writing c.channel)) [
    | inl w ↦ elim (Bool-cases (readable_bytes c.out_buffer == 0)) [
      | inr r ↦ rw (w, r) (written_out-Given (write (contents c.out_buffer)) w k)
      | inl r ↦ elim (Bool-cases (c.file_size == 0)) [
        | inr f ↦ rw (w, r, f) (file_sent-Given sendfile r)
        | inl f ↦ rw (w, r, f) (returns _ (same_stream c c l refl refl refl refl))
      ]
    ]
    | inr w ↦ rw (w) (returns _ (same_stream c c l refl refl refl refl))
  ]
