-- ===== src/Codec/Stream.antt =====
-- The receiving side over a whole connection: bytes come in chunks that respect no boundary.
use mathlib.Core.Path.{subst}
use yvent.Prelude.{
  ℕ, ◌+◌, ◌≤◌, ◌<◌, ◌^◌, ◌≡◌, refl, sym, ap, ◌∙◌, List, [], ◌∷◌, ◌++◌, append_assoc, append-nil,
  arith, length, take, length-append, inl, inr, Bool-cases, ltb,
}
use yvent.Fault.{Result, ok, ◌>>=◌, Returns, returns, Returns-bind}
use yvent.Buffer.Contents.{Holds}
use yvent.Buffer.Input.{take_in-Appended}
use yvent.Buffer.{Buffer, take_in, little_endian}
use yvent.Codec.{max_len, on_message, swap32}
use yvent.Codec.Frames.{frame, frames, swap32-header}
use yvent.Codec.Receive.{IsPartial, AllShort, deliver_all, on_message-frames}

-- Two ways to cut one run of bytes.
module _ {A : Type 0} where
  -- If the first cut is not behind the second, what lies between them ends one part and begins
  -- the other.
  cut_before :
      (x y u v : List A)
      → x ++ y ≡ u ++ v
      → length x ≤ length u
      → (t : List A) × (x ++ t ≡ u) × (y ≡ t ++ v)
  cut_before [] y u v e h = (u, refl, e)
  cut_before (a ∷ x) y [] v e h = absurd (omega arith)
  cut_before (a ∷ x) y (b ∷ u) v e h =
      let (t, p, q) = cut_before x y u v (cc) (omega arith) in (t, cc, q)

frames-append : (ms ns : List (List ℕ)) → frames (ms ++ ns) ≡ frames ms ++ frames ns
frames-append [] ns = refl
frames-append (m ∷ ms) ns =
    ap (◌++◌ (frame m)) (frames-append ms ns) ∙ sym (append_assoc (frame m) (frames ms) (frames ns))

-- Where the bytes of a stream of frames are cut: the messages in front of the cut, those behind it,
-- and the beginning of a frame at it.
record Cut (ms : List (List ℕ)) (q x y : List ℕ) : Type 0 where
  before : List (List ℕ)
  behind : List (List ℕ)
  open_frame : List ℕ
  messages : ms ≡ before ++ behind
  short_before : AllShort before
  short_behind : AllShort behind
  partial : IsPartial open_frame
  front : x ≡ frames before ++ open_frame
  back : open_frame ++ y ≡ frames behind ++ q

IsPartial-front : (x y : List ℕ) {q : List ℕ} → IsPartial q → x ++ y ≡ q → IsPartial x
IsPartial-front x y p e = record {
  message = p.message;
  missing = y ++ p.missing;
  short = p.short;
  unfinished = omega (arith, length-append y p.missing, p.unfinished);
  completes = sym (append_assoc x y p.missing) ∙ ap (λ t. t ++ p.missing) e ∙ p.completes;
}

inside_frame :
    (m x t : List ℕ)
    → length m ≤ max_len
    → x ++ t ≡ frame m
    → length x < length (frame m)
    → IsPartial x
inside_frame m x t s e h = record {
  message = m;
  missing = t;
  short = s;
  unfinished = omega (arith, ap length e, length-append x t);
  completes = e;
}

cut :
    (ms : List (List ℕ)) (q x y : List ℕ)
    → IsPartial q
    → AllShort ms
    → x ++ y ≡ frames ms ++ q
    → Cut ms q x y
cut [] q x y p s e = record {
  before = [];
  behind = [];
  open_frame = x;
  messages = refl;
  short_before = tt;
  short_behind = tt;
  partial = IsPartial-front x y p e;
  front = refl;
  back = e;
}
cut (m ∷ ms) q x y p s e = elim (Bool-cases (ltb (length x) (length (frame m)))) [
  | inl inside ↦
      let (t, f, g) =
        cut_before x y (frame m) (frames ms ++ q) (e ∙ append_assoc (frame m) (frames ms) q)
          (ground arith) in
      record {
        before = [];
        behind = m ∷ ms;
        open_frame = x;
        messages = refl;
        short_before = tt;
        short_behind = s;
        partial = inside_frame m x t s.0 f (ground arith);
        front = refl;
        back = e;
      }
  | inr beyond ↦
      let (t, f, g) =
        cut_before (frame m) (frames ms ++ q) x y (sym (e ∙ append_assoc (frame m) (frames ms) q))
          (ground arith) in
      let c = cut ms q t y p s.1 (sym g) in
      record {
        before = m ∷ c.before;
        behind = c.behind;
        open_frame = c.open_frame;
        messages = ap (◌∷◌ m) c.messages;
        short_before = (s.0, c.short_before);
        short_behind = c.short_behind;
        partial = c.partial;
        front =
            sym f
            ∙ ap (◌++◌ (frame m)) c.front
            ∙ sym (append_assoc (frame m) (frames c.before) c.open_frame);
        back = c.back;
      }
]

-- No whole frame stands at the start of an incomplete one.
no_frame_inside : (m z : List ℕ) → length m ≤ max_len → ¬ IsPartial (frame m ++ z)
no_frame_inside m z s p = omega (arith, same, size, p.unfinished)
  where
    same : length m ≡ length p.message
    same =
        sym (swap32-header (length m) (omega arith))
        ∙ ap (λ t. swap32 (little_endian (take 4 t))) p.completes
        ∙ swap32-header (length p.message) (omega (arith, p.short))

    size : 4 + length m + length z + length p.missing ≡ 4 + length p.message
    size =
        omega
          (arith, ap length p.completes, length-append (frame m ++ z) p.missing, length-append m z)

partial_size : {q : List ℕ} → (p : IsPartial q) → length q ≤ 4 + max_len
partial_size {q} p = omega (arith, ap length p.completes, length-append q p.missing, p.short)

abbrev pub joined : List (List ℕ) → List ℕ
joined [] = []
joined (x ∷ xs) = x ++ joined xs

-- What one `readv` can deliver here: far more than the room that `readFd` ever offers.
abbrev pub AllSmall : List (List ℕ) → Type 0
AllSmall [] = Unit
AllSmall (x ∷ xs) = (length x ≤ 2 ^ 61) × AllSmall xs

module _ {C : Type 0} (deliver : C → List ℕ → C) (shutdown : C → C) (fuel : ℕ) where
  -- A connection's reads, one after the other: each puts a chunk into the input buffer, as `readFd`
  -- does, and calls `onMessage`.
  abbrev pub feed : C → Buffer → List (List ℕ) → Result (C × Buffer)
  feed conn b [] = ok (conn, b)
  feed conn b (x ∷ xs) = do
    c ← take_in b x
    r ← on_message deliver shutdown fuel conn c
    feed r.0 r.1 xs

  feed_end :
      (conn : C) (b : Buffer) (ms : List (List ℕ)) (q q0 : List ℕ)
      → Holds q0 b
      → IsPartial q0
      → AllShort ms
      → q0 ++ [] ≡ frames ms ++ q
      → Returns {A = C × Buffer}
          (λ r. (r.0 ≡ deliver_all deliver conn ms) × Holds q r.1)
          (ok (conn, b))
  feed_end conn b [] q q0 h p s e =
      returns _ (refl, record { valid = h.valid; held = h.held ∙ sym (append-nil q0) ∙ e })
  feed_end conn b (m ∷ ms) q q0 h p s e = absurd (
      no_frame_inside m (frames ms ++ q) s.0
        (subst IsPartial (sym (append-nil q0) ∙ e ∙ append_assoc (frame m) (frames ms) q) p))

  deliver-append :
      (conn : C) (ms ns : List (List ℕ))
      → deliver_all deliver (deliver_all deliver conn ms) ns ≡ deliver_all deliver conn (ms ++ ns)
  deliver-append conn [] ns = refl
  deliver-append conn (m ∷ ms) ns = deliver-append (deliver conn m) ms ns

  again :
      (conn : C) (ms before behind : List (List ℕ)) (q : List ℕ)
      → ms ≡ before ++ behind
      → (r : C × Buffer) → r.0 ≡ deliver_all deliver conn before
      → {m : Result (C × Buffer)}
      → Returns (λ t. (t.0 ≡ deliver_all deliver r.0 behind) × Holds q t.1) m
      → Returns (λ t. (t.0 ≡ deliver_all deliver conn ms) × Holds q t.1) m
  again conn ms before behind q e r f (returns t k) = returns t (
    k.0
        ∙ ap (λ z. deliver_all deliver z behind) f
        ∙ deliver-append conn before behind
        ∙ ap (deliver_all deliver conn) (sym e),
    k.1,
  )

  -- However the bytes of a stream of frames are cut into chunks, `onMessage` delivers exactly the
  -- messages of the stream, in order, over all the reads, and keeps the beginning of the next.
  pub feed-frames :
      (chunks : List (List ℕ)) (conn : C) (b : Buffer) (ms : List (List ℕ)) (q0 q : List ℕ)
      → Holds q0 b
      → IsPartial q0
      → q0 ++ joined chunks ≡ frames ms ++ q
      → AllSmall chunks
      → AllShort ms
      → IsPartial q
      → length ms < fuel
      → Returns (λ r. (r.0 ≡ deliver_all deliver conn ms) × Holds q r.1) (feed conn b chunks)
  feed-frames [] conn b ms q0 q h p0 e small s p l = feed_end conn b ms q q0 h p0 s e
  feed-frames (x ∷ xs) conn b ms q0 q h p0 e small s p l =
      let c = cut ms q (q0 ++ x) (joined xs) p s (append_assoc q0 x (joined xs) ∙ e) in
      let count : length ms ≡ length c.before + length c.behind =
        omega (arith, ap length c.messages, length-append c.before c.behind) in
      Returns-bind (take_in b x) _
        (take_in-Appended b h.valid x (omega (arith, ap length h.held, partial_size p0, small.0)))
        λ b1 a.
          Returns-bind (on_message deliver shutdown fuel conn b1) _
            (on_message-frames deliver shutdown fuel conn b1 c.before c.open_frame
              (record {
                valid = a.holds.valid;
                held = a.holds.held ∙ ap (λ t. t ++ x) h.held ∙ c.front;
              })
              c.short_before c.partial (omega (arith, count)))
            λ r k. again conn ms c.before c.behind q c.messages r k.0 (
              feed-frames xs r.0 r.1 c.behind c.open_frame q k.1 c.partial c.back small.1
                c.short_behind p (omega (arith, count)))
