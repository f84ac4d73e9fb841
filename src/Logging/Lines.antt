-- ===== src/Logging/Lines.antt =====
-- The lines that `log_base` and `log_sys` print.
use yvent.Prelude.{
  ℕ, zero, suc, ◌+◌, ◌-◌, ◌≤◌, ◌<◌, ◌≡◌, ◌^◌, refl, sym, ap, ◌∙◌, inl, inr, List, [], ◌∷◌, ◌++◌,
  Bool, Bool-cases, true, false, not, ◌&&◌, ◌==◌, none, some, length, take, get_elem?,
  length-append, length-take, take-all, arith,
}
use yvent.Fault.{ok, Returns, Returns-ok}
use yvent.Text.{codes, decimal}
use yvent.Logging.{
  Time, timestamp, padded, process, spaced, levels, max_line, fill, behind_slash, place, placed,
  log_base, log_sys, sys_tag,
}
use yvent.Logging.Strings.{
  is_string, is_string-append, is_string-take, is_string-decimal, is_string-padded,
  length-decimal_below, length-padded_below, Stores, write_at-Stores, c_string-Stores,
}

-- What `gmtime_r` may tell.
pub record IsTime (t : Time) : Type 0 where
  pub year : t.year < 10 ^ 10
  pub month : t.month < 100
  pub day : t.day < 100
  pub hour : t.hour < 100
  pub minute : t.minute < 100
  pub second : t.second < 100
  pub microsecond : t.microsecond < 1000000

length-timestamp : (t : Time) → IsTime t → length (timestamp t) ≤ 31
unfolding timestamp
length-timestamp t i =
    let y = length-padded_below 9 4 b' ' t.year i.year (omega arith) in
    let m = length-padded_below 1 2 b'0' t.month i.month (omega arith) in
    let d = length-padded_below 1 2 b'0' t.day i.day (omega arith) in
    let h = length-padded_below 1 2 b'0' t.hour i.hour (omega arith) in
    let n = length-padded_below 1 2 b'0' t.minute i.minute (omega arith) in
    let s = length-padded_below 1 2 b'0' t.second i.second (omega arith) in
    let u = length-padded_below 5 6 b'0' t.microsecond i.microsecond (omega arith) in
    simp (length-append) (omega arith)

is_string-timestamp : (t : Time) → is_string (timestamp t) ≡ true
unfolding timestamp
is_string-timestamp t =
    let p : (width n : ℕ) → is_string (padded width b'0' n) ≡ true =
      λ width n. is_string-padded width b'0' n refl in
    let u = p 6 t.microsecond in
    let s = is_string-append (padded 2 b'0' t.second) _ (p 2 t.second) u in
    let m = is_string-append (padded 2 b'0' t.minute) _ (p 2 t.minute) s in
    let h = is_string-append (padded 2 b'0' t.hour) _ (p 2 t.hour) m in
    let d = is_string-append (padded 2 b'0' t.day) _ (p 2 t.day) h in
    let o = is_string-append (padded 2 b'0' t.month) _ (p 2 t.month) d in
    is_string-append (padded 4 b' ' t.year) _ (is_string-padded 4 b' ' t.year refl) o

-- What stands before the message.
abbrev pub head : Time → ℕ → List ℕ → List ℕ
head t pid tag = timestamp t ++ process pid ++ spaced tag

abbrev pub shown : Time → ℕ → List ℕ → List ℕ → List ℕ
shown t pid tag message = head t pid tag ++ take (max_line - length (head t pid tag) - 1) message

module _ (t : Time) (pid : ℕ) (tag message : List ℕ) where
  length-head : IsTime t → pid < 2 ^ 31 → length tag ≡ 7 → length (head t pid tag) ≤ 53
  length-head i h g =
      let s = length-timestamp t i in
      let d = length-decimal_below 9 pid (omega arith) in simp (length-append) (omega arith)

  is_string-head : is_string tag ≡ true → is_string (head t pid tag) ≡ true
  is_string-head g =
      is_string-append (timestamp t ++ process pid) (spaced tag)
        (is_string-append (timestamp t) (process pid) (is_string-timestamp t) (
          is_string-append (codes " [" ++ decimal pid) (codes "]")
            (is_string-append (codes " [") (decimal pid) refl (is_string-decimal pid)) refl))
        (is_string-append (codes " " ++ tag) (codes " ") (is_string-append (codes " ") tag refl g)
          refl)

  -- The array is filled without a byte behind its end.
  fill-Stores :
      (buffer : List ℕ)
      → IsTime t
      → pid < 2 ^ 31
      → length tag ≡ 7
      → length buffer ≡ max_line
      → Returns (Stores (shown t pid tag message)) (fill t pid tag message buffer)
  unfolding fill
  fill-Stores buffer i h g n =
      let s = length-timestamp t i in
      let d = length-decimal_below 9 pid (omega arith) in
      let whole : take 31 (timestamp t) ≡ timestamp t = take-all 31 (timestamp t) s in
      let pl : length (process pid) ≤ 13 = simp (length-append) (omega arith) in
      let tl : length (spaced tag) ≤ 9 = simp (length-append) (omega arith) in
      let (a, ea, sa) = Returns-ok (
        write_at-Stores 0 [] (timestamp t) buffer (record { whole = n; front = refl }) refl
          (omega arith)) in
      let (b, eb, sb) = Returns-ok (
        write_at-Stores (length (timestamp t)) (timestamp t) (process pid) a sa.begins refl
          (omega arith)) in
      let j : length (timestamp t ++ process pid) ≡ length (timestamp t) + length (process pid) =
        length-append (timestamp t) (process pid) in
      let (c, ec, sc) = Returns-ok (
        write_at-Stores (length (timestamp t) + length (process pid)) (timestamp t ++ process pid)
          (spaced tag) b sb.begins (sym j) (omega arith)) in
      let k : length (head t pid tag)
          ≡ length (timestamp t) + length (process pid) + length (spaced tag) =
        length-append (timestamp t ++ process pid) (spaced tag)
        ∙ ap (λ x. x + length (spaced tag)) j in
      rw (whole, ea, eb, ec, sym k)
        (write_at-Stores (length (head t pid tag)) (head t pid tag)
          (take (max_line - length (head t pid tag) - 1) message) c sc.begins refl
          (omega (arith, length-take (max_line - length (head t pid tag) - 1) message)))

  is_string-shown :
      is_string tag ≡ true → is_string message ≡ true → is_string (shown t pid tag message) ≡ true
  is_string-shown g h =
      is_string-append (head t pid tag) _ (is_string-head g)
        (is_string-take (max_line - length (head t pid tag) - 1) message h)

-- No byte of it is a slash.
abbrev pub is_name : List ℕ → Bool
is_name [] = true
is_name (b ∷ bs) = not (b == b'/') && is_name bs

behind_slash-none : (name : List ℕ) → is_name name ≡ true → behind_slash name ≡ none
unfolding behind_slash
behind_slash-none [] h = refl
behind_slash-none (b ∷ bs) h = elim (Bool-cases (b == b'/')) [
  | inl c ↦ absurd (let k = rw c at h in cc)
  | inr c ↦ rw (behind_slash-none bs (let k = rw c at h in k), c)
]

behind_slash_lem :
    (dir name : List ℕ) → is_name name ≡ true → behind_slash (dir ++ b'/' ∷ name) ≡ some name
unfolding behind_slash
behind_slash_lem [] name h = rw (behind_slash-none name h)
behind_slash_lem (b ∷ dir) name h = rw (behind_slash_lem dir name h)

some-inj : {a b : List ℕ} → some a ≡ some b → a ≡ b
some-inj e = cc

-- The tags have one length.
tag_lem :
    (level : ℕ) {tag : List ℕ}
    → get_elem? levels level ≡ some tag
    → (length tag ≡ 7) × (is_string tag ≡ true)
tag_lem zero e = rw (sym (some-inj e)) (refl, refl)
tag_lem (suc zero) e = rw (sym (some-inj e)) (refl, refl)
tag_lem (suc (suc zero)) e = rw (sym (some-inj e)) (refl, refl)
tag_lem (suc (suc (suc zero))) e = rw (sym (some-inj e)) (refl, refl)
tag_lem (suc (suc (suc (suc zero)))) e = rw (sym (some-inj e)) (refl, refl)
tag_lem (suc (suc (suc (suc (suc zero))))) e = rw (sym (some-inj e)) (refl, refl)
tag_lem (suc (suc (suc (suc (suc (suc level)))))) e = absurd cc

sys_tag_lem :
    (to_abort : Bool) → (length (sys_tag to_abort) ≡ 7) × (is_string (sys_tag to_abort) ≡ true)
sys_tag_lem true = (refl, refl)
sys_tag_lem false = (refl, refl)

abbrev pub tail : List ℕ → ℕ → List ℕ
tail name line = codes " - " ++ name ++ codes ":" ++ decimal line ++ codes "\n"

-- For a time and a process as the system numbers them, one of the six levels, a message without a zero and
-- a file in a directory, `log_base` and `log_sys` write no byte behind the end of their arrays, whatever
-- stood in them. They print the time, the process, the level, the message, all of these up to a total of
-- 255 bytes, then the text of the error where there is one, the name of the file and the line.
pub log-line :
    (t : Time) (pid line level : ℕ) (to_abort : Bool) (dir name message error buffer tag : List ℕ)
    → IsTime t
    → pid < 2 ^ 31
    → get_elem? levels level ≡ some tag
    → is_string message ≡ true
    → is_name name ≡ true
    → length buffer ≡ max_line
    → (log_base t pid (dir ++ b'/' ∷ name) line level to_abort message buffer
        ≡ ok (record { text = shown t pid tag message ++ tail name line; aborts = to_abort }))
      × (log_sys t pid error (dir ++ b'/' ∷ name) line to_abort message buffer
          ≡ ok (record {
            text = shown t pid (sys_tag to_abort) message ++ codes ": " ++ error ++ tail name line;
            aborts = to_abort;
          }))
      × (length (head t pid tag) ≤ 53)
unfolding log_base log_sys place
log-line t pid line level to_abort dir name message error buffer tag i h e m f n =
    let (g, u) = tag_lem level e in
    let (g2, u2) = sys_tag_lem to_abort in
    let (d, ed, sd) = Returns-ok (fill-Stores t pid tag message buffer i h g n) in
    let (d2, ed2, sd2) =
      Returns-ok (fill-Stores t pid (sys_tag to_abort) message buffer i h g2 n) in
    let q = ap (λ o. placed o line) (behind_slash_lem dir name f) in
    let c = c_string-Stores _ d (is_string-shown t pid tag message u m) sd in
    let c2 = c_string-Stores _ d2 (is_string-shown t pid (sys_tag to_abort) message u2 m) sd2 in
    (rw (e, ed, q, c) refl, rw (ed2, q, c2) refl, length-head t pid tag message i h g)
