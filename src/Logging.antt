-- ===== src/Logging.antt =====
-- yvent/Logging.h and yvent/Logging.cpp: the level, the lines that are written, and what a fatal one does.
-- `gettimeofday`, `gmtime_r`, `getpid`, `strerror` and `dprintf` are the system's: the time, the process,
-- the error text are arguments, and the line is what `dprintf` is given. So is the message, as `vsnprintf`
-- would print it without a limit. `buffer` is the array `data` on the stack, whose bytes may be anything at first.
pub mod Strings
pub mod Lines
use yvent.Prelude.{
  ℕ, zero, suc, ◌+◌, ◌-◌, List, [], ◌∷◌, ◌++◌, Bool, true, false, ◌||◌, leb, ltb, ◌==◌,
  if◌then◌else◌, Option, none, some, length, take, drop, replicate, get_elem?,
}
use yvent.Fault.{Result, ok, err, dangling, ◌>>=◌}
use yvent.Word.{ℤ, pos, negsuc}
use yvent.Text.{codes, decimal}

pub record Logger : Type 0 where
  pub log_level : ℕ
  pub log_fd : ℕ

abbrev pub levels : List (List ℕ)
levels =
    codes "[TRACE]"
    ∷ codes "[DEBUG]"
    ∷ codes "[INFO] "
    ∷ codes "[WARN] "
    ∷ codes "[ERROR]"
    ∷ codes "[FATAL]"
    ∷ []

unfoldable pub set_log_level : ℤ → Logger → Logger
set_log_level (negsuc n) g = record g { log_level = 0 }
set_log_level (pos n) g = record g { log_level = if ltb 5 n then 5 else n }

unfoldable pub set_log_fd : ℤ → Logger → Logger
set_log_fd (negsuc n) g = record g { log_fd = 1 }
set_log_fd (pos n) g = record g { log_fd = if n == 0 then 1 else n }

-- Whether the macro of a level writes: those of errors and of fatal errors always do.
unfoldable pub is_logged : ℕ → Logger → Bool
is_logged level g = leb 4 level || leb g.log_level level

-- What `gettimeofday` and `gmtime_r` tell, the year and the month as they are printed.
pub record Time : Type 0 where
  pub year : ℕ
  pub month : ℕ
  pub day : ℕ
  pub hour : ℕ
  pub minute : ℕ
  pub second : ℕ
  pub microsecond : ℕ

-- A number at a width, filled from the left.
unfoldable pub padded : ℕ → ℕ → ℕ → List ℕ
padded width fill n = replicate (width - length (decimal n)) fill ++ decimal n

-- The text that `timestamp` prints.
unfoldable pub timestamp : Time → List ℕ
timestamp t =
    padded 4 b' ' t.year
    ++ (padded 2 b'0' t.month
        ++ (padded 2 b'0' t.day
            ++ (b' ' ∷ padded 2 b'0' t.hour
                ++ (b':' ∷ padded 2 b'0' t.minute
                    ++ (b':' ∷ padded 2 b'0' t.second ++ (b'.' ∷ padded 6 b'0' t.microsecond))))))

abbrev pub max_line : ℕ
max_line = 256

-- The bytes and a zero behind them, written into the array from this place on.
unfoldable pub write_at : ℕ → List ℕ → List ℕ → Result (List ℕ)
write_at i bytes buffer =
    if leb (i + length bytes + 1) (length buffer)
    then ok (take i buffer ++ bytes ++ 0 ∷ drop (i + length bytes + 1) buffer)
    else err dangling

-- The string that an array holds.
unfoldable pub c_string : List ℕ → List ℕ
c_string [] = []
c_string (b ∷ bs) = let rest = c_string bs in if b == 0 then [] else b ∷ rest

-- `strrchr(file, '/') + 1`.
unfoldable pub behind_slash : List ℕ → Option (List ℕ)
behind_slash [] = none
behind_slash (b ∷ bs) = elim (behind_slash bs) [
  | none ↦ if b == b'/' then some bs else none
  | some name ↦ some name
]

abbrev pub process : ℕ → List ℕ
process pid = codes " [" ++ decimal pid ++ codes "]"

abbrev pub spaced : List ℕ → List ℕ
spaced tag = codes " " ++ tag ++ codes " "

-- What the two functions write into `buffer` before they print it. The second argument of `timestamp` is 32.
unfoldable pub fill : Time → ℕ → List ℕ → List ℕ → List ℕ → Result (List ℕ)
unfolding timestamp write_at
fill t pid tag message buffer = do
  let i = length (timestamp t)
  a ← write_at 0 (take 31 (timestamp t)) buffer
  b ← write_at i (process pid) a
  let j = i + length (process pid)
  c ← write_at j (spaced tag) b
  let k = j + length (spaced tag)
  write_at k (take (max_line - k - 1) message) c

abbrev pub placed : Option (List ℕ) → ℕ → Result (List ℕ)
placed none line = err dangling
placed (some name) line = ok (codes " - " ++ name ++ codes ":" ++ decimal line ++ codes "\n")

-- The name of the file and the line, with a null pointer where the file is in no directory.
unfoldable pub place : List ℕ → ℕ → Result (List ℕ)
unfolding behind_slash decimal
place file line = placed (behind_slash file) line

-- What was printed, and whether the process goes on.
pub record Logged : Type 0 where
  pub text : List ℕ
  pub aborts : Bool

unfoldable pub log_base :
    Time → ℕ → (file : List ℕ) → (line level : ℕ) → Bool → (message buffer : List ℕ) → Result Logged
unfolding fill place c_string
log_base t pid file line level to_abort message buffer = elim (get_elem? levels level) [
  | none ↦ err dangling
  | some tag ↦ do
    d ← fill t pid tag message buffer
    p ← place file line
    ok (record { text = c_string d ++ p; aborts = to_abort })
]

abbrev pub sys_tag : Bool → List ℕ
sys_tag to_abort = if to_abort then codes "[SYSFA]" else codes "[SYSER]"

unfoldable pub log_sys :
    Time → ℕ → (error file : List ℕ) → (line : ℕ) → Bool → (message buffer : List ℕ) → Result Logged
unfolding fill place c_string
log_sys t pid error file line to_abort message buffer = do
  d ← fill t pid (sys_tag to_abort) message buffer
  p ← place file line
  ok (record { text = c_string d ++ codes ": " ++ error ++ p; aborts = to_abort })
