-- ===== src/Tests/Lines.antt =====
-- Examples of the theorems on logging.
use yvent.Prelude.{ℕ, ◌≤◌, ◌≡◌, refl, List, ◌∷◌, ◌++◌, true, length, replicate, arith}
use yvent.Fault.{ok}
use yvent.Text.{codes}
use yvent.Logging.{Time, log_base, log_sys, sys_tag}
use yvent.Logging.Lines.{IsTime, head, shown, tail, log-line}

abbrev noon : Time
noon = record {
  year = 2024;
  month = 5;
  day = 6;
  hour = 12;
  minute = 0;
  second = 7;
  microsecond = 89;
}

noon-IsTime : IsTime noon
noon-IsTime = record {
  year = omega arith;
  month = omega arith;
  day = omega arith;
  hour = omega arith;
  minute = omega arith;
  second = omega arith;
  microsecond = omega arith;
}

abbrev array : List ℕ
array = replicate 256 9

log-line_example :
    (log_base noon 42 (codes "yvent" ++ b'/' ∷ codes "Poll.cpp") 8 2 true (codes "hello") array
      ≡ ok (record {
        text = shown noon 42 (codes "[INFO] ") (codes "hello") ++ tail (codes "Poll.cpp") 8;
        aborts = true;
      }))
    × (log_sys noon 42
          (codes "error")
          (codes "yvent" ++ b'/' ∷ codes "Poll.cpp")
          8
          true
          (codes "hello")
          array
        ≡ ok (record {
          text =
              shown noon 42 (sys_tag true) (codes "hello")
              ++ codes ": "
              ++ codes "error"
              ++ tail (codes "Poll.cpp") 8;
          aborts = true;
        }))
    × (length (head noon 42 (codes "[INFO] ")) ≤ 53)
log-line_example =
    log-line noon 42 8 2 true (codes "yvent") (codes "Poll.cpp") (codes "hello") (codes "error")
      array (codes "[INFO] ") noon-IsTime (omega arith) refl refl refl refl
