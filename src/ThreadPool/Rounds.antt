-- ===== src/ThreadPool/Rounds.antt =====
-- The pool hands its loops out in turn.
use native.Mathlib.Nat.{mod_self, mod-eq_of_lt}
use yvent.Prelude.{
  ℕ, zero, suc, ◌+◌, ◌%◌, ◌<◌, ◌≡◌, refl, ap, ◌∙◌, List, [], ◌∷◌, false, ◌==◌, none, some, length,
  get_elem?, arith, drop, drop-all,
}
use yvent.Fault.{Result, ok, ◌>>=◌}
use yvent.ThreadPool.{EventLoopThreadPool, get_next_event_loop}

pub record IsRound (p : EventLoopThreadPool) : Type 0 where
  pub in_range : p.next_event_loop < length p.loops

get-in_range :
    {A : Type 0} (xs : List A) (i : ℕ) → i < length xs → (a : A) × (get_elem? xs i ≡ some a)
get-in_range [] i h = absurd (omega arith)
get-in_range (x ∷ xs) zero h = (x, refl)
get-in_range (x ∷ xs) (suc i) h = get-in_range xs i (omega arith)

-- The loops that `n` calls hand out.
abbrev pub handed_out : ℕ → EventLoopThreadPool → Result (List ℕ × EventLoopThreadPool)
handed_out zero p = ok ([], p)
handed_out (suc n) p = get_next_event_loop p >>= λ r. handed_out n r.1 >>= λ s. ok (r.0 ∷ s.0, s.1)

next_lem :
    (p : EventLoopThreadPool) (a : ℕ)
    → p.next_event_loop < length p.loops
    → get_elem? p.loops p.next_event_loop ≡ some a
    → get_next_event_loop p
      ≡ ok (a, record p { next_event_loop = (p.next_event_loop + 1) % length p.loops })
unfolding get_next_event_loop
next_lem p a h e = let z : (length p.loops == 0) ≡ false = ground arith in rw (z, e) refl

drop-get : (xs : List ℕ) (i a : ℕ) → get_elem? xs i ≡ some a → drop i xs ≡ a ∷ drop (suc i) xs
drop-get [] i a e = absurd cc
drop-get (x ∷ xs) zero a e = ap (λ o. elim o [ none ↦ x ∷ xs | some y ↦ y ∷ xs ]) e
drop-get (x ∷ xs) (suc i) a e = drop-get xs i a e

next_is_zero : (i n : ℕ) → i + 1 ≡ n → (i + 1) % n ≡ 0
next_is_zero i n e = rw (e) (mod_self n)

-- From any position, the calls hand out the loops from there to the end of the vector, each once and
-- in order, and the next one is the first again.
pub handed_out_round :
    (n : ℕ) (p : EventLoopThreadPool)
    → 0 < n
    → p.next_event_loop + n ≡ length p.loops
    → handed_out n p ≡ ok (drop p.next_event_loop p.loops, record p { next_event_loop = 0 })
handed_out_round zero p h e = absurd (omega arith)
handed_out_round (suc zero) p h e =
    let (a, q) = get-in_range p.loops p.next_event_loop (omega arith) in
    let z : (p.next_event_loop + 1) % length p.loops ≡ 0 =
      next_is_zero p.next_event_loop (length p.loops) (omega arith) in
    rw
      (
        next_lem p a (omega arith) q,
        z,
        drop-get p.loops p.next_event_loop a q,
        drop-all (suc p.next_event_loop) p.loops (omega arith),
      )
      refl
handed_out_round (suc (suc n)) p h e =
    let (a, q) = get-in_range p.loops p.next_event_loop (omega arith) in
    let z : (p.next_event_loop + 1) % length p.loops ≡ suc p.next_event_loop =
      mod-eq_of_lt (omega arith) ∙ omega arith in
    rw
      (
        next_lem p a (omega arith) q,
        z,
        handed_out_round (suc n) (record p { next_event_loop = suc p.next_event_loop })
            (omega arith) (omega arith),
        drop-get p.loops p.next_event_loop a q,
      )
      refl
