-- ===== src/Channel/Bits.antt =====
-- The event sets that a channel can ask for are below 8. What the operations do to them, by checking
-- all eight.
use Prim.Native.Nat.{bit_and, bit_or}
use yvent.Prelude.{
  all_below, all_below_lem, ◌-◌, ◌^◌, ◌<◌, ◌≡◌, refl, Bool, true, false, not, ◌&&◌, ◌||◌, ◌⊎◌, ltb,
  ◌==◌, arith,
}
use yvent.Channel.{
  Channel, has, is_reading, is_writing, with_read, with_write, without_write, without_all,
  is_no_event,
}

eqb : Bool → Bool → Bool
eqb true b = b
eqb false b = not b

eqb_eq : (a b : Bool) → eqb a b ≡ true → a ≡ b
unfolding eqb
eqb_eq true true h = refl
eqb_eq true false h = cc
eqb_eq false true h = cc
eqb_eq false false h = refl

write_table :
    all_below 8
      (λ e. has (bit_or e 4) 4 && (ltb (bit_or e 4) 8 && eqb (has (bit_or e 4) 1) (has e 1)))
    ≡ true
unfolding all_below eqb
write_table = refl

read_table :
    all_below 8
      (λ e. has (bit_or e 3) 1 && (ltb (bit_or e 3) 8 && eqb (has (bit_or e 3) 4) (has e 4)))
    ≡ true
unfolding all_below eqb
read_table = refl

unwrite_table :
    all_below 8 (λ e.
      not (has (bit_and e (2 ^ 32 - 1 - 4)) 4)
      && (ltb (bit_and e (2 ^ 32 - 1 - 4)) 8 && eqb (has (bit_and e (2 ^ 32 - 1 - 4)) 1) (has e 1)))
    ≡ true
unfolding all_below eqb
unwrite_table = refl

set_table : all_below 8 (λ e. not (has e 1 || has e 4) || not (e == 0)) ≡ true
unfolding all_below
set_table = refl

module _ (c : Channel) (h : c.events < 8) where
  -- `enableWrite` asks for EPOLLOUT besides what was asked for.
  pub with_write-writing :
      (is_writing (with_write c) ≡ true)
      × ((with_write c).events < 8)
      × (is_reading (with_write c) ≡ is_reading c)
  unfolding is_writing is_reading with_write
  with_write-writing = ground (
    arith,
    all_below_lem 8 _ c.events h write_table,
    eqb_eq (has (bit_or c.events 4) 1) (has c.events 1),
  )

  pub with_read-reading :
      (is_reading (with_read c) ≡ true)
      × ((with_read c).events < 8)
      × (is_writing (with_read c) ≡ is_writing c)
  unfolding is_writing is_reading with_read
  with_read-reading = ground (
    arith,
    all_below_lem 8 _ c.events h read_table,
    eqb_eq (has (bit_or c.events 3) 4) (has c.events 4),
  )

  pub without_write-writing :
      (is_writing (without_write c) ≡ false)
      × ((without_write c).events < 8)
      × (is_reading (without_write c) ≡ is_reading c)
  unfolding is_writing is_reading without_write
  without_write-writing = ground (
    arith,
    all_below_lem 8 _ c.events h unwrite_table,
    eqb_eq (has (bit_and c.events (2 ^ 32 - 1 - 4)) 1) (has c.events 1),
  )

  pub some_event : (is_reading c ≡ true) ⊎ (is_writing c ≡ true) → is_no_event c ≡ false
  unfolding is_writing is_reading
  some_event p = ground (arith, all_below_lem 8 _ c.events h set_table)

pub without_all-writing :
    (c : Channel) → (is_writing (without_all c) ≡ false) × ((without_all c).events < 8)
unfolding is_writing without_all
without_all-writing c = (refl, omega arith)
