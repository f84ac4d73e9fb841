-- ===== src/InetAddr/Order.antt =====
-- Byte order.
use yvent.Prelude.{ℕ, ◌^◌, ◌<◌, ◌≡◌, refl, List, Bool, Option, some, arith}
use yvent.Fault.{Returns, returns}
use yvent.InetAddr.{swap16, make, of_text, port}

swap16_twice : (p : ℕ) → p < 2 ^ 16 → swap16 (swap16 p) ≡ p
swap16_twice p h = omega arith

-- The port that an address was made with comes back.
port-make : (p : ℕ) (loopback : Bool) → p < 2 ^ 16 → port (make p loopback) ≡ p
unfolding port make
port-make p loopback h = swap16_twice p h

port-of_text :
    (inet_pton : List ℕ → Option ℕ) (text : List ℕ) (p s_addr : ℕ)
    → inet_pton text ≡ some s_addr
    → p < 2 ^ 16
    → Returns (λ a. (port a ≡ p) × (a.s_addr ≡ s_addr)) (of_text inet_pton text p)
unfolding port of_text
port-of_text inet_pton text p s_addr e h = rw (of_text, e) (returns _ (swap16_twice p h, refl))
