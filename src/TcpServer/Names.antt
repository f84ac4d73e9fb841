-- ===== src/TcpServer/Names.antt =====
-- The names of the connections of a server.
use yvent.Prelude.{
  ℕ, ◌^◌, ◌<◌, ◌≤◌, ◌≡◌, sym, ◌∙◌, List, ◌∷◌, ◌++◌, length, length-append, take-all, arith,
}
use yvent.Text.{decimal}
use yvent.Text.Decimal.{decimal-inj, decimal-HasNoHash, last_hash, length-decimal}
use yvent.InetAddr.{InetAddr, port, ip}
use yvent.TcpServer.{connection_name}

short_enough :
    (host port id : List ℕ)
    → length host ≤ 15
    → length port ≤ 21
    → length id ≤ 21
    → length ((host ++ b':' ∷ port) ++ b'#' ∷ id) ≤ 127
short_enough host port id a b c =
    omega (arith, length-append (host ++ b':' ∷ port) (b'#' ∷ id), length-append host (b':' ∷ port))

-- The whole name fits, since the text of an address is short.
name_whole :
    (text_of : ℕ → List ℕ) (peer : InetAddr) (id : ℕ)
    → length (text_of peer.s_addr) ≤ 15
    → connection_name text_of peer id
      ≡ (text_of peer.s_addr ++ b':' ∷ decimal (port peer)) ++ b'#' ∷ decimal id
unfolding connection_name ip
name_whole text_of peer id h = take-all 127 _ (
    short_enough (text_of peer.s_addr) (decimal (port peer)) (decimal id) h
      (length-decimal (port peer)) (length-decimal id))

-- Two connections with different numbers have different names, whoever they come from: `inet_ntop` writes at
-- most 15 bytes, and the numbers are `int`s.
pub connection_name_inj :
    (text_of : ℕ → List ℕ) (p q : InetAddr) (m n : ℕ)
    → ((host : ℕ) → length (text_of host) ≤ 15)
    → m < 2 ^ 31
    → n < 2 ^ 31
    → connection_name text_of p m ≡ connection_name text_of q n
    → m ≡ n
connection_name_inj text_of p q m n h hm hn e = decimal-inj m n (omega arith) (omega arith) (
    last_hash _ _ (decimal m) (decimal n) (decimal-HasNoHash m) (decimal-HasNoHash n)
      (sym (name_whole text_of p m (h p.s_addr)) ∙ e ∙ name_whole text_of q n (h q.s_addr)))
