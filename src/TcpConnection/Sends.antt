-- ===== src/TcpConnection/Sends.antt =====
-- What the calls of `send` in the loop's thread give to a connection.
use mathlib.Core.Path.{subst}
use yvent.Prelude.{ℕ, ◌+◌, ◌-◌, ◌*◌, ◌≤◌, ◌≡◌, ap, ◌∙◌, List, true, length, arith}
use yvent.Fault.{Returns, returns, Returns-bind}
use yvent.Word.{max_size}
use yvent.Buffer
use yvent.Buffer.Contents.{Holds}
use yvent.Buffer.{Buffer, contents}
use yvent.TcpConnection
use yvent.TcpConnection.{TcpConnection, WriteResult, connected, is_connected}
use yvent.TcpConnection.Ports.{IsLive}
use yvent.TcpConnection.Flow.{Given, send_in_loop-Given}

-- `send` on a connection that is connected.
pub send-Given :
    (write : List ℕ → WriteResult) (c : TcpConnection)
    → IsLive c
    → c.state ≡ connected
    → (text : List ℕ) → length (contents c.out_buffer) + 2 * length text + 8 ≤ max_size
    → Returns (Given c text) (TcpConnection.send true write text c)
unfolding TcpConnection.send
send-Given write c l was text k =
    let online : is_connected c.state ≡ true = ap is_connected was in
    rw online (send_in_loop-Given c write text l k)

-- `send` of a buffer: what it holds is given to the connection.
pub send_buffer-Given :
    (write : List ℕ → WriteResult) (c : TcpConnection)
    → IsLive c
    → c.state ≡ connected
    → (b : Buffer) (text : List ℕ) → Holds text b
    → length (contents c.out_buffer) + 2 * length text + 8 ≤ max_size
    → Returns (λ r. Given c text r.1) (TcpConnection.send_buffer true write b c)
unfolding TcpConnection.send_buffer
send_buffer-Given write c l was b text h k =
    let online : is_connected c.state ≡ true = ap is_connected was in
    let size : Buffer.readable_bytes b ≡ b.writer_index - b.reader_index = omega (arith, h.valid) in
    let bytes = Buffer.slice b.reader_index (Buffer.readable_bytes b) b.buffer in
    let sent : bytes ≡ text = ap (λ n. Buffer.slice b.reader_index n b.buffer) size ∙ h.held in
    rw online (
      Returns-bind (TcpConnection.send_in_loop write bytes c) _
        (send_in_loop-Given c write bytes l (omega (arith, ap length sent)))
        λ d g. returns _ (subst (λ t. Given c t d) sent g))
