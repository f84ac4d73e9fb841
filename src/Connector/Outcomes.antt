-- ===== src/Connector/Outcomes.antt =====
-- How an attempt to connect ends.
use yvent.Prelude.{
  ℕ, ◌≡◌, ◌≢◌, refl, List, [], ◌∷◌, Bool, true, ◌==◌, if◌then◌else◌, Option, none, some, Bool-cases,
  inl, inr, ==_iff,
}
use yvent.Fault.{err, assertion, Returns, returns, ◌>>=◌}
use yvent.Channel
use yvent.Channel.{Channel, with_write, without_all, added, deleted}
use yvent.Poll.{update_channel}
use yvent.Connector.{
  Call, called_error, called_new_connection, make, in_progress, handle_write, start,
}

-- What the two callbacks hear of an attempt that ended with this `errno`.
abbrev pub heard : ℕ → List Call
heard errno = if errno == 0 then called_new_connection ∷ [] else called_error ∷ []

-- An attempt that is in progress ends, when its descriptor can be written to, with one call of one
-- callback: the one for a new connection where there is no error, and the one for an error otherwise. It is connected
-- only in the first case, and its channel is removed.
pub handle_write_lem :
    (fd early errno : ℕ)
    → Returns
        (λ c. (c.calls ≡ heard errno) × (c.connected ≡ (errno == 0)) × (c.channel.state ≡ deleted))
        (start (some in_progress) early (make fd true true) >>= handle_write errno)
unfolding start make handle_write update_channel Channel.make with_write without_all
handle_write_lem fd early errno = elim (Bool-cases (errno == 0)) [
  | inl z ↦ rw z (returns _ (refl, refl, refl))
  | inr z ↦ rw z (returns _ (refl, refl, refl))
]

-- An attempt that `connect` answers at once, with success or with an error other than EINPROGRESS,
-- fails an assertion.
pub start_at_once :
    (fd errno : ℕ) (connect : Option ℕ) (new_connection error : Bool)
    → connect ≢ some in_progress
    → start connect errno (make fd new_connection error) ≡ err assertion
unfolding start make handle_write update_channel Channel.make without_all
start_at_once fd errno none new_connection error h = refl
start_at_once fd errno (some e) new_connection error h = elim (Bool-cases (e == in_progress)) [
  | inl z ↦ absurd (h (let q : e ≡ in_progress = (==_iff e in_progress).0 z in cc))
  | inr z ↦ rw z refl
]
