-- ===== src/Poll/Sync.antt =====
-- A channel's events against what the kernel watches. The kernel is a parameter, with the documented
-- behaviour of `epoll_ctl` as laws: to add what is watched, or to change or remove what is not, fails
-- and changes nothing, and so does every call that is `short` of memory or of watches.
use yvent.Prelude.{
  ℕ, ◌≡◌, ◌≢◌, ◌⊎◌, Bool, true, refl, inl, inr, false, ◌==◌, Option, none, some, arith, Bool-cases,
  ==_iff,
}
use yvent.Fault.{ok, err, assertion, Returns, returned}
use yvent.Channel.{Channel, ChannelState, new, added, deleted}
use yvent.Poll.{Op, ctl_add, ctl_mod, ctl_del, is_new, update_channel}

pub record Epoll : Type 1 where
  pub Kernel : Type 0
  pub watched : Kernel → ℕ → Option ℕ
  pub ctl : Op → ℕ → ℕ → Kernel → Option Kernel
  -- The call fails with ENOMEM or ENOSPC.
  pub short : Op → ℕ → Kernel → Bool
  pub short_fails :
      (op : Op) (k : Kernel) (fd ev : ℕ) → short op fd k ≡ true → ctl op fd ev k ≡ none
  pub add_fresh :
      (k : Kernel) (fd ev : ℕ)
      → watched k fd ≡ none
      → short ctl_add fd k ≡ false
      → (l : Kernel) × (ctl ctl_add fd ev k ≡ some l) × (watched l fd ≡ some ev)
  pub mod_known :
      (k : Kernel) (fd ev old : ℕ)
      → watched k fd ≡ some old
      → short ctl_mod fd k ≡ false
      → (l : Kernel) × (ctl ctl_mod fd ev k ≡ some l) × (watched l fd ≡ some ev)
  pub del_known :
      (k : Kernel) (fd ev old : ℕ)
      → watched k fd ≡ some old
      → short ctl_del fd k ≡ false
      → (l : Kernel) × (ctl ctl_del fd ev k ≡ some l) × (watched l fd ≡ none)
  pub mod_missing : (k : Kernel) (fd ev : ℕ) → watched k fd ≡ none → ctl ctl_mod fd ev k ≡ none
  pub del_missing : (k : Kernel) (fd ev : ℕ) → watched k fd ≡ none → ctl ctl_del fd ev k ≡ none

module _ (e : Epoll) where
  open e use {
    Kernel, watched, ctl, short, short_fails, add_fresh, mod_known, del_known, mod_missing,
    del_missing,
  }

  -- `update`: a failure of `epoll_ctl` is only logged.
  abbrev pub issue : Op → Channel → Kernel → Kernel
  issue op c k = elim (ctl op c.fd c.events k) [ some l ↦ l | none ↦ k ]

  -- What the state of a channel says of the kernel.
  abbrev pub InSync : ChannelState → Channel → Kernel → Type 0
  InSync new c k = watched k c.fd ≡ none
  InSync added c k = watched k c.fd ≡ some c.events
  InSync deleted c k = (watched k c.fd ≡ none) × (c.events ≡ 0)

  -- After an operation the kernel is in step with the channel; or it was short of memory, and watches what
  -- it did before.
  abbrev pub Follows : Op → Channel → Kernel → Type 0
  Follows op c k =
      ((short op c.fd k ≡ false) × InSync c.state c (issue op c k))
      ⊎ ((short op c.fd k ≡ true) × (issue op c k ≡ k))

  module _ (c : Channel) (k : Kernel) where
    follows :
        (op : Op) → (short op c.fd k ≡ false → InSync c.state c (issue op c k)) → Follows op c k
    follows op works = elim (Bool-cases (short op c.fd k)) [
      | inl s ↦ inr (s, rw (short_fails op k c.fd c.events s, issue) refl)
      | inr s ↦ inl (s, works s)
    ]

    issue_add :
        watched k c.fd ≡ none
        → short ctl_add c.fd k ≡ false
        → watched (issue ctl_add c k) c.fd ≡ some c.events
    issue_add h s = let (l, p, q) = add_fresh k c.fd c.events h s in rw (p, issue) q

    issue_mod :
        {old : ℕ}
        → watched k c.fd ≡ some old
        → short ctl_mod c.fd k ≡ false
        → watched (issue ctl_mod c k) c.fd ≡ some c.events
    issue_mod {old} h s = let (l, p, q) = mod_known k c.fd c.events old h s in rw (p, issue) q

    issue_del :
        {old : ℕ}
        → watched k c.fd ≡ some old
        → short ctl_del c.fd k ≡ false
        → watched (issue ctl_del c k) c.fd ≡ none
    issue_del {old} h s = let (l, p, q) = del_known k c.fd c.events old h s in rw (p, issue) q

  -- The change of a channel's events, as each of `enableRead`, `enableWrite`, `disableWrite` and
  -- `disableAll` makes it, up to the kernel.
  abbrev pub changed : Channel → ℕ → Channel
  changed c events = record c { events = events }

  module _ (c : Channel) (k : Kernel) (events : ℕ) where
    abbrev in_state : ChannelState → Channel
    in_state s = record (changed c events) { state = s }

    added_now :
        c.state ≡ new
        → events ≢ 0
        → update_channel (changed c events) ≡ ok (in_state added, ctl_add)
    unfolding update_channel
    added_now e n = ground arith

    modified_now :
        (s : ChannelState)
        → is_new s ≡ false
        → c.state ≡ s
        → events ≢ 0
        → update_channel (changed c events) ≡ ok (in_state s, ctl_mod)
    unfolding update_channel
    modified_now s t e n = ground arith

    deleted_now :
        (s : ChannelState)
        → is_new s ≡ false
        → c.state ≡ s
        → events ≡ 0
        → update_channel (changed c events) ≡ ok (in_state deleted, ctl_del)
    unfolding update_channel
    deleted_now s t e n = ground arith

    -- A channel that was never removed stays in step with the kernel under every change of its events:
    -- the kernel then watches exactly the new events, or nothing where they are none; only where it is short
    -- of memory it watches what it did before. Only the first change may not be to none.
    pub update_channel-InSync :
        (s : ChannelState)
        → c.state ≡ s
        → InSync s c k
        → s ≢ deleted
        → (s ≡ new → events ≢ 0)
        → Returns
            (λ r. Follows r.1 r.0 k × (r.0.events ≡ events))
            (update_channel (changed c events))
    update_channel-InSync new e h d n =
        returned _ (added_now e (n refl))
          (follows (in_state added) k ctl_add (issue_add (in_state added) k h), refl)
    update_channel-InSync added e h d n = elim (Bool-cases (events == 0)) [
      | inl z ↦
          let none_left : events ≡ 0 = (==_iff events 0).0 z in
          returned _ (deleted_now added refl e none_left) (
            follows (in_state deleted) k ctl_del
                (λ s. (issue_del (in_state deleted) k h s, none_left)),
            refl,
          )
      | inr z ↦
          returned _ (modified_now added refl e (ground arith))
            (follows (in_state added) k ctl_mod (issue_mod (in_state added) k h), refl)
    ]
    update_channel-InSync deleted e h d n = absurd (d refl)

    -- A new channel must ask for something first.
    pub update_channel_new_none :
        c.state ≡ new → events ≡ 0 → update_channel (changed c events) ≡ err assertion
    unfolding update_channel
    update_channel_new_none e z = ground arith

    -- A channel that was removed asks for events in vain: after the change its events are the new ones,
    -- and the kernel watches nothing for it.
    pub update_channel_lost :
        c.state ≡ deleted
        → InSync deleted c k
        → events ≢ 0
        → Returns
            (λ r. (r.0.events ≡ events) × (watched (issue r.1 r.0 k) r.0.fd ≡ none))
            (update_channel (changed c events))
    update_channel_lost e h n =
        returned _ (modified_now deleted refl e n)
          (refl, rw (mod_missing k c.fd events h.0, issue) h.0)
