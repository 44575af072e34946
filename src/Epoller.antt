-- ===== src/Epoller.antt =====
-- class Epoller (include/net/Epoller.h, src/net/Epoller.cpp): which channels a loop watches.
-- A `Channel *` is a number; `epoll_ctl` and `epoll_wait` are parameters.
pub mod Mask
pub mod Poll
pub mod Registry
mod Tests
use simple_tcp.Prelude.{
  ℕ, Bool, true, false, not, List, [], ◌∷◌, ◌++◌, Option, none, some, ltb, if◌then◌else◌, lookup,
  insert_new, erase, member, remove, Build, Outcome, M, ok, threw, fault, ◌>>=◌, ◌>>◌, return,
  throw, modify, assert_true, system_exception, length,
}
use Mask.{Events, no_events}

-- ChannelPriority, and the value of each
pub data Priority : Type 0 where
  normal high : Priority

abbrev pub rank : Priority → ℕ
rank normal = 0
rank high = 1

-- What the poller reads of a Channel: its address, descriptor, interest mask, last events and
-- priority.
pub record Channel : Type 0 where
  pub id : ℕ
  pub fd : ℕ
  pub event : Events
  pub revent : Events
  pub priority : Priority

-- A call of `epoll_ctl`.
pub data Ctl : Type 0 where
  ctl_add : ℕ → Events → Ctl
  ctl_mod : ℕ → Events → Ctl
  ctl_del : ℕ → Ctl

-- `mChannelMap` from descriptors to channels, `mChannelSet`, and the calls of `epoll_ctl` that
-- succeeded, newest first.
pub record Epoller : Type 0 where
  pub channel_map : List (ℕ × ℕ)
  pub channel_set : List ℕ
  pub issued : List Ctl

-- `hasChannel`
unfoldable pub has_channel : ℕ → Epoller → Bool
has_channel id p = member id p.channel_set

module _ (build : Build) (ctl : Ctl → Bool) where
  -- A call of `epoll_ctl`, and the exception where it fails.
  unfoldable pub control : Ctl → M Epoller (Unit {0})
  control c p =
      if ctl c then ok tt (record p { issued = c ∷ p.issued }) else threw system_exception p

  -- `addChannel`: the mask that it registers is empty, whatever the channel's is.
  unfoldable pub add_channel : Channel → M Epoller (Unit {0})
  add_channel c p =
      (do
        assert_true build (not (has_channel c.id p))
        control (ctl_add c.fd no_events)
        modify (λ p. record p {
          channel_map = insert_new c.fd c.id p.channel_map;
          channel_set = c.id ∷ p.channel_set;
        }))
        p

  -- `updateChannel`
  unfoldable pub update_channel : Channel → M Epoller (Unit {0})
  update_channel c p = (do assert_true build (has_channel c.id p); control (ctl_mod c.fd c.event)) p

  -- `removeChannel`
  unfoldable pub remove_channel : Channel → M Epoller (Unit {0})
  remove_channel c p =
      (do
        assert_true build (has_channel c.id p)
        control (ctl_del c.fd)
        modify (λ p. record p {
          channel_map = erase c.fd p.channel_map;
          channel_set = remove c.id p.channel_set;
        }))
        p

-- The comparison that `poll` gives to std::sort: whether the left one comes before the right.
abbrev pub comes_before : Channel → Channel → Bool
comes_before left right = ltb (rank right.priority) (rank left.priority)

module _ (build : Build) (object : ℕ → Channel) where
  -- One round of the loop over the events of `epoll_wait`. A descriptor that the map lacks fails the
  -- assertion; in a release build `operator[]` gives a null pointer, and `setRevents` a fault.
  unfoldable pub activate : List (ℕ × Events) → M Epoller (List Channel)
  activate [] p = ok [] p
  activate ((fd, events) ∷ ready) p = elim (lookup fd p.channel_map) [
    | none ↦ (assert_true build false >> (λ _. fault)) p
    | some id ↦ (do rest ← activate ready; return (record (object id) { revent = events } ∷ rest)) p
  ]

  -- `poll`: `none` is a failed `epoll_wait`, and `sort` stands for `std::sort`.
  unfoldable pub poll :
      ((Channel → Channel → Bool) → List Channel → List Channel)
      → Option (List (ℕ × Events))
      → M Epoller (List Channel)
  poll sort none = throw system_exception
  poll sort (some ready) = do
    active ← activate ready
    return (if ltb 1 (length active) then sort comes_before active else active)
