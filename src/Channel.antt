-- ===== src/Channel.antt =====
-- class Channel (include/net/Channel.h, src/net/Channel.cpp): the interest in the events of one
-- descriptor, and the dispatch of the events that came. `EventLoop::addChannel`, `updateChannel` and
-- `removeChannel` hand over to the poller.
pub mod Interest
mod Tests
use simple_tcp.Prelude.{
  ℕ, Bool, true, false, not, ◌&&◌, ◌||◌, if◌then◌else◌, Build, Outcome, M, ok, threw, abort, fault,
  hang, ◌>>=◌, ◌>>◌, return, throw, system_exception, assert_true,
}
use simple_tcp.Epoller.Mask.{Events, no_events, error_event}
use simple_tcp.Epoller.{Priority, Channel, Ctl, Epoller}
use simple_tcp.Epoller

-- A channel with the poller of its loop.
pub record Port : Type 0 where
  pub channel : Channel
  pub poller : Epoller

-- `mEvent & CHANNEL_READ_EVENT`, with CHANNEL_READ_EVENT = EPOLLIN | EPOLLPRI
abbrev pub wants_read : Events → Bool
wants_read e = e.readable || e.urgent

-- `mEvent & CHANNEL_WRITE_EVENT`, with CHANNEL_WRITE_EVENT = EPOLLOUT
abbrev pub wants_write : Events → Bool
wants_write e = e.writable

-- `isReading`
abbrev pub is_reading : Channel → Bool
is_reading c = wants_read c.event

-- `isWriting`
abbrev pub is_writing : Channel → Bool
is_writing c = wants_write c.event

-- a call of the poller on behalf of the channel
unfoldable pub on_poller : M Epoller (Unit {0}) → M Port (Unit {0})
on_poller m s = elim (m s.poller) [
  | ok u p ↦ ok u (record s { poller = p })
  | threw e p ↦ threw e (record s { poller = p })
  | abort ↦ abort
  | fault ↦ fault
  | hang ↦ hang
]

abbrev pub set_event : Events → Port → Port
set_event e s = let c = s.channel in record s { channel = record c { event = e } }

-- Where a call is made: the build, what `epoll_ctl` comes to, whether `assertInLoopThread` holds,
-- and whether `EventLoop::removeChannel` may be called: not from a handler, but for the unwinding of
-- the stack.
pub record Site : Type 0 where
  pub build : Build
  pub ctl : Ctl → Bool
  pub in_thread : Bool
  pub removable : Bool

module _ (site : Site) where
  -- The constructor, with whether `fcntl` succeeded. The new channel is interested in errors only,
  -- and is added to the poller.
  unfoldable pub create : Bool → ℕ → ℕ → Priority → Events → Epoller → Outcome Port (Unit {0})
  create non_blocking id fd priority old p =
      (do
        assert_true site.build site.in_thread
        (if non_blocking then return tt else throw system_exception)
        assert_true site.build site.in_thread
        on_poller (Epoller.add_channel site.build site.ctl fresh))
        (record { channel = fresh; poller = p })
    where
      fresh : Channel
      fresh = record { id = id; fd = fd; event = error_event; revent = old; priority = priority }

  -- `mpEventLoop->updateChannel(this)`
  unfoldable pub update : M Port (Unit {0})
  update s =
      (do
        assert_true site.build site.in_thread
        on_poller (Epoller.update_channel site.build site.ctl s.channel))
        s

  unfoldable pub enable_read : M Port (Unit {0})
  enable_read s =
      if is_reading s.channel
      then ok tt s
      else let e = s.channel.event in
        update (set_event (record e { readable = true; urgent = true }) s)

  unfoldable pub enable_write : M Port (Unit {0})
  enable_write s =
      if is_writing s.channel
      then ok tt s
      else let e = s.channel.event in update (set_event (record e { writable = true }) s)

  unfoldable pub disable_read : M Port (Unit {0})
  disable_read s =
      if not (is_reading s.channel)
      then ok tt s
      else let e = s.channel.event in
        update (set_event (record e { readable = false; urgent = false }) s)

  unfoldable pub disable_write : M Port (Unit {0})
  disable_write s =
      if not (is_writing s.channel)
      then ok tt s
      else let e = s.channel.event in update (set_event (record e { writable = false }) s)

  unfoldable pub disable_all : M Port (Unit {0})
  disable_all s = update (set_event no_events s)

  -- The destructor, with the checks of `EventLoop::removeChannel`.
  unfoldable pub destroy : M Port (Unit {0})
  destroy s =
      (do
        assert_true site.build site.in_thread
        assert_true site.build site.in_thread
        assert_true site.build site.removable
        on_poller (Epoller.remove_channel site.build site.ctl s.channel))
        s

pub data Callback : Type 0 where
  read_cb write_cb error_cb close_cb : Callback

-- `handleEvent`: the callbacks run on whatever they change.
unfoldable pub handle_event {ℓ} :
    {S : Type ℓ} → (Callback → M S (Unit {0})) → Events → M S (Unit {0})
handle_event call r =
    if r.hang_up && not r.readable then call close_cb else if r.error then call error_cb else (do
      (if r.readable || (r.urgent || r.read_hang_up) then call read_cb else return tt)
      (if r.writable then call write_cb else return tt))
