-- ===== src/Epoller/Mask.antt =====
-- The event masks of epoll: the six flags that src/net/Channel.cpp and src/net/Epoller.cpp use, which
-- are distinct bits of a word.
use simple_tcp.Prelude.{Bool, true, false}

pub record Events : Type 0 where
  pub readable : Bool  -- EPOLLIN
  pub urgent : Bool  -- EPOLLPRI
  pub writable : Bool  -- EPOLLOUT
  pub error : Bool  -- EPOLLERR
  pub hang_up : Bool  -- EPOLLHUP
  pub read_hang_up : Bool  -- EPOLLRDHUP

-- CHANNEL_NONE_EVENT
abbrev pub no_events : Events
no_events = record {
  readable = false;
  urgent = false;
  writable = false;
  error = false;
  hang_up = false;
  read_hang_up = false;
}

-- the mask of a new channel, EPOLLERR
abbrev pub error_event : Events
error_event = record no_events { error = true }
