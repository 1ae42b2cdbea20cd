-- ===== src/Reactor/FdEvent.antt =====
-- src/net/fd_event/fd_event.cc: a file descriptor with the events it listens to and its callbacks.
use tiny_rpc.Base.{ℕ, Bool, true, false, Option, none, some}

pub data TriggerEvent : Type 0 where
  in_event out_event error_event : TriggerEvent

-- A `std::function` is the number that identifies it, and `none` is the null function. Of
-- `m_listen_events.events` the code sets and clears the two bits EPOLLIN and EPOLLOUT only.
pub record FdEvent : Type 0 where
  pub m_fd : ℕ
  pub epollin : Bool
  pub epollout : Bool
  pub m_read_callback : Option ℕ
  pub m_write_callback : Option ℕ
  pub m_error_callback : Option ℕ

unfoldable pub new_fd_event : ℕ → FdEvent
new_fd_event fd = record {
  m_fd = fd;
  epollin = false;
  epollout = false;
  m_read_callback = none;
  m_write_callback = none;
  m_error_callback = none;
}

unfoldable pub handler : FdEvent → TriggerEvent → Option ℕ
handler e in_event = e.m_read_callback
handler e out_event = e.m_write_callback
handler e error_event = e.m_error_callback

-- The error callback is taken where none is set, and otherwise the one that is set is cleared.
abbrev pub next_error_callback : Option ℕ → Option ℕ → Option ℕ
next_error_callback none callback = callback
next_error_callback (some old) callback = none

unfoldable pub listen : FdEvent → TriggerEvent → Option ℕ → Option ℕ → FdEvent
listen e in_event callback error_callback = record e {
  epollin = true;
  m_read_callback = callback;
  m_error_callback = next_error_callback e.m_error_callback error_callback;
}
listen e _ callback error_callback = record e {
  epollout = true;
  m_write_callback = callback;
  m_error_callback = next_error_callback e.m_error_callback error_callback;
}

unfoldable pub cancel : FdEvent → TriggerEvent → FdEvent
cancel e in_event = record e { epollin = false }
cancel e _ = record e { epollout = false }

unfoldable pub set_error_callback : FdEvent → Option ℕ → FdEvent
set_error_callback e callback = record e { m_error_callback = callback }
