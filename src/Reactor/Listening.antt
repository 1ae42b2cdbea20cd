-- ===== src/Reactor/Listening.antt =====
-- What an `FdEvent` listens to after any sequence of calls.
use tiny_rpc.Base.{ℕ, ◌≡◌, refl, ◌∙◌, List, [], ◌∷◌, Bool, true, false, Option, none, some, arith}
use tiny_rpc.Reactor.FdEvent.{
  TriggerEvent, in_event, out_event, error_event, FdEvent, handler, listen, cancel,
}

-- A call of `listen` with no error callback, as the repository makes it, or of `cancel`.
pub data Call : Type 0 where
  listens : TriggerEvent → ℕ → Call
  cancels : TriggerEvent → Call

unfoldable pub call : FdEvent → Call → FdEvent
call e (listens t callback) = listen e t (some callback) none
call e (cancels t) = cancel e t

unfoldable pub calls : FdEvent → List Call → FdEvent
calls e [] = e
calls e (c ∷ cs) = calls (call e c) cs

-- Whether the last call about EPOLLIN was a `listen`, and the callback of the last `listen`.
abbrev pub in_step : Bool × Option ℕ → Call → Bool × Option ℕ
in_step (b, f) (listens in_event callback) = (true, some callback)
in_step (b, f) (cancels in_event) = (false, f)
in_step (b, f) _ = (b, f)

abbrev pub out_step : Bool × Option ℕ → Call → Bool × Option ℕ
out_step (b, f) (listens out_event callback) = (true, some callback)
out_step (b, f) (listens error_event callback) = (true, some callback)
out_step (b, f) (cancels out_event) = (false, f)
out_step (b, f) (cancels error_event) = (false, f)
out_step (b, f) _ = (b, f)

abbrev pub history :
    (Bool × Option ℕ → Call → Bool × Option ℕ) → Bool × Option ℕ → List Call → Bool × Option ℕ
history step s [] = s
history step s (c ∷ cs) = history step (step s c) cs

call-in :
    (e : FdEvent) (c : Call)
    → ((call e c).epollin, (call e c).m_read_callback) ≡ in_step (e.epollin, e.m_read_callback) c
unfolding call listen cancel
call-in e (listens in_event callback) = refl
call-in e (listens out_event callback) = refl
call-in e (listens error_event callback) = refl
call-in e (cancels in_event) = refl
call-in e (cancels out_event) = refl
call-in e (cancels error_event) = refl

call-out :
    (e : FdEvent) (c : Call)
    → ((call e c).epollout, (call e c).m_write_callback)
      ≡ out_step (e.epollout, e.m_write_callback) c
unfolding call listen cancel
call-out e (listens in_event callback) = refl
call-out e (listens out_event callback) = refl
call-out e (listens error_event callback) = refl
call-out e (cancels in_event) = refl
call-out e (cancels out_event) = refl
call-out e (cancels error_event) = refl

call-fd : (e : FdEvent) (c : Call) → (call e c).m_fd ≡ e.m_fd
unfolding call listen cancel
call-fd e (listens in_event callback) = refl
call-fd e (listens _ callback) = refl
call-fd e (cancels in_event) = refl
call-fd e (cancels _) = refl

-- After any sequence of listen calls without error callback and of cancel calls, each of the
-- two event bits says whether the last call about it was a listen, each callback is that of its
-- last listen, and the descriptor is unchanged.
calls_lem :
    (e : FdEvent) (cs : List Call)
    → (((calls e cs).epollin, (calls e cs).m_read_callback)
        ≡ history in_step (e.epollin, e.m_read_callback) cs)
      × (((calls e cs).epollout, (calls e cs).m_write_callback)
          ≡ history out_step (e.epollout, e.m_write_callback) cs)
      × ((calls e cs).m_fd ≡ e.m_fd)
unfolding calls
calls_lem e [] = (refl, refl, refl)
calls_lem e (c ∷ cs) =
    let (i, o, f) = calls_lem (call e c) cs in
    (i ∙ rw (call-in e c), o ∙ rw (call-out e c), f ∙ call-fd e c)

-- On an event without error callback, listen with one sets it, and any listen after that clears
-- it again, whatever error callback it is given.
listen-clears :
    (e : FdEvent) (s t : TriggerEvent) (f g : Option ℕ) (c : ℕ) (d : Option ℕ)
    → e.m_error_callback ≡ none
    → (handler (listen e s f (some c)) error_event ≡ some c)
      × (handler (listen (listen e s f (some c)) t g d) error_event ≡ none)
unfolding handler listen
listen-clears e s t f g c d h = ground arith
