-- ===== src/Reactor/Deleting.antt =====
-- src/net/eventloop.cc, `delete_epoll_event`: what the kernel still watches afterwards.
use tiny_rpc.Base.{
  ℕ, ◌≡◌, refl, sym, ap, ◌∙◌, List, [], ◌∷◌, true, false, none, some, arith, ◌==◌, ◌⊎◌, inl, inr,
  Bool-cases,
}
use mathlib.Core.Path.{subst}
use tiny_rpc.Reactor.FdEvent.{FdEvent}
use tiny_rpc.Reactor.EventLoop.{
  epoll_ctl_add, epoll_ctl_mod, epoll_ctl_del, EpollOp, EpollCtl, EventLoop, has_fd, erase_fd,
  delete_from_epoll, delete_epoll_event,
}
use tiny_rpc.Reactor.Epoll.{kernel_op, kernel_steps, IsConsistent, delete_epoll_event-IsConsistent}

abbrev IsDistinct : List ℕ → Type 0
IsDistinct [] = Unit {0}
IsDistinct (x ∷ xs) = (has_fd x xs ≡ false) × IsDistinct xs

has_fd-erase_fd_other :
    (d fd : ℕ) (fds : List ℕ) → has_fd d fds ≡ false → has_fd d (erase_fd fd fds) ≡ false
unfolding has_fd erase_fd
has_fd-erase_fd_other d fd [] h = refl
has_fd-erase_fd_other d fd (x ∷ xs) h = ground (arith, has_fd-erase_fd_other d fd xs)

erase_fd-IsDistinct : (fd : ℕ) (fds : List ℕ) → IsDistinct fds → IsDistinct (erase_fd fd fds)
unfolding erase_fd
erase_fd-IsDistinct fd [] h = tt
erase_fd-IsDistinct fd (x ∷ xs) h = elim (Bool-cases (x == fd)) [
  | inl e ↦ rw e h.1
  | inr e ↦ rw e (has_fd-erase_fd_other x fd xs h.0, erase_fd-IsDistinct fd xs h.1)
]

has_fd-erase_fd : (fd : ℕ) (fds : List ℕ) → IsDistinct fds → has_fd fd (erase_fd fd fds) ≡ false
unfolding has_fd erase_fd
has_fd-erase_fd fd [] h = refl
has_fd-erase_fd fd (x ∷ xs) h = ground (arith, has_fd-erase_fd fd xs h.1, h.0)

-- A call of `epoll_ctl` is refused, or leaves an interest list without repetitions.
kernel_op-cases :
    (op : EpollOp) (fd : ℕ) (fds : List ℕ)
    → IsDistinct fds
    → (kernel_op op fd fds ≡ none)
      ⊎ ((fds' : List ℕ) × (kernel_op op fd fds ≡ some fds') × IsDistinct fds')
kernel_op-cases epoll_ctl_add fd fds h = elim (Bool-cases (has_fd fd fds)) [
  | inl e ↦ rw e (inl refl)
  | inr e ↦ inr (fd ∷ fds, rw e refl, (e, h))
]
kernel_op-cases epoll_ctl_mod fd fds h = elim (Bool-cases (has_fd fd fds)) [
  | inl e ↦ inr (fds, rw e refl, h)
  | inr e ↦ rw e (inl refl)
]
kernel_op-cases epoll_ctl_del fd fds h = elim (Bool-cases (has_fd fd fds)) [
  | inl e ↦ inr (erase_fd fd fds, rw e refl, erase_fd-IsDistinct fd fds h)
  | inr e ↦ rw e (inl refl)
]

kernel_steps-none : (cs : List EpollCtl) → kernel_steps none cs ≡ none
kernel_steps-none [] = refl
kernel_steps-none (c ∷ cs) = refl

kernel_steps-IsDistinct :
    (cs : List EpollCtl) (fds fds' : List ℕ)
    → IsDistinct fds
    → kernel_steps (some fds) cs ≡ some fds'
    → IsDistinct fds'
kernel_steps-IsDistinct [] fds fds' h e = let p : fds ≡ fds' = cc in subst IsDistinct p h
kernel_steps-IsDistinct (c ∷ cs) fds fds' h e = elim (kernel_op-cases c.op c.fd fds h) [
  | inl refused ↦
      let p : kernel_steps none cs ≡ some fds' = ap (λ o. kernel_steps o cs) (sym refused) ∙ e in
      let q : none ≡ some fds' = sym (kernel_steps-none cs) ∙ p in absurd (cc q)
  | inr (ys, taken, h') ↦
      kernel_steps-IsDistinct cs ys fds' h' (ap (λ o. kernel_steps o cs) (sym taken) ∙ e)
]

delete_from_epoll-gone :
    (l : EventLoop) (e : FdEvent)
    → IsDistinct l.m_listen_fds
    → has_fd e.m_fd (delete_from_epoll l e).m_listen_fds ≡ false
unfolding delete_from_epoll
delete_from_epoll-gone l e h = elim (Bool-cases (has_fd e.m_fd l.m_listen_fds)) [
  | inl p ↦ rw p (has_fd-erase_fd e.m_fd l.m_listen_fds h)
  | inr p ↦ rw p p
]

-- The kernel has accepted all calls of `epoll_ctl`, and does not watch the descriptor.
pub record IsUnwatched (fd : ℕ) (l : EventLoop) : Type 0 where
  pub consistent : IsConsistent l
  pub gone : has_fd fd l.m_listen_fds ≡ false

-- The loop's own thread takes a descriptor out of the loop and out of the kernel's interest list,
-- if the two agreed before.
pub delete_epoll_event-IsUnwatched :
    {l : EventLoop} (e : FdEvent)
    → IsConsistent l
    → IsUnwatched e.m_fd (delete_epoll_event l.m_thread_id l e)
delete_epoll_event-IsUnwatched {l} e h = record {
  consistent = delete_epoll_event-IsConsistent l.m_thread_id e h;
  gone =
      unfold delete_epoll_event in
      let own : (l.m_thread_id == l.m_thread_id) ≡ true = ground arith in
      rw own (
        delete_from_epoll-gone l e
          (kernel_steps-IsDistinct l.epoll_calls [] l.m_listen_fds tt h.agreed));
}
