-- ===== src/Reactor/NoBlock.antt =====
-- src/net/fd_event/fd_event.cc, `set_no_block`. The flags of a descriptor are the number that `fcntl`
-- returns, `none` for -1.
use tiny_rpc.Base.{ℕ, ◌+◌, ◌/◌, ◌%◌, ◌≡◌, Bool, Option, none, some, arith, ◌==◌, if◌then◌else◌}

abbrev pub o_nonblock : ℕ
o_nonblock = 2048

-- `flags & O_NONBLOCK`.
abbrev pub has_no_block : ℕ → Bool
has_no_block flags = flags / o_nonblock % 2 == 1

-- What F_SETFL is called with, if it is; the bit is clear there. All bits of -1 are set.
unfoldable pub set_no_block : Option ℕ → Option ℕ
set_no_block none = none
set_no_block (some flags) = if has_no_block flags then none else some (flags + o_nonblock)

-- The flags of the descriptor afterwards.
abbrev pub flags_after : ℕ → ℕ
flags_after flags = elim (set_no_block (some flags)) [ none ↦ flags | some new ↦ new ]

-- The bit is set, and the bits below and above it are as they were.
set_no_block_lem :
    (flags : ℕ)
    → (flags_after flags / 2048 % 2 ≡ 1)
      × (flags_after flags % 2048 ≡ flags % 2048)
      × (flags_after flags / 4096 ≡ flags / 4096)
unfolding set_no_block
set_no_block_lem flags = ground arith
