-- ===== src/Echo/Sys.antt =====
-- What the echo programs see of the system calls, and what they do to the system.
use cpp_example.Common.{ℕ, [], ◌∷◌, Bool, true, false, List, ◌==◌, if◌then◌else◌}

pub data Errno : Type 0 where
  eintr eagain other_error : Errno

-- read or recv: the bytes, none at the end of the stream, or -1 with errno.
pub data Got : Type 0 where
  got : List ℕ → Got
  failed : Errno → Got

-- accept: a descriptor, or -1 with errno.
pub data Accepted : Type 0 where
  accepted : ℕ → Accepted
  refused : Errno → Accepted

pub data Act : Type 0 where
  write : ℕ → List ℕ → Act
  close : ℕ → Act
  shutdown_wr : ℕ → Act
  unwatch : ℕ → Act
  watch : ℕ → Act
  spawn : ℕ → Act  -- a thread or a process for a connection
  print : List ℕ → Act  -- to the standard output
  reaped : ℕ → Act

-- A pass of a server's loop: the next state with what was done, the end of the process, or a write
-- outside of a variable.
pub data Turn (S : Type 0) : Type 0 where
  next : S → List Act → Turn S
  exits : List Act → Turn S
  out_of_bounds : Turn S

-- fd_set, as a function.
abbrev pub FdSet : Type 0
FdSet = ℕ → Bool

abbrev pub fd_zero : FdSet
fd_zero x = false

abbrev pub fd_put : ℕ → FdSet → FdSet
fd_put fd s x = if x == fd then true else s x

abbrev pub fd_clr : ℕ → FdSet → FdSet
fd_clr fd s x = if x == fd then false else s x

-- The start of a server: main returns the negative of a number, or it listens on a descriptor.
pub data Setup (S : Type 0) : Type 0 where
  fails : ℕ → Setup S
  serves : ℕ → S → Setup S

-- What the acts wrote to a descriptor, printed, and closed.
abbrev pub writes_of : List Act → List (ℕ × List ℕ)
writes_of [] = []
writes_of (write fd msg ∷ acts) = (fd, msg) ∷ writes_of acts
writes_of (a ∷ acts) = writes_of acts

abbrev pub prints_of : List Act → List (List ℕ)
prints_of [] = []
prints_of (print msg ∷ acts) = msg ∷ prints_of acts
prints_of (a ∷ acts) = prints_of acts

abbrev pub closes_of : List Act → List ℕ
closes_of [] = []
closes_of (close fd ∷ acts) = fd ∷ closes_of acts
closes_of (a ∷ acts) = closes_of acts
