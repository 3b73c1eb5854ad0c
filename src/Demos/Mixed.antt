-- ===== src/Demos/Mixed.antt =====
-- network/demo2_select.cpp: what the clients get from the one buffer.
use cpp_example.Common.{
  ℕ, ◌+◌, ◌-◌, ◌<◌, ◌≡◌, refl, ap, ◌∙◌, true, false, some, List, [], ◌∷◌, ◌++◌, map, All, length,
  drop, arith,
}
use cpp_example.Common.Outcome.{done, read_at}
use cpp_example.Common.Strings.{front_read}
use cpp_example.Echo.Sys.{got, Act, write, print, FdSet, fd_put, fd_clr}
use cpp_example.Demos.Select.{
  Server, Pass, buffer_length, read_client, write_client, serve_fd, select_pass,
}
use cpp_example.Common.Ended.{IsEnded, write-IsEnded}
use cpp_example.Demos.Ready.{ready_fds, serve_each, walk-ready_fds}

-- The buffer begins with a message, and `ret` is its length.
pub record Holds (s : Server) (msg : List ℕ) : Type 0 where
  rest : List ℕ
  parts : s.buffer ≡ msg ++ rest
  counted : s.ret ≡ some (length msg)

-- Descriptors with a message to read, nonempty and of fewer than 128 bytes.
abbrev pub AllReadable : FdSet × FdSet → Pass → (ℕ → List ℕ) → List ℕ → Type 0
AllReadable out p msgs = All (λ fd.
    (out.0 fd ≡ true)
    × (p.received fd ≡ got (msgs fd))
    × (0 < length (msgs fd))
    × (length (msgs fd) < buffer_length))

-- Descriptors that are only writable, on which a message is sent whole.
abbrev pub AllWritable : FdSet × FdSet → Pass → List ℕ → List ℕ → Type 0
AllWritable out p msg =
    All (λ fd. (out.0 fd ≡ false) × (out.1 fd ≡ true) × (p.sent fd ≡ some (length msg)))

abbrev pub last_of : ℕ → List ℕ → ℕ
last_of fd [] = fd
last_of fd (next ∷ fds) = last_of next fds

read_client-Holds :
    (fd : ℕ) (msg : List ℕ) (s : Server)
    → IsEnded buffer_length s.buffer
    → 0 < length msg
    → length msg < buffer_length
    → (s' : Server) × (acts : List Act) × (read_client fd (got msg) s ≡ done (s', acts))
      × IsEnded buffer_length s'.buffer
      × Holds s' msg
      × (s'.lastfd ≡ s.lastfd)
unfolding read_client
read_client-Holds fd [] s v some_bytes fits = absurd (omega arith)
read_client-Holds fd (b ∷ bs) s v some_bytes fits =
    let msg : List ℕ = b ∷ bs in
    let (line, e, shown, ended) = write-IsEnded msg s.buffer v fits in
    (
      record s {
        ret = some (length msg);
        buffer = msg ++ drop (length msg) s.buffer;
        wfds_in = fd_put fd s.wfds_in;
      },
      print line ∷ [],
      rw e (rw shown refl),
      ended,
      record { rest = drop (length msg) s.buffer; parts = refl; counted = refl },
      refl,
    )

serve_each-first :
    (out : FdSet × FdSet) (p : Pass) (fd : ℕ) (fds : List ℕ) (s s1 s2 : Server)
    (acts1 acts2 : List Act)
    → serve_fd out p fd s ≡ done (s1, acts1)
    → serve_each out p fds s1 ≡ done (s2, acts2)
    → serve_each out p (fd ∷ fds) s ≡ done (s2, acts1 ++ acts2)
serve_each-first out p fd fds s s1 s2 acts1 acts2 e f = rw e (rw f refl)

read_first :
    (out : FdSet × FdSet) (p : Pass) (msgs : ℕ → List ℕ) (fd : ℕ) (s : Server)
    → AllReadable out p msgs (fd ∷ [])
    → IsEnded buffer_length s.buffer
    → (s' : Server) × (acts : List Act) × (serve_fd out p fd s ≡ done (s', acts))
      × IsEnded buffer_length s'.buffer
      × Holds s' (msgs fd)
      × (s'.lastfd ≡ s.lastfd)
unfolding serve_fd
read_first out p msgs fd s ((ready, reply, some_bytes, fits), none_left) v =
    let (s1, acts, e, ended, holds, same) = read_client-Holds fd (msgs fd) s v some_bytes fits in
    (s1, acts, rw (ready, reply) e, ended, holds, same)

-- Of several messages read one after the other, the last is kept.
read_each :
    (out : FdSet × FdSet) (p : Pass) (msgs : ℕ → List ℕ) (fd : ℕ) (fds : List ℕ) (s : Server)
    → AllReadable out p msgs (fd ∷ fds)
    → IsEnded buffer_length s.buffer
    → (s' : Server) × (acts : List Act) × (serve_each out p (fd ∷ fds) s ≡ done (s', acts))
      × Holds s' (msgs (last_of fd fds))
      × (s'.lastfd ≡ s.lastfd)
read_each out p msgs fd [] s (readable, others) v =
    let (s1, acts1, e, ended, holds, same) = read_first out p msgs fd s (readable, tt) v in
    (s1, acts1 ++ [], serve_each-first out p fd [] s s1 s1 acts1 [] e refl, holds, same)
read_each out p msgs fd (next ∷ fds) s (readable, others) v =
    let (s1, acts1, e, ended, holds, same) = read_first out p msgs fd s (readable, tt) v in
    let (s2, acts2, f, holds2, same2) = read_each out p msgs next fds s1 others ended in
    (
      s2,
      acts1 ++ acts2,
      serve_each-first out p fd (next ∷ fds) s s1 s2 acts1 acts2 e f,
      holds2,
      same2 ∙ same,
    )

write_first :
    (out : FdSet × FdSet) (p : Pass) (msg : List ℕ) (fd : ℕ) (s : Server)
    → AllWritable out p msg (fd ∷ [])
    → Holds s msg
    → (s' : Server) × (serve_fd out p fd s ≡ done (s', write fd msg ∷ [])) × Holds s' msg
unfolding serve_fd write_client
write_first out p msg fd s ((unread, ready, whole), none_left) h = (
  record s { ret = p.sent fd; wfds_in = fd_clr fd s.wfds_in; rfds_in = fd_put fd s.rfds_in },
  rw (unread, ready) (rw h.counted (rw held refl)),
  record { rest = h.rest; parts = h.parts; counted = whole },
)
  where
    held : read_at s.buffer 0 (length msg) ≡ done msg
    held = ap (λ b. read_at b 0 (length msg)) h.parts ∙ front_read msg h.rest

write_each :
    (out : FdSet × FdSet) (p : Pass) (msg : List ℕ) (fds : List ℕ) (s : Server)
    → AllWritable out p msg fds
    → Holds s msg
    → (s' : Server) × (serve_each out p fds s ≡ done (s', map (λ fd. write fd msg) fds))
write_each out p msg [] s w h = (s, refl)
write_each out p msg (fd ∷ fds) s (writable, others) h =
    let (s1, e, h1) = write_first out p msg fd s (writable, tt) h in
    let (s2, f) = write_each out p msg fds s1 others h1 in
    (s2, serve_each-first out p fd fds s s1 s2 (write fd msg ∷ []) _ e f)

-- A pass whose only work is for clients.
pass_lem :
    (listenfd : ℕ) (p : Pass) (out : FdSet × FdSet) (s : Server)
    → p.selected ≡ some out
    → out.0 listenfd ≡ false
    → select_pass listenfd p s
      ≡ serve_each out p (ready_fds out (s.lastfd - listenfd) (listenfd + 1)) s
unfolding select_pass
pass_lem listenfd p out s e idle =
    simp e (simp idle (walk-ready_fds out p (s.lastfd - listenfd) (listenfd + 1) s))

-- Two passes in which the listening socket is not ready. In the first, one or more clients are
-- ready, each with a message of fewer than 128 bytes to read; in the second, one or more are ready
-- to be written to. Then every client written to is sent the message that was read last, its own
-- or another's, and all messages before that one are lost.
pub last_message_to_all :
    (listenfd fd : ℕ) (fds writers : List ℕ) (p1 p2 : Pass) (out1 out2 : FdSet × FdSet)
    (msgs : ℕ → List ℕ) (s : Server)
    → IsEnded buffer_length s.buffer
    → p1.selected ≡ some out1
    → out1.0 listenfd ≡ false
    → ready_fds out1 (s.lastfd - listenfd) (listenfd + 1) ≡ fd ∷ fds
    → AllReadable out1 p1 msgs (fd ∷ fds)
    → p2.selected ≡ some out2
    → out2.0 listenfd ≡ false
    → ready_fds out2 (s.lastfd - listenfd) (listenfd + 1) ≡ writers
    → AllWritable out2 p2 (msgs (last_of fd fds)) writers
    → (s1 s2 : Server) × (acts : List Act) × (select_pass listenfd p1 s ≡ done (s1, acts))
      × (select_pass listenfd p2 s1 ≡ done (s2, map (λ w. write w (msgs (last_of fd fds))) writers))
last_message_to_all listenfd fd fds writers p1 p2 out1 out2 msgs s v sel1 idle1 ready1 readable sel2
      idle2 ready2 writable =
    let (s1, acts, e, holds, same) = read_each out1 p1 msgs fd fds s readable v in
    let (s2, f) = write_each out2 p2 (msgs (last_of fd fds)) writers s1 writable holds in
    (
      s1,
      s2,
      acts,
      pass_lem listenfd p1 out1 s sel1 idle1 ∙ rw ready1 e,
      pass_lem listenfd p2 out2 s1 sel2 idle2 ∙ rw same (rw ready2 f),
    )
