-- ===== src/Echo/Worker/Race.antt =====
-- network/echo/d1_multi_thread_echo_server.cpp: the variable of the loop that each thread reads its
-- descriptor from. The variable of every pass stands at the same place on the stack.
use cpp_example.Common.{
  ℕ, zero, suc, ◌+◌, ◌≡◌, refl, sym, ap, ◌∙◌, Option, none, some, List, [], ◌∷◌, ◌++◌, append_assoc,
  append-nil, length, map, replicate, arith,
}

-- The loop gets a connection and creates a thread for it, or pthread_create fails, or accept is
-- interrupted, or one of the threads starts.
pub data Event : Type 0 where
  accepts : ℕ → Event
  accepts_alone : ℕ → Event
  interrupted : Event
  thread_reads : Event

-- The variable, -1 being `none`; the threads that have yet to read it; and what was read.
pub record Loop : Type 0 where
  pub clientfd : Option ℕ
  pub created : ℕ
  pub served : List (Option ℕ)

-- `none` where there is no thread that could read.
unfoldable pub loop_step : Event → Loop → Option Loop
loop_step (accepts fd) s = some (record s { clientfd = some fd; created = s.created + 1 })
loop_step (accepts_alone fd) s = some (record s { clientfd = some fd })
loop_step interrupted s = some (record s { clientfd = none })
loop_step thread_reads s = elim s.created [
  | zero ↦ none
  | suc n ↦ some (record s { created = n; served = s.served ++ s.clientfd ∷ [] })
]

unfoldable pub loop_run : List Event → Loop → Option Loop
loop_run [] s = some s
loop_run (e ∷ es) s = elim (loop_step e s) [ none ↦ none | some t ↦ loop_run es t ]

abbrev pub at_start : Loop
at_start = record { clientfd = none; created = 0; served = [] }

-- Each thread reads before the next connection is accepted.
abbrev pub prompt : List ℕ → List Event
prompt [] = []
prompt (fd ∷ fds) = accepts fd ∷ thread_reads ∷ prompt fds

-- All connections are accepted before the first thread reads.
abbrev pub late : List ℕ → List Event
late fds = map accepts fds ++ replicate (length fds) thread_reads

prompt-serves :
    (fds : List ℕ) (s : Loop)
    → s.created ≡ 0
    → (t : Loop) × (loop_run (prompt fds) s ≡ some t) × (t.served ≡ s.served ++ map some fds)
unfolding loop_run loop_step
prompt-serves [] s e = (s, refl, sym (append-nil s.served))
prompt-serves (fd ∷ fds) s e =
    let (t, run, served) =
      prompt-serves fds
        (record { clientfd = some fd; created = 0; served = s.served ++ some fd ∷ [] }) refl in
    (t, rw e run, served ∙ append_assoc s.served (some fd ∷ []) (map some fds))

reads-serve :
    (n : ℕ) (fd : Option ℕ) (served : List (Option ℕ))
    → loop_run (replicate n thread_reads) (record { clientfd = fd; created = n; served = served })
      ≡ some (record { clientfd = fd; created = 0; served = served ++ replicate n fd })
unfolding loop_run loop_step
reads-serve zero fd served =
    ap (λ l. some (record { clientfd = fd; created = 0; served = l })) (sym (append-nil served))
reads-serve (suc n) fd served =
    reads-serve n fd (served ++ fd ∷ [])
    ∙ ap (λ l. some (record { clientfd = fd; created = 0; served = l }))
        (append_assoc served (fd ∷ []) (replicate n fd))

-- Where the accepts leave the variable.
accepts-last :
    (fds : List ℕ) (b : ℕ) (es : List Event) (s : Loop)
    → loop_run (map accepts (fds ++ b ∷ []) ++ es) s
      ≡ loop_run es (record s { clientfd = some b; created = s.created + length (fds ++ b ∷ []) })
unfolding loop_run loop_step
accepts-last [] b es s = refl
accepts-last (fd ∷ fds) b es s =
    accepts-last fds b es (record s { clientfd = some fd; created = s.created + 1 })
    ∙ ap (λ n. loop_run es (record s { clientfd = some b; created = n })) (omega arith)

-- Whom the threads serve depends on the order of accepts and reads alone. If each thread reads
-- before the next accept, the connections are served one each, in their order; if all are accepted
-- first, every thread serves the last one, and no thread any other.
pub served_by_order :
    (fds : List ℕ) (b : ℕ)
    → ((t : Loop) × (loop_run (prompt (fds ++ b ∷ [])) at_start ≡ some t)
        × (t.served ≡ map some (fds ++ b ∷ [])))
      × ((t : Loop) × (loop_run (late (fds ++ b ∷ [])) at_start ≡ some t)
          × (t.served ≡ replicate (length (fds ++ b ∷ [])) (some b)))
served_by_order fds b =
    let n = length (fds ++ b ∷ []) in
    (
      prompt-serves (fds ++ b ∷ []) at_start refl,
      (
        record { clientfd = some b; created = 0; served = replicate n (some b) },
        accepts-last fds b (replicate n thread_reads) at_start
            ∙ ap
                (λ k.
                  loop_run (replicate n thread_reads)
                    (record { clientfd = some b; created = k; served = [] }))
                (omega arith)
            ∙ reads-serve n (some b) [],
        refl,
      ),
    )
