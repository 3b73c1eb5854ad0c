-- ===== src/Demos/Ready.antt =====
-- network/demo2_select.cpp: a pass serves the ready descriptors, one after the other.
use cpp_example.Common.{
  ℕ, zero, suc, ◌+◌, ◌≡◌, refl, ◌∙◌, ◌||◌, Bool, false, List, [], ◌∷◌, ◌++◌, if◌then◌else◌,
  Bool-cases, inl, inr, arith,
}
use cpp_example.Common.Outcome.{Outcome, done, overrun, diverged, ◌>>=◌}
use cpp_example.Echo.Sys.{Act, FdSet}
use cpp_example.Demos.Select.{Server, Pass, serve_fd, walk}

abbrev pub is_ready : FdSet × FdSet → ℕ → Bool
is_ready out fd = out.0 fd || out.1 fd

-- The descriptors in one of the sets, of `count` from `cur_fd` on.
abbrev pub ready_fds : FdSet × FdSet → ℕ → ℕ → List ℕ
ready_fds out zero cur_fd = []
ready_fds out (suc count) cur_fd =
    let rest = ready_fds out count (cur_fd + 1) in
    if is_ready out cur_fd then cur_fd ∷ rest else rest

abbrev pub serve_each : FdSet × FdSet → Pass → List ℕ → Server → Outcome (Server × List Act)
serve_each out p [] s = done (s, [])
serve_each out p (fd ∷ fds) s = serve_fd out p fd s >>= λ first.
    serve_each out p fds first.0 >>= λ rest. done (rest.0, first.1 ++ rest.1)

serve_fd-idle :
    (out : FdSet × FdSet) (p : Pass) (fd : ℕ) (s : Server)
    → is_ready out fd ≡ false
    → serve_fd out p fd s ≡ done (s, [])
unfolding serve_fd
serve_fd-idle out p fd s e = ground (arith, e)

again : (m : Outcome (Server × List Act)) → (m >>= λ r. done (r.0, [] ++ r.1)) ≡ m
again (done r) = refl
again overrun = refl
again diverged = refl

pub walk-ready_fds :
    (out : FdSet × FdSet) (p : Pass) (count cur_fd : ℕ) (s : Server)
    → walk out p count cur_fd s ≡ serve_each out p (ready_fds out count cur_fd) s
unfolding walk
walk-ready_fds out p zero cur_fd s = refl
walk-ready_fds out p (suc count) cur_fd s = elim (Bool-cases (is_ready out cur_fd)) [
  | inl ready ↦ rw ready (λ i. serve_fd out p cur_fd s >>= λ first.
      walk-ready_fds out p count (cur_fd + 1) first.0 i >>= λ rest.
      done (rest.0, first.1 ++ rest.1))
  | inr idle ↦ rw idle (
      rw (serve_fd-idle out p cur_fd s idle)
        (again (walk out p count (cur_fd + 1) s) ∙ walk-ready_fds out p count (cur_fd + 1) s))
]
