-- ===== src/Demos/Padded.antt =====
-- network/demo3_epoll.cpp: what is sent, and which descriptors stay registered.
use cpp_example.Common.{
  ℕ, ◌<◌, ◌≡◌, refl, ◌==◌, Bool, true, false, Option, none, some, List, [], ◌∷◌, ◌++◌, All,
  All-append, length, drop, if◌then◌else◌, Bool-cases, inl, inr,
}
use cpp_example.Common.Outcome.{done}
use cpp_example.Echo.Sys.{
  Got, got, failed, Act, write, print, close, shutdown_wr, unwatch, watch, spawn, reaped,
}
use cpp_example.Common.Ended.{IsEnded, write-IsEnded}
use cpp_example.Demos.Epoll.{
  buffer_length, Watch, input, input_edge, output, Server, Event, Handled, register, read_event,
  write_event, handle_event, handle_events,
}

pub record IsSound (s : Server) : Type 0 where
  pub ended : IsEnded buffer_length s.rbuffer
  pub size : length s.wbuffer ≡ buffer_length

-- A message that leaves room for the zero at the end of `rbuffer`.
abbrev pub Fits : Got → Type 0
Fits (got msg) = length msg < buffer_length
Fits (failed e) = Unit {0}

-- A print, or a write of the whole buffer; in particular no close.
abbrev pub IsPadded : Act → Type 0
IsPadded (write fd msg) = length msg ≡ buffer_length
IsPadded (print line) = Unit {0}
IsPadded (close fd) = ⊥
IsPadded (shutdown_wr fd) = ⊥
IsPadded (unwatch fd) = ⊥
IsPadded (watch fd) = ⊥
IsPadded (spawn fd) = ⊥
IsPadded (reaped pid) = ⊥

-- What is registered stays registered, for some event.
abbrev pub StaysWatched : Server → Server → Type 0
StaysWatched s s' =
    (fd : ℕ) (w : Watch) → s.watched fd ≡ some w → (w' : Watch) × (s'.watched fd ≡ some w')

register-StaysWatched : (fd : ℕ) (w : Watch) (s : Server) → StaysWatched s (register fd w s)
register-StaysWatched fd w s x old e = elim (Bool-cases (x == fd)) [
  | inl same ↦ (w, rw same refl)
  | inr other ↦ (old, rw other e)
]

-- What holds of the state and the acts after an event, or after several.
record IsHandled (s s' : Server) (acts : List Act) : Type 0 where
  sound : IsSound s'
  padded : All IsPadded acts
  stays : StaysWatched s s'

unchanged : (s : Server) → IsSound s → IsHandled s s []
unchanged s v = record { sound = v; padded = tt; stays = λ fd w e. (w, e) }

read_event-IsHandled :
    (fd : ℕ) (received : Got) (s : Server)
    → IsSound s
    → Fits received
    → (h : Handled) × (read_event fd received s ≡ done h) × IsHandled s h.0 h.1
unfolding read_event
read_event-IsHandled fd (failed e) s v fits = (_, refl, unchanged s v)
read_event-IsHandled fd (got []) s v fits = (_, refl, unchanged s v)
read_event-IsHandled fd (got (b ∷ bs)) s v fits =
    let msg : List ℕ = b ∷ bs in
    let (line, e, shown, ended) = write-IsEnded msg s.rbuffer v.ended fits in
    let buffer : List ℕ = msg ++ drop (length msg) s.rbuffer in
    (
      (register fd output (record s { rbuffer = buffer; wbuffer = buffer }), print line ∷ [], true),
      rw e (rw shown refl),
      record {
        sound = record { ended = ended; size = ended.size };
        padded = (tt, tt);
        stays = register-StaysWatched fd output s;
      },
    )

read_or_write :
    (listenfd fd : ℕ) (readable writable : Bool) (received : Got) (s : Server)
    → IsSound s
    → Fits received
    → (h : Handled) × ((if readable
          then read_event fd received s
          else (if writable then done (write_event fd s) else done (s, [], true)))
        ≡ done h)
      × IsHandled s h.0 h.1
unfolding write_event
read_or_write listenfd fd true writable received s v fits =
    read_event-IsHandled fd received s v fits
read_or_write listenfd fd false true received s v fits = (
  _,
  refl,
  record {
    sound = record { ended = v.ended; size = v.size };
    padded = (v.size, tt);
    stays = register-StaysWatched fd input s;
  },
)
read_or_write listenfd fd false false received s v fits = (_, refl, unchanged s v)

accepted_or_not :
    (accepted : Option ℕ) (s : Server)
    → IsSound s
    → (h : Handled) × (elim accepted [
      | none ↦ done (s, [], false)
      | some clientfd ↦ done (register clientfd input_edge s, [], true)
    ]
        ≡ done h)
      × IsHandled s h.0 h.1
accepted_or_not none s v = (_, refl, unchanged s v)
accepted_or_not (some clientfd) s v = (
  _,
  refl,
  record {
    sound = record { ended = v.ended; size = v.size };
    padded = tt;
    stays = register-StaysWatched clientfd input_edge s;
  },
)

handle_event-IsHandled :
    (listenfd : ℕ) (e : Event) (s : Server)
    → IsSound s
    → Fits e.received
    → (h : Handled) × (handle_event listenfd e s ≡ done h) × IsHandled s h.0 h.1
unfolding handle_event
handle_event-IsHandled listenfd e s v fits = elim (Bool-cases (listenfd == e.fd)) [
  | inl listening ↦ let (h, same, w) = accepted_or_not e.accepted s v in (h, rw listening same, w)
  | inr client ↦
      let (h, same, w) = read_or_write listenfd e.fd e.readable e.writable e.received s v fits in
      (h, rw client same, w)
]

-- The events of one wait, from a state in which `rbuffer` ends in a zero, with messages of fewer
-- than 8192 bytes: the handler stays within the buffers and keeps that state; every write is of the
-- whole buffer, 8192 bytes whatever the message was; and no descriptor is closed or deregistered,
-- also when its stream has ended or failed.
pub writes_padded :
    (listenfd : ℕ) (es : List Event) (s : Server)
    → IsSound s
    → All (λ e. Fits e.received) es
    → (s' : Server) × (acts : List Act) × (handle_events listenfd es s ≡ done (s', acts))
      × IsSound s'
      × All IsPadded acts
      × StaysWatched s s'
unfolding handle_events
writes_padded listenfd [] s v fits = (s, [], refl, v, tt, λ fd w e. (w, e))
writes_padded listenfd (e ∷ es) s v (fit, fits) =
    let ((s1, acts1, goes_on), first, h) = handle_event-IsHandled listenfd e s v fit in
    let (s2, acts2, rest, v2, padded, stays) = writes_padded listenfd es s1 h.sound fits in
    elim (Bool-cases goes_on) [
      | inl on ↦ (
        s2,
        acts1 ++ acts2,
        rw first (rw on (rw rest refl)),
        v2,
        All-append IsPadded acts1 acts2 h.padded padded,
        λ fd w k. let (w1, k1) = h.stays fd w k in stays fd w1 k1,
      )
      | inr off ↦ (s1, acts1, rw first (rw off refl), h.sound, h.padded, h.stays)
    ]
