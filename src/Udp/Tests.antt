-- ===== src/Udp/Tests.antt =====
-- network/udp: the theorems at short runs.
use cpp_example.Common.{
  ℕ, ◌+◌, ◌≡◌, refl, true, none, some, List, [], ◌∷◌, All, map, replicate, length-replicate, arith,
}
use cpp_example.Common.Outcome.{done}
use cpp_example.Udp.{maxline, Datagram, waits, err_sys, exit_zero, dg_echo}
use cpp_example.Udp.Client
use cpp_example.Udp.Client.{Arrays, Log, dg_cli}
use cpp_example.Udp.Runs.{datagrams_echoed, IsArrays, replies_shown}
use cpp_example.Udp.Echoed.{echoed_pass, from_client, some_bytes, lines_echoed}
use cpp_example.Udp.Select
use cpp_example.Udp.Select.{ready}

abbrev cleared : List ℕ
cleared = replicate maxline 0

abbrev arrays : Arrays
arrays = record { sendline = cleared; recvline = replicate (maxline + 1) 7 }

arrays-IsArrays : IsArrays arrays
arrays-IsArrays = record {
  sendline = length-replicate {A = ℕ} maxline 0;
  recvline = length-replicate {A = ℕ} (maxline + 1) 7;
}

abbrev line : List ℕ
line = 104 ∷ 10 ∷ []

datagrams_echoed_example :
    dg_echo
      ((some (record { from = 1; bytes = line }), true)
        ∷ (some (record { from = 2; bytes = [] }), true)
        ∷ (none, true)
        ∷ [])
      cleared
    ≡ done (record { from = 1; bytes = line } ∷ record { from = 2; bytes = [] } ∷ [], err_sys)
datagrams_echoed_example =
    datagrams_echoed
      ((some (record { from = 1; bytes = line }), true)
        ∷ (some (record { from = 2; bytes = [] }), true)
        ∷ (none, true)
        ∷ [])
      cleared (length-replicate {A = ℕ} maxline 0)

replies_shown_example :
    dg_cli
      (record { line = line; sent_ok = true; reply = some (105 ∷ 0 ∷ 106 ∷ []) }
        ∷ record { line = line; sent_ok = true; reply = none }
        ∷ [])
      arrays
    ≡ done (record { sent = line ∷ line ∷ []; shown = (105 ∷ []) ∷ [] }, err_sys)
replies_shown_example =
    replies_shown
      (record { line = line; sent_ok = true; reply = some (105 ∷ 0 ∷ 106 ∷ []) }
        ∷ record { line = line; sent_ok = true; reply = none }
        ∷ [])
      arrays arrays-IsArrays (omega arith, (omega arith, tt))

lines_echoed_example :
    (log : Log) × (replies : List Datagram) × (dg_cli (map echoed_pass (line ∷ [])) arrays
      ≡ done (log, exit_zero))
    × (dg_echo (map (from_client 9) log.sent) cleared ≡ done (replies, waits))
    × (map some_bytes replies ≡ map (λ (p : Client.Pass). p.reply) (map echoed_pass (line ∷ [])))
    × All (λ d. d.from ≡ 9) replies
    × (log.shown ≡ line ∷ [])
lines_echoed_example =
    lines_echoed (line ∷ []) arrays cleared 9 (record { text = refl; short = omega arith }, tt)
      arrays-IsArrays (length-replicate {A = ℕ} maxline 0)

abbrev both : Select.Pass
both = record {
  selected = ready true true;
  accepted = some 5;
  forked = true;
  received = some (record { from = 1; bytes = line });
  sent_ok = true;
}
