-- ===== src/Udp/Served.antt =====
-- network/udp/d7_udp_tcp_select_echo_server.cpp: whole runs of the loop over both sockets.
use cpp_example.Common.{ℕ, ◌≡◌, List, if◌then◌else◌}
use cpp_example.Common.Outcome.{done}
use cpp_example.Udp.{waits, err_sys}
use cpp_example.Udp.Select.{Pass, Deed, select_loop}
use cpp_example.Udp.Deeds.{served, connections, datagrams, all_go_on, IsServed}

-- What is claimed of a run.
abbrev Served : List Pass → List ℕ → Type 0
Served ps mesg =
    (deeds : List Deed) × (select_loop ps mesg
      ≡ done (deeds, if all_go_on ps then waits else err_sys))
    × IsServed deeds (connections (served ps)) (datagrams (served ps))
