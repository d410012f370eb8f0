-- ===== src/Tests/Processes.antt =====
-- The manager's processes at a concrete run: of two servers one dies and is replaced.
use thunder_chat.Prelude.{ℕ, ◌+◌, ◌≡◌, refl, some, true, arith}
use thunder_chat.Prelude.Int.{pos, negsuc}
use thunder_chat.Process.{
  Fork, forked, child_exited, create, spawn_loop, spawn_processes, set_pid, set_started,
  watch_child_process, spawn_child_process,
}
use thunder_chat.Process.Supervision.{
  Manager, after_fork, servers_lost, refusals, after_watch, Reach, started, stepped, child_dies,
  watched, reaped, IsSupervised, Reach-IsSupervised,
}

abbrev two_servers : Manager
two_servers = record {
  process = record {
    ppid = 0;
    pid = 300;
    is_started = true;
    signal_no = pos 0;
    recv_pipe = negsuc 0;
    send_pipe = negsuc 0;
    child = some 64;
  };
  children = record { running = 2; exited = 0; halted = 0; stopped = 0 };
  failures = 0;
  stops = 0;
}

abbrev one_dead : Manager
one_dead = record two_servers {
  children = record { running = 1; exited = 1; halted = 0; stopped = 0 };
}

abbrev by_number : ℕ → Fork
by_number n = forked (300 + n)

two_started : after_fork 64 2 by_number ≡ two_servers
unfolding after_fork servers_lost spawn_processes spawn_loop create set_pid set_started
two_started = refl

replaced :
    after_watch one_dead (child_exited 301) (record one_dead.children { exited = 0 }) (forked 400)
    ≡ two_servers
unfolding after_watch refusals watch_child_process spawn_child_process
replaced = refl

replaced-Reach :
    Reach 64 2 by_number (
      after_watch one_dead
        (child_exited 301)
        (record one_dead.children { exited = 0 })
        (forked 400))
unfolding after_fork servers_lost spawn_processes spawn_loop create set_pid set_started
replaced-Reach =
    stepped one_dead _ (stepped two_servers one_dead started (child_dies (omega arith))) (
      watched (child_exited 301) (record one_dead.children { exited = 0 }) (forked 400)
        (reaped 301 (omega arith)))

Reach-IsSupervised_example :
    IsSupervised 2 (
      after_watch one_dead
        (child_exited 301)
        (record one_dead.children { exited = 0 })
        (forked 400))
Reach-IsSupervised_example = Reach-IsSupervised 64 2 by_number _ replaced-Reach
