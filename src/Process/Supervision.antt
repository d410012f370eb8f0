-- ===== src/Process/Supervision.antt =====
-- How many chat servers run under a manager: `DoFork` and the loop of `Run` of src/ChatManager.cpp, with
-- src/Process.cpp.
use thunder_chat.Prelude.{
  some, ℕ, zero, suc, ◌+◌, ◌-◌, ◌<◌, ◌≡◌, List, [], ◌∷◌, true, false, arith, length,
}
use thunder_chat.Process.{
  Fork, forked, fork_failed, Wait, unchanged, child_exited, child_signaled, child_stopped, Process,
  create, Spawned, set_pid, set_started, spawn_loop, spawn_processes, spawn_child_process,
  watch_child_process,
}

-- The children of the manager, as the kernel counts them: running; dead and not yet reported; stopped
-- and not yet reported; stopped and reported.
pub record Children : Type 0 where
  pub running : ℕ
  pub exited : ℕ
  pub halted : ℕ
  pub stopped : ℕ

abbrev pub total : Children → ℕ
total c = c.running + c.exited + c.halted + c.stopped

-- What `waitpid` may answer, and what it leaves: a report is given once.
pub data Answers (c : Children) : Wait → Children → Type 0 where
  nothing : Answers c unchanged c
  reaped :
      (pid : ℕ) → 0 < c.exited → Answers c (child_exited pid) (record c { exited = c.exited - 1 })
  reaped_killed :
      (pid : ℕ) → 0 < c.exited → Answers c (child_signaled pid) (record c { exited = c.exited - 1 })
  noticed :
      (pid : ℕ)
      → 0 < c.halted
      → Answers c (child_stopped pid) (record c { halted = c.halted - 1; stopped = c.stopped + 1 })

-- `failures` counts the servers that were not started because `fork` refused, `stops` the reports of
-- stopped children.
pub record Manager : Type 0 where
  pub process : Process
  pub children : Children
  pub failures : ℕ
  pub stops : ℕ

is_stop : Wait → ℕ
is_stop (child_stopped pid) = 1
is_stop unchanged = 0
is_stop (child_exited pid) = 0
is_stop (child_signaled pid) = 0

-- How many of `n` servers a refusal of `fork` costs: `SpawnProcess` returns at the first one, so that the
-- server that is refused and all after it are not started.
unfoldable pub servers_lost : (ℕ → Fork) → ℕ → ℕ
servers_lost fork zero = 0
servers_lost fork (suc n) = elim (fork n) [ forked pid ↦ servers_lost fork n | fork_failed ↦ suc n ]

-- The manager after `DoFork` has called `SpawnProcess` for `count` servers, whose result it ignores.
unfoldable pub after_fork : ℕ → ℕ → (ℕ → Fork) → Manager
after_fork child count fork =
    let r = spawn_processes create child count fork in
    record {
      process = r.process;
      children = record { running = length r.created; exited = 0; halted = 0; stopped = 0 };
      failures = servers_lost fork count;
      stops = 0;
    }

-- Whether `fork` refuses the server that is to replace a reported one.
unfoldable pub refusals : Wait → Fork → ℕ
refusals unchanged fork = 0
refusals wait (forked pid) = 0
refusals wait fork_failed = 1

-- A call of `WatchChildProcess` in the loop of `Run`, which ignores its result too.
unfoldable pub after_watch : Manager → Wait → Children → Fork → Manager
unfolding is_stop
after_watch m wait c fork =
    let r = watch_child_process m.process wait fork in
    record {
      process = r.process;
      children = record c { running = c.running + length r.created };
      failures = m.failures + refusals wait fork;
      stops = m.stops + is_stop wait;
    }

pub data Step (m : Manager) : Manager → Type 0 where
  child_dies :
      0 < m.children.running
      → Step m (record m {
        children = record m.children {
          running = m.children.running - 1;
          exited = m.children.exited + 1;
        };
      })
  child_stops :
      0 < m.children.running
      → Step m (record m {
        children = record m.children {
          running = m.children.running - 1;
          halted = m.children.halted + 1;
        };
      })
  child_continues :
      0 < m.children.stopped
      → Step m (record m {
        children = record m.children {
          stopped = m.children.stopped - 1;
          running = m.children.running + 1;
        };
      })
  stopped_dies :
      0 < m.children.stopped
      → Step m (record m {
        children = record m.children {
          stopped = m.children.stopped - 1;
          exited = m.children.exited + 1;
        };
      })
  halted_continues :
      0 < m.children.halted
      → Step m (record m {
        children = record m.children {
          halted = m.children.halted - 1;
          running = m.children.running + 1;
        };
      })
  watched :
      (wait : Wait) (c : Children) (fork : Fork)
      → Answers m.children wait c
      → Step m (after_watch m wait c fork)

pub data Reach (child count : ℕ) (fork : ℕ → Fork) : Manager → Type 0 where
  started : Reach child count fork (after_fork child count fork)
  stepped : (m m' : Manager) → Reach child count fork m → Step m m' → Reach child count fork m'

-- Each server is started, or lost by a refusal.
created-lost :
    (fork : ℕ → Fork) (n : ℕ) (p : Process) (made : List ℕ)
    → length (spawn_loop fork n p made).created + servers_lost fork n ≡ n + length made
unfolding spawn_loop servers_lost
created-lost fork zero p made = omega arith
created-lost fork (suc n) p made = by_answer (created-lost fork n) (fork n)
  where
    by_answer :
        ((q : Process) (more : List ℕ)
          → length (spawn_loop fork n q more).created + servers_lost fork n ≡ n + length more)
        → (f : Fork)
        → length
              (elim f as (λ _. Spawned) [
                | forked pid ↦ spawn_loop fork n (set_pid (set_started p true) pid) (pid ∷ made)
                | fork_failed ↦ record { process = p; succeeded = false; created = made }
              ]).created
            + (elim f as (λ _. ℕ) [ forked pid ↦ servers_lost fork n | fork_failed ↦ suc n ])
          ≡ suc n + length made
    by_answer before (forked pid) =
        omega (arith, before (set_pid (set_started p true) pid) (pid ∷ made))
    by_answer before fork_failed = omega arith

-- What holds in the manager at any time.
pub record IsSupervised (count : ℕ) (m : Manager) : Type 0 where
  pub balance : total m.children + m.failures ≡ count + m.stops

watched-IsSupervised :
    (count : ℕ) (m : Manager) (wait : Wait) (c : Children) (fork : Fork)
    → IsSupervised count m
    → Answers m.children wait c
    → IsSupervised count (after_watch m wait c fork)
unfolding after_watch refusals watch_child_process spawn_child_process
watched-IsSupervised count m _ _ fork v nothing = omega (arith, v.balance)
watched-IsSupervised count m _ _ (forked new) v (reaped pid some_there) = omega (arith, v.balance)
watched-IsSupervised count m _ _ fork_failed v (reaped pid some_there) = omega (arith, v.balance)
watched-IsSupervised count m _ _ (forked new) v (reaped_killed pid some_there) =
    omega (arith, v.balance)
watched-IsSupervised count m _ _ fork_failed v (reaped_killed pid some_there) =
    omega (arith, v.balance)
watched-IsSupervised count m _ _ (forked new) v (noticed pid some_there) = omega (arith, v.balance)
watched-IsSupervised count m _ _ fork_failed v (noticed pid some_there) = omega (arith, v.balance)

-- However the chat servers die, stop and go on, and whatever `fork` answers: the processes that there
-- are (running, stopped, or dead and not yet reported), those that `DoFork` did not start because `fork`
-- refused it or one before it, and one for each later refusal, are together the servers of the settings and
-- one more for each report of a stopped server. So without such reports and refusals each server is
-- started and each dead one replaced by exactly one, and a stopped server that goes on is one too many.
pub Reach-IsSupervised :
    (child count : ℕ) (fork : ℕ → Fork) (m : Manager)
    → Reach child count fork m
    → IsSupervised count m
unfolding after_fork spawn_processes
Reach-IsSupervised child count fork m started = record {
  balance = omega (arith, created-lost fork count (record create { child = some child }) []);
}
Reach-IsSupervised child count fork m (stepped before _ r (child_dies some_there)) = record {
  balance = omega (arith, (Reach-IsSupervised child count fork before r).balance);
}
Reach-IsSupervised child count fork m (stepped before _ r (child_stops some_there)) = record {
  balance = omega (arith, (Reach-IsSupervised child count fork before r).balance);
}
Reach-IsSupervised child count fork m (stepped before _ r (child_continues some_there)) = record {
  balance = omega (arith, (Reach-IsSupervised child count fork before r).balance);
}
Reach-IsSupervised child count fork m (stepped before _ r (stopped_dies some_there)) = record {
  balance = omega (arith, (Reach-IsSupervised child count fork before r).balance);
}
Reach-IsSupervised child count fork m (stepped before _ r (halted_continues some_there)) = record {
  balance = omega (arith, (Reach-IsSupervised child count fork before r).balance);
}
Reach-IsSupervised child count fork m (stepped before _ r (watched wait c answer reported)) =
    watched-IsSupervised count before wait c answer (Reach-IsSupervised child count fork before r)
      reported
