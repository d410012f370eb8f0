-- ===== src/Process.antt =====
-- src/Process.cpp: how the manager's process makes the chat servers' processes and watches them, as
-- `DoFork` and `Run` of src/ChatManager.cpp use it. What a child does (`Run`, and then `exit`) is in the
-- child's own memory.
pub mod Supervision
use thunder_chat.Prelude.{
  ℕ, zero, suc, ◌+◌, ◌-◌, Option, none, some, List, [], ◌∷◌, Bool, true, false, if◌then◌else◌, ◌==◌,
  length,
}
use thunder_chat.Prelude.Int.{ℤ, pos, negsuc}

-- What `fork` answers in the parent.
pub data Fork : Type 0 where
  forked : ℕ → Fork
  fork_failed : Fork

-- What `waitpid(-1, &status, WUNTRACED | WNOHANG)` answers: nothing (or -1), or the child that has
-- exited, was killed by a signal, or has been stopped.
pub data Wait : Type 0 where
  unchanged : Wait
  child_exited child_signaled child_stopped : ℕ → Wait

-- `m_pChild` is the address of the object that the children run.
pub record Process : Type 0 where
  pub ppid : ℕ
  pub pid : ℕ
  pub is_started : Bool
  pub signal_no : ℤ
  pub recv_pipe : ℤ
  pub send_pipe : ℤ
  pub child : Option ℕ

-- The constructor.
unfoldable pub create : Process
create = record {
  ppid = 0;
  pid = 0;
  is_started = false;
  signal_no = pos 0;
  recv_pipe = negsuc 0;
  send_pipe = negsuc 0;
  child = none;
}

unfoldable pub set_started : Process → Bool → Process
set_started p started = record p { is_started = started }

unfoldable pub set_pid : Process → ℕ → Process
set_pid p pid = record p { pid = pid }

unfoldable pub set_recv_pipe : Process → ℤ → Process
set_recv_pipe p fd = record p { recv_pipe = fd }

unfoldable pub set_send_pipe : Process → ℤ → Process
set_send_pipe p fd = record p { send_pipe = fd }

-- What a call leaves in the parent: the object, the result, and the children that it has made.
pub record Spawned : Type 0 where
  pub process : Process
  pub succeeded : Bool
  pub created : List ℕ

-- `SpawnProcess()`
unfoldable pub spawn_process : Process → Fork → Spawned
spawn_process p (forked pid) = record {
  process = set_pid (set_started p true) pid;
  succeeded = true;
  created = pid ∷ [];
}
spawn_process p fork_failed = record { process = p; succeeded = false; created = [] }

-- The loop of `SpawnProcess(Process *, int)`, with as many children left: `fork` answers for each number.
unfoldable pub spawn_loop : (ℕ → Fork) → ℕ → Process → List ℕ → Spawned
spawn_loop fork zero p made = record { process = p; succeeded = true; created = made }
spawn_loop fork (suc n) p made = elim (fork n) [
  | forked pid ↦ spawn_loop fork n (set_pid (set_started p true) pid) (pid ∷ made)
  | fork_failed ↦ record { process = p; succeeded = false; created = made }
]

-- `SpawnProcess(Process *, int)`
unfoldable pub spawn_processes : Process → ℕ → ℕ → (ℕ → Fork) → Spawned
spawn_processes p child count fork = spawn_loop fork count (record p { child = some child }) []

-- The loop of `SpawnProcessWithPipe`, with the two ends of the pipe.
unfoldable pub spawn_pipe_loop : (ℕ → Fork) → ℤ → ℤ → ℕ → Process → List ℕ → Spawned
spawn_pipe_loop fork recv_end send_end zero p made = record {
  process = p;
  succeeded = true;
  created = made;
}
spawn_pipe_loop fork recv_end send_end (suc n) p made = elim (fork n) [
  | forked pid ↦
      spawn_pipe_loop fork recv_end send_end n
        (set_pid (set_started (set_send_pipe (set_recv_pipe p recv_end) send_end) true) pid)
        (pid ∷ made)
  | fork_failed ↦ record { process = p; succeeded = false; created = made }
]

-- `SpawnProcessWithPipe`: without a pipe it returns -1, which as a `bool` is true.
unfoldable pub spawn_processes_with_pipe : Process → ℕ → ℕ → Option (ℤ × ℤ) → (ℕ → Fork) → Spawned
spawn_processes_with_pipe p child count none fork = record {
  process = record p { child = some child };
  succeeded = true;
  created = [];
}
spawn_processes_with_pipe p child count (some (recv_end, send_end)) fork =
    spawn_pipe_loop fork recv_end send_end count (record p { child = some child }) []

-- `SpawnChildProcess` and `SpawnChildProcessWithPipe`, which leave the parent's object as it is.
unfoldable pub spawn_child_process : Process → Fork → Spawned
spawn_child_process p (forked pid) = record { process = p; succeeded = true; created = pid ∷ [] }
spawn_child_process p fork_failed = record { process = p; succeeded = false; created = [] }

-- `WatchChildProcess` and `WatchChildProcessWithPipe`: whatever a child is reported for, it is
-- replaced.
unfoldable pub watch_child_process : Process → Wait → Fork → Spawned
watch_child_process p unchanged fork = record { process = p; succeeded = true; created = [] }
watch_child_process p (child_exited pid) fork = spawn_child_process p fork
watch_child_process p (child_signaled pid) fork = spawn_child_process p fork
watch_child_process p (child_stopped pid) fork = spawn_child_process p fork

-- What `kill(pid, 0)` answers.
pub data Kill : Type 0 where
  delivered : Kill
  kill_failed : ℕ → Kill

abbrev pub esrch : ℕ
esrch = 3

-- `IsAliveProcess`
unfoldable pub is_alive_process : Kill → Bool
is_alive_process delivered = true
is_alive_process (kill_failed errno) = if errno == esrch then false else true
