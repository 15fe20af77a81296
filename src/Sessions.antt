-- ===== src/Sessions.antt =====
-- session.go: the walk from a process up to the host session that it runs in. The process table is
-- two functions: the name of a process, empty if it is not running, and the parent of a process.
use mess.Base.{ℕ, zero, suc, Text, codes, List, [], ◌∷◌, contains, is_empty, leb, if◌then◌else◌}

abbrev pub host_session_comms : List Text
host_session_comms = codes "claude" ∷ codes "node" ∷ codes "grok" ∷ []

abbrev pub max_ancestor_walk : ℕ
max_ancestor_walk = 32

module _ (process_comm : ℕ → Text) (parent_pid : ℕ → ℕ) where
  -- `rounds` is how many rounds of the loop are left.
  unfoldable pub walk : ℕ → ℕ → ℕ
  walk zero pid = 0
  walk (suc rounds) pid =
      let above = walk rounds (parent_pid pid) in
      if leb pid 1
      then 0
      else if is_empty (process_comm pid)
      then 0
      else if contains (process_comm pid) host_session_comms
      then pid
      else above

  unfoldable pub host_session_pid_from : ℕ → ℕ
  unfolding walk
  host_session_pid_from pid = walk max_ancestor_walk pid
