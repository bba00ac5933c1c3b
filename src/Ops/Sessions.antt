-- ===== src/Ops/Sessions.antt =====
-- The viewers of recorded profiles: GetOrStartPprofSession, its goroutine and the cleanup monitor of
-- cmd/ops/main.go. A method holds pprofMutex and is one step. The order in which Go walks the map is
-- that of the list; free ports, cmd.Start and the clock are values that an action carries.
pub mod Tables
pub mod Kept
pub mod Oldest
use game_production.Common.{
  ℕ, suc, ◌+◌, ◌-◌, String, string_key, Bool, true, false, not, ◌&&◌, ◌||◌, Option, none, some,
  List, [], ◌∷◌, ◌++◌, Dict, lookup, insert, delete, length, ltb, leb, ◌==◌, nat_key, Error,
  wrapped, Result, ok, err, if◌then◌else◌,
}

-- An exec.Cmd, by the number of commands started before it.
abbrev pub Cmd : Type 0
Cmd = ℕ

pub record Session : Type 0 where
  pub port : ℕ
  pub cmd : Cmd
  pub last_access : ℕ

-- `exited` has the commands whose ProcessState says Exited, which a killed process never does.
pub record Manager : Type 0 where
  pub sessions : Dict String Session
  pub started : ℕ
  pub exited : List Cmd
  pub killed : List Cmd

unfoldable pub no_sessions : Manager
no_sessions = record { sessions = []; started = 0; exited = []; killed = [] }

abbrev pub max_sessions : ℕ
max_sessions = 2

-- 15 * time.Minute
abbrev pub idle_limit : ℕ
idle_limit = 900000000000

abbrev pub has_cmd : Cmd → List Cmd → Bool
has_cmd c [] = false
has_cmd c (d ∷ ds) = c == d || has_cmd c ds

-- The loops over the map that delete some of the sessions, and the commands of those.
unfoldable pub drop : (String → Session → Bool) → Dict String Session → Dict String Session
drop gone [] = []
drop gone ((k, s) ∷ m) = let rest = drop gone m in if gone k s then rest else (k, s) ∷ rest

unfoldable pub cmds_of : (String → Session → Bool) → Dict String Session → List Cmd
cmds_of gone [] = []
cmds_of gone ((k, s) ∷ m) = let rest = cmds_of gone m in if gone k s then s.cmd ∷ rest else rest

abbrev pub has_exited : List Cmd → String → Session → Bool
has_exited exited key s = has_cmd s.cmd exited

-- The search for oldestKey; `first`, `key` and `time` are the variables of the loop.
unfoldable pub oldest : Bool → String → ℕ → Dict String Session → String
oldest first key time [] = key
oldest first key time ((k, s) ∷ m) =
    let older = first || ltb s.last_access time in
    oldest (not older && first) (if older then k else key) (if older then s.last_access else time) m

kill_found : String → Option Session → Manager → Manager
kill_found key none m = m
kill_found key (some s) m = record m {
  sessions = delete key m.sessions;
  killed = m.killed ++ s.cmd ∷ [];
}

evict_key : String → Manager → Manager
unfolding kill_found
evict_key key m = if key == "" then m else kill_found key (lookup key m.sessions) m

unfoldable pub evict : Manager → Manager
unfolding evict_key oldest
evict m =
    if leb max_sessions (length m.sessions) then evict_key (oldest true "" 0 m.sessions) m else m

-- What a call meets: time.Now at its start, getFreePort, the error of cmd.Start, and time.Now when
-- the tool has been given time to listen.
pub record Launch : Type 0 where
  pub now : ℕ
  pub free_port : Result ℕ
  pub start_error : Option Error
  pub listening_at : ℕ

start_tool : String → Launch → ℕ → Option Error → Manager → Result ℕ × Manager
start_tool target l port (some e) m = (err (wrapped "failed to start tool" e), m)
start_tool target l port none m = (
  ok port,
  record m {
    sessions =
        insert target (record { port = port; cmd = m.started; last_access = l.listening_at })
          m.sessions;
    started = suc m.started;
  },
)

start_on : String → Launch → Result ℕ → Manager → Result ℕ × Manager
unfolding start_tool
start_on target l (err e) m = (err e, m)
start_on target l (ok port) m = start_tool target l port l.start_error m

hit_or_start : String → Launch → Option Session → Manager → Result ℕ × Manager
unfolding evict start_on
hit_or_start target l (some s) m =
    (ok s.port, record m { sessions = insert target (record s { last_access = l.now }) m.sessions })
hit_or_start target l none m = start_on target l l.free_port (evict m)

unfoldable pub remove_exited : Manager → Manager
unfolding drop
remove_exited m = record m { sessions = drop (has_exited m.exited) m.sessions }

unfoldable pub get_or_start : String → Launch → Manager → Result ℕ × Manager
unfolding remove_exited hit_or_start
get_or_start target l m =
    let m' = remove_exited m in hit_or_start target l (lookup target m'.sessions) m'

-- The goroutine that waits for a command: it deletes the session only if it is still this command's.
delete_if_same : String → Cmd → Option Session → Manager → Manager
delete_if_same target c none m = m
delete_if_same target c (some s) m =
    if s.cmd == c then record m { sessions = delete target m.sessions } else m

-- cmd.Wait returns once the process has ended, by itself or killed.
unfoldable pub wait_ended : String → Cmd → Manager → Manager
unfolding delete_if_same
wait_ended target c m =
    if has_cmd c m.exited || has_cmd c m.killed
    then delete_if_same target c (lookup target m.sessions) m
    else m

abbrev pub is_idle : ℕ → Session → Bool
is_idle now s = ltb idle_limit (now - s.last_access)

-- What the monitor kills, and what it deletes.
abbrev pub is_left : ℕ → List Cmd → String → Session → Bool
is_left now exited key s = not (has_cmd s.cmd exited) && is_idle now s

abbrev pub is_over : ℕ → List Cmd → String → Session → Bool
is_over now exited key s = has_cmd s.cmd exited || is_idle now s

unfoldable pub cleanup : ℕ → Manager → Manager
unfolding drop cmds_of
cleanup now m = record m {
  sessions = drop (is_over now m.exited) m.sessions;
  killed = m.killed ++ cmds_of (is_left now m.exited) m.sessions;
}

-- The loop of handleDeletePerformanceHistory over the sessions, for the test of a session's key.
unfoldable pub close_matching : (String → Bool) → Manager → Manager
unfolding drop cmds_of
close_matching matches m = record m {
  sessions = drop (λ k s. matches k) m.sessions;
  killed = m.killed ++ cmds_of (λ k s. matches k) m.sessions;
}

-- What happens to the manager: a request, the end of a process, the goroutine after it, a tick,
-- the deletion of recorded profiles.
pub data Action : Type 0 where
  opens : String → Launch → Action
  exits : Cmd → Action
  waited : String → Cmd → Action
  ticks : ℕ → Action
  closes : (String → Bool) → Action

unfoldable pub act : Action → Manager → Manager
unfolding get_or_start wait_ended cleanup close_matching
act (opens target l) m = (get_or_start target l m).1
act (exits c) m = record m { exited = c ∷ m.exited }
act (waited target c) m = wait_ended target c m
act (ticks now) m = cleanup now m
act (closes matches) m = close_matching matches m

unfoldable pub run : List Action → Manager → Manager
unfolding act
run [] m = m
run (a ∷ rest) m = run rest (act a m)
