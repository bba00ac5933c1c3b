-- ===== src/Ops/Tests.antt =====
-- Tests of the operations console: viewers of three profiles, and a recording's folder.
mod Console
use text.Mathlib.Text.{starts_with}
use game_production.Common.{
  ℕ, suc, ◌*◌, ◌≤◌, ◌<◌, String, concat, string_key, nat_key, Bool, true, false, Option, none, some,
  List, [], ◌∷◌, ◌++◌, lookup, insert, delete, length, ◌==◌, Result, ok, err, failure, ◌≡◌, ◌≢◌,
  refl, ap, zero, arith, All, if◌then◌else◌,
}
use game_production.Admin.{wait_time, second}
use game_production.Ops.Sessions.{
  Session, Manager, Launch, Action, opens, exits, waited, ticks, run, act, get_or_start,
  no_sessions, has_cmd, drop, cmds_of, oldest, evict, remove_exited, max_sessions, wait_ended,
  cleanup, is_idle,
}
use game_production.Ops.Sessions.Tables.{Distinct}
use game_production.Ops.Sessions.Oldest.{hit_keeps_port, opening_evicts_oldest, live, Since}
use game_production.Ops.Sessions.Kept.{sessions_limited, no_command_lost, accounted}
use game_production.Ops.Folders.{
  Decimals, ReadsBack, FolderInfo, has_code, folder_name, made_entry, read_folder, listed_instance,
  recorded_folder_listed, replace_all, safe_instance, split, read_parts,
}
use game_production.Ops.Recordings.{record_duration, recording_bounded, file_key, without_ext, Disk}
use game_production.Ops.Viewers.{
  Viewers, delete_folders, delete_folder, deletion_keeps_viewers, is_refused, has_dots, in_folder,
  rewrite_location,
}

abbrev launch : ℕ → ℕ → Launch
launch port now = record { now = now; free_port = ok port; start_error = none; listening_at = now }

abbrev two_open : List Action
two_open = opens "/s/a" (launch 9001 10) ∷ opens "/s/b" (launch 9002 20) ∷ []

abbrev three_open : List Action
three_open =
    opens "/s/a" (launch 9001 10)
    ∷ opens "/s/b" (launch 9002 20)
    ∷ opens "/s/a" (launch 9003 30)
    ∷ opens "/s/c" (launch 9004 40)
    ∷ waited "/s/b" 1
    ∷ []

-- The session of /s/b was used the longest ago, and is the one that makes room.
three_open_test :
    (run three_open no_sessions).sessions
    ≡ ("/s/c", record { port = 9004; cmd = 2; last_access = 40 })
      ∷ ("/s/a", record { port = 9001; cmd = 0; last_access = 30 })
      ∷ []
unfolding run act get_or_start evict remove_exited drop oldest lookup insert delete no_sessions
    wait_ended
three_open_test = refl

idle_killed_test : (run (two_open ++ ticks 900000000015 ∷ []) no_sessions).killed ≡ 0 ∷ []
unfolding run act get_or_start evict remove_exited drop cmds_of oldest lookup insert delete
    no_sessions cleanup
idle_killed_test = refl

sessions_limited_example :
    (length (run three_open no_sessions).sessions ≤ max_sessions)
    × Distinct (run three_open no_sessions).sessions
sessions_limited_example = sessions_limited three_open (refl, (refl, (refl, (refl, (tt, tt)))))

no_command_lost_example : accounted (run three_open no_sessions) 1 ≡ true
unfolding run act get_or_start evict remove_exited drop oldest lookup insert delete no_sessions
    wait_ended
no_command_lost_example =
    no_command_lost three_open (refl, (refl, (refl, (refl, (tt, tt))))) 1 (omega arith)

abbrev open_ab : Manager
open_ab = record {
  sessions =
      ("/s/b", record { port = 9002; cmd = 1; last_access = 20 })
      ∷ ("/s/a", record { port = 9001; cmd = 0; last_access = 30 })
      ∷ [];
  started = 2;
  exited = [];
  killed = [];
}

hit_keeps_port_test :
    ((get_or_start "/s/a" (launch 9009 50) open_ab).0 ≡ ok 9001)
    × ((get_or_start "/s/a" (launch 9009 50) open_ab).1.started ≡ 2)
    × ((get_or_start "/s/a" (launch 9009 50) open_ab).1.killed ≡ [])
    × (lookup "/s/b" (get_or_start "/s/a" (launch 9009 50) open_ab).1.sessions
        ≡ lookup "/s/b" (live open_ab))
unfolding lookup drop
hit_keeps_port_test =
    hit_keeps_port "/s/b" "/s/a" (launch 9009 50) open_ab (refl, (refl, tt)) refl
      (record { port = 9001; cmd = 0; last_access = 30 }) refl

opening_evicts_oldest_example :
    (old : String) × (s : Session) × (lookup old (live open_ab) ≡ some s)
    × Since s.last_access (live open_ab)
    × ((get_or_start "/s/c" (launch 9009 50) open_ab).0 ≡ ok 9009)
    × ((get_or_start "/s/c" (launch 9009 50) open_ab).1.killed ≡ [] ++ s.cmd ∷ [])
    × (lookup "/s/a" (get_or_start "/s/c" (launch 9009 50) open_ab).1.sessions
        ≡ (if old == "/s/a" then none else lookup "/s/a" (live open_ab)))
unfolding lookup drop
opening_evicts_oldest_example =
    opening_evicts_oldest "/s/a" "/s/c" (launch 9009 50) open_ab (refl, (refl, tt)) refl 9009 refl
      refl refl refl

-- Times in unary: a text of as many ones.
decimal_text : ℕ → String
decimal_text zero = ""
decimal_text (suc n) = String.◌∷◌ "1" (decimal_text n)

decimal_value : String → ℕ
decimal_value String.[] = 0
decimal_value (String.◌∷◌ c s) = suc (decimal_value s)

decimal-value-text : (n : ℕ) → decimal_value (decimal_text n) ≡ n
unfolding decimal_value decimal_text
decimal-value-text zero = refl
decimal-value-text (suc n) = ap suc (decimal-value-text n)

decimal_text-plain : (n : ℕ) → has_code b'_' (decimal_text n) ≡ false
unfolding decimal_text
decimal_text-plain zero = refl
decimal_text-plain (suc n) = decimal_text-plain n

decimal_text-no_slash : (n : ℕ) → has_code b'/' (decimal_text n) ≡ false
unfolding decimal_text
decimal_text-no_slash zero = refl
decimal_text-no_slash (suc n) = decimal_text-no_slash n

abbrev digits : Decimals
digits = record { print = decimal_text; parse = decimal_value }

digits-ReadsBack : ReadsBack digits
digits-ReadsBack = record {
  parse-print = decimal-value-text;
  plain = decimal_text-plain;
  no_slash = decimal_text-no_slash;
}

folder_test :
    folder_name digits 3 "gms-service" "10.0.0.1:50051" ≡ "111__gms-service__10.0.0.1-50051"
unfolding folder_name safe_instance replace_all decimal_text
folder_test = refl

recorded_folder_listed_example :
    read_folder digits (made_entry (folder_name digits 7 "gms-service" "10.0.0.1:50051"))
    ≡ some (record {
      timestamp = 7;
      service_name = "gms-service";
      instance_name = listed_instance "10.0.0.1:50051";
    })
recorded_folder_listed_example =
    recorded_folder_listed digits digits-ReadsBack 7 "gms-service" "10.0.0.1:50051" refl refl refl
      refl refl

-- A host with a dash is not read back.
dashed_host_test :
    read_folder digits (folder_name digits 7 "gms-service" "node-1:50051")
    ≡ some (record { timestamp = 7; service_name = "gms-service"; instance_name = "node:1:50051" })
unfolding folder_name safe_instance replace_all read_folder split read_parts decimal_text
    decimal_value
dashed_host_test = refl

-- What stands behind a slash is lost.
slash_test :
    read_folder digits (made_entry (folder_name digits 3 "x/y" "node"))
    ≡ some (record { timestamp = 3; service_name = "x"; instance_name = "unknown" })
unfolding folder_name safe_instance replace_all read_folder split read_parts decimal_text
    decimal_value made_entry
slash_test = refl

file_keys_test : (file_key "cpu.prof" ≡ "cpu") × (file_key "trace.out" ≡ "trace")
unfolding file_key without_ext
file_keys_test = (refl, refl)

recording_bounded_test :
    (wait_time (record_duration 1000) ≡ record_duration 1000 * second)
    × (0 < record_duration 1000)
    × (record_duration 1000 ≤ 600)
recording_bounded_test = recording_bounded 1000

abbrev disk : Disk ℕ
disk = record {
  join = λ base name. if name == "" then base else concat base (concat "/" name);
  mkdir_all = λ path n. (ok tt, suc n);
  write_file = λ path bytes n. (ok tt, suc n);
  read_dir = λ path n. (ok [], suc n);
  remove_all = λ path n. (ok tt, suc n);
  unix_now = λ n. (7, n);
  bind_record = λ body. err (failure "no body");
}

abbrev viewers : Viewers ℕ
viewers = record { manager = open_ab; disk_state = 0 }

-- Both folders are deleted.
deleted_test : (delete_folders disk "/s" ("a" ∷ "../x" ∷ "b" ∷ []) 0 viewers).0 ≡ 2
unfolding delete_folders delete_folder is_refused has_dots in_folder drop cmds_of
deleted_test = refl

-- The empty name passes the check, and the whole storage is deleted.
storage_deleted_test : (delete_folders disk "/s" ("" ∷ []) 0 viewers).0 ≡ 1
unfolding delete_folders delete_folder is_refused has_dots in_folder drop cmds_of
storage_deleted_test = refl

abbrev folder_a : String
folder_a = "a"

abbrev folder_b : String
folder_b = "b"

a_named : folder_a ≢ ""
a_named e = cc

b_named : folder_b ≢ ""
b_named e = cc

deletion_keeps_viewers_example :
    (delete_folders disk "/s" ("a" ∷ "b" ∷ []) 0 viewers).1.manager ≡ open_ab
deletion_keeps_viewers_example =
    deletion_keeps_viewers disk "/s" ("a" ∷ "b" ∷ []) 0 viewers (a_named, (b_named, tt))
      (refl, (refl, tt))
