-- ===== src/Ops/Recordings.antt =====
-- Recorded profiles: handleRecordPerformance and handleListPerformanceHistory of cmd/ops/main.go. The
-- disk, the clock and BindJSON are parameters; `join` is filepath.Join.
use Prim.Native.Char.{code}
use game_production.Common.{
  ℕ, ◌≤◌, ◌<◌, ◌*◌, String, string_key, concat, Bool, Option, none, some, List, [], ◌∷◌, Dict,
  insert, Error, failure, wrapped, Result, ok, err, Exec, ltb, eqb, is_positive, ◌==◌, ◌≡◌, arith,
  if◌then◌else◌,
}
use game_production.Admin.{wait_time, second}
use game_production.Rpc.Client.{Conn}
use game_production.Rpc.Profiles.{CollectResp, Stream, collect_performance}
use game_production.Ops.Console.{
  Console, ProjectContext, Outside, registry_of, get_project_context, on_client,
}
use game_production.Ops.Folders.{Decimals, FolderInfo, has_code, folder_name, read_folder}

abbrev pub Bytes : Type 0
Bytes = List ℕ

pub record RecordBody : Type 0 where
  pub project : String
  pub service : String
  pub instance_name : String
  pub duration : ℕ

pub record Entry : Type 0 where
  pub name : String
  pub is_dir : Bool

pub record Disk (S : Type 0) : Type 0 where
  pub join : String → String → String
  pub mkdir_all : String → Exec S (Unit {0})
  pub write_file : String → Bytes → Exec S (Unit {0})
  pub read_dir : String → Exec S (List Entry)
  pub remove_all : String → Exec S (Unit {0})
  pub unix_now : S → ℕ × S
  pub bind_record : String → Result RecordBody

-- The paths under which the profiles are downloaded; an empty one stands for no file.
pub record Files : Type 0 where
  pub cpu : String
  pub trace : String
  pub heap : String
  pub goroutine : String
  pub block : String
  pub mutex : String

pub record Recorded : Type 0 where
  pub timestamp : ℕ
  pub service_name : String
  pub instance_name : String
  pub files : Files

pub record HistoryItem : Type 0 where
  pub folder : String
  pub timestamp : ℕ
  pub service_name : String
  pub instance_name : String
  pub files : Dict String String

-- The answer 200, or another status with an error.
pub data Page {ℓ} (A : Type ℓ) : Type ℓ where
  page : A → Page A
  refused : ℕ → Error → Page A

-- The length of a recording in seconds, from the pattern of an int64: 30 if it is not positive, 600
-- if it is longer.
unfoldable pub record_duration : ℕ → ℕ
record_duration d = let d' = if is_positive d then d else 30 in if ltb 600 d' then 600 else d'

-- The name without its extension.
unfoldable pub without_ext : String → String
without_ext String.[] = String.[]
without_ext (String.◌∷◌ c s) =
    let rest = without_ext s in
    if has_code b'.' s
    then String.◌∷◌ c rest
    else if eqb (code c) b'.'
    then String.[]
    else String.◌∷◌ c s

unfoldable pub file_key : String → String
unfolding without_ext
file_key name = if name == "trace.out" then "trace" else without_ext name

storage : String
storage = "./storage/pprof"

module _ {S T P : Type 0} (o : Outside S T P) (disk : Disk S) (dec : Decimals)
    (collect : Conn → ℕ → Exec S Stream) where
  file_written : String → String → Result (Unit {0}) × S → String × S
  file_written folder name (ok _, s) = (concat folder (concat "/" name), s)
  file_written folder name (err e, s) = ("", s)

  write_file : String → String → Bytes → S → String × S
  unfolding file_written storage
  write_file folder name [] s = ("", s)
  write_file folder name (b ∷ bs) s =
      file_written folder name
        (disk.write_file (disk.join (concat storage (concat "/" folder)) name) (b ∷ bs) s)

  write_files : String → CollectResp → S → Files × S
  unfolding write_file
  write_files folder r s =
      let (cpu, s1) = write_file folder "cpu.prof" r.cpu_profile s in
      let (trace, s2) = write_file folder "trace.out" r.trace_data s1 in
      let (heap, s3) = write_file folder "heap.prof" r.heap_snapshot s2 in
      let (goroutine, s4) = write_file folder "goroutine.prof" r.goroutine_dump s3 in
      let (block, s5) = write_file folder "block.prof" r.block_profile s4 in
      let (mutex, s6) = write_file folder "mutex.prof" r.mutex_profile s5 in
      (
        record {
          cpu = cpu;
          trace = trace;
          heap = heap;
          goroutine = goroutine;
          block = block;
          mutex = mutex;
        },
        s6,
      )

  in_folder : RecordBody → ℕ → CollectResp → Result (Unit {0}) × S → Page Recorded × S
  unfolding write_files folder_name
  in_folder q now r (err e, s) = (refused 500 (failure "Failed to create storage dir"), s)
  in_folder q now r (ok _, s) =
      let (files, s') = write_files (folder_name dec now q.service q.instance_name) r s in
      (
        page (record {
          timestamp = now;
          service_name = q.service;
          instance_name = q.instance_name;
          files = files;
        }),
        s',
      )

  save_profiles : RecordBody → CollectResp → S → Page Recorded × S
  unfolding in_folder storage
  save_profiles q r s =
      let (now, s1) = disk.unix_now s in
      in_folder q now r (
        disk.mkdir_all (concat storage (concat "/" (folder_name dec now q.service q.instance_name)))
          s1)

  record_collected : RecordBody → Result CollectResp × Console S T → Page Recorded × Console S T
  unfolding save_profiles
  record_collected q (err e, c) = (refused 500 (wrapped "RPC failed" e), c)
  record_collected q (ok r, c) =
      let (answer, s) = save_profiles q r c.outside in (answer, record c { outside = s })

  record_project :
      ℕ → RecordBody → Result (ProjectContext T) → Console S T → Page Recorded × Console S T
  unfolding record_collected on_client record_duration collect_performance
  record_project pick q (err e) c = (refused 400 e, c)
  record_project pick q (ok p) c = record_collected q (
      on_client o q.project p
        (collect_performance (registry_of o p.config) collect pick q.service q.instance_name
          (record_duration q.duration))
        c)

  record_bound : ℕ → Result RecordBody → Console S T → Page Recorded × Console S T
  unfolding record_project get_project_context
  record_bound pick (err e) c = (refused 400 (failure "Invalid request"), c)
  record_bound pick (ok q) c = record_project pick q (get_project_context o q.project c) c

  unfoldable pub handle_record_performance : ℕ → String → Console S T → Page Recorded × Console S T
  unfolding record_bound
  handle_record_performance pick body c = record_bound pick (disk.bind_record body) c

  -- The files of a folder by their keys, of which a later one stays.
  file_entries : String → List Entry → Dict String String → Dict String String
  unfolding file_key
  file_entries folder [] files = files
  file_entries folder (e ∷ es) files = file_entries folder es (
      if e.is_dir
      then files
      else insert (file_key e.name) (concat folder (concat "/" e.name)) files)

  entries_or_none : Result (List Entry) → List Entry
  entries_or_none (ok es) = es
  entries_or_none (err e) = []

  -- Only folders whose name has two parts or more are listed.
  entry_info : Entry → Option FolderInfo
  unfolding read_folder
  entry_info e = if e.is_dir then read_folder dec e.name else none

  history : List Entry → S → List HistoryItem × S
  unfolding file_entries entries_or_none entry_info storage
  history [] s = ([], s)
  history (e ∷ es) s = elim (entry_info e) [
    | none ↦ history es s
    | some i ↦
        let (r, s1) = disk.read_dir (disk.join storage e.name) s in
        let (more, s2) = history es s1 in
        (
          record {
            folder = e.name;
            timestamp = i.timestamp;
            service_name = i.service_name;
            instance_name = i.instance_name;
            files = file_entries e.name (entries_or_none r) [];
          }
              ∷ more,
          s2,
        )
  ]

  listed : Result (List Entry) × S → Page (List HistoryItem) × S
  unfolding history
  listed (err e, s) = (refused 500 (failure "Failed to list directory"), s)
  listed (ok es, s) = let (items, s') = history es s in (page items, s')

  unfoldable pub handle_list_performance_history : S → Page (List HistoryItem) × S
  unfolding listed storage
  handle_list_performance_history s =
      let (_, s1) = disk.mkdir_all storage s in listed (disk.read_dir storage s1)

-- Whatever duration a request asks for, the service that is recorded waits for the time that the console
-- has asked of it, between 1 and 600 seconds, and not for its own default.
pub recording_bounded :
    (d : ℕ)
    → (wait_time (record_duration d) ≡ record_duration d * second)
      × (0 < record_duration d)
      × (record_duration d ≤ 600)
unfolding wait_time record_duration
recording_bounded d = ground arith
