-- ===== src/Io/Logs.antt =====
-- internal/io/io.go: `CreateLogger` and `checkDir`; and the closing of the log file in the two
-- `Release` methods of internal/lspwatch.go and internal/exporters/otel.go. The file system is a
-- parameter, with a state `W`; an open file is named by its path, and a nil file is `none`.
use lspwatch.Common.{
  ◌≡◌, ◌≢◌, ◌⊎◌, inl, inr, refl, Bool, true, false, Option, none, some, [], if◌then◌else◌, Bytes,
  same, same_iff, if_cases, arith,
}
use lspwatch.Common.Results.{Result, ok, err}

-- What `os.Stat` says: a directory, another file, `os.ErrNotExist`, or another error.
pub data Stat : Type 0 where
  directory other_file missing stat_failed : Stat

pub record Files (W : Type 0) : Type 0 where
  pub stat : Bytes → W → Stat  -- os.Stat
  pub mkdir_all : Bytes → W → W × Bool  -- os.MkdirAll; true is success
  pub open_append : Bytes → W → W × Bool  -- os.OpenFile, to create and to append
  pub close : Bytes → W → W × Bool  -- File.Close
  pub join : Bytes → Bytes → Bytes  -- filepath.Join

pub data LogError : Type 0 where
  checking_directory creating_directory creating_file : LogError

-- A logger, by the file that it writes to; without one its output is discarded.
pub record Logger : Type 0 where
  pub output : Option Bytes

-- What `CreateLogger` returns: a logger and its file.
abbrev pub Log : Type 0
Log = Logger × Option Bytes

module _ {W : Type 0} (files : Files W) where
  -- `checkDir`
  unfoldable pub check_dir : Bytes → W → Result LogError Bool
  check_dir path w = elim (files.stat path w) [
    | directory ↦ ok true
    | other_file ↦ ok false
    | missing ↦ ok false
    | stat_failed ↦ err checking_directory
  ]

  unfoldable pub logging_to : Bytes → W × Bool → W × Result LogError Log
  logging_to path (w, true) = (w, ok (record { output = some path }, some path))
  logging_to path (w, false) = (w, err creating_file)

  unfoldable pub in_new_directory : Bytes → Bytes → W × Bool → W × Result LogError Log
  unfolding logging_to
  in_new_directory dir name (w, true) =
      logging_to (files.join dir name) (files.open_append (files.join dir name) w)
  in_new_directory dir name (w, false) = (w, err creating_directory)

  unfoldable pub in_directory : Bytes → Bytes → W → Result LogError Bool → W × Result LogError Log
  unfolding logging_to in_new_directory
  in_directory dir name w (err e) = (w, err e)
  in_directory dir name w (ok true) =
      logging_to (files.join dir name) (files.open_append (files.join dir name) w)
  in_directory dir name w (ok false) = in_new_directory dir name (files.mkdir_all dir w)

  -- `CreateLogger`
  unfoldable pub create_logger : Bytes → Bytes → W → W × Result LogError Log
  unfolding in_directory check_dir same
  create_logger dir name w =
      if same dir []
      then (w, ok (record { output = none }, none))
      else in_directory dir name w (check_dir dir w)

  -- `logFile.Close()` in `Release`: closing a nil file is an error; true is success
  unfoldable pub close_log : Option Bytes → W → W × Bool
  close_log none w = (w, false)
  close_log (some path) w = files.close path w

  -- The log goes to the file of that name in the directory, which was there when the file was
  -- opened.
  pub record LogsTo (dir name : Bytes) (w : W) (log : Log) : Type 0 where
    pub before : W
    pub is_there : files.stat dir before ≡ directory
    pub opened : files.open_append (files.join dir name) before ≡ (w, true)
    pub writes : log.0.output ≡ some (files.join dir name)
    pub keeps : log.1 ≡ some (files.join dir name)

  logging_to_lem :
      (dir name : Bytes) (w0 w : W) (log : Log)
      → files.stat dir w0 ≡ directory
      → logging_to (files.join dir name) (files.open_append (files.join dir name) w0) ≡ (w, ok log)
      → LogsTo dir name w log
  unfolding logging_to
  logging_to_lem dir name w0 w log there e = record {
    before = w0;
    is_there = there;
    opened = ground (arith, e);
    writes = ground (arith, e);
    keeps = ground (arith, e);
  }

  -- What `os.MkdirAll` promises: where it succeeds there is a directory.
  abbrev pub MakesDirectories : Type 0
  MakesDirectories =
      (path : Bytes) (v v' : W)
      → files.mkdir_all path v ≡ (v', true)
      → files.stat path v' ≡ directory

  in_new_directory_lem :
      (dir name : Bytes) (w0 w : W) (log : Log) (made : W × Bool)
      → MakesDirectories
      → files.mkdir_all dir w0 ≡ made
      → in_new_directory dir name made ≡ (w, ok log)
      → LogsTo dir name w log
  unfolding in_new_directory
  in_new_directory_lem dir name w0 w log (w1, true) makes m e =
      logging_to_lem dir name w1 w log (makes dir w0 w1 m) e
  in_new_directory_lem dir name w0 w log (w1, false) makes m e = ground (arith, e)

  in_directory_lem :
      (dir name : Bytes) (w0 w : W) (log : Log) (s : Stat)
      → MakesDirectories
      → files.stat dir w0 ≡ s
      → in_directory dir name w0 (check_dir dir w0) ≡ (w, ok log)
      → LogsTo dir name w log
  unfolding in_directory check_dir
  in_directory_lem dir name w0 w log directory makes s e =
      logging_to_lem dir name w0 w log s (ground (arith, s, e))
  in_directory_lem dir name w0 w log other_file makes s e =
      in_new_directory_lem dir name w0 w log (files.mkdir_all dir w0) makes refl
        (ground (arith, s, e))
  in_directory_lem dir name w0 w log missing makes s e =
      in_new_directory_lem dir name w0 w log (files.mkdir_all dir w0) makes refl
        (ground (arith, s, e))
  in_directory_lem dir name w0 w log stat_failed makes s e = ground (arith, s, e)

  -- A log that was created is one of two: without a directory, one that discards everything, has no
  -- file and left the file system alone; with a directory, one to the file of its name, opened
  -- where the directory was there.
  pub create_logger-LogsTo :
      (dir name : Bytes) (w0 w : W) (log : Log)
      → MakesDirectories
      → create_logger dir name w0 ≡ (w, ok log)
      → ((dir ≡ []) × (w ≡ w0) × (log ≡ (record { output = none }, none)))
        ⊎ ((dir ≢ []) × LogsTo dir name w log)
  unfolding create_logger
  create_logger-LogsTo dir name w0 w log makes e =
      elim (if_cases (same dir []) (w0, ok (record { output = none }, none))
        (in_directory dir name w0 (check_dir dir w0)) e) [
          | inl (empty, q) ↦ inl ((same_iff dir []).0 empty, ground (arith, q), ground (arith, q))
          | inr (given, q) ↦ inr (
            λ none_given. ground (arith, given, (same_iff dir []).1 none_given),
            in_directory_lem dir name w0 w log (files.stat dir w0) makes refl q,
          )
        ]
