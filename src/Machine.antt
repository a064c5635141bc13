-- ===== src/Machine.antt =====
-- What the node installer asks of its surroundings, over an unknown world `W`: the two file systems
-- of `github.com/spf13/afero`, `os/exec`, `github.com/mitchellh/go-ps`, `syscall.Kill` and the
-- environment. An open file is named by its path, since the program renames none.
pub mod Laws
pub mod Memory
use runtime_class_manager.Base.{ℕ, Bool, List, Text}
use runtime_class_manager.Go.Outcome.{Action, Outcome, Err}

pub record FileInfo : Type 0 where
  pub name : Text
  pub is_dir : Bool

-- `afero.Fs`, by the calls that the program makes.
pub record Fs (W : Type 0) : Type 0 where
  -- `fs.Stat(p)`
  pub stat : Text → Action W FileInfo
  -- `afero.ReadDir(fs, p)`
  pub read_dir : Text → Action W (List FileInfo)
  -- `afero.ReadFile(fs, p)`
  pub read_file : Text → Action W Text
  -- `afero.WriteFile(fs, p, data, mode)`
  pub write_file : Text → Text → Action W (Unit {0})
  -- `fs.MkdirAll(p, mode)`
  pub mkdir_all : Text → Action W (Unit {0})
  -- `fs.Open(p)`, and `fs.OpenFile` with `O_RDONLY`
  pub open_read : Text → Action W (Unit {0})
  -- `fs.Create(p)`, and `fs.OpenFile` with `O_RDWR|O_CREATE|O_TRUNC`
  pub open_trunc : Text → Action W (Unit {0})
  -- `fs.OpenFile` with `O_APPEND|O_WRONLY`
  pub open_append : Text → Action W (Unit {0})
  -- the bytes that reading an open file to its end gives, and the error that stopped it
  pub read_all : Text → W → (Text × Err) × W
  -- writes to an open file: the bytes of the writes that went through, and the error
  pub write_all : Text → Text → W → (Text × Err) × W
  -- `file.WriteString(s)` on a file open for appending
  pub append : Text → Text → Action W (Unit {0})
  -- `file.Sync()`
  pub sync : Text → Action W (Unit {0})
  -- `file.Close()`
  pub close : Text → Action W (Unit {0})
  -- `fs.Remove(p)`
  pub remove : Text → Action W (Unit {0})

-- `ps.Process`
pub record Process : Type 0 where
  pub executable : Text
  pub pid : ℕ

pub record Machine (W : Type 0) : Type 0 where
  pub root_fs : Fs W
  pub host_fs : Fs W
  -- `exec.Command(argv…).CombinedOutput()`
  pub exec : List Text → W → (Text × Err) × W
  -- `ps.Processes()`
  pub processes : Action W (List Process)
  -- `syscall.Kill(pid, SIGHUP)`
  pub kill : ℕ → Action W (Unit {0})
  -- `os.Getenv`
  pub getenv : Text → Text
  -- `crypto/sha256`
  pub sha256 : Text → Text
