-- ===== src/Shell/Host.antt =====
-- What the shell sees of the system, and what it does to it.
use comp304_assignments.Prelude.{ℕ, Bool, Option, List}
use comp304_assignments.Prelude.Text.{Text, ℤ}

-- `struct tm`, and what `localtime` makes of a time.
pub record Tm : Type 0 where
  pub tm_sec : ℕ
  pub tm_min : ℕ
  pub tm_hour : ℕ
  pub tm_mday : ℕ
  pub tm_mon : ℕ
  pub tm_wday : ℕ

-- Files by name, the environment, and the clock. `errno_text` is what strerror says of a failure.
-- `path` is getenv of PATH, and `path_room` the bytes that may be written behind the end of its
-- string; `malloc_text` is the string that the block of malloc for a file's text holds at first, up
-- to its first NUL.
pub record Host : Type 0 where
  pub files : Text → Option Text
  pub writable : Text → Bool
  pub changes_dir : Text → Bool
  pub errno_text : Text
  pub home : Text
  pub path : Option Text
  pub path_room : ℕ
  pub malloc_text : Text
  pub cwd : Option Text
  pub typed : Text
  pub time : ℕ
  pub localtime : ℤ → Tm
  pub system_result : ℤ
  pub chmod_result : ℤ

pub data Mode : Type 0 where
  read_only truncate append : Mode

-- Calls that change what is outside the process. `cleared` empties a file by `fopen`; `gone` is an
-- exit, `undefined` a read through NULL or an overrun of the child, and `module_loaded` the
-- assignment of 1 to kernel_module_loaded.
pub data Effect : Type 0 where
  printed : Text → Effect
  reported : Text → Effect
  changed_dir : Text → Effect
  wrote : Text → Text → Effect
  appended : Text → Text → Effect
  made_executable : Text → Effect
  ran : Text → Effect
  redirected : Mode → Text → ℕ → Effect
  tried : Text → List Text → Effect
  waited : Effect
  gone : ℕ → Effect
  undefined : Effect
  module_loaded : Effect
