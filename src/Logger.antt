-- ===== src/Logger.antt =====
-- HW06-Logger/src: the logger. `none` stands for an undefined step: the use of a stream after it was
-- closed or of the lock after it was destroyed. A call holds the lock from its first write to its last
-- one, so it is one step.
use otus_c.Prelude.{
  if◌then◌else◌, take, ℕ, Bool, true, false, not, ◌&&◌, ◌||◌, Option, none, some, List, [], ◌∷◌,
  ◌++◌,
}
use otus_c.Prelude.Int.{ℤ}
use otus_c.Prelude.Text.{codes, show_int}
use otus_c.Prelude.Partial.{require, ◌>>◌, ◌>>=◌}
pub mod Calls

pub data LogLevel : Type 0 where
  debug info warning error : LogLevel

-- The value of log_fp: NULL, a stream that appends to a file, or one that fclose was called on.
pub data Stream : Type 0 where
  null closed : Stream
  opened : List ℕ → Stream

-- What the file holds is in `written`, piece by piece, each with the name of its file.
pub record Logger : Type 0 where
  pub log_fp : Stream
  pub initialized : Bool
  pub lock_destroyed : Bool
  pub written : List (List ℕ × List ℕ)

-- The static variables at the start.
pub initial : Logger
initial = record { log_fp = null; initialized = false; lock_destroyed = false; written = [] }

-- The arguments of logger_log, with the text that vfprintf makes of the format and the names that
-- backtrace_symbols gives.
pub record Entry : Type 0 where
  pub level : LogLevel
  pub file : List ℕ
  pub line : ℤ
  pub func : List ℕ
  pub message : List ℕ
  pub symbols : List (List ℕ)

-- fprintf(log_fp, ...).
pub write : List ℕ → Logger → Option Logger
write text logger = elim logger.log_fp [
  | null ↦ none
  | closed ↦ none
  | opened path ↦ some (record logger { written = logger.written ++ ((path, text) ∷ []) })
]

pub write_symbols : List (List ℕ) → Logger → Option Logger
write_symbols [] logger = some logger
write_symbols (name ∷ names) logger = write (name ++ codes "\n") logger >>= write_symbols names

-- backtrace fills at most `depth` places.
pub print_stack_trace : ℕ → List (List ℕ) → Logger → Option Logger
print_stack_trace depth symbols logger = write_symbols (take depth symbols) logger

pub tag : LogLevel → List ℕ
tag debug = codes "[DEBUG] "
tag info = codes "[INFO] "
tag warning = codes "[WARN] "
tag error = codes "[ERROR] "

pub heading : Entry → List ℕ
heading e =
    tag e.level
    ++ (e.file ++ (codes ":" ++ (show_int e.line ++ (codes " (" ++ (e.func ++ codes "): ")))))

pub trace_if_error : LogLevel → List (List ℕ) → Logger → Option Logger
trace_if_error debug symbols logger = some logger
trace_if_error info symbols logger = some logger
trace_if_error warning symbols logger = some logger
trace_if_error error symbols logger = print_stack_trace 10 symbols logger

-- !log_fp.
pub is_null : Stream → Bool
is_null null = true
is_null closed = false
is_null (opened path) = false

pub logger_log : Entry → Logger → Option Logger
logger_log e logger = if not logger.initialized || is_null logger.log_fp then some logger else do
  require (not logger.lock_destroyed)
  l ← write (heading e) logger
  l' ← write e.message l
  l'' ← write (codes "\n") l'
  trace_if_error e.level e.symbols l''

-- The Boolean argument says whether fopen succeeds; the result is true on a failure.
pub logger_init : List ℕ → Bool → Logger → Logger × Bool
logger_init log_file_path opens logger =
    if logger.initialized
    then (logger, false)
    else if opens
    then (record logger { log_fp = opened log_file_path; initialized = true }, false)
    else (record logger { log_fp = null }, true)

-- fclose(log_fp).
pub close : Logger → Option Logger
close logger = elim logger.log_fp [
  | null ↦ none
  | closed ↦ none
  | opened path ↦ some (record logger { log_fp = closed })
]

pub logger_cleanup : Logger → Option Logger
logger_cleanup logger = do
  l ← if logger.initialized && not (is_null logger.log_fp) then close logger else some logger
  require (not l.lock_destroyed)
  some (record l { lock_destroyed = true; initialized = false })

pub data Call : Type 0 where
  init : List ℕ → Bool → Call
  log : Entry → Call
  cleanup : Call

pub call : Call → Logger → Option Logger
call (init path opens) logger = some (logger_init path opens logger).0
call (log e) logger = logger_log e logger
call cleanup logger = logger_cleanup logger

pub run : List Call → Logger → Option Logger
run [] logger = some logger
run (c ∷ cs) logger = call c logger >>= run cs

-- main.c: it exits if the log cannot be opened, which the second component says.
pub main : Entry → Entry → Entry → Entry → Bool → Option (Logger × Bool)
main first second third fourth opens =
    let (logger, failed) = logger_init (codes "app.log") opens initial in
    let go_on =
      run (log first ∷ log second ∷ log third ∷ log fourth ∷ cleanup ∷ []) logger
      >>= (λ l. some (l, false)) in
    if failed then some (logger, true) else go_on
