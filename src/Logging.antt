-- ===== src/Logging.antt =====
-- ladder/src/Logging.cpp and Logging.h: lines of a severity in a queue, which a thread prints into a
-- file. The level is a number: a negative one of the code acts as zero. What the clock gives is an
-- argument of the calls, and so is what `vsnprintf` has to print: a text, or an error.
pub mod Lines
pub mod Written
mod Tests
use ladder.Prelude.{
  ltb, zero, suc, ℕ, Bool, true, false, Option, none, some, List, [], ◌∷◌, ◌++◌, length,
  if◌then◌else◌,
}
use ladder.Prelude.Text.{codes}

abbrev pub max_message_length : ℕ
max_message_length = 1024

pub data LogLevel : Type 0 where
  log_trace log_debug log_info log_warning log_error log_fatal : LogLevel

abbrev pub severity_number : LogLevel → ℕ
severity_number log_trace = 0
severity_number log_debug = 1
severity_number log_info = 2
severity_number log_warning = 3
severity_number log_error = 4
severity_number log_fatal = 5

-- `kLogLevels`.
abbrev pub level_name : LogLevel → List ℕ
level_name log_trace = codes "TRACE"
level_name log_debug = codes "DEBUG"
level_name log_info = codes "INFO"
level_name log_warning = codes "WARNING"
level_name log_error = codes "ERROR"
level_name log_fatal = codes "FATAL"

-- `file` is what was printed; `broken` notes undefined behaviour or an exception that nothing
-- catches; `thread_ended` whether the thread of the logger has returned.
pub record Logger : Type 0 where
  pub running : Bool
  pub level : ℕ
  pub message_queue : List (List ℕ)
  pub thread_ended : Bool
  pub file : List ℕ
  pub broken : Bool

pub new_logger : ℕ → Logger
new_logger level = record {
  running = true;
  level = level;
  message_queue = [];
  thread_ended = false;
  file = [];
  broken = false;
}

pub line : LogLevel → List ℕ → List ℕ → List ℕ
line severity date message =
    codes "["
    ++ (date ++ (codes "][" ++ (level_name severity ++ (codes "] " ++ (message ++ 10 ∷ [])))))

abbrev pub emplace : List ℕ → Logger → Logger
emplace m l = record l { message_queue = l.message_queue ++ m ∷ [] }

pub write_log : LogLevel → List ℕ → List ℕ → Logger → Logger
unfolding line
write_log severity date message l =
    if ltb (severity_number severity) l.level then l else emplace (line severity date message) l

-- The message is cut from an array by the count that `vsnprintf` returns, which is that of the whole
-- text.
abbrev pub emplace_formatted : LogLevel → List ℕ → Option (List ℕ) → Logger → Logger
emplace_formatted severity date none l = record l { broken = true }
emplace_formatted severity date (some message) l =
    if ltb (length message) max_message_length
    then emplace (line severity date message) l
    else record l { broken = true }

pub write_log_fmt : LogLevel → List ℕ → Option (List ℕ) → Logger → Logger
unfolding line
write_log_fmt severity date formatted l =
    if ltb (severity_number severity) l.level
    then l
    else emplace_formatted severity date formatted l

-- What `fprintf` prints for a text as its format, with no arguments, if that is defined.
abbrev pub Fprintf : Type 0
Fprintf = List ℕ → Option (List ℕ)

-- The start of the destructor; the rest waits for the thread.
pub release : Logger → Logger
release l = record l { running = false }

-- A call of a thread of the program, or a round of the logger's own thread.
pub data Event : Type 0 where
  logs : LogLevel → List ℕ → List ℕ → Event
  logs_fmt : LogLevel → List ℕ → Option (List ℕ) → Event
  turn : Event

module _ (fprintf : Fprintf) where
  abbrev pub print : Option (List ℕ) → Logger → Logger
  print (some out) l = record l { file = l.file ++ out }
  print none l = record l { broken = true }

  abbrev pub take_message : List (List ℕ) → Logger → Logger
  take_message [] l = if l.running then l else record l { thread_ended = true }
  take_message (m ∷ ms) l = print (fprintf m) (record l { message_queue = ms })

  -- One round of `ThreadFunc`, or a wait that goes on.
  pub thread_func : Logger → Logger
  thread_func l = if l.thread_ended then l else take_message l.message_queue l

  pub step : Event → Logger → Logger
  unfolding write_log write_log_fmt thread_func
  step (logs severity date message) l = write_log severity date message l
  step (logs_fmt severity date formatted) l = write_log_fmt severity date formatted l
  step turn l = thread_func l

  pub run : List Event → Logger → Logger
  unfolding step
  run [] l = l
  run (ev ∷ evs) l = run evs (step ev l)

  pub turns : ℕ → Logger → Logger
  unfolding thread_func
  turns zero l = l
  turns (suc n) l = turns n (thread_func l)
