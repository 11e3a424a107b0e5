-- ===== src/Logging/Written.antt =====
-- What was logged is printed, in order, and the logger's thread ends when the logger is released.
use ladder.Prelude.{◌≤◌, ◌≡◌, ℕ, Bool, true, false, List, ◌++◌, length}
use ladder.Logging.{Logger}
use ladder.Logging.Lines.{joined, AllPlain}

-- All that was logged is in the file or in the queue, and the thread goes on.
record Kept (running : Bool) (level : ℕ) (lines : List (List ℕ)) (l : Logger) : Type 0 where
  kept : joined lines ≡ l.file ++ joined l.message_queue
  all_plain : AllPlain l.message_queue
  sound : l.broken ≡ false
  few : length l.message_queue ≤ length lines
  is_running : l.running ≡ running
  awake : l.thread_ended ≡ false
  same_level : l.level ≡ level

pub record Ended (lines : List (List ℕ)) (l : Logger) : Type 0 where
  pub has_ended : l.thread_ended ≡ true
  pub all_printed : l.file ≡ joined lines
  pub is_sound : l.broken ≡ false
