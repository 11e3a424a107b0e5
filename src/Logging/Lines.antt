-- ===== src/Logging/Lines.antt =====
-- The lines of a logger, and texts that print as they are.
use ladder.Prelude.{
  ltb, ◌<◌, ◌≡◌, ◌≢◌, sym, ap, ◌∙◌, ℕ, none, some, List, [], ◌∷◌, ◌++◌, append_assoc, append-nil,
  length, if◌then◌else◌, arith,
}
use ladder.Prelude.Text.{codes}
use ladder.Logging.{
  max_message_length, LogLevel, log_trace, log_debug, log_info, log_warning, log_error, log_fatal,
  severity_number, level_name, line, Event, logs, logs_fmt, turn,
}

-- A text without a percent sign.
abbrev pub IsPlain : List ℕ → Type 0
IsPlain [] = Unit
IsPlain (c ∷ cs) = (c ≢ 37) × IsPlain cs

-- The lines that calls put into the queue at a level.
abbrev pub logged : ℕ → List Event → List (List ℕ)
logged level [] = []
logged level (logs severity date message ∷ evs) =
    if ltb (severity_number severity) level
    then logged level evs
    else line severity date message ∷ logged level evs
logged level (logs_fmt severity date none ∷ evs) = logged level evs
logged level (logs_fmt severity date (some message) ∷ evs) =
    if ltb (severity_number severity) level
    then logged level evs
    else line severity date message ∷ logged level evs
logged level (turn ∷ evs) = logged level evs

-- Texts without percent signs, and formatted messages that fit the array.
abbrev pub IsTame : Event → Type 0
IsTame (logs severity date message) = IsPlain date × IsPlain message
IsTame (logs_fmt severity date none) = ⊥
IsTame (logs_fmt severity date (some message)) =
    IsPlain date × IsPlain message × (length message < max_message_length)
IsTame turn = Unit

abbrev pub AllTame : List Event → Type 0
AllTame [] = Unit
AllTame (ev ∷ evs) = IsTame ev × AllTame evs

abbrev pub joined : List (List ℕ) → List ℕ
joined [] = []
joined (m ∷ ms) = m ++ joined ms

abbrev pub AllPlain : List (List ℕ) → Type 0
AllPlain [] = Unit
AllPlain (m ∷ ms) = IsPlain m × AllPlain ms

IsPlain-append : (xs ys : List ℕ) → IsPlain xs → IsPlain ys → IsPlain (xs ++ ys)
IsPlain-append [] ys h k = k
IsPlain-append (x ∷ xs) ys h k = (h.0, IsPlain-append xs ys h.1 k)

pub AllPlain-snoc :
    (ms : List (List ℕ)) (m : List ℕ) → AllPlain ms → IsPlain m → AllPlain (ms ++ m ∷ [])
AllPlain-snoc [] m h k = (k, tt)
AllPlain-snoc (n ∷ ms) m h k = (h.0, AllPlain-snoc ms m h.1 k)

pub joined-snoc : (ms : List (List ℕ)) (m : List ℕ) → joined (ms ++ m ∷ []) ≡ joined ms ++ m
joined-snoc [] m = append-nil m
joined-snoc (n ∷ ms) m =
    ap (λ (l : List ℕ). n ++ l) (joined-snoc ms m) ∙ sym (append_assoc n (joined ms) m)

level_name-IsPlain : (severity : LogLevel) → IsPlain (level_name severity)
level_name-IsPlain log_trace = omega arith
level_name-IsPlain log_debug = omega arith
level_name-IsPlain log_info = omega arith
level_name-IsPlain log_warning = omega arith
level_name-IsPlain log_error = omega arith
level_name-IsPlain log_fatal = omega arith

pub line-IsPlain :
    (severity : LogLevel) (date message : List ℕ)
    → IsPlain date
    → IsPlain message
    → IsPlain (line severity date message)
unfolding line
line-IsPlain severity date message h k = IsPlain-append (codes "[") _ (omega arith) (
    IsPlain-append date _ h (
      IsPlain-append (codes "][") _ (omega arith) (
        IsPlain-append (level_name severity) _ (level_name-IsPlain severity) (
          IsPlain-append (codes "] ") _ (omega arith)
            (IsPlain-append message (10 ∷ []) k (omega arith))))))
