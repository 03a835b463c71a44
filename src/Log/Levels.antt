-- ===== src/Log/Levels.antt =====
-- The levels of include/log/Log.hpp in order, level by level, and the line of a message.
use high_speed.Prelude.{
  ◌≡◌, refl, Bool, true, false, not, ◌++◌, ltb, if◌then◌else◌, codes, Bytes, Bool-cases, ap, inl,
  inr,
}
use high_speed.Format.{ok, err, out_of_fuel}
use high_speed.Log.{
  LogLevel, debug, release, info, warn, error, fatal, rank, level_to_string, Message, Text, Seen,
  silent, threw, undefined, log_line, formatted, log,
}

-- Whether a minimum lets a level pass.
abbrev pub passes : (min_level level : LogLevel) → Bool
passes debug debug = true
passes debug release = true
passes debug info = true
passes debug warn = true
passes debug error = true
passes debug fatal = true
passes release debug = false
passes release release = true
passes release info = true
passes release warn = true
passes release error = true
passes release fatal = true
passes info debug = false
passes info release = false
passes info info = true
passes info warn = true
passes info error = true
passes info fatal = true
passes warn debug = false
passes warn release = false
passes warn info = false
passes warn warn = true
passes warn error = true
passes warn fatal = true
passes error debug = false
passes error release = false
passes error info = false
passes error warn = false
passes error error = true
passes error fatal = true
passes fatal debug = false
passes fatal release = false
passes fatal info = false
passes fatal warn = false
passes fatal error = false
passes fatal fatal = true

-- What a line starts with.
abbrev pub label : LogLevel → Bytes
label debug = codes "[DEBUG]["
label release = codes "[RELEASE]["
label info = codes "[INFO]["
label warn = codes "[WARN]["
label error = codes "[ERROR]["
label fatal = codes "[FATAL]["

-- The whole line of a message with this text.
abbrev pub line_of : LogLevel → Message → Bytes → Bytes
line_of level m text =
    label level
    ++ (m.time
        ++ (codes "]["
            ++ (m.file ++ (codes "][" ++ (m.line ++ (codes "] : " ++ (text ++ codes "\n")))))))

-- A text that formats is written as a line; an error is thrown.
abbrev pub printing : (Bytes → Seen) → LogLevel → Message → Text → Seen
printing output level m (ok (text, s)) = output (line_of level m text)
printing output level m (err e) = threw e
printing output level m out_of_fuel = undefined

-- A message whose level passes is printed; else nothing is done, nor thrown.
abbrev pub logging : (Bytes → Seen) → (min_level level : LogLevel) → Message → Seen
logging output min_level level m =
    if passes min_level level then printing output level m m.text else silent

ltb-rank :
    (min_level level : LogLevel) → ltb (rank level) (rank min_level) ≡ not (passes min_level level)
unfolding rank
ltb-rank debug debug = refl
ltb-rank debug release = refl
ltb-rank debug info = refl
ltb-rank debug warn = refl
ltb-rank debug error = refl
ltb-rank debug fatal = refl
ltb-rank release debug = refl
ltb-rank release release = refl
ltb-rank release info = refl
ltb-rank release warn = refl
ltb-rank release error = refl
ltb-rank release fatal = refl
ltb-rank info debug = refl
ltb-rank info release = refl
ltb-rank info info = refl
ltb-rank info warn = refl
ltb-rank info error = refl
ltb-rank info fatal = refl
ltb-rank warn debug = refl
ltb-rank warn release = refl
ltb-rank warn info = refl
ltb-rank warn warn = refl
ltb-rank warn error = refl
ltb-rank warn fatal = refl
ltb-rank error debug = refl
ltb-rank error release = refl
ltb-rank error info = refl
ltb-rank error warn = refl
ltb-rank error error = refl
ltb-rank error fatal = refl
ltb-rank fatal debug = refl
ltb-rank fatal release = refl
ltb-rank fatal info = refl
ltb-rank fatal warn = refl
ltb-rank fatal error = refl
ltb-rank fatal fatal = refl

log_line-line_of :
    (level : LogLevel) (m : Message) (text : Bytes) → log_line level m text ≡ line_of level m text
unfolding log_line level_to_string
log_line-line_of debug m text = refl
log_line-line_of release m text = refl
log_line-line_of info m text = refl
log_line-line_of warn m text = refl
log_line-line_of error m text = refl
log_line-line_of fatal m text = refl

formatted-printing :
    (output : Bytes → Seen) (level : LogLevel) (m : Message) (t : Text)
    → formatted output level m t ≡ printing output level m t
unfolding formatted
formatted-printing output level m (ok (text, s)) = ap output (log_line-line_of level m text)
formatted-printing output level m (err e) = refl
formatted-printing output level m out_of_fuel = refl

pub log-logging :
    (output : Bytes → Seen) (min_level level : LogLevel) (m : Message)
    → log output min_level level m ≡ logging output min_level level m
unfolding log
log-logging output min_level level m = elim (Bool-cases (passes min_level level)) [
  | inl e ↦ rw (ltb-rank min_level level, e) (formatted-printing output level m m.text)
  | inr e ↦ rw (ltb-rank min_level level, e) refl
]
