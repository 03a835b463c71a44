-- ===== src/Log.antt =====
-- The logger of include/log/Log.hpp. What the streams hold is the list of what was written; the time,
-- the place and the message come as texts, the message from the formatter, which may throw.
pub mod Levels
pub mod History
pub mod Factory
mod Tests
use high_speed.Prelude.{
  ℕ, Bool, true, false, ◌&&◌, List, [], ◌∷◌, ◌++◌, Option, none, some, ltb, ◌==◌, if◌then◌else◌,
  codes, Bytes, bytes_eq,
}
use high_speed.Format.{Error, Result, ok, err, out_of_fuel}

pub data LogLevel : Type 0 where
  debug release info warn error fatal : LogLevel

-- The enumerators' values, for `<` and `==`.
unfoldable pub rank : LogLevel → ℕ
rank debug = 0
rank release = 1
rank info = 2
rank warn = 3
rank error = 4
rank fatal = 5

unfoldable pub level_to_string : LogLevel → Bytes
level_to_string debug = codes "DEBUG"
level_to_string release = codes "RELEASE"
level_to_string info = codes "INFO"
level_to_string warn = codes "WARN"
level_to_string error = codes "ERROR"
level_to_string fatal = codes "FATAL"

pub data Choice : Type 0 where
  to_stdout to_file nowhere : Choice

unfoldable pub choice_eq : Choice → Choice → Bool
choice_eq to_stdout to_stdout = true
choice_eq to_file to_file = true
choice_eq nowhere nowhere = true
choice_eq _ _ = false

-- What `format` gives.
abbrev pub Text : Type 0
Text = Result (Bytes × Unit {0})

-- The arguments of a call of `log` behind the level.
pub record Message : Type 0 where
  pub time : Bytes
  pub file : Bytes
  pub line : Bytes
  pub text : Text

-- What a call does: a text on the stream of the target, nothing, an exception of the formatter, or a
-- null pointer followed.
pub data Seen : Type 0 where
  on_stdout : Bytes → Seen
  on_file : (path : Bytes) → Bytes → Seen
  silent : Seen
  threw : Error → Seen
  undefined : Seen

unfoldable pub log_line : LogLevel → Message → Bytes → Bytes
log_line level m text =
    codes "["
    ++ (level_to_string level
        ++ (codes "]["
            ++ (m.time
                ++ (codes "]["
                    ++ (m.file
                        ++ (codes "][" ++ (m.line ++ (codes "] : " ++ (text ++ codes "\n")))))))))

-- The formatter's result goes to `output`, unless it throws.
unfoldable pub formatted : (Bytes → Seen) → LogLevel → Message → Text → Seen
formatted output level m (ok (text, s)) = output (log_line level m text)
formatted output level m (err e) = threw e
formatted output level m out_of_fuel = undefined

-- `Logger::log`.
unfoldable pub log : (Bytes → Seen) → (min_level : LogLevel) → LogLevel → Message → Seen
log output min_level level m =
    if ltb (rank level) (rank min_level) then silent else formatted output level m m.text

-- `g_logger` is the level of the `StdoutLogger`, `g_file_logger` level and path of the `FileLogger`.
pub record GlobalLogger : Type 0 where
  pub g_logger : Option LogLevel
  pub g_file_logger : Option (LogLevel × Bytes)
  pub g_choice : Choice
  pub g_file_path : Bytes
  pub g_min_level : LogLevel

unfoldable pub flush_for : Choice → GlobalLogger → GlobalLogger
flush_for to_stdout g = record g { g_logger = some g.g_min_level }
flush_for to_file g = record g { g_file_logger = some (g.g_min_level, g.g_file_path) }
flush_for nowhere g = g

unfoldable pub flush : GlobalLogger → GlobalLogger
flush g = flush_for g.g_choice g

-- The default member initialisers; `g_choice` is STDOUT there, so the constructor makes that logger.
unfoldable pub init : GlobalLogger
init = record {
  g_logger = some debug;
  g_file_logger = none;
  g_choice = to_stdout;
  g_file_path = codes "./log.txt";
  g_min_level = debug;
}

unfoldable pub set_log_level : LogLevel → GlobalLogger → GlobalLogger
set_log_level level g =
    if rank g.g_min_level == rank level then g else flush (record g { g_min_level = level })

-- Also `setFilePath`, which is the same code.
unfoldable pub set_log_file : Bytes → GlobalLogger → GlobalLogger
set_log_file path g =
    if bytes_eq g.g_file_path path then g else flush (record g { g_file_path = path })

unfoldable pub set_log_choice : Choice → GlobalLogger → GlobalLogger
set_log_choice choice g =
    if choice_eq g.g_choice choice then g else flush (record g { g_choice = choice })

-- The six methods `debug` to `fatal`, which differ in the level alone.
unfoldable pub write_for : Choice → LogLevel → Message → GlobalLogger → Seen
write_for to_stdout level m g = elim g.g_logger [
  | none ↦ undefined
  | some min_level ↦ log on_stdout min_level level m
]
write_for to_file level m g = elim g.g_file_logger [
  | none ↦ undefined
  | some (min_level, path) ↦ log (on_file path) min_level level m
]
write_for nowhere level m g = silent

unfoldable pub write : LogLevel → Message → GlobalLogger → Seen
write level m g = write_for g.g_choice level m g
