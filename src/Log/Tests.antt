-- ===== src/Log/Tests.antt =====
-- A run of the logger of include/log/Log.hpp.
use high_speed.Prelude.{◌≡◌, refl, List, [], ◌∷◌, codes, bytes_eq}
use high_speed.Format.{ok}
use high_speed.Log.{
  debug, info, error, rank, level_to_string, to_stdout, to_file, choice_eq, Message, Seen, on_file,
  silent, log_line, formatted, log, flush_for, flush, init, set_log_level, set_log_file,
  set_log_choice, write_for, write,
}
use high_speed.Log.History.{
  Call, sets_level, sets_file, sets_choice, writes, run, settled, run-settled,
}

abbrev hello : Message
hello = record {
  time = codes "now";
  file = codes "a.cpp";
  line = codes "7";
  text = ok (codes "hi", tt);
}

-- ENABLE_LOG_FILE, then a higher level.
abbrev calls : List Call
calls =
    sets_file (codes "x")
    ∷ sets_choice to_file
    ∷ sets_level info
    ∷ writes debug hello
    ∷ writes error hello
    ∷ []

abbrev lines : List Seen
lines = silent ∷ on_file (codes "x") (codes "[ERROR][now][a.cpp][7] : hi\n") ∷ []

sample_lines : run init calls ≡ lines
unfolding run init set_log_level set_log_file set_log_choice bytes_eq choice_eq rank flush flush_for
    write write_for log formatted log_line level_to_string
sample_lines = refl

run-settled_example : run init calls ≡ settled to_stdout (codes "./log.txt") debug calls
run-settled_example = run-settled calls
