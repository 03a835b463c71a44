-- ===== src/Log/History.antt =====
-- Histories of calls of the logger of include/log/Log.hpp against its settings alone.
use high_speed.Prelude.{
  ℕ, ◌≡◌, refl, sym, subst, ap, ◌∙◌, true, List, [], ◌∷◌, some, ◌==◌, ==→eq, if◌then◌else◌, inl,
  inr, Bool-cases, Bytes, bytes_eq, bytes_eq→eq, codes,
}
use high_speed.Log.{
  LogLevel, debug, release, info, warn, error, fatal, rank, Choice, to_stdout, to_file, nowhere,
  choice_eq, Message, Seen, on_stdout, on_file, silent, GlobalLogger, flush_for, flush, init,
  set_log_level, set_log_file, set_log_choice, write_for, write,
}
use high_speed.Log.Levels.{logging, log-logging}

pub data Call : Type 0 where
  sets_level : LogLevel → Call
  sets_file : Bytes → Call
  sets_choice : Choice → Call
  writes : LogLevel → Message → Call

-- What each logging call of a history does.
unfoldable pub run : GlobalLogger → List Call → List Seen
run g [] = []
run g (sets_level l ∷ cs) = run (set_log_level l g) cs
run g (sets_file p ∷ cs) = run (set_log_file p g) cs
run g (sets_choice c ∷ cs) = run (set_log_choice c g) cs
run g (writes l m ∷ cs) = write l m g ∷ run g cs

-- A logging call under these settings.
pub writing : Choice → Bytes → LogLevel → LogLevel → Message → Seen
writing to_stdout p min_level l m = logging on_stdout min_level l m
writing to_file p min_level l m = logging (on_file p) min_level l m
writing nowhere p min_level l m = silent

-- What each should do from the settings made last.
pub settled : Choice → Bytes → LogLevel → List Call → List Seen
settled c p min_level [] = []
settled c p min_level (sets_level l ∷ cs) = settled c p l cs
settled c p min_level (sets_file q ∷ cs) = settled c q min_level cs
settled c p min_level (sets_choice d ∷ cs) = settled d p min_level cs
settled c p min_level (writes l m ∷ cs) = writing c p min_level l m ∷ settled c p min_level cs

-- The level of a value.
level_of : ℕ → LogLevel
level_of n =
    if n == 0
    then debug
    else if n == 1
    then release
    else if n == 2
    then info
    else if n == 3
    then warn
    else if n == 4
    then error
    else fatal

level_of-rank : (l : LogLevel) → level_of (rank l) ≡ l
unfolding level_of rank
level_of-rank debug = refl
level_of-rank release = refl
level_of-rank info = refl
level_of-rank warn = refl
level_of-rank error = refl
level_of-rank fatal = refl

rank→eq : (a b : LogLevel) → rank a ≡ rank b → a ≡ b
rank→eq a b e = sym (level_of-rank a) ∙ (ap level_of e ∙ level_of-rank b)

choice_eq→eq : (a b : Choice) → choice_eq a b ≡ true → a ≡ b
unfolding choice_eq
choice_eq→eq to_stdout to_stdout e = refl
choice_eq→eq to_file to_file e = refl
choice_eq→eq nowhere nowhere e = refl
choice_eq→eq to_stdout to_file e = cc
choice_eq→eq to_stdout nowhere e = cc
choice_eq→eq to_file to_stdout e = cc
choice_eq→eq to_file nowhere e = cc
choice_eq→eq nowhere to_stdout e = cc
choice_eq→eq nowhere to_file e = cc

-- The logger that is chosen is there, with the settings that are made.
abbrev IsCurrent : Choice → GlobalLogger → Type 0
IsCurrent to_stdout g = g.g_logger ≡ some g.g_min_level
IsCurrent to_file g = g.g_file_logger ≡ some (g.g_min_level, g.g_file_path)
IsCurrent nowhere g = Unit

abbrev Holds : Choice → Bytes → LogLevel → GlobalLogger → Type 0
Holds c p l g = (g.g_choice ≡ c) × (g.g_file_path ≡ p) × (g.g_min_level ≡ l) × IsCurrent c g

flush_for-Holds :
    (c : Choice) (g : GlobalLogger) {p : Bytes} {l : LogLevel}
    → g.g_choice ≡ c
    → g.g_file_path ≡ p
    → g.g_min_level ≡ l
    → Holds c p l (flush_for c g)
unfolding flush_for
flush_for-Holds to_stdout g e h k = (e, h, k, refl)
flush_for-Holds to_file g e h k = (e, h, k, refl)
flush_for-Holds nowhere g e h k = (e, h, k, tt)

flush-Holds :
    {c : Choice} (g : GlobalLogger) {p : Bytes} {l : LogLevel}
    → g.g_choice ≡ c
    → g.g_file_path ≡ p
    → g.g_min_level ≡ l
    → Holds c p l (flush g)
unfolding flush
flush-Holds {c} g {p} {l} e h k =
    subst (λ d. Holds c p l (flush_for d g)) (sym e) (flush_for-Holds c g e h k)

set_log_level-Holds :
    {c : Choice} {p : Bytes} {l : LogLevel} (m : LogLevel) (g : GlobalLogger)
    → Holds c p l g
    → Holds c p m (set_log_level m g)
unfolding set_log_level
set_log_level-Holds m g (e, h, k, now) = elim (Bool-cases (rank g.g_min_level == rank m)) [
  | inl same ↦
      rw same (e, h, rank→eq g.g_min_level m (==→eq (rank g.g_min_level) (rank m) same), now)
  | inr other ↦ rw other (flush-Holds (record g { g_min_level = m }) e h refl)
]

set_log_file-Holds :
    {c : Choice} {p : Bytes} {l : LogLevel} (q : Bytes) (g : GlobalLogger)
    → Holds c p l g
    → Holds c q l (set_log_file q g)
unfolding set_log_file
set_log_file-Holds q g (e, h, k, now) = elim (Bool-cases (bytes_eq g.g_file_path q)) [
  | inl same ↦ rw same (e, bytes_eq→eq g.g_file_path q same, k, now)
  | inr other ↦ rw other (flush-Holds (record g { g_file_path = q }) e refl k)
]

set_log_choice-Holds :
    {c : Choice} {p : Bytes} {l : LogLevel} (d : Choice) (g : GlobalLogger)
    → Holds c p l g
    → Holds d p l (set_log_choice d g)
unfolding set_log_choice
set_log_choice-Holds {c} d g (e, h, k, now) = elim (Bool-cases (choice_eq g.g_choice d)) [
  | inl same ↦
      let old : c ≡ d = sym e ∙ choice_eq→eq g.g_choice d same in
      rw same (e ∙ old, h, k, subst (λ x. IsCurrent x g) old now)
  | inr other ↦ rw other (flush-Holds (record g { g_choice = d }) refl h k)
]

write_for-Holds :
    (c : Choice) {p : Bytes} {min_level : LogLevel} (l : LogLevel) (m : Message) (g : GlobalLogger)
    → Holds c p min_level g
    → write_for c l m g ≡ writing c p min_level l m
unfolding write_for writing
write_for-Holds to_stdout {min_level} l m g (e, h, k, now) =
    rw (write_for, now, k) (log-logging on_stdout min_level l m)
write_for-Holds to_file {p} {min_level} l m g (e, h, k, now) =
    rw (write_for, now, k, h) (log-logging (on_file p) min_level l m)
write_for-Holds nowhere l m g (e, h, k, now) = refl

write-Holds :
    {c : Choice} {p : Bytes} {min_level : LogLevel} (l : LogLevel) (m : Message) (g : GlobalLogger)
    → Holds c p min_level g
    → write l m g ≡ writing c p min_level l m
unfolding write
write-Holds {c} {p} {min_level} l m g (e, h, k, now) =
    subst (λ d. write_for d l m g ≡ writing c p min_level l m) (sym e)
      (write_for-Holds c l m g (e, h, k, now))

run-Holds :
    (cs : List Call) {c : Choice} {p : Bytes} {l : LogLevel} (g : GlobalLogger)
    → Holds c p l g
    → run g cs ≡ settled c p l cs
unfolding run settled
run-Holds [] g holds = refl
run-Holds (sets_level l ∷ cs) g holds =
    run-Holds cs (set_log_level l g) (set_log_level-Holds l g holds)
run-Holds (sets_file q ∷ cs) g holds =
    run-Holds cs (set_log_file q g) (set_log_file-Holds q g holds)
run-Holds (sets_choice d ∷ cs) g holds =
    run-Holds cs (set_log_choice d g) (set_log_choice-Holds d g holds)
run-Holds (writes l m ∷ cs) {c} {p} {l = l'} g holds =
    ap (λ x. x ∷ run g cs) (write-Holds l m g holds)
    ∙ ap (λ xs. writing c p l' l m ∷ xs) (run-Holds cs g holds)

-- From the start on, in any order of calls, each logging call follows the level, the file and the
-- choice that were set last: it writes its line to the chosen stream if its level is not below the
-- minimum and its text formats, throws if it does not, and never follows a null pointer.
pub run-settled : (cs : List Call) → run init cs ≡ settled to_stdout (codes "./log.txt") debug cs
unfolding init
run-settled cs = run-Holds cs init (refl, refl, refl, refl)
