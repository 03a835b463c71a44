-- ===== src/Buffer/Script.antt =====
-- Whole histories of a buffer of include/io/Buffer.hpp against a plain byte queue.
use mathlib.Core.Option
use high_speed.Prelude.{
  ℕ, ◌+◌, ◌≤◌, ◌≡◌, refl, inl, inr, List, [], ◌∷◌, ◌++◌, Option, none, some, arith, length, take,
  drop, length-replicate, Bytes,
}
use high_speed.Buffer.{
  Buffer, cheap_prepend, max_size, init, readable_bytes, retrieve, retrieve_as_string,
  retrieve_all_as_string, append,
}
use high_speed.Buffer.Copy.{take_all, drop_all}
use high_speed.Buffer.Inv.{IsValid}
use high_speed.Buffer.Refine.{contents, length-contents, append-Fits, retrieve_lem}
use high_speed.Buffer.Calls.{retrieve_as_string_lem}

-- A client's calls.
pub data Call : Type 0 where
  appends : Bytes → Call
  retrieves reads : ℕ → Call
  reads_all : Call

-- What the client sees: the strings that come back, in order; `none` if an `append` throws.
pub run : Buffer → List Call → Option (List Bytes)
run b [] = some []
run b (appends ds ∷ cs) = elim (append ds b) [ none ↦ none | some b' ↦ run b' cs ]
run b (retrieves n ∷ cs) = run (retrieve n b) cs
run b (reads n ∷ cs) =
    let (out, b') = retrieve_as_string n b in Option.map (λ outs. out ∷ outs) (run b' cs)
run b (reads_all ∷ cs) =
    let (out, b') = retrieve_all_as_string b in Option.map (λ outs. out ∷ outs) (run b' cs)

-- The same on a queue of bytes, which has no bound.
pub run_queue : Bytes → List Call → List Bytes
run_queue q [] = []
run_queue q (appends ds ∷ cs) = run_queue (q ++ ds) cs
run_queue q (retrieves n ∷ cs) = run_queue (drop n q) cs
run_queue q (reads n ∷ cs) = take n q ∷ run_queue (drop n q) cs
run_queue q (reads_all ∷ cs) = q ∷ run_queue [] cs

-- All bytes that a history appends.
abbrev pub appended : List Call → ℕ
appended [] = 0
appended (appends ds ∷ cs) = length ds + appended cs
appended (_ ∷ cs) = appended cs

pub init-IsValid :
    (n : ℕ) → n + cheap_prepend ≤ max_size → IsValid (init n) × (contents (init n) ≡ [])
unfolding init
init-IsValid n h = (omega (arith, length-replicate (cheap_prepend + n) (let z : ℕ = 0 in z)), refl)

-- From a valid buffer, a history whose appended bytes fit behind the write index never throws, and
-- returns what the byte queue returns, whatever the order of the calls.
pub run_refines :
    (cs : List Call) {b : Buffer}
    → IsValid b
    → b.write_index + appended cs ≤ max_size
    → run b cs ≡ some (run_queue (contents b) cs)
unfolding run run_queue retrieve_all_as_string
run_refines [] v h = refl
run_refines (appends ds ∷ cs) {b} v h = elim (append-Fits ds v (omega arith)) [
  | inl (e, long) ↦ absurd (omega arith)
  | inr (b', e, v', c, w) ↦ rw (e, run, ← c) (run_refines cs v' (omega arith))
]
run_refines (retrieves n ∷ cs) v h =
    let (v', c, w) = retrieve_lem n v in rw (← c) (run_refines cs v' (omega arith))
run_refines (reads n ∷ cs) {b} v h =
    let (out, v', c, w) = retrieve_as_string_lem n v in rw (run_refines cs v' (omega arith), out, c)
run_refines (reads_all ∷ cs) {b} v h =
    let (out, v', c, w) = retrieve_as_string_lem (readable_bytes b) v in
    let whole : length (contents b) ≤ readable_bytes b = omega (arith, length-contents v) in
    rw (
      run_refines cs v' (omega arith),
      out,
      c,
      take_all (readable_bytes b) (contents b) whole,
      drop_all (readable_bytes b) (contents b) whole,
    )
