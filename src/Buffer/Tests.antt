-- ===== src/Buffer/Tests.antt =====
-- Runs of the buffer of include/io/Buffer.hpp, and the theorems at concrete inputs.
use high_speed.Prelude.{
  ℕ, ◌+◌, ◌≤◌, ◌≡◌, refl, List, [], ◌∷◌, some, arith, take, length-take, codes, Bytes,
}
use high_speed.Buffer.{
  Buffer, init, retrieve, append, Outcome, failed, done, read_fd, write_fd, copy_to, grow, compact,
}
use high_speed.Buffer.Inv.{IsValid}
use high_speed.Buffer.Refine.{contents, Fits, append-Fits, retrieve_lem}
use high_speed.Buffer.Calls.{ReadvLaw, Received, read_fd_lem, Sent, write_fd_lem}
use high_speed.Buffer.Script.{
  run_queue, Call, appends, retrieves, reads, reads_all, run, init-IsValid, run_refines,
}

-- "hello" in a buffer with two bytes free behind it and three in front.
abbrev hello : Buffer
hello = record { buffer = codes "........xyzhello.."; read_index = 11; write_index = 16 }

hello-IsValid : IsValid hello
hello-IsValid = omega arith

-- Five bytes fit only after the move to the front, six make the storage grow.
append_moves :
    append (codes "12345") hello
    ≡ some (record { buffer = codes "........hello12345"; read_index = 8; write_index = 18 })
unfolding append compact copy_to
append_moves = refl

append_grows :
    append (codes "123456") hello
    ≡ some (record { buffer = codes "........xyzhello123456"; read_index = 11; write_index = 22 })
unfolding append grow copy_to
append_grows = refl

append-Fits_example : Fits hello 6 (codes "hello123456") (append (codes "123456") hello)
append-Fits_example = append-Fits (codes "123456") hello-IsValid (omega arith)

retrieve_lem_example :
    IsValid (retrieve 2 hello)
    × (contents (retrieve 2 hello) ≡ codes "llo")
    × ((retrieve 2 hello).write_index ≤ 16)
retrieve_lem_example = retrieve_lem 2 hello-IsValid

abbrev four_bytes : List ℕ → Outcome Bytes
four_bytes [] = failed 11
four_bytes (a ∷ []) = failed 11
four_bytes (a ∷ b ∷ more) = done (take (a + b) (codes "data"))

four_bytes-ReadvLaw : ReadvLaw four_bytes
four_bytes-ReadvLaw [] ds e = ground arith
four_bytes-ReadvLaw (a ∷ []) ds e = ground arith
four_bytes-ReadvLaw (a ∷ b ∷ more) ds e = ground (arith, length-take (a + b) (codes "data"))

read_fd_lem_example : Received hello (done (codes "data")) (read_fd four_bytes hello)
read_fd_lem_example = read_fd_lem four_bytes four_bytes-ReadvLaw hello-IsValid

write_fd_lem_example : Sent hello (done 3) (write_fd (λ bytes. done 3) hello)
write_fd_lem_example = write_fd_lem (λ bytes. done 3) hello-IsValid

abbrev history : List Call
history = appends (codes "abc") ∷ reads 4 ∷ appends (codes "de") ∷ retrieves 1 ∷ reads_all ∷ []

init-IsValid_example : IsValid (init 4) × (contents (init 4) ≡ [])
init-IsValid_example = init-IsValid 4 (omega arith)

run_refines_example : run hello history ≡ some (run_queue (codes "hello") history)
run_refines_example = run_refines history hello-IsValid (omega arith)
