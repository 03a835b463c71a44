-- ===== src/Pool/Threads.antt =====
-- Every block of include/alloc/MemoryPool.hpp is in one place, whatever the threads do.
use high_speed.Prelude.{
  ℕ, zero, suc, ◌+◌, ◌*◌, ◌≤◌, ◌<◌, ◌≡◌, refl, ap, ◌∙◌, subst, false, List, [], ◌∷◌, ◌++◌, some,
  ◌==◌, if◌then◌else◌, arith,
}
use high_speed.Pool.{Cache, Pool, init, allocate, deallocate}
use high_speed.Pool.Process.{
  Process, AllApart, AllNew, no_more, a_pool, Step, allocates, frees, begins, ends, Reachable,
  starts, steps,
}
use high_speed.Pool.Counts.{
  copies, copies-append, chunk_copies, Moves, MovesOut, allocate-Moves, deallocate-Moves,
}
use high_speed.Pool.Blocks.{ChunksOf, allocate-ChunksOf}
use high_speed.Pool.Totals.{
  cached, cached-split, cached-append, cached-replicate, total, total-split, in_chunks, free_copies,
  AllPositive, none_left, positive, AllPositive-changed, chunks-distinct,
}

-- Every block of the chunks stands in one place, and the blocks of the chunks are distinct.
abbrev Conserves : Process → Type 0
Conserves s =
    AllPositive s.pools
    × (total (in_chunks 0) s.pools ≡ 0)
    × ((a : ℕ) → total (in_chunks a) s.pools ≤ 1)
    × ((a : ℕ)
        → copies a s.held + cached a s.caches + total (free_copies a) s.pools + copies a s.lost
          ≡ total (in_chunks a) s.pools)

allocates-Conserves :
    (s : Process) (before after : List Cache) (local local' : Cache) (lower upper : List Pool)
    (p q : Pool) (chunk b : ℕ)
    → Conserves s
    → s.caches ≡ before ++ local ∷ after
    → s.pools ≡ lower ++ p ∷ upper
    → 0 < chunk
    → AllApart (p.blocks_per_chunk * p.block_size) chunk s.pools
    → allocate chunk p local ≡ some (b, local', q)
    → Conserves (record {
      caches = before ++ local' ∷ after;
      pools = lower ++ q ∷ upper;
      held = b ∷ s.held;
      lost = s.lost;
    })
allocates-Conserves s before after local local' lower upper p q chunk b (ps, null, le, all) c k h
      apart e =
    let (bs, n, l, m) = subst (MovesOut p local) e (allocate-Moves chunk p local) in
    let grown = subst (ChunksOf chunk p) e (allocate-ChunksOf chunk p local) in
    let ps' : AllPositive (lower ++ p ∷ upper) = subst AllPositive k ps in
    let apart' = subst (AllApart (p.blocks_per_chunk * p.block_size) chunk) k apart in
    let distinct : (a : ℕ)
        → (total (in_chunks a) (lower ++ q ∷ upper) ≤ 1)
          × (total (in_chunks 0) (lower ++ p ∷ upper) ≡ 0
              → total (in_chunks 0) (lower ++ q ∷ upper) ≡ 0) =
      (λ a.
        chunks-distinct a chunk lower upper p q ps' h apart'
          (subst (λ xs. total (in_chunks a) xs ≤ 1) k (le a)) (bs, n) grown) in
    (
      AllPositive-changed lower upper p q bs ps',
      (distinct 0).1 (subst (λ xs. total (in_chunks 0) xs ≡ 0) k null),
      λ a. (distinct a).0,
      λ a.
          let old : cached a s.caches ≡ cached a before + copies a local + cached a after =
            rw c (cached-split a before after local) in
          let pools : (f : Pool → ℕ) → total f s.pools ≡ total f lower + f p + total f upper =
            (λ f. rw k (total-split f lower upper p)) in
          let sized : in_chunks a q ≡ chunk_copies a p.block_size p.blocks_per_chunk q.chunks =
            rw (bs, n) refl in
          omega (
            arith,
            cached-split a before after local',
            old,
            pools (free_copies a),
            pools (in_chunks a),
            total-split (free_copies a) lower upper q,
            total-split (in_chunks a) lower upper q,
            sized,
            m a,
            all a,
          ),
    )

held-nonzero :
    (b : ℕ) (held first last : List ℕ)
    → copies 0 held ≡ copies 0 first + copies 0 (b ∷ last)
    → copies 0 held ≡ 0
    → (b == 0) ≡ false
held-nonzero zero held first last e none_held = absurd (omega arith)
held-nonzero (suc b) held first last e none_held = ground arith

frees-Conserves :
    (s : Process) (before after : List Cache) (local local' : Cache) (lower upper : List Pool)
    (p q : Pool) (first last : List ℕ) (b : ℕ)
    → Conserves s
    → s.caches ≡ before ++ local ∷ after
    → s.pools ≡ lower ++ p ∷ upper
    → s.held ≡ first ++ b ∷ last
    → deallocate b p local ≡ (local', q)
    → Conserves (record {
      caches = before ++ local' ∷ after;
      pools = lower ++ q ∷ upper;
      held = first ++ last;
      lost = s.lost;
    })
frees-Conserves s before after local local' lower upper p q first last b (ps, null, le, all) c k e
      r =
    let (same, moves) =
      subst
        (λ (r : Cache × Pool).
          (r.1.chunks ≡ p.chunks) × Moves p (if b == 0 then local else b ∷ local) [] r.1 r.0)
        r (deallocate-Moves b p local) in
    let (bs, n, l, m) = moves in
    let held : (a : ℕ) → copies a s.held ≡ copies a first + copies a (b ∷ last) =
      (λ a. rw e (copies-append a first (b ∷ last))) in
    let block : (b == 0) ≡ false =
      held-nonzero b s.held first last (held 0) (omega (arith, all 0, null)) in
    let live : (if b == 0 then local else b ∷ local) ≡ b ∷ local = rw block refl in
    let pools : (f : Pool → ℕ) → total f s.pools ≡ total f lower + f p + total f upper =
      (λ f. rw k (total-split f lower upper p)) in
    let chunks : (a : ℕ) → in_chunks a q ≡ in_chunks a p = (λ a. rw (bs, n, same) refl) in
    let kept : (a : ℕ) → total (in_chunks a) (lower ++ q ∷ upper) ≡ total (in_chunks a) s.pools =
      (λ a.
        omega (arith, chunks a, pools (in_chunks a), total-split (in_chunks a) lower upper q)) in
    let moved : (a : ℕ)
        → copies a local' + copies a q.free_list ≡ copies a (b ∷ local) + copies a p.free_list =
      (λ a. omega (
        arith,
        m a,
        ap (copies a) live,
        ap (chunk_copies a p.block_size p.blocks_per_chunk) same,
      )) in
    (
      AllPositive-changed lower upper p q bs (subst AllPositive k ps),
      kept 0 ∙ null,
      λ a. omega (arith, kept a, le a),
      λ a.
          let old : cached a s.caches ≡ cached a before + copies a local + cached a after =
            rw c (cached-split a before after local) in
          omega (
            arith,
            cached-split a before after local',
            copies-append a first last,
            old,
            held a,
            moved a,
            pools (free_copies a),
            total-split (free_copies a) lower upper q,
            kept a,
            all a,
          ),
    )

Step-Conserves : {s t : Process} → Conserves s → Step s t → Conserves t
Step-Conserves {s} h (allocates before after local local' lower upper p q chunk b c k pos apart e) =
    allocates-Conserves s before after local local' lower upper p q chunk b h c k pos apart e
Step-Conserves {s} h (frees before after local local' lower upper p q first last b c k e r) =
    frees-Conserves s before after local local' lower upper p q first last b h c k e r
Step-Conserves {s} (ps, null, le, all) begins = (ps, null, le, λ a. omega (arith, all a))
Step-Conserves {s} (ps, null, le, all) (ends before after local c) = (
  ps,
  null,
  le,
  λ a. omega (
    arith,
    all a,
    ap (cached a) c,
    cached-split a before after local,
    cached-append a before after,
    copies-append a local s.lost,
  ),
)

-- New pools have no blocks.
AllNew-empty :
    {pools : List Pool}
    → AllNew pools
    → AllPositive pools
      × ((a : ℕ) → (total (in_chunks a) pools ≡ 0) × (total (free_copies a) pools ≡ 0))
unfolding init
AllNew-empty no_more = (none_left, λ a. (refl, refl))
AllNew-empty (a_pool size n limit ok bytes new) =
    let (ps, empty) = AllNew-empty new in
    (positive (omega arith) ps, λ a. (omega (arith, (empty a).0), omega (arith, (empty a).1)))

Reachable-Conserves : {s : Process} → Reachable s → Conserves s
Reachable-Conserves (starts threads new) =
    let (ps, empty) = AllNew-empty new in
    (
      ps,
      (empty 0).0,
      λ a. omega (arith, (empty a).0),
      λ a. omega (arith, (empty a).0, (empty a).1, cached-replicate a threads),
    )
Reachable-Conserves (steps r step) = Step-Conserves (Reachable-Conserves r) step

-- With any pools, each with an aligned block size of at least a pointer's and chunks whose bytes are a
-- `size_t`, that share the caches of the threads: in every reachable state each block of the chunks is
-- held, in a cache, free in some pool, or lost with the cache of a thread that has ended, in exactly one
-- of these and only once; and nothing else is held, cached, free or lost.
pub Reachable-held :
    {s : Process}
    → Reachable s
    → (a : ℕ)
    → (total (in_chunks a) s.pools ≤ 1)
      × (copies a s.held + cached a s.caches + total (free_copies a) s.pools + copies a s.lost
          ≡ total (in_chunks a) s.pools)
Reachable-held r a = let (ps, null, le, all) = Reachable-Conserves r in (le a, all a)
