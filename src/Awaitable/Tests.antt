-- ===== src/Awaitable/Tests.antt =====
-- Coroutines of include/coro/Awaitable.hpp, run, and the theorem at them.
use high_speed.Prelude.{
  ℕ, List, ltb, total, is_one, owns, flag, ◌+◌, ◌≡◌, refl, true, false, [], ◌∷◌,
}
use high_speed.Awaitable.{
  Result, ok, thrown, Body, returns, throws, awaits, frame_of, put_frame, destroy, call,
  await_transform, await_suspend, await_resume, finish, run_point, resume, turn_from, turn, turns,
  co_spawn,
}
use high_speed.Awaitable.Direct.{idle, ended_frame, co_spawn-direct}
use high_speed.Handles.{
  no_handles, make, destroys, move_out, move, end_of, destruct, release_from, release,
}
use high_speed.Awaitable.Owners.{
  Use, calls, moves, destructs, awaits, spawns, transform, use_once, use_all, frame_has_one_owner,
}

-- `catch` returns the exception's number.
abbrev caught : Result ℕ ℕ → Body ℕ ℕ
caught (ok v) = throws v
caught (thrown e) = returns (e + 1)

abbrev plus_one : Result ℕ ℕ → Body ℕ ℕ
plus_one (ok v) = returns (v + 1)
plus_one (thrown e) = throws e

-- A coroutine that throws is awaited by one that does not catch, and that by one that does.
abbrev nested : Body ℕ ℕ
nested = awaits (awaits (throws 6) plus_one) caught

nested_run : turns 0 12 (co_spawn nested (idle [] 0)) ≡ idle ((0, ended_frame (ok 7)) ∷ []) 3
unfolding turns turn turn_from resume frame_of put_frame destroy run_point finish await_resume
    await_suspend await_transform call co_spawn
nested_run = refl

-- Without an executor the assertion of `await_suspend` fails.
no_executor : (await_suspend 0 1 (await_transform false (call nested)) (idle [] 2)).failed ≡ true
unfolding await_suspend await_transform call
no_executor = refl

co_spawn-direct_example :
    (n : ℕ) × (next' : ℕ) × (turns 0 n (co_spawn nested (idle [] 0))
      ≡ idle ((0, ended_frame (ok 7)) ∷ []) next')
co_spawn-direct_example = co_spawn-direct 0 nested [] 0

-- A coroutine is spawned, another one awaited, whose awaitable ends behind the `co_await`.
abbrev spawned_and_awaited : List Use
spawned_and_awaited = calls ∷ calls ∷ spawns 0 ∷ moves 1 ∷ awaits 2 ∷ destructs 3 ∷ destructs 0 ∷ []

spawned_and_awaited_lem :
    let s = use_all spawned_and_awaited no_handles in (s.released ≡ 0 ∷ []) × (s.destroyed ≡ 1 ∷ [])
unfolding use_all use_once transform make move move_out destruct end_of destroys release
    release_from
spawned_and_awaited_lem = (refl, refl)

frame_has_one_owner_example :
    let s = use_all spawned_and_awaited no_handles in
    total (is_one 1) s.destroyed + total (is_one 1) s.released + total (owns 1) s.variables
    ≡ flag (ltb 1 s.made)
frame_has_one_owner_example = frame_has_one_owner spawned_and_awaited 1
