-- ===== src/Tests/Databases.antt =====
-- Runs of the theorems on the database layer.
use mmo_wow.Prelude.{
  ℕ, zero, suc, arith, ◌+◌, ◌≡◌, ◌≤◌, ◌<◌, ◌⊎◌, refl, true, false, List, [], ◌∷◌, ◌++◌, some,
}
use mmo_wow.Workers.{
  World, start, empty_queue, spawned, checking, popped, exited, turn, wait_and_pop, size, push,
  cancel, executed_by, lost_by, tally, delete_all,
}
use mmo_wow.Query.{
  Action, next_string, add_string, act, QueryCallback, string, string_query, string_data,
  with_chaining_callback, invoke_if_ready, active_member,
}
use mmo_wow.Query.Typed.{Only, is_prepared_member, AllTyped, IsFor}
use mmo_wow.Query.Acts.{adds, adds_of}
use mmo_wow.Query.Chain.{Waiting, Called}
use mmo_wow.Query.Polls.{
  Life, with_string, acted, is_asserted, Life-typed, poll-Called, drive, chain-ends,
}
use mmo_wow.Workers.Steps.{
  worker, worked, pushed, cancelled, spawn, push_quiet, push_waking, work, mark, close, here, next,
  sleepers, seekers, sleeping, Later,
}
use mmo_wow.Workers.Wakeup.{Reach-Ready}
use mmo_wow.Workers.Served.{served-in_order}
use mmo_wow.Workers.Once.{taken-once, count, hands, marked}
use mmo_wow.Workers.Closing.{join-returns, turns}

-- One worker goes to sleep, operation 7 wakes it, operation 8 finds no one asleep, and the worker
-- takes 7 out.
abbrev one_worker : World
one_worker = record start { workers = start.workers ++ (spawned ∷ []) }

abbrev one_asleep : World
one_asleep = worked one_worker [] checking false []

abbrev woken : World
woken = pushed one_asleep 7 (worker checking false ∷ [])

abbrev two_given : World
two_given = pushed woken 8 woken.workers

abbrev seven_out : World
seven_out = worked two_given [] checking false []

-- Its connection is destroyed: 8 is deleted, and 7 is about to be lost.
abbrev doomed : World
doomed = record seven_out { workers = [] ++ (worker (popped (some 7)) true ∷ []) }

abbrev shut : World
shut = cancelled doomed

abbrev all_lost : World
all_lost = worked shut [] (popped (some 7)) true []

seven_out-Reach : Later start seven_out
unfolding start spawned turn wait_and_pop empty_queue sleeping tally
seven_out-Reach =
    next
      (next
        (next (next (next here spawn) (work [] checking false [] refl))
          (push_waking 7 [] false [] refl))
        (push_quiet 8 refl))
      (work [] checking false [] refl)

shut-Reach : Later start shut
unfolding start spawned turn wait_and_pop empty_queue push
shut-Reach =
    next (next seven_out-Reach (mark [] (popped (some 7)) false [] refl))
      (close [] (popped (some 7)) [] refl)

Reach-Ready_example :
    ((sleepers two_given.workers ≡ 0) ⊎ (size two_given.queue ≤ seekers two_given.workers))
    × ((two_given.queue.shutdown ≡ false) ⊎ (sleepers two_given.workers ≡ 0))
unfolding start spawned turn wait_and_pop empty_queue sleeping tally
Reach-Ready_example = Reach-Ready {w = two_given} (
    next
      (next (next (next here spawn) (work [] checking false [] refl))
        (push_waking 7 [] false [] refl))
      (push_quiet 8 refl))

served-in_order_example :
    (shut.given ≡ shut.taken ++ (shut.deleted ++ shut.queue.items))
    × ((shut.queue.shutdown ≡ true) ⊎ (shut.deleted ≡ []))
served-in_order_example = served-in_order shut-Reach

all_lost-Later : Later shut all_lost
unfolding start spawned turn wait_and_pop empty_queue push
all_lost-Later = next here (work [] (popped (some 7)) true [] refl)

all_lost-Reach : Later start all_lost
unfolding start spawned turn wait_and_pop empty_queue push
all_lost-Reach = next shut-Reach (work [] (popped (some 7)) true [] refl)

taken-once_example :
    ((v : ℕ)
      → count v all_lost.taken
        ≡ (count v all_lost.executed + count v all_lost.lost) + hands v all_lost.workers)
    × ((0 < marked all_lost.workers) ⊎ (all_lost.lost ≡ []))
taken-once_example = taken-once all_lost-Reach

-- the operation that `~DatabaseWorker` meets between `WaitAndPop` and the test of the token
seven_lost : (all_lost.lost ≡ 7 ∷ []) × (all_lost.executed ≡ []) × (all_lost.deleted ≡ 8 ∷ [])
unfolding start spawned turn wait_and_pop empty_queue push cancel delete_all executed_by lost_by
seven_lost = (refl, refl, refl)

join-returns_example : turns 4 true (popped (some 7)) shut.queue ≡ (exited, shut.queue)
unfolding cancel
join-returns_example = join-returns [] (popped (some 7)) true [] shut-Reach refl refl

-- Function 1 follows its result with another query, and no other function does.
abbrev follow : ℕ → ℕ → List Action
follow zero result = []
follow (suc zero) result = next_string (record { is_ready = false; result = 6 }) ∷ []
follow (suc (suc cb)) result = []

abbrev chained : QueryCallback
chained = record {
  member = string (some (record { is_ready = true; result = 5 }));
  is_prepared = false;
  callbacks = string_data 1 ∷ string_data 2 ∷ [];
}

chained-Life : Life follow chained
unfolding act with_chaining_callback string_query
chained-Life =
    acted (add_string 2)
      (acted (add_string 1) (with_string (record { is_ready = true; result = 5 })) refl) refl

chained-Waiting : Waiting chained
unfolding is_prepared_member AllTyped IsFor string_data active_member
chained-Waiting = record {
  typed = record { alive = refl; each = (refl, (refl, tt)); first = refl };
  future = record { is_ready = true; result = 5 };
  valid = refl;
  front = string_data 1;
  rest = string_data 2 ∷ [];
  chain = refl;
}

Life-typed_example :
    (is_prepared_member chained.member ≡ chained.is_prepared)
    × AllTyped chained.callbacks
    × (is_asserted (invoke_if_ready follow chained) ≡ true)
Life-typed_example = Life-typed follow (string_data 1) (string_data 2 ∷ []) chained-Life refl

poll-Called_example :
    Only (Called follow 5 (string_data 1) (string_data 2 ∷ [])) (invoke_if_ready follow chained)
unfolding chained-Waiting
poll-Called_example = poll-Called follow chained chained-Waiting refl

follow-adds : (cb result : ℕ) → adds_of (follow cb result) ≡ 0
unfolding adds_of adds
follow-adds zero result = refl
follow-adds (suc zero) result = refl
follow-adds (suc (suc cb)) result = refl

chain-ends_example : Only (λ x. x.0 ≡ true) (drive follow 2 chained)
chain-ends_example = chain-ends follow 2 chained chained-Waiting follow-adds (omega arith)
