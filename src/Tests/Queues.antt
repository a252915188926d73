-- ===== src/Tests/Queues.antt =====
-- The lists of list.c at concrete addresses.
use leeos.Base.{◌≡◌, refl, List, [], ◌∷◌, ◌==◌, if◌then◌else◌, arith, some}
use leeos.Interrupt.{intr_on}
use leeos.Lists.{Links}
use leeos.Lists.Refine.{IsList, contains}
use leeos.Lists.Deque.{Op, push, append, remove, pop, run, steps, step, erase, run-IsList}

-- A list at 1000 with the elements 100 and 200.
abbrev two_links : Links
two_links = record {
  next = λ a. if a == 1000 then 100 else if a == 100 then 200 else if a == 200 then 1008 else 0;
  prev = λ a. if a == 1008 then 200 else if a == 200 then 100 else if a == 100 then 1000 else 0;
  intr = intr_on;
}

two_links-IsList : IsList two_links 1000 (100 ∷ 200 ∷ [])
two_links-IsList = record { chain = ground arith; distinct = ground arith }

abbrev calls : List Op
calls = append 300 ∷ remove 200 ∷ push 400 ∷ pop ∷ []

calls-steps : steps 1000 calls (100 ∷ 200 ∷ []) ≡ some (100 ∷ 300 ∷ [])
unfolding steps step contains erase
calls-steps = refl

run-IsList_example : IsList (run 1000 calls two_links) 1000 (100 ∷ 300 ∷ [])
run-IsList_example =
    run-IsList 1000 calls two_links (100 ∷ 200 ∷ []) (100 ∷ 300 ∷ []) two_links-IsList calls-steps
