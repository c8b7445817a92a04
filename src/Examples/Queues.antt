-- ===== src/Examples/Queues.antt =====
-- Concrete runs of the theorems on src/scheduler/ready.rs.
use solworker.Prelude.{◌==◌, if◌then◌else◌, ◌≡◌, refl, true, false, none, some, [], ◌∷◌, ◌++◌}
use solworker.Prelude.Int.{next, prior, pos, negsuc}
use solworker.Demand.Selection.{Selection}
use solworker.Ready.Maps.{lookup, map_insert, insert, map_remove, set_insert, remove}
use solworker.Ready.Queue.{
  ordinary, resource, PendingQueue, insert_at, empty_queue, push, push_front, pop, peek, remove_id,
  update_resource, is_nil,
}
use solworker.Ready.Queue.Inv.{Inv, empty_queue-Inv}
use solworker.Ready.Queue.Moves.{push-Inv, push_front-Inv}
use solworker.Ready.Queue.Removal.{remove_id-Removed, update_resource-Inv, peek-none}
use solworker.Ready.Queue.Members.{has, Grown, push-Grown, push_front-Grown}
use solworker.Ready.Queue.Fifo.{ids, TakesHead, push-ids, push_front-ids, pop-TakesHead}

abbrev selection : Selection
selection = record { priority = some 2; active = true; tie = pos 0; version = 1 }

abbrev one_queued : PendingQueue
one_queued = record empty_queue {
  ordinary_route = (pos 0, 5) ∷ [];
  entries = (5, ordinary (pos 0)) ∷ [];
  back = pos 1;
}

first_push : push empty_queue 5 none ≡ some one_queued
unfolding push insert_at map_insert insert next
first_push = refl

no_entry : lookup 5 empty_queue.entries ≡ none
unfolding lookup
no_entry = refl

one_queued-Inv : Inv one_queued
one_queued-Inv = push-Inv empty_queue one_queued 5 none empty_queue-Inv no_entry first_push

no_six : lookup 6 one_queued.entries ≡ none
unfolding lookup
no_six = refl

abbrev two_queued : PendingQueue
two_queued = record {
  ordinary_route = (negsuc 0, 6) ∷ (pos 0, 5) ∷ [];
  resource_route = [];
  entries = (5, ordinary (pos 0)) ∷ (6, ordinary (negsuc 0)) ∷ [];
  front = negsuc 0;
  back = pos 1;
}

second_push : push_front one_queued 6 none ≡ some two_queued
unfolding push_front insert_at map_insert insert prior
second_push = refl

two_queued-Inv : Inv two_queued
two_queued-Inv = push_front-Inv one_queued two_queued 6 none one_queued-Inv no_six second_push

push-ids_example :
    (ids one_queued.ordinary_route ≡ ids empty_queue.ordinary_route ++ 5 ∷ [])
    × (one_queued.resource_route ≡ empty_queue.resource_route)
push-ids_example = push-ids empty_queue one_queued 5 empty_queue-Inv first_push

push_front-ids_example :
    (ids two_queued.ordinary_route ≡ 6 ∷ ids one_queued.ordinary_route)
    × (two_queued.resource_route ≡ one_queued.resource_route)
push_front-ids_example = push_front-ids one_queued two_queued 6 one_queued-Inv second_push

remove_id-Removed_example :
    Inv (remove_id two_queued 5)
    × (lookup 6 (remove_id two_queued 5).entries
        ≡ (if 5 == 6 then none else lookup 6 two_queued.entries))
    × ((remove_id two_queued 5).front
        ≡ (if is_nil (remove 5 two_queued.entries) then pos 0 else two_queued.front))
    × ((remove_id two_queued 5).back
        ≡ (if is_nil (remove 5 two_queued.entries) then pos 0 else two_queued.back))
remove_id-Removed_example = remove_id-Removed two_queued 5 6 two_queued-Inv

abbrev ranked : PendingQueue
ranked = record {
  ordinary_route = (negsuc 0, 6) ∷ [];
  resource_route =
      record { inactive = false; rank = 2; tie = pos 0; sequence = pos 1; id = 5 } ∷ [];
  entries =
      (6, ordinary (negsuc 0))
      ∷ (5, resource (record { inactive = false; rank = 2; tie = pos 0; sequence = pos 1; id = 5 }))
      ∷ [];
  front = negsuc 0;
  back = pos 2;
}

moved : update_resource two_queued 5 selection ≡ some ranked
unfolding update_resource remove_id push insert_at map_remove set_insert remove insert lookup next
moved = refl

ranked-Inv : Inv ranked
ranked-Inv = update_resource-Inv two_queued ranked 5 selection two_queued-Inv moved

peek-none_example :
    (peek ranked ≡ none → ranked.entries ≡ []) × (ranked.entries ≡ [] → peek ranked ≡ none)
peek-none_example = peek-none ranked ranked-Inv

popped : pop ranked ≡ some (5, remove_id ranked 5)
unfolding pop peek
popped = refl

pop-TakesHead_example : TakesHead ranked 5 (remove_id ranked 5)
pop-TakesHead_example = pop-TakesHead ranked (remove_id ranked 5) 5 ranked-Inv popped

five_unknown : has 5 empty_queue ≡ false
unfolding has lookup
five_unknown = refl

seven_unknown : has 7 two_queued ≡ false
unfolding has lookup
seven_unknown = refl

push-Grown_example : (r : PendingQueue) × (push empty_queue 5 none ≡ some r) × Grown empty_queue r 5
push-Grown_example = push-Grown empty_queue 5 none empty_queue-Inv tt five_unknown

push_front-Grown_example :
    (r : PendingQueue) × (push_front two_queued 7 (some selection) ≡ some r) × Grown two_queued r 7
push_front-Grown_example =
    push_front-Grown two_queued 7 (some selection) two_queued-Inv (2, refl) seven_unknown
