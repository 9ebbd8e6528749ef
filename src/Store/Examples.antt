-- ===== src/Store/Examples.antt =====
-- Runs of redis_store.go on the database in memory, and the theorems at them.
use live_collab.Base.{
  ◌+◌, ◌<◌, ◌≤◌, ◌≡◌, refl, inr, false, List, [], ◌∷◌, arith, Str, lit, str_eq, length, some,
  if◌then◌else◌,
}
use live_collab.Base.Result.{ok, err, redis_error}
use live_collab.Message.{DistributedEvent}
use live_collab.Redis.{lua_limit}
use live_collab.Redis.Memory.{memory, empty_memory}
use live_collab.Keys.Disjoint.{keys_disjoint, content, version, key_of, Kind}
use live_collab.Store.{answered, not_sent, answer_lost, create_room, get_snapshot}
use live_collab.Store.Commands.{Document, Holds}
use live_collab.Store.Apply.{
  accepted_result, event, next_document, apply_call, apply-refines, apply_unanswered, apply-other,
}
use live_collab.Store.History.{
  Operation, IsInOrder, Extends, run_operations, run_operations-IsInOrder,
}
use live_collab.Store.Snapshot.{blank, reading, create_room-opens}

abbrev room : Str
room = lit "a1b2c3"

blank_held : (r : Str) → Holds memory empty_memory r blank
blank_held r = record {
  version = inr (refl, refl);
  content = inr (refl, refl);
  sequence = inr (refl, refl);
  stream = inr (refl, refl);
}

few : length {A = DistributedEvent} [] + 1 < lua_limit
few = omega arith

stale_base : 7 < 0x10000000000000000
stale_base = omega arith

keys_disjoint_example : str_eq (key_of content (lit "a:version")) (key_of version (lit "a")) ≡ false
keys_disjoint_example = keys_disjoint content version (lit "a:version") (lit "a")

apply-refines_example :
    ((apply_call memory room blank empty_memory
        (blank_held room)
        few
        (lit "hi")
        7
        stale_base
        (lit "accept")
        (lit "o1")
        (lit "c1")
        (lit "ann")
        answered).0
      ≡ ok (
          accepted_result blank 7 (
            event memory room blank empty_memory
              (blank_held room)
              few
              (lit "hi")
              7
              stale_base
              (lit "accept")
              (lit "o1")
              (lit "c1")
              (lit "ann"))))
    × Holds memory
        (apply_call memory room blank empty_memory
          (blank_held room)
          few
          (lit "hi")
          7
          stale_base
          (lit "accept")
          (lit "o1")
          (lit "c1")
          (lit "ann")
          answered).1
        room
        (next_document memory room blank empty_memory
          (blank_held room)
          few
          (lit "hi")
          7
          stale_base
          (lit "accept")
          (lit "o1")
          (lit "c1")
          (lit "ann"))
unfolding str_eq
apply-refines_example =
    apply-refines memory room blank empty_memory (blank_held room) few (lit "hi") 7 stale_base
      (lit "accept") (lit "o1") (lit "c1") (lit "ann")

apply_unanswered_example :
    let call =
      apply_call memory room blank empty_memory
        (blank_held room)
        few
        (lit "hi")
        7
        stale_base
        (lit "accept")
        (lit "o1")
        (lit "c1")
        (lit "ann") in
    ((call not_sent).0 ≡ err (redis_error (lit "dial")))
    × ((call not_sent).1 ≡ empty_memory)
    × ((call answer_lost).0 ≡ err (redis_error (lit "read")))
    × Holds memory (call answer_lost).1 room (
        next_document memory room blank empty_memory
          (blank_held room)
          few
          (lit "hi")
          7
          stale_base
          (lit "accept")
          (lit "o1")
          (lit "c1")
          (lit "ann"))
apply_unanswered_example =
    apply_unanswered memory room blank empty_memory (blank_held room) few (lit "hi") 7 stale_base
      (lit "accept") (lit "o1") (lit "c1") (lit "ann")

apply-other_example :
    Holds memory
      (apply_call memory room blank empty_memory
        (blank_held room)
        few
        (lit "hi")
        7
        stale_base
        (lit "accept")
        (lit "o1")
        (lit "c1")
        (lit "ann")
        answered).1
      (lit "ffffff")
      blank
apply-other_example =
    apply-other memory room blank empty_memory (blank_held room) few (lit "hi") 7 stale_base
      (lit "accept") (lit "o1") (lit "c1") (lit "ann") answered (lit "ffffff") blank
      (unfold str_eq in refl) (blank_held (lit "ffffff"))

abbrev operations : List Operation
operations =
    record {
      wire = answered;
      content = lit "one";
      base = 0;
      policy = lit "reject";
      operation_id = lit "o1";
      client_id = lit "c1";
      username = lit "ann";
    }
    ∷ record {
      wire = answer_lost;
      content = lit "two";
      base = 0;
      policy = lit "reject";
      operation_id = lit "o2";
      client_id = lit "c2";
      username = lit "bob";
    }
    ∷ []

run_operations-IsInOrder_example :
    (d' : Document) × Holds memory (run_operations memory room empty_memory operations) room d'
    × IsInOrder d'
    × Extends blank d'
    × (length d'.log ≤ 0 + 2)
run_operations-IsInOrder_example =
    run_operations-IsInOrder memory room operations blank empty_memory (blank_held room)
      (record { counted = tt; latest = refl }) (omega arith) (omega arith)

create_room-opens_example :
    let r = create_room memory answered room empty_memory in
    (r.0 ≡ ok tt)
    × Holds memory r.1 room blank
    × (get_snapshot memory (answered, answered, answered, answered) room r.1
        ≡ (ok (some (reading blank)), r.1))
    × ((i : Kind) (other : Str)
        → memory.look r.1 (key_of i other) ≡ (
            if str_eq room other
            then memory.look r.1 (key_of i other)
            else memory.look empty_memory (key_of i other)))
create_room-opens_example = create_room-opens memory room empty_memory refl
