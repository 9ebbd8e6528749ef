-- ===== src/Membership/Examples.antt =====
-- Runs of redis_presence.go on the database in memory, and the theorems at them.
use live_collab.Base.{
  ℕ, ◌+◌, ◌<◌, ◌≡◌, refl, true, false, List, [], ◌∷◌, some, arith, Str, lit, str_eq, rank64, le64,
}
use live_collab.Base.Result.{ok}
use live_collab.Message.{Participant}
use live_collab.Redis.{Value, lua_limit}
use live_collab.Redis.Memory.{memory, empty_memory}
use live_collab.Redis.Collections.{Clock, milliseconds}
use live_collab.Redis.MemoryCollections.{collections}
use live_collab.Store.{answered, not_sent, answer_lost}
use live_collab.Membership.Spec.{Presence, member, renews, pruned}
use live_collab.Membership.Refine.{Held}
use live_collab.Membership.Calls.{renew_presence, get_presence, milliseconds_of}
use live_collab.Membership.Sorted.{IsAscending}
use live_collab.Membership.Results.{renew_presence_lem, get_presence_lem}
use live_collab.Membership.History.{IsLater}
use live_collab.Membership.PlainJson.{json, nobody, nobody-Held}
use live_collab.Membership.Run.{
  Call, join, leave, renew, after_calls, run_calls, AreCalls, run_calls-Holds,
}

abbrev ann : Participant
ann = record {
  connection_id = lit "k1";
  client_id = lit "c1";
  username = lit "ann";
  instance_id = lit "b1";
}

abbrev bob : Participant
bob = record {
  connection_id = lit "k0";
  client_id = lit "c2";
  username = lit "bob";
  instance_id = lit "b2";
}

abbrev at : ℕ → Clock
at n = record { seconds = n; micros = 250000 }

-- Ann joins for 10 seconds and bob for 3; ann's lease is renewed, and an answer is lost.
abbrev meeting : List Call
meeting =
    join answered (at 100) ann (some 10000000000)
    ∷ join answer_lost (at 101) bob (some 3000000000)
    ∷ renew answered (at 102) (lit "k1") 10000000000
    ∷ leave not_sent (lit "k0")
    ∷ []

meeting_calls : AreCalls meeting
unfolding milliseconds_of
meeting_calls = omega arith

abbrev met : Presence
met = after_calls meeting nobody

abbrev meeting_db : Str → Value
meeting_db = run_calls memory collections json (lit "a1b2c3") meeting empty_memory

run_calls-Holds_example :
    Held memory collections json (lit "a1b2c3") meeting_db met × IsLater nobody met
run_calls-Holds_example =
    run_calls-Holds memory collections json (lit "a1b2c3") meeting nobody empty_memory meeting_calls
      nobody-Held (omega arith)

met-Held : Held memory collections json (lit "a1b2c3") meeting_db met
met-Held =
    (run_calls-Holds memory collections json (lit "a1b2c3") meeting nobody empty_memory
      meeting_calls nobody-Held (omega arith)).0

met_small : met.revision + 1 < lua_limit
unfolding str_eq milliseconds_of rank64
met_small = omega arith

positive : le64 (milliseconds_of 10000000000) 0 ≡ false
unfolding milliseconds_of rank64
positive = refl

-- At 103 seconds ann's lease is renewed again.
renew_presence_lem_example :
    (renew_presence memory collections json answered
      (at 103)
      (lit "a1b2c3")
      (lit "k1")
      10000000000
      meeting_db).0
    ≡ ok (renews (milliseconds (at 103)) (lit "k1") met)
unfolding milliseconds_of
renew_presence_lem_example =
    renew_presence_lem memory collections json (lit "a1b2c3") met meeting_db met-Held met_small
      (at 103) (lit "k1") 10000000000 (omega arith) (omega arith) positive

-- At 105 seconds bob's lease has run out.
get_presence_lem_example :
    (ps : List Participant) × ((get_presence memory collections json answered
        (at 105)
        (lit "a1b2c3")
        meeting_db).0
      ≡ ok (record { revision = (pruned (milliseconds (at 105)) met).revision; participants = ps }))
    × IsAscending ps
    × ((id : Str) → member id ps ≡ member id (pruned (milliseconds (at 105)) met).roster)
get_presence_lem_example =
    get_presence_lem memory collections json (lit "a1b2c3") met meeting_db met-Held met_small
      (at 105) (omega arith) (λ id q e. record {})

-- Who is there then.
remaining : (pruned (milliseconds (at 105)) met).roster ≡ ann ∷ []
unfolding str_eq milliseconds_of rank64
remaining = refl

renewed_again : renews (milliseconds (at 103)) (lit "k1") met ≡ true
unfolding str_eq milliseconds_of rank64
renewed_again = refl
