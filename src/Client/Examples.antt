-- ===== src/Client/Examples.antt =====
-- Runs of client.go on a recording connection, and the theorems at them.
use live_collab.Base.{
  ℕ, ◌≤◌, ◌≡◌, ◌≢◌, refl, true, false, List, [], ◌∷◌, ◌++◌, map, none, arith, lit, rank64,
}
use live_collab.Message.{Message, zero_message, Frame, message, presence_update, PresenceSnapshot}
use live_collab.Transport.Recorder.{recorder}
use live_collab.Client.{Client, done, panicked, begin_replay, finish_replay, write_content_update}
use live_collab.Client.Order.{
  Rising, RisingRevisions, Within, later, live_run, live_run-Rising, live_run_complete,
  presence_run, presence_run-Rising, HasBuffer, buffer_is_there,
}
use live_collab.Client.Handoff.{Action, history, live, replay_run, handoff}
use live_collab.Client.ExactlyOnce.{span, exactly_once}

-- The content_update of a sequence.
abbrev update : ℕ → Message
update n = record zero_message { type = lit "content_update"; sequence = n; server_version = n }

abbrev snapshot : ℕ → PresenceSnapshot
snapshot n = record { revision = n; participants = [] }

abbrev fresh : Client (List Frame)
fresh = record {
  conn = [];
  username = lit "ann";
  room_id = lit "a1b2c3";
  client_id = lit "c1";
  connection_id = lit "k1";
  instance_id = lit "n1";
  presence_revision = 0;
  presence_sent = false;
  replaying = false;
  last_sequence = 0;
  pending = none;
}

abbrev complete : Message
complete = record zero_message {
  type = lit "resume_complete";
  from_sequence = 2;
  latest_sequence = 4;
}

-- Live messages 4 and 5 arrive between the writes of the history, and 6 after it.
abbrev meanwhile : List Action
meanwhile = history (update 3) ∷ live (update 4) ∷ live (update 5) ∷ history (update 4) ∷ []

late_and_repeated :
    (live_run recorder fresh (update 2 ∷ update 1 ∷ update 2 ∷ update 5 ∷ [])).conn
    ≡ message (update 2) ∷ message (update 5) ∷ []
unfolding live_run write_content_update rank64
late_and_repeated = refl

live_run-Rising_example :
    (out : List Message) × ((live_run recorder fresh (update 2 ∷ update 1 ∷ update 5 ∷ [])).conn
      ≡ [] ++ map message out)
    × Rising (rank64 0) out
    × Within out (update 2 ∷ update 1 ∷ update 5 ∷ [])
live_run-Rising_example = live_run-Rising recorder fresh (update 2 ∷ update 1 ∷ update 5 ∷ []) refl

live_run_complete_example :
    (live_run recorder fresh (update 1 ∷ update 3 ∷ [])).conn
    ≡ map message (later 0 (update 1 ∷ update 3 ∷ []))
live_run_complete_example =
    live_run_complete recorder (λ c f. refl) fresh (update 1 ∷ update 3 ∷ []) 0 refl rising
  where
    rising : Rising 0 (update 1 ∷ update 3 ∷ [])
    rising = unfold rank64 in omega arith

presence_run-Rising_example :
    (out : List PresenceSnapshot) × ((presence_run recorder
        (record fresh { presence_sent = true })
        (snapshot 2 ∷ snapshot 1 ∷ [])).conn
      ≡ [] ++ map presence_update out)
    × RisingRevisions (rank64 0) out
    × Within out (snapshot 2 ∷ snapshot 1 ∷ [])
presence_run-Rising_example =
    presence_run-Rising recorder (record fresh { presence_sent = true })
      (snapshot 2 ∷ snapshot 1 ∷ []) refl

buffer_is_there_example :
    let c = begin_replay recorder fresh 2 in
    HasBuffer recorder (begin_replay recorder c 3)
    × HasBuffer recorder (write_content_update recorder c (update 4)).0
    × ((write_content_update recorder c (update 4)).1 ≢ panicked)
    × HasBuffer recorder (finish_replay recorder c (update 4)).0
    × ((finish_replay recorder c (update 4)).1 ≢ panicked)
unfolding begin_replay
buffer_is_there_example = buffer_is_there recorder (begin_replay recorder fresh 2) 3 (update 4) refl

resume_run :
    (live_run recorder
      (finish_replay recorder
        (replay_run recorder (begin_replay recorder fresh 2) meanwhile).0
        complete).0
      (update 6 ∷ [])).conn
    ≡ message (update 3)
      ∷ message (update 4)
      ∷ message complete
      ∷ message (update 5)
      ∷ message (update 6)
      ∷ []
unfolding live_run finish_replay replay_run begin_replay write_content_update rank64
resume_run = refl

handoff_example :
    let r = replay_run recorder (begin_replay recorder fresh 2) meanwhile in
    let f = finish_replay recorder r.0 complete in
    (r.1 ≡ done)
    × (f.1 ≡ done)
    × ((live_run recorder f.0 (update 6 ∷ [])).conn
        ≡ []
          ++ (map message (update 3 ∷ update 4 ∷ [])
              ++ message complete ∷ map message (later 4 (update 4 ∷ update 5 ∷ update 6 ∷ []))))
handoff_example =
    handoff recorder (λ c f. refl) fresh 2 meanwhile complete (update 6 ∷ []) 0 below rising
  where
    below : rank64 2 ≤ rank64 4
    below = unfold rank64 in omega arith

    rising : Rising 0 (update 4 ∷ update 5 ∷ update 6 ∷ [])
    rising = unfold rank64 in omega arith

exactly_once_example :
    let r = replay_run recorder (begin_replay recorder fresh 2) meanwhile in
    let f = finish_replay recorder r.0 complete in
    (r.1 ≡ done)
    × (f.1 ≡ done)
    × ((live_run recorder f.0 (span update 5 1)).conn
        ≡ [] ++ (map message (span update 2 2) ++ message complete ∷ map message (span update 4 2)))
exactly_once_example =
    exactly_once update (λ n h. refl) recorder (λ c f. refl) fresh meanwhile complete 2 4 3 2 1 refl
      refl refl (omega arith) (omega arith) (omega arith) (omega arith)
