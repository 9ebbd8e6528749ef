-- ===== src/Client/ExactlyOnce.antt =====
-- The replay of ws.go and client.go over a numbered log of events: the client is sent each event
-- after its cursor once, in the order of the log.
use live_collab.Base.{
  ℕ, zero, suc, ◌+◌, ◌-◌, ◌<◌, ◌≤◌, ◌≡◌, ◌∙◌, ap, ap₂, true, false, List, [], ◌∷◌, ◌++◌, map, arith,
  subst, int64_limit, rank64, rank64_nonneg, lt64,
}
use native.Mathlib.Decide.{dec_lt}
use live_collab.Message.{Message, Frame, message}
use live_collab.Transport.{Transport}
use live_collab.Client.{Client, done, begin_replay, finish_replay}
use live_collab.Client.Order.{Rising, later, later_all, live_run}
use live_collab.Client.Handoff.{Action, histories, lives, replay_run, handoff}

add_zero : (s : ℕ) → s + 0 ≡ s
add_zero s = omega arith

zero_add : (s : ℕ) → 0 + s ≡ s
zero_add s = omega arith

suc_sum : (s a : ℕ) → s + suc a ≡ s + 1 + a
suc_sum s a = omega arith

add_suc : (a b : ℕ) → suc a + b ≡ suc (a + b)
add_suc a b = omega arith

cut_none : (b w : ℕ) → w ≤ b → w + 0 - b ≡ 0
cut_none b w h = omega arith

cut_suc : (w n : ℕ) → w + suc n - w ≡ suc n
cut_suc w n = omega arith

module _ (ev : ℕ → Message) where
  -- The messages of the events s + 1 to s + n of the log.
  abbrev pub span : ℕ → ℕ → List Message
  span s zero = []
  span s (suc n) = ev (s + 1) ∷ span (s + 1) n

  span-append : (s a b : ℕ) → span s a ++ span (s + a) b ≡ span s (a + b)
  span-append s zero b = rw (add_zero s, zero_add b)
  span-append s (suc a) b =
      rw (suc_sum s a, add_suc a b) (ap (◌∷◌ (ev (s + 1))) (span-append (s + 1) a b))

  module _ (numbered : (n : ℕ) → n < int64_limit → (ev n).sequence ≡ n) where
    -- The event after a sequence is above it.
    next_rank : (s : ℕ) → s + 1 < int64_limit → rank64 (ev (s + 1)).sequence ≡ s + 1 + int64_limit
    next_rank s h = rw (numbered (s + 1) h) (rank64_nonneg (s + 1) h)

    span-Rising : (s n lo : ℕ) → s + n < int64_limit → lo ≤ s + int64_limit → Rising lo (span s n)
    span-Rising s zero lo h le = tt
    span-Rising s (suc n) lo h le = (
      omega (arith, next_rank s (omega arith)),
      span-Rising (s + 1) n _ (omega arith) (omega (arith, next_rank s (omega arith))),
    )

    -- Of a run that starts at or below the boundary, what is above the boundary.
    later-span :
        (b w n : ℕ)
        → w ≤ b
        → b < int64_limit
        → w + n < int64_limit
        → later b (span w n) ≡ span b (w + n - b)
    later-span b w zero le hb hn = rw (cut_none b w le)
    later-span b w (suc n) le hb hn = elim (dec_lt w b) [
      | yes lt ↦
          let old : lt64 b (ev (w + 1)).sequence ≡ false =
            ground (arith, next_rank w (omega arith), rank64_nonneg b hb) in
          rw (old, suc_sum w n) (later-span b (w + 1) n (omega arith) hb (omega arith))
      | no ge ↦
          let e : w ≡ b = omega arith in
          let all : later w (span w (suc n)) ≡ span w (suc n) =
            later_all w (span w (suc n)) (
              span-Rising w (suc n) (rank64 w) hn (omega (arith, rank64_nonneg w (omega arith)))) in
          subst (λ x. later x (span w (suc n)) ≡ span x (w + suc n - x)) e (rw (cut_suc w n) all)
    ]

    module _ (T : Transport) where
      open T use {Conn, write_json, sent}

      -- A client that resumes from `last` is sent the events last + 1 to b of the log, then
      -- resume_complete, then the events from b + 1 to the newest, each once and in order, however
      -- the live messages fall between the writes. The history is the log from `last` to the
      -- boundary b, the watcher offers the log from some point w at or below the boundary, n
      -- events during the replay and k after it, the sequences stay below 2 ^ 63, and the
      -- connection takes every frame.
      pub exactly_once :
          ((c : Conn) (f : Frame) → (write_json c f).1 ≡ true)
          → (c : Client Conn) (as' : List Action) (complete : Message) (last b w n k : ℕ)
          → complete.latest_sequence ≡ b
          → histories as' ≡ span last (b - last)
          → lives as' ≡ span w n
          → last ≤ b
          → w ≤ b
          → b < int64_limit
          → w + (n + k) < int64_limit
          → let r = replay_run T (begin_replay T c last) as' in
            let f = finish_replay T r.0 complete in
            (r.1 ≡ done)
            × (f.1 ≡ done)
            × (sent (live_run T f.0 (span (w + n) k)).conn
                ≡ sent c.conn
                  ++ (map message (span last (b - last))
                      ++ message complete ∷ map message (span b (w + (n + k) - b))))
      exactly_once reliable c as' complete last b w n k hc hh hl lb wb bl wl =
          let whole : lives as' ++ span (w + n) k ≡ span w (n + k) = rw hl (span-append w n k) in
          let rising =
            span-Rising w (n + k) (rank64 w) wl (omega (arith, rank64_nonneg w (omega arith))) in
          let le : rank64 last ≤ rank64 complete.latest_sequence =
            omega (arith, rank64_nonneg last (omega arith), rank64_nonneg b bl, ap rank64 hc) in
          let (d, d', w') =
            handoff T reliable c last as' complete (span (w + n) k) (rank64 w) le
              (rw whole rising) in
          let cut : later complete.latest_sequence (lives as' ++ span (w + n) k)
              ≡ span b (w + (n + k) - b) =
            ap₂ later hc whole ∙ later-span b w (n + k) wb bl wl in
          (d, d', rw (cut, hh) at w')
