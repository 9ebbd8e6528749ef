-- ===== src/Stream/Server.antt =====
-- A server that meets the hypothesis on XRANGE, for any log whose stream IDs differ.
use live_collab.Base.{
  ℕ, ◌≡◌, refl, ap, arith, subst, false, ◌&&◌, Int64, List, [], ◌∷◌, ◌++◌, map, take, All, Str, lit,
  str_eq, str_eq_refl, if◌then◌else◌,
}
use live_collab.Base.Result.{Result, ok, err}
use live_collab.Base.Decimal.{parse_int}
use live_collab.Keys.{room_stream_key}
use live_collab.Stream.{range_of}
use live_collab.Message.{DistributedEvent}
use live_collab.Reply.{Reply, arr, end}
use live_collab.Stream.Parse.{replies, entry_reply}
use live_collab.Stream.Paging.{Serves}

-- The events that follow the one with an ID.
after : Str → List DistributedEvent → List DistributedEvent
after id [] = []
after id (e ∷ es) = if str_eq e.stream_id id then es else after id es

from_cursor : Str → List DistributedEvent → List DistributedEvent
unfolding after
from_cursor [] es = es
from_cursor (c ∷ id) es = if str_eq (c ∷ id) (lit "-") then es else after id es

-- The entries up to the one with an ID.
up_to : Str → List DistributedEvent → List DistributedEvent
up_to id [] = []
up_to id (e ∷ es) = if str_eq e.stream_id id then e ∷ [] else e ∷ up_to id es

-- The number that a COUNT asks for.
count_of : Result Int64 → ℕ
count_of (ok n) = n
count_of (err e) = 0

-- A server with one stream, under a key, that answers an XRANGE with a COUNT, and answers any other
-- command with no entry.
unfoldable pub serve : Str → List DistributedEvent → ℕ → List Str → Result Reply
unfolding from_cursor up_to count_of
serve key es round (name ∷ asked ∷ start ∷ last ∷ option ∷ count ∷ []) =
    if str_eq name (lit "XRANGE") && str_eq asked key && str_eq option (lit "COUNT")
    then ok (
        arr (
          replies (
            map entry_reply
              (take (count_of (parse_int count)) (up_to last (from_cursor start es))))))
    else ok (arr end)
serve key es round command = ok (arr end)

abbrev pub DistinctIds : List DistributedEvent → Type 0
DistinctIds [] = Unit {0}
DistinctIds (e ∷ es) = All (λ f. str_eq e.stream_id f.stream_id ≡ false) es × DistinctIds es

first_of_All :
    (p e : DistributedEvent) (pre post : List DistributedEvent)
    → All (λ f. str_eq p.stream_id f.stream_id ≡ false) (pre ++ e ∷ post)
    → str_eq p.stream_id e.stream_id ≡ false
first_of_All p e [] post h = h.0
first_of_All p e (q ∷ pre) post h = first_of_All p e pre post h.1

after-append :
    (pre : List DistributedEvent) (e : DistributedEvent) (post : List DistributedEvent)
    → DistinctIds (pre ++ e ∷ post)
    → after e.stream_id (pre ++ e ∷ post) ≡ post
unfolding after
after-append [] e post d = rw (str_eq_refl e.stream_id)
after-append (p ∷ pre) e post d = rw (first_of_All p e pre post d.0) (after-append pre e post d.1)

cursor-append :
    (pre : List DistributedEvent) (e : DistributedEvent) (post : List DistributedEvent)
    → DistinctIds (pre ++ e ∷ post)
    → from_cursor (b'(' ∷ e.stream_id) (pre ++ e ∷ post) ≡ post
unfolding from_cursor str_eq
cursor-append pre e post d = after-append pre e post d

-- No entry before the last one has the ID.
abbrev EndsAt : Str → List DistributedEvent → Type 0
EndsAt id [] = Unit {0}
EndsAt id (e ∷ []) = Unit {0}
EndsAt id (e ∷ f ∷ es) = (str_eq e.stream_id id ≡ false) × EndsAt id (f ∷ es)

up_to-EndsAt : (id : Str) (es : List DistributedEvent) → EndsAt id es → up_to id es ≡ es
unfolding up_to
up_to-EndsAt id [] h = refl
up_to-EndsAt id (e ∷ []) h = ground arith
up_to-EndsAt id (e ∷ f ∷ es) (h, hs) = rw h (ap (◌∷◌ e) (up_to-EndsAt id (f ∷ es) hs))

EndsAt-tail :
    (id : Str) (e : DistributedEvent) (es : List DistributedEvent)
    → EndsAt id (e ∷ es)
    → EndsAt id es
EndsAt-tail id e [] h = tt
EndsAt-tail id e (f ∷ es) h = h.1

EndsAt-suffix :
    (id : Str) (pre post : List DistributedEvent) → EndsAt id (pre ++ post) → EndsAt id post
EndsAt-suffix id [] post h = h
EndsAt-suffix id (e ∷ pre) post h = EndsAt-suffix id pre post (EndsAt-tail id e (pre ++ post) h)

DistinctIds-EndsAt :
    (es : List DistributedEvent) (b : DistributedEvent)
    → DistinctIds (es ++ b ∷ [])
    → EndsAt b.stream_id (es ++ b ∷ [])
DistinctIds-EndsAt [] b d = tt
DistinctIds-EndsAt (e ∷ []) b d = (d.0.0, tt)
DistinctIds-EndsAt (e ∷ f ∷ es) b d =
    (first_of_All e b (f ∷ es) [] d.0, DistinctIds-EndsAt (f ∷ es) b d.1)

thousand : count_of (parse_int (lit "1000")) ≡ 1000
unfolding count_of parse_int
thousand = refl

-- The server answers the reads of a replay up to its last entry.
pub serve-Serves :
    (room : Str) (old : List DistributedEvent) (b : DistributedEvent)
    → DistinctIds (old ++ b ∷ [])
    → Serves 999 (range_of room b (serve (room_stream_key room) (old ++ b ∷ []))) (old ++ b ∷ [])
unfolding serve str_eq
serve-Serves room old b d =
    let es = old ++ b ∷ [] in
    let ends = DistinctIds-EndsAt old b d in
    let here = str_eq_refl (room_stream_key room) in
    record {
      from_start = λ round.
          rw (here, thousand)
            (ap (λ es'. ok (arr (replies (map entry_reply (take 1000 es')))))
              (up_to-EndsAt b.stream_id es ends));
      from_id = λ round pre e post split.
          let rest : from_cursor (b'(' ∷ e.stream_id) es ≡ post =
            rw split (cursor-append pre e post (subst DistinctIds split d)) in
          let left : EndsAt b.stream_id post =
            EndsAt-tail b.stream_id e post
              (EndsAt-suffix b.stream_id pre (e ∷ post) (subst (EndsAt b.stream_id) split ends)) in
          rw (here, thousand, rest)
            (ap (λ es'. ok (arr (replies (map entry_reply (take 1000 es')))))
              (up_to-EndsAt b.stream_id post left));
    }
