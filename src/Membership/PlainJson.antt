-- ===== src/Membership/PlainJson.antt =====
-- An instance of Json for the examples, and a room in which nobody is present.
use live_collab.Base.{◌≡◌, refl, ap, inl, inr, [], ◌∷◌, ◌++◌, none, Str, lit, ◌==◌, if◌then◌else◌}
use live_collab.Base.Result.{ok}
use live_collab.Message.{Participant}
use live_collab.Redis.Memory.{memory, empty_memory}
use live_collab.Redis.Collections.{field_of, score_of}
use live_collab.Redis.MemoryCollections.{collections}
use live_collab.Membership.{Json}
use live_collab.Membership.Spec.{Presence}
use live_collab.Membership.Refine.{Held}

-- An encoding of a record of texts: a mark before each character, and 0 behind the last.
field_text : Str → Str
field_text [] = 0 ∷ []
field_text (c ∷ s) = 1 ∷ c ∷ field_text s

read_field : Str → Str × Str
read_field [] = ([], [])
read_field (m ∷ []) = ([], [])
read_field (m ∷ c ∷ t) =
    let (s, rest) = read_field t in if m == 0 then ([], c ∷ t) else (c ∷ s, rest)

read_field_lem : (s t : Str) → read_field (field_text s ++ t) ≡ (s, t)
unfolding read_field field_text
read_field_lem [] [] = refl
read_field_lem [] (c ∷ t) = refl
read_field_lem (c ∷ s) t = rw (read_field_lem s t)

pub encode : Participant → Str
encode p =
    field_text p.connection_id
    ++ (field_text p.client_id ++ (field_text p.username ++ (field_text p.instance_id ++ [])))

pub decode : Str → Participant
decode s =
    let (connection_id, s₁) = read_field s in
    let (client_id, s₂) = read_field s₁ in
    let (username, s₃) = read_field s₂ in
    record {
      connection_id = connection_id;
      client_id = client_id;
      username = username;
      instance_id = (read_field s₃).0;
    }

pub decode-encode : (p : Participant) → decode (encode p) ≡ p
unfolding decode encode
decode-encode p =
    let three = field_text p.instance_id ++ [] in
    let two = field_text p.username ++ three in
    let one = field_text p.client_id ++ two in
    rw (
      decode,
      encode,
      read_field_lem p.connection_id one,
      read_field_lem p.client_id two,
      read_field_lem p.username three,
      read_field_lem p.instance_id [],
    )

abbrev pub json : Json
json = record {
  marshal = encode;
  unmarshal = λ s. ok (decode s);
  IsText = λ p. Unit {0};
  unmarshal-marshal = λ p _. ap ok (decode-encode p);
}

abbrev pub nobody : Presence
nobody = record { roster = []; leases = λ id. none; revision = 0 }

pub nobody-Held : Held memory collections json (lit "a1b2c3") empty_memory nobody
unfolding field_of score_of
nobody-Held = record {
  members = record { kind = inl refl; fields = λ id. refl };
  leased = record { kind = inl refl; scores = λ id. refl; exact = λ id. record {} };
  revised = record {
    counter = inr (refl, refl);
    entries = [];
    entries-IsStream = inr (refl, refl);
    numbered = refl;
  };
}
