-- ===== src/Transport/Recorder.antt =====
-- A connection that meets the laws of the transport and takes every frame.
use live_collab.Base.{◌≡◌, refl, Bool, true, false, List, [], ◌∷◌, ◌++◌}
use live_collab.Message.{Frame}
use live_collab.Transport.{Transport}

pub never_fails : (c : List Frame) (f : Frame) → ◌≡◌ {A = Bool} true false → c ++ f ∷ [] ≡ c
never_fails c f h = cc

-- The connection is the list of the frames sent.
abbrev pub recorder : Transport
recorder = record {
  Conn = List Frame;
  write_json = λ c f. (c ++ f ∷ [], true);
  sent = λ c. c;
  write_json-ok = λ c f h. refl;
  write_json-err = λ c f h. never_fails c f h;
}
