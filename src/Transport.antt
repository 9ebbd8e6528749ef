-- ===== src/Transport.antt =====
-- The WebSocket connection of the vendored gorilla/websocket package, as its callers rely on it.
pub mod Recorder
use live_collab.Base.{◌≡◌, Bool, true, false, List, [], ◌∷◌, ◌++◌}
use live_collab.Message.{Frame}

-- `write_json` is Conn.WriteJSON: the connection after the call, and whether the error was nil.
-- `sent` is the list of the frames handed over whole so far. A write without an error adds its
-- frame at the end; a write with an error adds none.
pub record Transport : Type 1 where
  pub Conn : Type 0
  pub write_json : Conn → Frame → Conn × Bool
  pub sent : Conn → List Frame
  pub write_json-ok :
      (c : Conn) (f : Frame)
      → (write_json c f).1 ≡ true
      → sent (write_json c f).0 ≡ sent c ++ f ∷ []
  pub write_json-err :
      (c : Conn) (f : Frame) → (write_json c f).1 ≡ false → sent (write_json c f).0 ≡ sent c
