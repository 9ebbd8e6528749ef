-- ===== src/Session/Admission.antt =====
-- The admission of serveWS of ws.go: a request becomes an HTTP error or a client.
use live_collab.Base.{
  Bool, false, not, ◌&&◌, ◌||◌, [], none, Int64, Str, str_eq, lt64, if◌then◌else◌,
}
use live_collab.Transport.{Transport}
use live_collab.Client.{Client, begin_replay}
use live_collab.Session.{or_default}

-- What becomes of a request: an HTTP error, or a connection.
pub data Admission : Type 0 where
  bad_request : Admission
  not_found : Admission
  not_upgraded : Admission
  admitted : Admission

-- serveWS up to the new client.
unfoldable pub admission : (room_id username : Str) → (exists upgraded : Bool) → Admission
admission room_id username exists upgraded =
    if str_eq room_id [] || str_eq username []
    then bad_request
    else if not exists
    then not_found
    else if not upgraded
    then not_upgraded
    else admitted

-- The parameters of the request; the last sequence is what ParseInt returns, 0 if it is no number.
pub record Request : Type 0 where
  pub room_id : Str
  pub username : Str
  pub client_id : Str
  pub last_sequence : Int64

module _ (T : Transport) where
  open T use {Conn}

  -- The client of an admitted request, which buffers from the start if it is to be resumed.
  unfoldable pub new_client :
      Bool → Request → (connection_id instance_id : Str) → Conn → Client Conn
  unfolding begin_replay
  new_client has_store request connection_id instance_id conn =
      let client : Client Conn = record {
        conn = conn;
        username = request.username;
        room_id = request.room_id;
        client_id = or_default request.client_id request.username;
        connection_id = connection_id;
        instance_id = instance_id;
        presence_revision = 0;
        presence_sent = false;
        replaying = false;
        last_sequence = 0;
        pending = none;
      } in
      if has_store && lt64 0 request.last_sequence
      then begin_replay T client request.last_sequence
      else client
