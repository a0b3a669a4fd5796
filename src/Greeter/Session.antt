-- ===== src/Greeter/Session.antt =====
-- The class GreeterSession of grpcdemo/server_async.cc. A method returns the new session, and the
-- calls that it makes on the session's stream, in order. Each method runs under the session's mutex.
-- Logging is left out.
mod Protocol
mod Tests
use cpp_demo.Prelude.{ℕ, ◌++◌, List, [], ◌∷◌, Text, codes}
use cpp_demo.Greeter.Tag.{SessionEvent, connected, read_done, write_done, finished, tagify}

pub data SessionStatus : Type 0 where
  wait_to_connect ready_to_write wait_write_done : SessionStatus

-- `request_name` is the name in the request that the last completed Read stored.
pub record Session : Type 0 where
  pub session_id : ℕ
  pub status : SessionStatus
  pub request_name : Text
  pub message_queue : List Text

-- What a session asks of its stream, with the tag that the completion will carry.
pub data StreamCall : Type 0 where
  read : ℕ → StreamCall
  write : Text → ℕ → StreamCall

-- The constructor's fields. Its call of RequestSayHello3 is made in `Server.add_new_session`.
unfoldable pub new_session : ℕ → Session
new_session session_id = record {
  session_id = session_id;
  status = wait_to_connect;
  request_name = [];
  message_queue = [];
}

start_write : Session → Text → Session × List StreamCall
start_write s message =
    (record s { status = wait_write_done }, write message (tagify s.session_id write_done) ∷ [])

send_in : SessionStatus → Session → Text → Session × List StreamCall
unfolding start_write
send_in wait_to_connect s response = (s, [])
send_in ready_to_write s response = start_write s response
send_in wait_write_done s response =
    (record s { message_queue = s.message_queue ++ response ∷ [] }, [])

unfoldable pub send_response : Session → Text → Session × List StreamCall
unfolding send_in
send_response s response = send_in s.status s response

write_next : List Text → Session → Session × List StreamCall
unfolding start_write
write_next [] s = (record s { status = ready_to_write }, [])
write_next (message ∷ rest) s = start_write (record s { message_queue = rest }) message

abbrev pub greeting : Text → Text
greeting name = codes "hello " ++ name

unfoldable pub process_event : Session → SessionEvent → Session × List StreamCall
unfolding write_next send_response
process_event s connected =
    (record s { status = ready_to_write }, read (tagify s.session_id read_done) ∷ [])
process_event s read_done =
    let (s', calls) = send_response s (greeting s.request_name) in
    (s', calls ++ read (tagify s.session_id read_done) ∷ [])
process_event s write_done = write_next s.message_queue s
process_event s finished = (s, [])
