-- ===== src/AsyncClient.antt =====
-- grpcdemo/client_async2.cpp: the class GreeterClient. A request's context is the object at its tag;
-- the address of a new one is an argument, not null and not in use. A callback is a number, and each
-- call of one is logged with its result. One step is one call of run, sendRequest or stop, or one
-- completion that the callback thread takes from the queue. Logging and the transport are left out;
-- in `stop`, the join waits for the thread, whose end is the step `queue_ends` or a failed completion.
pub mod Callbacks
pub mod Program
pub mod Requests
mod Tests
use cpp_demo.Prelude.{
  ℕ, Bool, true, false, List, [], ◌∷◌, ◌++◌, Option, none, some, if◌then◌else◌, ◌==◌, Text,
}

-- The `int` that a callback gets: 0, -1 and -2.
pub data Answer : Type 0 where
  sent write_failed not_running : Answer

-- What the client asks of its stream, with the tag.
pub data StreamCall : Type 0 where
  connect read : StreamCall
  write : Text → ℕ → StreamCall
  cancel : StreamCall

-- `contexts` are the live objects of RequestContext, address and callback; `looping` says that the
-- callback thread is in its loop; `has_stream` that `run` has made the stream.
pub record Client : Type 0 where
  pub running : Bool
  pub looping : Bool
  pub has_stream : Bool
  pub contexts : List (ℕ × ℕ)
  pub answered : List (ℕ × Answer)
  pub calls : List StreamCall

unfoldable pub new_client : Client
new_client = record {
  running = false;
  looping = false;
  has_stream = false;
  contexts = [];
  answered = [];
  calls = [];
}

abbrev pub answer : ℕ → Answer → Client → Client
answer cb a c = record c { answered = c.answered ++ (cb, a) ∷ [] }

abbrev pub call : StreamCall → Client → Client
call s c = record c { calls = c.calls ++ s ∷ [] }

unfoldable pub run : Client → Client
run c =
    if c.running
    then c
    else call connect (record c { running = true; looping = true; has_stream = true })

unfoldable pub read_next_notify : Client → Client
read_next_notify c = call read c

-- `none` where the assertion on the stream fails.
unfoldable pub send_request : Text → ℕ → ℕ → Client → Option Client
send_request req cb address c =
    if c.running
    then (if c.has_stream
        then some (call (write req address) (record c { contexts = (address, cb) ∷ c.contexts }))
        else none)
    else some (answer cb not_running c)

-- `delete ctx`, and the callback that the context holds.
unfoldable pub delete_context : ℕ → List (ℕ × ℕ) → List (ℕ × ℕ)
delete_context a [] = []
delete_context a ((b, cb) ∷ cs) = if b == a then cs else (b, cb) ∷ delete_context a cs

unfoldable pub callback_at : ℕ → List (ℕ × ℕ) → Option ℕ
callback_at a [] = none
callback_at a ((b, cb) ∷ cs) = if b == a then some cb else callback_at a cs

-- Behind the loop.
abbrev pub leave_loop : Client → Client
leave_loop c = record c { running = false; looping = false }

-- The branch of a tag that is not null. `none` where the tag is not a live context.
request_done : ℕ → Bool → Client → Option ℕ → Option Client
unfolding delete_context
request_done tag ok c none = none
request_done tag ok c (some cb) =
    let c' = answer cb (if ok then sent else write_failed) c in
    some (record c' { contexts = delete_context tag c.contexts })

-- A completion: Next returned true. The loop's test of `running_` is made before each Next.
unfoldable pub on_completion : ℕ → Bool → Client → Option Client
unfolding read_next_notify request_done
on_completion tag ok c =
    if ok
    then (if tag == 0
        then some (read_next_notify c)
        else request_done tag ok c (callback_at tag c.contexts))
    else some (leave_loop c)

-- Next returned false, or the loop's test failed.
unfoldable pub queue_ends : Client → Client
queue_ends c = leave_loop c

unfoldable pub stop : Client → Client
stop c = if c.running then call cancel (record c { running = false }) else c
