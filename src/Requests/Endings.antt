-- ===== src/Requests/Endings.antt =====
-- How the bodies of the handlers of websocket requests end.
use sdwan_agent.Prelude.{refl}
use sdwan_agent.Objects.Bodies.{Body}
use sdwan_agent.Requests.{Incoming, Job, unmarshal, unmarshal_valid, respond, with_error_response}
use sdwan_agent.Action.{Action, done, ◌>>=◌}
use sdwan_agent.Machine.Views.{Ensures}
use sdwan_agent.Requests.Replies.{
  Sent, replies, Silent, Answered, Replies, Silent-lift, Silent-unmarshal_valid, Replies-after,
  respond_and-Replies, with_error_response-Answered,
}

-- A body that ends with the response after a part without replies.
module _ {T : Type 0} (i : Incoming T) (n : Sent) where
  pub valid_then :
      (f : T → Action Job)
      → ((r : T) → Ensures replies (f r) (Replies n) n)
      → Ensures replies (with_error_response (unmarshal_valid i >>= f)) (Answered n) n
  valid_then f h =
      with_error_response-Answered (unmarshal_valid i >>= f) n
        (Replies-after (unmarshal_valid i) f n (Silent-unmarshal_valid i) h)

  pub decoded_then :
      (f : T → Action Job)
      → ((r : T) → Ensures replies (f r) (Replies n) n)
      → Ensures replies (with_error_response (unmarshal i >>= f)) (Answered n) n
  decoded_then f h =
      with_error_response-Answered (unmarshal i >>= f) n
        (Replies-after (unmarshal i) f n (Silent-lift i.decoded) h)

pub plain_respond : (body : Body) (n : Sent) → Ensures replies (respond body) (Replies n) n
plain_respond body n = respond_and-Replies body done n (λ m. refl)

-- A value without replies, and its response.
pub value_then :
    {T : Type 0} (m : Action T) (body : T → Body) (n : Sent)
    → Silent m
    → Ensures replies (with_error_response (m >>= λ x. respond (body x))) (Answered n) n
value_then m body n h =
    with_error_response-Answered (m >>= λ x. respond (body x)) n
      (Replies-after m (λ x. respond (body x)) n h (λ x. plain_respond (body x) n))
