-- ===== src/Requests/Replies.antt =====
-- How many replies a request gets.
use sdwan_agent.Prelude.{
  ◌≡◌, refl, ℕ, suc, ◌⊎◌, inl, inr, Bool, true, false, Option, none, some, if◌then◌else◌,
}
use sdwan_agent.Errors.{Error, Result, ok, err, joined, is_panic}
use sdwan_agent.Objects.Bodies.{Body}
use sdwan_agent.Action.{Action, fail, lift, or_return, query, catch, ◌>>=◌}
use sdwan_agent.Action.Calls.{Query, publish_response, publish_error_response, publish_not_allowed}
use sdwan_agent.Machine.{Event, did}
use sdwan_agent.Machine.Views.{Ensures}
use sdwan_agent.Machine.Rules.{Ensures-Bind, Ensures-catch, Ensures-weaken, Bind}
use sdwan_agent.Requests.{
  Incoming, Job, unmarshal_valid, respond_and, deferred, send_error, with_error_response,
}

-- Replies that were sent: the responses, and the error responses, whose publication succeeded.
pub record Sent : Type 0 where
  pub responses : ℕ
  pub errors : ℕ

abbrev pub nothing_sent : Sent
nothing_sent = record { responses = 0; errors = 0 }

abbrev pub one_response : Sent → Sent
one_response n = record n { responses = suc n.responses }

abbrev pub one_error : Sent → Sent
one_error n = record n { errors = suc n.errors }

abbrev pub replies : Event → Sent → Sent
replies (did (publish_response _) true) n = one_response n
replies (did (publish_error_response _) true) n = one_error n
replies (did publish_not_allowed true) n = one_error n
replies _ n = n

-- No reply is sent, whatever happens.
abbrev pub Silent : {A : Type 0} → Action A → Type 0
Silent {A} m = (n : Sent) → Ensures replies m (λ (_ : Result A) w. w ≡ n) n

-- The error that is returned when no error response was sent: the process panics, or sending failed.
abbrev pub IsUnsent : Error → Type 0
IsUnsent e = (is_panic e ≡ true) ⊎ ((x y : Error) × (e ≡ joined x y))

-- A handler that started after the replies `n` has sent a response if it succeeds, and its goroutine
-- sends nothing; if it fails, it has sent an error response, or nothing and its error says so.
abbrev pub Answered : Sent → Result Job → Sent → Type 0
Answered n (ok job) w = (w ≡ one_response n) × Silent job
Answered n (err e) w = (w ≡ one_error n) ⊎ ((w ≡ n) × IsUnsent e)

-- A handler's body responds if it succeeds, and only then.
abbrev pub Replies : Sent → Result Job → Sent → Type 0
Replies n (ok job) w = (w ≡ one_response n) × Silent job
Replies n (err e) w = w ≡ n

-- Sequencing of parts without replies.
pub Silent-bind :
    {A B : Type 0} (m : Action A) (f : A → Action B)
    → Silent m
    → ((a : A) → Silent (f a))
    → Silent (m >>= f)
Silent-bind m f h h' n =
    Ensures-Bind replies m f (λ _ w. w ≡ n) n
      (Ensures-weaken replies m (λ _ w. w ≡ n) (Bind replies f (λ _ w. w ≡ n)) n
        (elim [ ok a ↦ λ w e. rw e (h' a n) | err x ↦ λ w e. e ]) (h n))

pub Silent-catch :
    {A B : Type 0} (m : Action A) (f : Result A → Action B)
    → Silent m
    → ((r : Result A) → Silent (f r))
    → Silent (catch m f)
Silent-catch m f h h' n =
    Ensures-catch replies m f (λ _ w. w ≡ n) n
      (Ensures-weaken replies m (λ _ w. w ≡ n) (λ r w. Ensures replies (f r) (λ _ w'. w' ≡ n) w) n
        (λ r w e. rw e (h' r n)) (h n))

pub Silent-lift : {A : Type 0} (r : Result A) → Silent (lift r)
Silent-lift (ok a) n = refl
Silent-lift (err e) n = refl

pub Silent-or_return : (r : Option Error) → Silent (or_return r)
Silent-or_return none n = refl
Silent-or_return (some e) n = refl

pub Silent-if :
    {A : Type 0} (b : Bool) (m m' : Action A) → Silent m → Silent m' → Silent (if b then m else m')
Silent-if true m m' h h' = h
Silent-if false m m' h h' = h'

pub Silent-query : (q : Query) → Silent (query q)
Silent-query q n = (λ x. refl, λ e. refl)

pub Silent-unmarshal_valid : {T : Type 0} (i : Incoming T) → Silent (unmarshal_valid i)
Silent-unmarshal_valid i =
    Silent-bind (lift i.decoded) _ (Silent-lift i.decoded)
      (λ r. Silent-bind (or_return (i.invalid r)) _ (Silent-or_return (i.invalid r)) (λ _ n. refl))

-- A part without replies before the rest of a handler's body.
pub Replies-after :
    {A : Type 0} (m : Action A) (f : A → Action Job) (n : Sent)
    → Silent m
    → ((a : A) → Ensures replies (f a) (Replies n) n)
    → Ensures replies (m >>= f) (Replies n) n
Replies-after m f n h h' = Ensures-Bind replies m f (Replies n) n (
    Ensures-weaken replies m (λ _ w. w ≡ n) (Bind replies f (Replies n)) n
      (elim [ ok a ↦ λ w e. rw e (h' a) | err x ↦ λ w e. e ]) (h n))

-- The last call of a body.
pub respond_and-Replies :
    (body : Body) (job : Job) (n : Sent)
    → Silent job
    → Ensures replies (respond_and body job) (Replies n) n
respond_and-Replies body job n h = ((refl, h), λ e. refl)

Answered-error :
    (b : Bool) (e : Error) (n : Sent)
    → is_panic e ≡ b
    → Ensures replies (if b then fail e else send_error e) (Answered n) n
Answered-error true e n h = inr (refl, inl h)
Answered-error false e n h = (inl refl, λ x. inr (refl, inr (x, e, refl)))

-- The deferred function adds what is missing.
pub with_error_response-Answered :
    (m : Action Job) (n : Sent)
    → Ensures replies m (Replies n) n
    → Ensures replies (with_error_response m) (Answered n) n
with_error_response-Answered m n h = Ensures-catch replies m deferred (Answered n) n (
    Ensures-weaken replies m (Replies n) (λ r w. Ensures replies (deferred r) (Answered n) w) n
      (elim [ ok job ↦ λ w x. x | err e ↦ λ w x. rw x (Answered-error (is_panic e) e n refl) ]) h)
