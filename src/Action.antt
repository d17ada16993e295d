-- ===== src/Action.antt =====
-- What a handler does, as the sequence of its calls of other services. A method that takes
-- interfaces and returns an error is an `Action`: a tree that says which call comes next for each
-- result of the last one. Machine.antt runs it.
pub mod Calls
use sdwan_agent.Prelude.{Bool, Option, none, some}
use sdwan_agent.Errors.{Error, Result, ok, err}
use Calls.{Call, Query, Answer, Effect, InitChannel}

pub data Action (A : Type 0) : Type 0 where
  ret : A → Action A
  fail : Error → Action A
  -- a call that returns only an error
  attempt : Call → (Option Error → Action A) → Action A
  -- a call that returns a value or an error
  fetch : (q : Query) → (Result (Answer q) → Action A) → Action A
  -- a call that returns a value
  ask : (q : Query) → (Answer q → Action A) → Action A
  -- a call that returns nothing
  tell : Call → Action A → Action A
  -- `ExecuteFunc(tx, fn, rlFn)`
  execute : Effect → Effect → (Option Error → Action A) → Action A
  -- `WaitFirstInit(tx)`, and the `select` on the channel that it returned
  register : (InitChannel → Action A) → Action A
  receive : InitChannel → (Option Error → Action A) → Action A

infixl 5 ◌>>=◌ ◌>>◌
abbrev pub ◌>>=◌ : {A B : Type 0} → Action A → (A → Action B) → Action B
ret a >>= f = f a
fail e >>= f = fail e
attempt c k >>= f = attempt c (λ r. k r >>= f)
fetch q k >>= f = fetch q (λ r. k r >>= f)
ask q k >>= f = ask q (λ x. k x >>= f)
tell c m >>= f = tell c (m >>= f)
execute fn rl k >>= f = execute fn rl (λ r. k r >>= f)
register k >>= f = register (λ c. k c >>= f)
receive c k >>= f = receive c (λ r. k r >>= f)

abbrev pub ◌>>◌ : {B : Type 0} → Action (Unit {0}) → Action B → Action B
m >> n = m >>= λ _. n

abbrev pub done : Action (Unit {0})
done = ret tt

-- `if err != nil { return err }` after a call that returned `r`.
abbrev pub or_return : Option Error → Action (Unit {0})
or_return none = done
or_return (some e) = fail e

abbrev pub lift : {A : Type 0} → Result A → Action A
lift (ok a) = ret a
lift (err e) = fail e

-- A call whose error the caller returns.
abbrev pub call : Call → Action (Unit {0})
call c = attempt c or_return

-- A call whose error the caller only logs.
abbrev pub call_logged : Call → Action (Unit {0})
call_logged c = attempt c (λ _. done)

abbrev pub query : (q : Query) → Action (Answer q)
query q = fetch q lift

abbrev pub execute_func : Effect → Effect → Action (Unit {0})
execute_func fn rl = execute fn rl or_return

-- Runs an action and hands its result on, error or not, as a caller does that keeps the error.
abbrev pub catch : {A B : Type 0} → Action A → (Result A → Action B) → Action B
catch (ret a) h = h (ok a)
catch (fail e) h = h (err e)
catch (attempt c k) h = attempt c (λ r. catch (k r) h)
catch (fetch q k) h = fetch q (λ r. catch (k r) h)
catch (ask q k) h = ask q (λ x. catch (k x) h)
catch (tell c m) h = tell c (catch m h)
catch (execute fn rl k) h = execute fn rl (λ r. catch (k r) h)
catch (register k) h = register (λ c. catch (k c) h)
catch (receive c k) h = receive c (λ r. catch (k r) h)

-- The error of a result, as the source's `err` after the call.
abbrev pub error_of : {A : Type 0} → Result A → Option Error
error_of (ok _) = none
error_of (err e) = some e
