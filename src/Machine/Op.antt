-- ===== src/Machine/Op.antt =====
-- Operations on the agent that may fail. What was changed before an error stays changed.
use sdwan_agent.Prelude.{Option, none, some}
use sdwan_agent.Errors.{Error, Result, ok, err}
use sdwan_agent.Machine.{Agent}

abbrev pub Op : Type 0 → Type 0
Op A = Agent → Result A × Agent

abbrev pub continue : {A B : Type 0} → Result A × Agent → (A → Op B) → Result B × Agent
continue (ok a, g) f = f a g
continue (err e, g) f = (err e, g)

infixl 5 ◌>>=◌ ◌>>◌
abbrev pub ◌>>=◌ : {A B : Type 0} → Op A → (A → Op B) → Op B
◌>>=◌ m f g = continue (m g) f

abbrev pub ◌>>◌ : {B : Type 0} → Op (Unit {0}) → Op B → Op B
m >> n = m >>= λ _. n

abbrev pub raise : {A : Type 0} → Error → Op A
raise e g = (err e, g)

abbrev pub pure : {A : Type 0} → A → Op A
pure a g = (ok a, g)

-- `if err != nil { return err }`
abbrev pub check : Option Error → Op (Unit {0})
check none = pure tt
check (some e) = raise e
