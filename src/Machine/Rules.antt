-- ===== src/Machine/Rules.antt =====
-- Rules for `Ensures`: sequencing, errors that are kept, tests, and parts that a view does not see.
use sdwan_agent.Prelude.{◌≡◌, refl, Bool, true, false, none, some, if◌then◌else◌}
use sdwan_agent.Errors.{Error, Result, ok, err}
use sdwan_agent.Action.{
  Action, ret, fail, attempt, fetch, ask, tell, execute, register, receive, ◌>>=◌, catch,
}
use sdwan_agent.Machine.{Event}
use sdwan_agent.Machine.Views.{Ensures}

module _ {V : Type 0} (step : Event → V → V) where
  -- What a bind needs of its first part.
  abbrev pub Bind :
      {A B : Type 0} → (A → Action B) → (Result B → V → Type 0) → Result A → V → Type 0
  Bind f Q (ok a) v = Ensures step (f a) Q v
  Bind f Q (err e) v = Q (err e) v

  pub Ensures-Bind :
      {A B : Type 0} (m : Action A) (f : A → Action B) (Q : Result B → V → Type 0) (v : V)
      → Ensures step m (Bind f Q) v
      → Ensures step (m >>= f) Q v
  Ensures-Bind (ret a) f Q v h = h
  Ensures-Bind (fail e) f Q v h = h
  Ensures-Bind (attempt c k) f Q v h =
      (Ensures-Bind (k none) f Q _ h.0, λ e. Ensures-Bind (k (some e)) f Q _ (h.1 e))
  Ensures-Bind (fetch q k) f Q v h =
      (λ x. Ensures-Bind (k (ok x)) f Q _ (h.0 x), λ e. Ensures-Bind (k (err e)) f Q _ (h.1 e))
  Ensures-Bind (ask q k) f Q v h = λ x. Ensures-Bind (k x) f Q _ (h x)
  Ensures-Bind (tell c m) f Q v h = Ensures-Bind m f Q _ h
  Ensures-Bind (execute fn rl k) f Q v h =
      (Ensures-Bind (k none) f Q _ h.0, λ e. Ensures-Bind (k (some e)) f Q _ (h.1 e))
  Ensures-Bind (register k) f Q v h = λ c. Ensures-Bind (k c) f Q _ (h c)
  Ensures-Bind (receive c k) f Q v h =
      (Ensures-Bind (k none) f Q _ h.0, λ e. Ensures-Bind (k (some e)) f Q _ (h.1 e))

  pub Ensures-catch :
      {A B : Type 0} (m : Action A) (f : Result A → Action B) (Q : Result B → V → Type 0) (v : V)
      → Ensures step m (λ r w. Ensures step (f r) Q w) v
      → Ensures step (catch m f) Q v
  Ensures-catch (ret a) f Q v h = h
  Ensures-catch (fail e) f Q v h = h
  Ensures-catch (attempt c k) f Q v h =
      (Ensures-catch (k none) f Q _ h.0, λ e. Ensures-catch (k (some e)) f Q _ (h.1 e))
  Ensures-catch (fetch q k) f Q v h =
      (λ x. Ensures-catch (k (ok x)) f Q _ (h.0 x), λ e. Ensures-catch (k (err e)) f Q _ (h.1 e))
  Ensures-catch (ask q k) f Q v h = λ x. Ensures-catch (k x) f Q _ (h x)
  Ensures-catch (tell c m) f Q v h = Ensures-catch m f Q _ h
  Ensures-catch (execute fn rl k) f Q v h =
      (Ensures-catch (k none) f Q _ h.0, λ e. Ensures-catch (k (some e)) f Q _ (h.1 e))
  Ensures-catch (register k) f Q v h = λ c. Ensures-catch (k c) f Q _ (h c)
  Ensures-catch (receive c k) f Q v h =
      (Ensures-catch (k none) f Q _ h.0, λ e. Ensures-catch (k (some e)) f Q _ (h.1 e))

  -- What holds of every result and view holds at the end.
  pub Ensures-always :
      {A : Type 0} (m : Action A) (Q : Result A → V → Type 0) (v : V)
      → ((r : Result A) (w : V) → Q r w)
      → Ensures step m Q v
  Ensures-always (ret a) Q v h = h _ _
  Ensures-always (fail e) Q v h = h _ _
  Ensures-always (attempt c k) Q v h =
      (Ensures-always (k none) Q _ h, λ e. Ensures-always (k (some e)) Q _ h)
  Ensures-always (fetch q k) Q v h =
      (λ x. Ensures-always (k (ok x)) Q _ h, λ e. Ensures-always (k (err e)) Q _ h)
  Ensures-always (ask q k) Q v h = λ x. Ensures-always (k x) Q _ h
  Ensures-always (tell c m) Q v h = Ensures-always m Q _ h
  Ensures-always (execute fn rl k) Q v h =
      (Ensures-always (k none) Q _ h, λ e. Ensures-always (k (some e)) Q _ h)
  Ensures-always (register k) Q v h = λ c. Ensures-always (k c) Q _ h
  Ensures-always (receive c k) Q v h =
      (Ensures-always (k none) Q _ h, λ e. Ensures-always (k (some e)) Q _ h)

  -- An action that only ends in `x` or an error.
  pub Ensures-then :
      {A B : Type 0} (m : Action A) (x : B) (Q : Result B → V → Type 0) (v : V)
      → ((w : V) → Q (ok x) w)
      → ((e : Error) (w : V) → Q (err e) w)
      → Ensures step (m >>= λ _. ret x) Q v
  Ensures-then m x Q v h h' =
      Ensures-Bind m (λ _. ret x) Q v
        (Ensures-always m (Bind (λ _. ret x) Q) v (elim [ ok a ↦ λ w. h w | err e ↦ λ w. h' e w ]))

  pub Ensures-if :
      {A : Type 0} (b : Bool) (m n : Action A) (Q : Result A → V → Type 0) (v : V)
      → (b ≡ true → Ensures step m Q v)
      → (b ≡ false → Ensures step n Q v)
      → Ensures step (if b then m else n) Q v
  Ensures-if true m n Q v h h' = h refl
  Ensures-if false m n Q v h h' = h' refl

  -- A weaker property of the end.
  pub Ensures-weaken :
      {A : Type 0} (m : Action A) (P Q : Result A → V → Type 0) (v : V)
      → ((r : Result A) (w : V) → P r w → Q r w)
      → Ensures step m P v
      → Ensures step m Q v
  Ensures-weaken (ret a) P Q v f h = f _ _ h
  Ensures-weaken (fail e) P Q v f h = f _ _ h
  Ensures-weaken (attempt c k) P Q v f h =
      (Ensures-weaken (k none) P Q _ f h.0, λ e. Ensures-weaken (k (some e)) P Q _ f (h.1 e))
  Ensures-weaken (fetch q k) P Q v f h = (
    λ x. Ensures-weaken (k (ok x)) P Q _ f (h.0 x),
    λ e. Ensures-weaken (k (err e)) P Q _ f (h.1 e),
  )
  Ensures-weaken (ask q k) P Q v f h = λ x. Ensures-weaken (k x) P Q _ f (h x)
  Ensures-weaken (tell c m) P Q v f h = Ensures-weaken m P Q _ f h
  Ensures-weaken (execute fn rl k) P Q v f h =
      (Ensures-weaken (k none) P Q _ f h.0, λ e. Ensures-weaken (k (some e)) P Q _ f (h.1 e))
  Ensures-weaken (register k) P Q v f h = λ c. Ensures-weaken (k c) P Q _ f (h c)
  Ensures-weaken (receive c k) P Q v f h =
      (Ensures-weaken (k none) P Q _ f h.0, λ e. Ensures-weaken (k (some e)) P Q _ f (h.1 e))
