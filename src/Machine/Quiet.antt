-- ===== src/Machine/Quiet.antt =====
-- Actions that switch no message queue subject on or off, and what a subject's view makes of the
-- loops that do.
use sdwan_agent.Prelude.{
  ◌≡◌, refl, subst, Bool, true, false, not, ◌&&◌, ◌||◌, none, some, List, [], ◌∷◌, if◌then◌else◌,
  contains_by, arith,
}
use sdwan_agent.Errors.{Error, Result, ok, err}
use sdwan_agent.Action.{
  Action, ret, fail, attempt, fetch, ask, tell, execute, register, receive, ◌>>=◌, catch,
}
use sdwan_agent.Action.Calls.{
  Call, Answer, Effect, InitChannel, Subject, activate, deactivate, activate_handler,
  deactivate_handler, websocket_start, websocket_stop, ztp_first_setup, ztp_set_port, ztp_del_port,
  hub_set_port, hub_del_port, hub_init, agent_reset, rebuild_services,
}
use sdwan_agent.Handlers.Interface.{activate_each, deactivate_each}
use sdwan_agent.Machine.{Event, did}
use sdwan_agent.Machine.Views.{Ensures, view, after_success, after_failure}
use sdwan_agent.Machine.Rules.{Bind, Ensures-Bind}

abbrev pub same_subject : Subject → Subject → Bool
same_subject ztp_first_setup ztp_first_setup = true
same_subject ztp_set_port ztp_set_port = true
same_subject ztp_del_port ztp_del_port = true
same_subject hub_set_port hub_set_port = true
same_subject hub_del_port hub_del_port = true
same_subject hub_init hub_init = true
same_subject agent_reset agent_reset = true
same_subject rebuild_services rebuild_services = true
same_subject _ _ = false

abbrev pub member : Subject → List Subject → Bool
member x = contains_by (same_subject x)

-- Whether a subject is switched on, as its last successful switch says.
abbrev pub switch : Subject → Event → Bool → Bool
switch x (did (activate y) true) b = if same_subject x y then true else b
switch x (did (deactivate y) true) b = if same_subject x y then false else b
switch x _ b = b

abbrev pub listening : Subject → List Event → Bool
listening x = view (switch x) false

abbrev IsQuietCall : Call → Type 0
IsQuietCall (activate _) = ⊥
IsQuietCall (deactivate _) = ⊥
IsQuietCall _ = Unit

abbrev IsQuietEffect : Effect → Type 0
IsQuietEffect websocket_start = Unit
IsQuietEffect websocket_stop = Unit
IsQuietEffect _ = ⊥

-- No switch is touched, whatever the services answer.
abbrev pub IsQuiet : {A : Type 0} → Action A → Type 0
IsQuiet (ret a) = Unit
IsQuiet (fail e) = Unit
IsQuiet (attempt c k) = IsQuietCall c × IsQuiet (k none) × ((e : Error) → IsQuiet (k (some e)))
IsQuiet (fetch q k) = ((a : Answer q) → IsQuiet (k (ok a))) × ((e : Error) → IsQuiet (k (err e)))
IsQuiet (ask q k) = (x : Answer q) → IsQuiet (k x)
IsQuiet (tell c m) = IsQuietCall c × IsQuiet m
IsQuiet (execute fn rl k) =
    IsQuietEffect fn × IsQuiet (k none) × ((e : Error) → IsQuiet (k (some e)))
IsQuiet (register k) = (c : InitChannel) → IsQuiet (k c)
IsQuiet (receive c k) = IsQuiet (k none) × ((e : Error) → IsQuiet (k (some e)))

pub IsQuiet-bind :
    {A B : Type 0} (m : Action A) (f : A → Action B)
    → IsQuiet m
    → ((a : A) → IsQuiet (f a))
    → IsQuiet (m >>= f)
IsQuiet-bind (ret a) f h h' = h' a
IsQuiet-bind (fail e) f h h' = tt
IsQuiet-bind (attempt c k) f h h' =
    (h.0, IsQuiet-bind (k none) f h.1 h', λ e. IsQuiet-bind (k (some e)) f (h.2 e) h')
IsQuiet-bind (fetch q k) f h h' =
    (λ a. IsQuiet-bind (k (ok a)) f (h.0 a) h', λ e. IsQuiet-bind (k (err e)) f (h.1 e) h')
IsQuiet-bind (ask q k) f h h' = λ x. IsQuiet-bind (k x) f (h x) h'
IsQuiet-bind (tell c m) f h h' = (h.0, IsQuiet-bind m f h.1 h')
IsQuiet-bind (execute fn rl k) f h h' =
    (h.0, IsQuiet-bind (k none) f h.1 h', λ e. IsQuiet-bind (k (some e)) f (h.2 e) h')
IsQuiet-bind (register k) f h h' = λ c. IsQuiet-bind (k c) f (h c) h'
IsQuiet-bind (receive c k) f h h' =
    (IsQuiet-bind (k none) f h.0 h', λ e. IsQuiet-bind (k (some e)) f (h.1 e) h')

pub IsQuiet-catch :
    {A B : Type 0} (m : Action A) (f : Result A → Action B)
    → IsQuiet m
    → ((r : Result A) → IsQuiet (f r))
    → IsQuiet (catch m f)
IsQuiet-catch (ret a) f h h' = h' (ok a)
IsQuiet-catch (fail e) f h h' = h' (err e)
IsQuiet-catch (attempt c k) f h h' =
    (h.0, IsQuiet-catch (k none) f h.1 h', λ e. IsQuiet-catch (k (some e)) f (h.2 e) h')
IsQuiet-catch (fetch q k) f h h' =
    (λ a. IsQuiet-catch (k (ok a)) f (h.0 a) h', λ e. IsQuiet-catch (k (err e)) f (h.1 e) h')
IsQuiet-catch (ask q k) f h h' = λ x. IsQuiet-catch (k x) f (h x) h'
IsQuiet-catch (tell c m) f h h' = (h.0, IsQuiet-catch m f h.1 h')
IsQuiet-catch (execute fn rl k) f h h' =
    (h.0, IsQuiet-catch (k none) f h.1 h', λ e. IsQuiet-catch (k (some e)) f (h.2 e) h')
IsQuiet-catch (register k) f h h' = λ c. IsQuiet-catch (k c) f (h c) h'
IsQuiet-catch (receive c k) f h h' =
    (IsQuiet-catch (k none) f h.0 h', λ e. IsQuiet-catch (k (some e)) f (h.1 e) h')

pub IsQuiet-if :
    {A : Type 0} (b : Bool) (m n : Action A) → IsQuiet m → IsQuiet n → IsQuiet (if b then m else n)
IsQuiet-if true m n h h' = h
IsQuiet-if false m n h h' = h'

on_first : (p q b : Bool) → (p || q) || b ≡ q || (if p then true else b)
on_first p q b = ground arith

off_first : (p q b : Bool) → not (p || q) && b ≡ not q && (if p then false else b)
off_first p q b = ground arith

module _ (x : Subject) where
  switch_of_IsQuietCall :
      (c : Call) (r : Bool) (b : Bool) → IsQuietCall c → switch x (did c r) b ≡ b
  switch_of_IsQuietCall (activate y) r b h = absurd h
  switch_of_IsQuietCall (deactivate y) r b h = absurd h
  switch_of_IsQuietCall _ r b h = refl

  switch_of_IsQuietEffect :
      (fn : Effect) (b : Bool)
      → IsQuietEffect fn
      → (after_success (switch x) fn b ≡ b) × (after_failure (switch x) fn b ≡ b)
  switch_of_IsQuietEffect (activate_handler y) b h = absurd h
  switch_of_IsQuietEffect (deactivate_handler y) b h = absurd h
  switch_of_IsQuietEffect websocket_start b h = (refl, refl)
  switch_of_IsQuietEffect websocket_stop b h = (refl, refl)

  module _ {A : Type 0} where
    abbrev At : Action A → (Result A → Bool → Type 0) → Bool → Type 0
    At m Q b = Ensures (switch x) m Q b

    move : (m : Action A) (Q : Result A → Bool → Type 0) {b w : Bool} → w ≡ b → At m Q b → At m Q w
    move m Q e h = rw e h

    -- A quiet action leaves the subject as it was.
    pub Ensures-quiet :
        (m : Action A) (Q : Result A → Bool → Type 0) (b : Bool)
        → IsQuiet m
        → ((r : Result A) → Q r b)
        → At m Q b
    Ensures-quiet (ret a) Q b h q = q (ok a)
    Ensures-quiet (fail e) Q b h q = q (err e)
    Ensures-quiet (attempt c k) Q b h q = (
      move (k none) Q (switch_of_IsQuietCall c true b h.0) (Ensures-quiet (k none) Q b h.1 q),
      λ e.
          move (k (some e)) Q (switch_of_IsQuietCall c false b h.0)
            (Ensures-quiet (k (some e)) Q b (h.2 e) q),
    )
    Ensures-quiet (fetch q k) Q b h q' = (
      λ a. Ensures-quiet (k (ok a)) Q b (h.0 a) q',
      λ e. Ensures-quiet (k (err e)) Q b (h.1 e) q',
    )
    Ensures-quiet (ask q k) Q b h q' = λ a. Ensures-quiet (k a) Q b (h a) q'
    Ensures-quiet (tell c m) Q b h q =
        move m Q (switch_of_IsQuietCall c true b h.0) (Ensures-quiet m Q b h.1 q)
    Ensures-quiet (execute fn rl k) Q b h q = (
      move (k none) Q (switch_of_IsQuietEffect fn b h.0).0 (Ensures-quiet (k none) Q b h.1 q),
      λ e.
          move (k (some e)) Q (switch_of_IsQuietEffect fn b h.0).1
            (Ensures-quiet (k (some e)) Q b (h.2 e) q),
    )
    Ensures-quiet (register k) Q b h q = λ c. Ensures-quiet (k c) Q b (h c) q
    Ensures-quiet (receive c k) Q b h q =
        (Ensures-quiet (k none) Q b h.0 q, λ e. Ensures-quiet (k (some e)) Q b (h.1 e) q)

  -- A quiet first part; errors need no more than `Q` says of every error.
  pub Ensures-quiet_bind :
      {A B : Type 0} (m : Action A) (f : A → Action B) (Q : Result B → Bool → Type 0) (b : Bool)
      → IsQuiet m
      → ((e : Error) → Q (err e) b)
      → ((a : A) → Ensures (switch x) (f a) Q b)
      → Ensures (switch x) (m >>= f) Q b
  Ensures-quiet_bind m f Q b h q k =
      Ensures-Bind (switch x) m f Q b
        (Ensures-quiet m (Bind (switch x) f Q) b h (elim [ ok a ↦ k a | err e ↦ q e ]))

  -- The loop that switches subjects on, and the one that switches them off.
  pub Ensures-activate_each :
      (ss : List Subject) (Q : Result (Unit {0}) → Bool → Type 0) (b : Bool)
      → ((e : Error) (w : Bool) → Q (err e) w)
      → Q (ok tt) (member x ss || b)
      → Ensures (switch x) (activate_each ss) Q b
  Ensures-activate_each [] Q b q h = h
  Ensures-activate_each (s ∷ ss) Q b q h = (
    Ensures-activate_each ss Q (if same_subject x s then true else b) q
        (subst (λ w. Q (ok tt) w) (on_first (same_subject x s) (member x ss) b) h),
    λ e. q e _,
  )

  pub Ensures-deactivate_each :
      (ss : List Subject) (Q : Result (Unit {0}) → Bool → Type 0) (b : Bool)
      → ((e : Error) (w : Bool) → Q (err e) w)
      → Q (ok tt) (not (member x ss) && b)
      → Ensures (switch x) (deactivate_each ss) Q b
  Ensures-deactivate_each [] Q b q h = h
  Ensures-deactivate_each (s ∷ ss) Q b q h = (
    Ensures-deactivate_each ss Q (if same_subject x s then false else b) q
        (subst (λ w. Q (ok tt) w) (off_first (same_subject x s) (member x ss) b) h),
    λ e. q e _,
  )
