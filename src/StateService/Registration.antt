-- ===== src/StateService/Registration.antt =====
-- `SetStateHandlers`: what the map of the handlers holds in the end.
use text.Mathlib.TextEquality.{eq_iff}
use sdwan_agent.Prelude.{
  ◌≡◌, refl, sym, ap, ◌∙◌, subst, Bool, true, false, Option, none, some, List, [], ◌∷◌, Bool-cases,
  inl, inr, if◌then◌else◌,
}
use sdwan_agent.Errors.{Error, Result, ok, err, duplicate_handler, boot_handler_missing}
use sdwan_agent.Entities.{
  AppState, boot, init, active, update_config, maintenance, ztp_setup, reset, unknown, same,
}
use sdwan_agent.Handlers.Interface.{StateHandler}
use sdwan_agent.StateService.{
  find_handler, is_some, register_handlers, require_state, set_state_handlers,
}

same-eq-true : (a b : AppState) → same a b ≡ true → a ≡ b
same-eq-true (unknown s) (unknown t) e = ap unknown ((eq_iff s t).0 e)
same-eq-true boot boot e = refl
same-eq-true init init e = refl
same-eq-true active active e = refl
same-eq-true update_config update_config e = refl
same-eq-true maintenance maintenance e = refl
same-eq-true ztp_setup ztp_setup e = refl
same-eq-true reset reset e = refl
same-eq-true _ _ e = cc

abbrev or_else : {A : Type 0} → Option A → Option A → Option A
or_else none o = o
or_else (some a) o = some a

or_else-none : {A : Type 0} (o : Option A) → o ≡ or_else o none
or_else-none none = refl
or_else-none (some a) = refl

is_some-eq-false : {A : Type 0} (o : Option A) → is_some o ≡ false → o ≡ none
is_some-eq-false none e = refl
is_some-eq-false (some a) e = cc

if-eq-ok :
    {A : Type 0} (b : Bool) (e : Error) (r : Result A) (a : A)
    → (if b then err e else r) ≡ ok a
    → (b ≡ false) × (r ≡ ok a)
if-eq-ok true e r a h = cc
if-eq-ok false e r a h = (refl, h)

-- One more handler, whose state is not registered yet.
find_handler-cons :
    (id : AppState) (h : StateHandler) (acc hs : List StateHandler)
    → is_some (find_handler h.state_id acc) ≡ false
    → or_else (find_handler id (h ∷ acc)) (find_handler id hs)
      ≡ or_else (find_handler id acc) (find_handler id (h ∷ hs))
unfolding find_handler
find_handler-cons id h acc hs new = elim (Bool-cases (same h.state_id id)) [
  | inl p ↦
      let absent : find_handler id acc ≡ none =
        ap (λ a. find_handler a acc) (sym (same-eq-true h.state_id id p))
        ∙ is_some-eq-false (find_handler h.state_id acc) new in
      rw (p, absent) refl
  | inr p ↦ rw p refl
]

register_handlers-find_handler :
    (id : AppState) (acc hs : List StateHandler) {registered : List StateHandler}
    → register_handlers acc hs ≡ ok registered
    → find_handler id registered ≡ or_else (find_handler id acc) (find_handler id hs)
unfolding register_handlers find_handler
register_handlers-find_handler id acc [] {registered} e =
    let same_list : acc ≡ registered = cc in
    ap (find_handler id) (sym same_list) ∙ or_else-none (find_handler id acc)
register_handlers-find_handler id acc (h ∷ hs) {registered} e =
    let (new, rest) = if-eq-ok (is_some (find_handler h.state_id acc)) duplicate_handler _ _ e in
    register_handlers-find_handler id (h ∷ acc) hs rest ∙ find_handler-cons id h acc hs new

require_state-eq-ok :
    (id : AppState) (r : Result (List StateHandler)) {hs : List StateHandler}
    → require_state id r ≡ ok hs
    → (r ≡ ok hs) × (is_some (find_handler id hs) ≡ true)
require_state-eq-ok id (err e) h = cc
require_state-eq-ok id (ok gs) {hs} h = elim (Bool-cases (is_some (find_handler id gs))) [
  | inl p ↦
      let found : ok gs ≡ ok hs =
        subst (λ b. (if b then ok gs else err boot_handler_missing) ≡ ok hs) p h in
      let same_list : gs ≡ hs = cc in
      (found, subst (λ l. is_some (find_handler id l) ≡ true) same_list p)
  | inr p ↦
      let missing : err boot_handler_missing ≡ ok hs =
        subst (λ b. (if b then ok gs else err boot_handler_missing) ≡ ok hs) p h in
      cc
]

-- What a registration that goes through leaves.
pub record Registered (active_state : AppState) (hs registered : List StateHandler) : Type 0 where
  pub lookups : (id : AppState) → find_handler id registered ≡ find_handler id hs
  pub active_found : is_some (find_handler active_state registered) ≡ true
  pub boot_found : is_some (find_handler boot registered) ≡ true

-- If the registration of handlers goes through, then for every state the lookup finds the handler
-- that the given list has for it, and the active state and the boot state have handlers.
pub set_state_handlers-Registered :
    (active_state : AppState) (hs : List StateHandler) {registered : List StateHandler}
    → set_state_handlers active_state hs ≡ ok registered
    → Registered active_state hs registered
unfolding set_state_handlers find_handler
set_state_handlers-Registered active_state hs e =
    let (inner, boot_there) =
      require_state-eq-ok boot (require_state active_state (register_handlers [] hs)) e in
    let (through, active_there) =
      require_state-eq-ok active_state (register_handlers [] hs) inner in
    record {
      lookups = λ id. register_handlers-find_handler id [] hs through;
      active_found = active_there;
      boot_found = boot_there;
    }
