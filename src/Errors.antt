-- ===== src/Errors.antt =====
-- The errors of the agent: the sentinels of internal/errs/errs.go and the ones its services make.
-- Go's wrapping (`%w`) keeps the wrapped error, so a wrapped error is modelled by what it wraps.
use sdwan_agent.Prelude.{String, Bool, true, false}

pub data Error : Type 0 where
  unknown_device_action : Error
  invalid_transition_type transition_not_supported : Error
  split_brain primary_not_found : Error
  already_in_state handler_not_found : Error
  duplicate_handler boot_handler_missing : Error
  wan_port_not_configured address_without_schema : Error
  device_init_timeout already_waiting_first_init : Error
  publisher_already_started publisher_already_stopped : Error
  install_timeout all_tunnels_down : Error
  -- a nil pointer is followed: the process panics
  nil_dereference : Error
  -- a slice is read past its end: the process panics
  index_out_of_range : Error
  -- a send on a channel whose receiver is gone: the goroutine waits for ever
  never_received : Error
  -- an error that a handler makes from a format of its own
  reason : String → Error
  -- the text of a remote side's error message
  reported : String → Error
  -- an error that a library or the system made
  external : String → Error
  -- `errors.Join`
  joined : Error → Error → Error

pub data Result (A : Type 0) : Type 0 where
  ok : A → Result A
  err : Error → Result A

abbrev pub map_result : {A B : Type 0} → (A → B) → Result A → Result B
map_result f (ok a) = ok (f a)
map_result f (err e) = err e

-- The errors that stand for a panic. It runs the deferred functions with no error set.
abbrev pub is_panic : Error → Bool
is_panic nil_dereference = true
is_panic index_out_of_range = true
is_panic _ = false
