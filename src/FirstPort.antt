-- ===== src/FirstPort.antt =====
-- internal/domains/firstport/service.go: the configuration file of the first port, with the undo
-- functions that its changes return.
use sdwan_agent.Prelude.{◌≡◌, refl, String, ℕ, Option, none, some, List, [], ◌∷◌}
use sdwan_agent.Errors.{Error}
use sdwan_agent.Action.{Action, query, call, ◌>>=◌}
use sdwan_agent.Action.Calls.{first_port_file, update_first_port}

pub record PortFile : Type 0 where
  pub content : String
  pub mode : ℕ

-- The errors of the system's calls in a run, and the file that a failed write leaves.
pub record Faults : Type 0 where
  pub stat : Option Error
  pub read : Option Error
  pub write : Option Error
  pub flush : Option Error
  pub torn : PortFile

-- The undo functions: a write of the old content, and the same with a flush of the port.
pub data Undo : Type 0 where
  write_back : String → Undo
  write_back_and_flush : String → Undo

-- The results of a change: the undo functions and the error, and the file afterwards.
pub record Changed : Type 0 where
  pub rollbacks : List Undo
  pub error : Option Error
  pub file : PortFile

abbrev pub unchanged_with : Error → PortFile → Changed
unchanged_with e f = record { rollbacks = []; error = some e; file = f }

-- `os.WriteFile` of a file that exists keeps its mode.
abbrev pub with_content : String → PortFile → PortFile
with_content text f = record f { content = text }

abbrev pub manual_config : String
manual_config = "auto port1\nallow-hotplug port1\niface port1 inet manual\n"

abbrev pub static_config : String
static_config =
    "allow-hotplug port1\niface port1 inet static\n\taddress 192.168.1.1\n\tnetmask 255.255.255.0\n"

-- The steps of a change: the calls before the write, the write, and what comes after it.
abbrev pub after_write : Option Error → PortFile → (PortFile → Changed) → PortFile → Changed
after_write (some e) torn next f = unchanged_with e torn
after_write none torn next f = next f

abbrev pub after_read : Option Error → PortFile → Changed → Changed
after_read (some e) f next = unchanged_with e f
after_read none f next = next

abbrev pub change : Faults → PortFile → String → Undo → Option Error → Changed
change faults f text undo last = after_read faults.stat f (
    after_read faults.read f (
      after_write faults.write faults.torn
        (λ g. record { rollbacks = undo ∷ []; error = last; file = with_content text g }) f))

-- `ClearStatic`, whose last step is the flush, and `SetupStatic`.
unfoldable pub clear_static : Faults → PortFile → Changed
clear_static faults f = change faults f manual_config (write_back_and_flush f.content) faults.flush

unfoldable pub setup_static : Faults → PortFile → Changed
setup_static faults f = change faults f static_config (write_back f.content) none

-- Running undo functions whose writes succeed.
abbrev pub undo_one : Undo → PortFile → PortFile
undo_one (write_back text) f = with_content text f
undo_one (write_back_and_flush text) f = with_content text f

abbrev pub undo_all : List Undo → PortFile → PortFile
undo_all [] f = f
undo_all (u ∷ us) f = undo_one u (undo_all us f)

-- The undo functions lead back to the file, after a success as after an error.
abbrev pub IsUndone : PortFile → Changed → Type 0
IsUndone f c = undo_all c.rollbacks c.file ≡ f

module _ (f : PortFile) where
  change-IsUndone :
      (stat read : Option Error) (torn : PortFile) (text : String) (undo : Undo)
      (last : Option Error)
      → undo_one undo (with_content text f) ≡ f
      → IsUndone f (
          after_read stat f (
            after_read read f (
              after_write none torn
                (λ g. record { rollbacks = undo ∷ []; error = last; file = with_content text g })
                f)))
  change-IsUndone (some e) read torn text undo last h = refl
  change-IsUndone none (some e) torn text undo last h = refl
  change-IsUndone none none torn text undo last h = h

  -- If the write to the file itself does not fail, then after `ClearStatic` and after `SetupStatic`,
  -- whether they succeed or fail, running the undo functions that they return, with writes that
  -- succeed, gives the file as it was before.
  pub static-IsUndone :
      (faults : Faults)
      → faults.write ≡ none
      → IsUndone f (clear_static faults f) × IsUndone f (setup_static faults f)
  unfolding clear_static setup_static
  static-IsUndone faults h = (
    rw h (
        change-IsUndone faults.stat faults.read faults.torn manual_config
          (write_back_and_flush f.content) faults.flush refl),
    rw h (
        change-IsUndone faults.stat faults.read faults.torn static_config (write_back f.content)
          none refl),
  )

-- `SetupStaticWithTx`: the activity service is given both contents, and the permission bits 0755.
abbrev pub setup_static_with_tx : Action (Unit {0})
setup_static_with_tx = do
  backup ← query first_port_file
  call (update_first_port 493 static_config backup)
