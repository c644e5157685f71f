-- ===== src/Command/Process.antt =====
-- The process of a command: what it prints and logs, and the chain of its calls, each of which may fail.
pub mod Keeps
pub mod Succeeds
use tidb_fk_test.Base.{ℕ, Bool, true, false, Option, none, some, List, [], ◌∷◌, ◌++◌, Text, codes}
use tidb_fk_test.Base.Errors.{Error}
use tidb_fk_test.Db.Session.{Outcome, ok, failed}
use tidb_fk_test.Logging.{LogEntry, string}
use tidb_fk_test.Runner.Step.{run_phase}

-- `info_log` has what the default logger of slog was given, `error_log` what the error logger was given;
-- `last_error_log_path` is the variable of main.go.
pub record Process (S : Type 0) : Type 0 where
  pub world : S
  pub stdout : Text
  pub stderr : Text
  pub info_log : List LogEntry
  pub error_log : List LogEntry
  pub last_error_log_path : Text

-- Calls that change the process, and may fail.
abbrev pub Calls : Type 0 → Type 0 → Type 0
Calls S A = Process S → Outcome A × Process S

abbrev pub command_error : Text → Error → LogEntry
command_error step err = record {
  message = codes "command_error";
  args =
      (codes "phase", string run_phase)
      ∷ (codes "step_name", string step)
      ∷ (codes "error_text", string err.text)
      ∷ [];
}

module _ {S : Type 0} where
  abbrev pub and_then :
      {A B : Type 0} → (A → Calls S B) → Outcome A × Process S → Outcome B × Process S
  and_then f (failed e, p) = (failed e, p)
  and_then f (ok a, p) = f a p

  infixl 5 ◌>>=◌ ◌>>◌
  abbrev pub ◌>>=◌ : {A B : Type 0} → Calls S A → (A → Calls S B) → Calls S B
  ◌>>=◌ m f p = and_then f (m p)

  abbrev pub ◌>>◌ : {A B : Type 0} → Calls S A → Calls S B → Calls S B
  ◌>>◌ m k p = and_then (λ _. k) (m p)

  abbrev pub pure : {A : Type 0} → A → Calls S A
  pure a p = (ok a, p)

  -- The value or the error of a function that changes nothing.
  abbrev pub returns : {A : Type 0} → Outcome A → Calls S A
  returns r p = (r, p)

  -- A call that only changes the world.
  abbrev pub on_world : {A : Type 0} → (S → A × S) → Calls S A
  on_world f p = let (a, s) = f p.world in (ok a, record p { world = s })

  abbrev pub may_fail : {A : Type 0} → (S → Outcome A × S) → Calls S A
  may_fail f p = let (r, s) = f p.world in (r, record p { world = s })

  abbrev pub error_or : Option Error × Process S → Outcome (Unit {0}) × Process S
  error_or (none, p) = (ok tt, p)
  error_or (some e, p) = (failed e, p)

  -- A call that returns an error or nil.
  abbrev pub checks : (S → Option Error × S) → Calls S (Unit {0})
  checks f p = let (err, s) = f p.world in error_or (err, record p { world = s })

  -- fmt.Fprintf(cmd.OutOrStdout(), ...)
  abbrev pub print : Text → Calls S (Unit {0})
  print t p = (ok tt, record p { stdout = p.stdout ++ t })

  -- slog.Info
  abbrev pub info : LogEntry → Calls S (Unit {0})
  info entry p = (ok tt, record p { info_log = p.info_log ++ entry ∷ [] })

  -- defer: `f` runs behind the calls, whether they failed or not.
  abbrev pub deferring : {A : Type 0} → (S → S) → Calls S A → Calls S A
  deferring f m p = let (r, q) = m p in (r, record q { world = f q.world })

  -- `logger` is false for a nil logger, `err` is none for nil.
  unfoldable pub log_command_error : Bool → Text → Option Error → Process S → Process S
  unfolding codes
  log_command_error false step err p = p
  log_command_error true step none p = p
  log_command_error true step (some e) p = record p {
    error_log = p.error_log ++ command_error step e ∷ [];
  }

  abbrev pub logged : {A : Type 0} → Text → Outcome A × Process S → Outcome A × Process S
  logged step (ok a, p) = (ok a, p)
  logged step (failed e, p) = (failed e, log_command_error true step (some e) p)

  -- if err != nil { logCommandError(errorLogger, step, err); return err }
  abbrev pub logging : {A : Type 0} → Text → Calls S A → Calls S A
  logging step m p = logged step (m p)
