-- ===== src/Logging.antt =====
-- internal/logging/logger.go: the events of the workload, and the arguments that they are logged with.
-- What log/slog writes of a message and its arguments is not modelled.
use tidb_fk_test.Base.{ℕ, ℤ, pos, Bool, true, false, List, [], ◌∷◌, ◌++◌, Text, codes}
use tidb_fk_test.Model.{
  ResultKind, success, expected_fk_failure, infra_or_upgrade_transient, unexpected_failure,
}

pub record LogEvent : Type 0 where
  pub timestamp : ℕ
  pub phase : Text
  pub scenario : Text
  pub worker_id : ℕ
  pub txn_name : Text
  pub step_name : Text
  pub classified_as : ResultKind
  pub error_text : Text

-- slog.Time, slog.String and slog.Int, and the lists and durations that are passed as they are.
pub data Attr : Type 0 where
  time : ℕ → Attr
  string : Text → Attr
  int : ℤ → Attr
  duration : ℤ → Attr
  strings : List Text → Attr

-- A call of `Info` or `Error`: the message, and the keys with their values.
pub record LogEntry : Type 0 where
  pub message : Text
  pub args : List (Text × Attr)

abbrev pub kind_text : ResultKind → Text
kind_text success = codes "success"
kind_text expected_fk_failure = codes "expected_fk_failure"
kind_text infra_or_upgrade_transient = codes "infra_or_upgrade_transient"
kind_text unexpected_failure = codes "unexpected_failure"

-- if e.ErrorText != "" { args = append(args, ...) }
abbrev error_arg : Text → List (Text × Attr)
error_arg [] = []
error_arg (c ∷ s) = (codes "error_text", string (c ∷ s)) ∷ []

unfoldable pub log_args : LogEvent → List (Text × Attr)
unfolding codes
log_args e =
    (codes "timestamp", time e.timestamp)
    ∷ (codes "phase", string e.phase)
    ∷ (codes "scenario", string e.scenario)
    ∷ (codes "worker_id", int (pos e.worker_id))
    ∷ (codes "txn_name", string e.txn_name)
    ∷ (codes "step_name", string e.step_name)
    ∷ (codes "classified_as", string (kind_text e.classified_as))
    ∷ error_arg e.error_text

-- The entries behind `LogEvent`; `logger` is false for a nil logger.
unfoldable pub log_event : Bool → LogEvent → List LogEntry → List LogEntry
unfolding log_args codes
log_event false e entries = entries
log_event true e entries =
    entries ++ record { message = codes "workload_event"; args = log_args e } ∷ []
