-- ===== src/Save/Errors.antt =====
-- The errors of cmd/save/table_summary.go and what `handleQueryError` makes of them.
use pbench.Prelude.{
  Bool, true, false, ◌&&◌, ◌||◌, Option, none, some, [], Text, codes, text_eq, length, drop, leb,
  ◌-◌, if◌then◌else◌,
}

-- An error of a query: whether it wraps a refused connection, and the message of the QueryError that it
-- wraps, if there is one.
pub record Failure : Type 0 where
  pub connection_refused : Bool
  pub query_error : Option Text

-- strings.HasSuffix
pub has_suffix : Text → Text → Bool
unfolding text_eq
has_suffix s suffix =
    leb (length suffix) (length s) && text_eq (drop (length s - length suffix) s) suffix

-- Whether to retry, the fatal error, and `internalFunctionPrefix` afterwards.
pub record Handled : Type 0 where
  pub retry : Bool
  pub fatal : Option Failure
  pub prefix : Text

unfoldable pub internal_prefix : Text
internal_prefix = codes "$internal$"

-- The messages of a QueryError.
unfoldable pub handle_message : Failure → Text → Text → Handled
unfolding has_suffix
handle_message e message prefix =
    if has_suffix message (codes "does not exist")
    then record { retry = false; fatal = some e; prefix = prefix }
    else if text_eq prefix [] && has_suffix message (codes "data_size_for_stats not registered")
    then record { retry = true; fatal = none; prefix = internal_prefix }
    else record { retry = false; fatal = none; prefix = prefix }

unfoldable pub handle_failure : Failure → Bool → Text → Handled
unfolding handle_message
handle_failure e abort_on_error prefix =
    if abort_on_error || e.connection_refused
    then record { retry = false; fatal = some e; prefix = prefix }
    else elim e.query_error [
      | none ↦ record { retry = false; fatal = none; prefix = prefix }
      | some message ↦ handle_message e message prefix
    ]

-- `handleQueryError`
unfoldable pub handle_query_error : Option Failure → Bool → Text → Handled
unfolding handle_failure
handle_query_error none abort_on_error prefix = record {
  retry = false;
  fatal = none;
  prefix = prefix;
}
handle_query_error (some e) abort_on_error prefix = handle_failure e abort_on_error prefix
