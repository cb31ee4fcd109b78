-- ===== src/Update/Results.antt =====
-- src/update/mod.rs: the results of the update, their log and their counts.
pub mod Counts
use a2ltool.Prelude.{
  ℕ, ◌+◌, ◌%◌, ◌^◌, Text, codes, List, [], ◌∷◌, ◌++◌, map, to_decimal, Bool, true, false, ◌||◌,
}

pub data UpdateResult : Type 0 where
  updated : UpdateResult
  symbol_not_found : Text → Text → ℕ → List Text → UpdateResult
  invalid_data_type : Text → Text → ℕ → UpdateResult

-- "Error updating <block> <name> on line <line>: <message>"
abbrev pub named_error : Text → Text → ℕ → Text → Text
named_error blocktype name line message =
    codes "Error updating "
    ++ blocktype
    ++ codes " "
    ++ name
    ++ codes " on line "
    ++ to_decimal line
    ++ codes ": "
    ++ message

abbrev pub block_error : Text → ℕ → Text → Text
block_error blockname line message =
    codes "Error updating "
    ++ blockname
    ++ codes " on line "
    ++ to_decimal line
    ++ codes ": "
    ++ message

unfoldable pub log_update_errors : List Text → List Text → Text → ℕ → List Text
log_update_errors errorlog [] blockname line = errorlog
log_update_errors errorlog (msg ∷ errmsgs) blockname line =
    log_update_errors (errorlog ++ block_error blockname line msg ∷ []) errmsgs blockname line

unfoldable pub log_named_errors : List Text → List Text → Text → Text → ℕ → List Text
log_named_errors errorlog [] blocktype name line = errorlog
log_named_errors errorlog (msg ∷ errors) blocktype name line =
    log_named_errors (errorlog ++ named_error blocktype name line msg ∷ []) errors blocktype name
      line

abbrev pub add_u32 : ℕ → ℕ → ℕ
add_u32 a b = (a + b) % 2 ^ 32

-- The loop over the results: the log, and the counts of updated and of other objects.
unfoldable pub log_loop : List Text → List UpdateResult → ℕ → ℕ → List Text × ℕ × ℕ
unfolding log_update_errors log_named_errors
log_loop errorlog [] updated_count not_updated = (errorlog, updated_count, not_updated)
log_loop errorlog (updated ∷ results) updated_count not_updated =
    log_loop errorlog results (add_u32 updated_count 1) not_updated
log_loop errorlog (symbol_not_found blocktype name line errors ∷ results) updated_count
      not_updated =
    log_loop
      (log_update_errors (log_named_errors errorlog errors blocktype name line) errors blocktype
        line)
      results updated_count (add_u32 not_updated 1)
log_loop errorlog (invalid_data_type blocktype name line ∷ results) updated_count not_updated =
    log_loop (errorlog ++ named_error blocktype name line (codes "data type has changed") ∷ [])
      results (add_u32 updated_count 1) not_updated

unfoldable pub log_update_results : List Text → List UpdateResult → List Text × ℕ × ℕ
unfolding log_loop
log_update_results errorlog results = log_loop errorlog results 0 0

-- `results.iter().any(|r| r != &UpdateResult::Updated)`
unfoldable pub any_not_updated : List UpdateResult → Bool
any_not_updated [] = false
any_not_updated (updated ∷ results) = any_not_updated results
any_not_updated (symbol_not_found b n l e ∷ results) = true
any_not_updated (invalid_data_type b n l ∷ results) = true
