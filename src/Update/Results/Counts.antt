-- ===== src/Update/Results/Counts.antt =====
-- src/update/mod.rs: what `log_update_results` counts and writes.
use mathlib.Core.List.{append_assoc, append-nil}
use a2ltool.Prelude.{
  ℕ, suc, ◌+◌, ◌^◌, ◌<◌, Text, codes, List, [], ◌∷◌, ◌++◌, length, length-append, ◌≡◌, refl, sym,
  ap, ◌∙◌, arith,
}
use a2ltool.Update.Results.{
  UpdateResult, updated, symbol_not_found, invalid_data_type, log_update_errors, log_named_errors,
  log_loop, log_update_results, add_u32, named_error,
}

-- The results with no symbol, and the lines that are written.
abbrev pub count_missing : List UpdateResult → ℕ
count_missing [] = 0
count_missing (updated ∷ rs) = count_missing rs
count_missing (symbol_not_found b n l es ∷ rs) = suc (count_missing rs)
count_missing (invalid_data_type b n l ∷ rs) = count_missing rs

abbrev pub count_lines : List UpdateResult → ℕ
count_lines [] = 0
count_lines (updated ∷ rs) = count_lines rs
count_lines (symbol_not_found b n l es ∷ rs) = length es + length es + count_lines rs
count_lines (invalid_data_type b n l ∷ rs) = 1 + count_lines rs

log_update_errors-append :
    (log es : List Text) (b : Text) (l : ℕ)
    → (added : List Text) × (log_update_errors log es b l ≡ log ++ added)
      × (length added ≡ length es)
unfolding log_update_errors
log_update_errors-append log [] b l = ([], sym (append-nil log), refl)
log_update_errors-append log (e ∷ es) b l =
    let (added, same, count) = log_update_errors-append (log ++ _ ∷ []) es b l in
    (_ ∷ added, same ∙ append_assoc log (_ ∷ []) added, ap suc count)

log_named_errors-append :
    (log es : List Text) (b n : Text) (l : ℕ)
    → (added : List Text) × (log_named_errors log es b n l ≡ log ++ added)
      × (length added ≡ length es)
unfolding log_named_errors
log_named_errors-append log [] b n l = ([], sym (append-nil log), refl)
log_named_errors-append log (e ∷ es) b n l =
    let (added, same, count) = log_named_errors-append (log ++ _ ∷ []) es b n l in
    (_ ∷ added, same ∙ append_assoc log (_ ∷ []) added, ap suc count)

abbrev pub count_updated : List UpdateResult → ℕ
count_updated [] = 0
count_updated (updated ∷ rs) = suc (count_updated rs)
count_updated (symbol_not_found b n l es ∷ rs) = count_updated rs
count_updated (invalid_data_type b n l ∷ rs) = suc (count_updated rs)

count_updated-add-count_missing :
    (rs : List UpdateResult) → count_updated rs + count_missing rs ≡ length rs
count_updated-add-count_missing [] = refl
count_updated-add-count_missing (updated ∷ rs) = omega (arith, count_updated-add-count_missing rs)
count_updated-add-count_missing (symbol_not_found b n l es ∷ rs) =
    omega (arith, count_updated-add-count_missing rs)
count_updated-add-count_missing (invalid_data_type b n l ∷ rs) =
    omega (arith, count_updated-add-count_missing rs)

-- The log has more lines at its end, and the counts have grown.
abbrev Logged : List Text → List UpdateResult → ℕ → ℕ → List Text × ℕ × ℕ → Type 0
Logged log rs u m (log', u', m') =
    ((added : List Text) × (log' ≡ log ++ added) × (length added ≡ count_lines rs))
    × ((u' ≡ u + count_updated rs) × (m' ≡ m + count_missing rs))

-- Lines that are added before and after are all added.
more_lines :
    (log log1 log2 : List Text) (a b : ℕ)
    → (added : List Text) × (log1 ≡ log ++ added) × (length added ≡ a)
    → (added : List Text) × (log2 ≡ log1 ++ added) × (length added ≡ b)
    → (added : List Text) × (log2 ≡ log ++ added) × (length added ≡ a + b)
more_lines log log1 log2 a b (first, e, n) (second, e', n') = (
  first ++ second,
  e' ∙ ap (λ l. l ++ second) e ∙ append_assoc log first second,
  omega (arith, length-append {0} first second),
)

log_loop-Logged :
    (log : List Text) (rs : List UpdateResult) (u m : ℕ)
    → u + m + length rs < 2 ^ 32
    → Logged log rs u m (log_loop log rs u m)
unfolding log_loop
log_loop-Logged log [] u m small = (([], sym (append-nil log), refl), (omega arith, omega arith))
log_loop-Logged log (updated ∷ rs) u m small =
    let u_e : add_u32 u 1 ≡ u + 1 = omega arith in
    let (lines, (us, ms)) = log_loop-Logged log rs (add_u32 u 1) m (omega arith) in
    (lines, (omega (arith), omega arith))
log_loop-Logged log (symbol_not_found b n l es ∷ rs) u m small =
    let log1 = log_named_errors log es b n l in
    let log2 = log_update_errors log1 es b l in
    let (lines, (us, ms)) = log_loop-Logged log2 rs u (add_u32 m 1) (omega arith) in
    (
      more_lines log log2 _ (length es + length es) (count_lines rs)
          (more_lines log log1 log2 (length es) (length es) (log_named_errors-append log es b n l)
            (log_update_errors-append log1 es b l))
          lines,
      (omega arith, omega arith),
    )
log_loop-Logged log (invalid_data_type b n l ∷ rs) u m small =
    let line = named_error b n l (codes "data type has changed") in
    let (lines, (us, ms)) = log_loop-Logged (log ++ line ∷ []) rs (add_u32 u 1) m (omega arith) in
    (
      more_lines log (log ++ line ∷ []) _ 1 (count_lines rs) (line ∷ [], refl, refl) lines,
      (omega arith, omega arith),
    )

-- The counts that `log_update_results` returns, for fewer than 2^32 results: every result is
-- counted once, an invalid data type as updated and a missing symbol as not updated. The log keeps
-- its lines; each message of a missing symbol adds two lines, an invalid data type adds one line,
-- and an updated object adds none.
pub log_update_results-counts :
    (log : List Text) (rs : List UpdateResult)
    → length rs < 2 ^ 32
    → let (log', updated_count, not_updated) = log_update_results log rs in
      ((added : List Text) × (log' ≡ log ++ added) × (length added ≡ count_lines rs))
      × (not_updated ≡ count_missing rs)
      × (updated_count + not_updated ≡ length rs)
unfolding log_update_results
log_update_results-counts log rs small =
    let (lines, (us, ms)) = log_loop-Logged log rs 0 0 (omega arith) in
    (lines, omega arith, omega (arith, count_updated-add-count_missing rs))
