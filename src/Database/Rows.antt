-- ===== src/Database/Rows.antt =====
-- Reading the rows of a query: `QueryRowContext` with `Scan`, and the `rows.Next()` loops.
pub mod Scans
use goph_keeper.Base.{
  ℕ, suc, Option, none, some, List, [], ◌∷◌, Text, codes, Outcome, ok, err, Error, sentinel,
  wrapped, close_failed, labelled, err_no_rows,
}
use goph_keeper.Database.{Reply}

abbrev pub or_err : {A : Type 0} → Option Error → Outcome A → Outcome A
or_err none result = result
or_err (some e) result = err e

abbrev first_row : {R : Type 0} → Reply → List R → Outcome R
first_row r [] = or_err r.iterate (err (sentinel err_no_rows))
first_row r (x ∷ _) = or_err (r.scan 0) (or_err r.close (ok x))

-- `db.QueryRowContext(…).Scan(…)`: the first row, or `sql.ErrNoRows`.
unfoldable pub query_row : {R : Type 0} → Reply → List R → Outcome R
query_row r rows = or_err r.exec (first_row r rows)

-- What the body of a loop makes of one row. A row that is refused names the stage at which it is
-- and the text that the code puts before the error, if any.
pub data Decoded (A : Type 0) : Type 0 where
  decoded : A → Decoded A
  refused : Text → Option Text → Error → Decoded A

-- The texts that a loop puts before the errors of `Scan`, `rows.Err()` and `rows.Close()`.
pub record Labels : Type 0 where
  pub scan : Option Text
  pub iterate : Option Text
  pub close : Option Text

-- An error inside a loop closes the rows, and an error of that close is reported with it.
abbrev after_close : Option Error → Text → Option Text → Error → Error
after_close none stage label e = labelled label e
after_close (some c) stage label e = close_failed stage c e

abbrev prepend : {A : Type 0} → A → Outcome (List A) → Outcome (List A)
prepend a (ok l) = ok (a ∷ l)
prepend a (err e) = err e

module _ {R A : Type 0} (labels : Labels) (decode : R → Decoded A) (r : Reply) where
  abbrev finish : Option Error → Option Error → Outcome (List A)
  finish (some e) c = err (after_close c (codes "iterate") labels.iterate e)
  finish none (some c) = err (labelled labels.close c)
  finish none none = ok []

  -- `for rows.Next() { … }` from row `n` on, with what follows the loop.
  unfoldable pub scan_rows : ℕ → List R → Outcome (List A)
  scan_rows n [] = finish r.iterate r.close
  scan_rows n (x ∷ xs) =
      let rest = scan_rows (suc n) xs in
      elim (r.scan n) [
        | some e ↦ err (after_close r.close (codes "scan") labels.scan e)
        | none ↦ elim (decode x) [
          | refused stage label e ↦ err (after_close r.close stage label e)
          | decoded a ↦ prepend a rest
        ]
      ]
