-- ===== src/Database/Rows/Scans.antt =====
-- The loops over a database that answers.
use goph_keeper.Base.{ℕ, suc, ◌≡◌, refl, List, [], ◌∷◌, map, All, ok}
use goph_keeper.Database.{fine}
use goph_keeper.Database.Rows.{Labels, Decoded, decoded, scan_rows}

-- Every row of the query is decoded, in order.
pub scan_rows-fine :
    {R A : Type 0} (labels : Labels) (decode : R → Decoded A) (f : R → A) (n : ℕ) (rows : List R)
    → All (λ x. decode x ≡ decoded (f x)) rows
    → scan_rows labels decode fine n rows ≡ ok (map f rows)
unfolding scan_rows
scan_rows-fine labels decode f n [] h = refl
scan_rows-fine labels decode f n (x ∷ rows) (e, h) =
    rw (e, scan_rows-fine labels decode f (suc n) rows h)
