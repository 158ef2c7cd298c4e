-- ===== src/Export/Cells.antt =====
-- The cells and rows of internal/export/tsv.go, and a reader of a row.
use quicksurvey.Base.{
  ℕ, ltb, ◌==◌, ◌≡◌, refl, ◌∙◌, ap, if◌then◌else◌, Bool, true, false, not, ◌&&◌, List, [], ◌∷◌,
  ◌++◌, map, All, Text, arith,
}
use mathlib.Core.List.{append-nil}
use quicksurvey.Export.{cell, starts_formula, guard_formula, text_cell, fields}

-- What a cell may hold: no tab, no newline and no other control.
abbrev pub is_plain : ℕ → Bool
is_plain r = not (ltb r 0x20) && not (r == 0x7f)

abbrev pub Plain : Text → Type 0
Plain = All (λ r. is_plain r ≡ true)

pub cell-Plain : (s : Text) → Plain (cell s)
unfolding cell
cell-Plain [] = tt
cell-Plain (r ∷ rs) = ground (arith, cell-Plain rs)

cell_of_Plain : (s : Text) → Plain s → cell s ≡ s
unfolding cell
cell_of_Plain [] h = refl
cell_of_Plain (r ∷ rs) h = ground (arith, cell_of_Plain rs h.1)

guard_formula-Plain : (s : Text) → Plain s → Plain (guard_formula s)
unfolding guard_formula
guard_formula-Plain [] h = tt
guard_formula-Plain (r ∷ rs) h = ground arith

-- The text does not begin as a formula does.
abbrev pub IsInert : Text → Type 0
IsInert [] = Unit {0}
IsInert (r ∷ rs) = starts_formula r ≡ false

guard_formula-IsInert : (s : Text) → IsInert (guard_formula s)
unfolding guard_formula
guard_formula-IsInert [] = tt
guard_formula-IsInert (r ∷ rs) = ground arith

-- A text is written as a cell that does not begin as a spreadsheet formula does, and cleaning
-- the cell again, as writing the row does, changes nothing.
pub cell-text_cell : (s : Text) → (cell (text_cell s) ≡ text_cell s) × IsInert (cell (text_cell s))
unfolding text_cell
cell-text_cell s =
    let e = cell_of_Plain (guard_formula (cell s)) (guard_formula-Plain (cell s) (cell-Plain s)) in
    (e, rw e (guard_formula-IsInert (cell s)))

-- A reader of one line: the cells up to the newline.
abbrev push : ℕ → List Text → List Text
push r [] = (r ∷ []) ∷ []
push r (c ∷ cs) = (r ∷ c) ∷ cs

pub read_row : Text → List Text
read_row [] = [] ∷ []
read_row (r ∷ rs) =
    let rest = read_row rs in if r == 10 then [] ∷ [] else if r == 9 then [] ∷ rest else push r rest

read_row-cell :
    (s rest : Text) (c : Text) (cs : List Text)
    → Plain s
    → read_row rest ≡ c ∷ cs
    → read_row (s ++ rest) ≡ (s ++ c) ∷ cs
unfolding read_row
read_row-cell [] rest c cs h e = e
read_row-cell (r ∷ s) rest c cs h e = ground (arith, read_row-cell s rest c cs h.1 e)

-- Reading a row that was written gives back its cells, each as it was cleaned: no text in a field
-- can shift a column or end the row.
pub read_row-fields : (f : Text) (fs : List Text) → read_row (fields (f ∷ fs)) ≡ map cell (f ∷ fs)
unfolding fields read_row
read_row-fields f [] =
    read_row-cell (cell f) (10 ∷ []) [] [] (cell-Plain f) refl
    ∙ ap (λ (t : Text). t ∷ []) (append-nil (cell f))
read_row-fields f (g ∷ fs) =
    read_row-cell (cell f) (9 ∷ fields (g ∷ fs)) [] (map cell (g ∷ fs)) (cell-Plain f)
      (ap (λ (l : List Text). [] ∷ l) (read_row-fields g fs))
    ∙ ap (λ (t : Text). t ∷ map cell (g ∷ fs)) (append-nil (cell f))
