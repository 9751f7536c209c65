-- ===== src/CsvWriter/Guarded.antt =====
-- No cell starts a formula.
use plant_ops.Prelude.{Text, false, [], ◌∷◌, ◌≡◌, refl, inl, inr, Bool-cases, Option, none, some}
use plant_ops.CsvWriter.{is_formula_lead, starts_formula, guarded}

-- What a cell holds once its quotes are taken off: nothing, or the value with its guard.
abbrev pub cell_text : Option Text → Text
cell_text none = []
cell_text (some []) = []
cell_text (some (c ∷ s)) = guarded (c ∷ s)

pub starts_formula-cell_text : (value : Option Text) → starts_formula (cell_text value) ≡ false
unfolding guarded
starts_formula-cell_text none = refl
starts_formula-cell_text (some []) = refl
starts_formula-cell_text (some (c ∷ s)) = elim (Bool-cases (is_formula_lead c)) [
  | inl e ↦ rw e refl
  | inr e ↦ rw e e
]
