-- ===== src/Grid/Levels.antt =====
-- The ids of the grid levels and the searches by id.
use mathlib.Core.Option
use frog_quant.Prelude.{
  ℕ, zero, suc, ◌+◌, ◌≡◌, refl, ap, some, List, [], ◌∷◌, if◌then◌else◌, ◌==◌, length, arith,
  pos_part, if_cases, All,
}
use frog_quant.Double.{Double, nought}
use frog_quant.Grid.{
  GridLevel, GridLevelState, LongGridStrategy, idle, find_level, mark_level, mark_at, build_levels,
  rebuild_grid, recenter, anchored, has_drifted,
}

module _ {F : Type 0} where
  -- The ids count up from `k`.
  abbrev pub NumberedFrom : ℕ → List (GridLevel F) → Type 0
  NumberedFrom k [] = Unit {0}
  NumberedFrom k (lv ∷ rest) = (lv.id ≡ k) × NumberedFrom (suc k) rest

  pub mark_level-NumberedFrom :
      (k grid_id : ℕ) (state : GridLevelState) (ls : List (GridLevel F))
      → NumberedFrom k ls
      → NumberedFrom k (mark_level grid_id state ls)
  unfolding mark_level
  mark_level-NumberedFrom k grid_id state [] h = tt
  mark_level-NumberedFrom k grid_id state (lv ∷ rest) h =
      ground (arith, mark_level-NumberedFrom (suc k) grid_id state rest h.1)

  -- Where the ids count up, the level with an id and the level at an index are the same.
  pub mark_at-mark_level :
      (k i : ℕ) (state : GridLevelState) (ls : List (GridLevel F))
      → NumberedFrom k ls
      → mark_at i state ls ≡ mark_level (k + i) state ls
  unfolding mark_level mark_at
  mark_at-mark_level k i state [] h = refl
  mark_at-mark_level k zero state (lv ∷ rest) h = ground arith
  mark_at-mark_level k (suc i) state (lv ∷ rest) h =
      ground (arith, mark_at-mark_level (suc k) i state rest h.1)

  pub find_level-mark_level :
      (grid_id other : ℕ) (state : GridLevelState) (ls : List (GridLevel F))
      → find_level other (mark_level grid_id state ls) ≡ (
          if grid_id == other
          then Option.map {A = GridLevel F}
              (λ lv. record lv { state = state })
              (find_level other ls)
          else find_level other ls)
  unfolding find_level mark_level
  find_level-mark_level grid_id other state [] = ground arith
  find_level-mark_level grid_id other state (lv ∷ rest) =
      ground (arith, find_level-mark_level grid_id other state rest)

  -- Marking a level twice leaves the second mark.
  pub mark_level-mark_level :
      (grid_id : ℕ) (s t : GridLevelState) (ls : List (GridLevel F))
      → mark_level grid_id t (mark_level grid_id s ls) ≡ mark_level grid_id t ls
  unfolding mark_level
  mark_level-mark_level grid_id s t [] = refl
  mark_level-mark_level grid_id s t (lv ∷ rest) =
      ground (arith, mark_level-mark_level grid_id s t rest)

  -- Marking a level with the state that it has changes nothing.
  pub mark_level_self :
      (grid_id : ℕ) (ls : List (GridLevel F)) (lv : GridLevel F)
      → find_level grid_id ls ≡ some lv
      → mark_level grid_id lv.state ls ≡ ls
  unfolding find_level mark_level
  mark_level_self grid_id [] lv h = refl
  mark_level_self grid_id (x ∷ rest) lv h = ground (arith, mark_level_self grid_id rest lv)

  pub find_level-id :
      (grid_id : ℕ) (ls : List (GridLevel F)) (lv : GridLevel F)
      → find_level grid_id ls ≡ some lv
      → lv.id ≡ grid_id
  unfolding find_level
  find_level-id grid_id [] lv h = cc
  find_level-id grid_id (x ∷ rest) lv h = ground (arith, find_level-id grid_id rest lv)

module _ {F : Type 0} ⦃d : Double F⦄ where
  pub build_levels_lem :
      (lower step ratio : F) (i left : ℕ)
      → let ls = build_levels lower step ratio i left in
        NumberedFrom (suc i) ls × (length ls ≡ left) × All (λ lv. lv.state ≡ idle) ls
  unfolding build_levels
  build_levels_lem lower step ratio i zero = (tt, refl, tt)
  build_levels_lem lower step ratio i (suc left) =
      let (ids, count, fresh) = build_levels_lem lower step ratio (suc i) left in
      ((omega arith, ids), ap suc count, (refl, fresh))

  pub rebuild_grid-NumberedFrom :
      (s : LongGridStrategy F) (anchor : F) → NumberedFrom 1 (rebuild_grid s anchor).levels
  unfolding rebuild_grid
  rebuild_grid-NumberedFrom s anchor = (build_levels_lem _ _ _ 0 (pos_part s.cfg.levels)).0

  -- A tick either leaves the grid as it is, or ends with a grid rebuilt around its price.
  pub recenter_cases {κ} :
      (P : LongGridStrategy F → Type κ) (s : LongGridStrategy F) (price : F)
      → P s
      → ((t : LongGridStrategy F) → P t → P (rebuild_grid t price))
      → P (recenter s price)
  unfolding recenter
  recenter_cases P s price same rebuilt =
      let first : LongGridStrategy F = anchored s price in
      let start : P first =
        if_cases P (d.le s.anchor_price nought) (rebuild_grid s price) s (rebuilt s same) same in
      if_cases P (has_drifted first price) (rebuild_grid first price) first (rebuilt first start)
        start

  pub recenter-NumberedFrom :
      (s : LongGridStrategy F) (price : F)
      → NumberedFrom 1 s.levels
      → NumberedFrom 1 (recenter s price).levels
  recenter-NumberedFrom s price h =
      recenter_cases (λ t. NumberedFrom 1 t.levels) s price h
        (λ t _. rebuild_grid-NumberedFrom t price)
