-- ===== src/Rtl/NextState.antt =====
-- src/zuspec/be/sw/passes/rtl/next_state_split.py: the fields that a @sync body writes.
pub mod Written
mod Tests
use mathlib.Core.List.{Memᴰ}
use zuspec_be_sw.Prelude.{
  ℕ, zero, suc, ◌+◌, ◌≡◌, ◌↔◌, ◌⊎◌, inl, inr, refl, sym, ap, ◌∙◌, subst, Bool, true, false, Option,
  none, some, List, [], ◌∷◌, ◌++◌, length, ltb, if◌then◌else◌, get_or,
}

-- The targets of assignments as `_target_field_index` tells them apart.
pub data Target : Type 0 where
  self_ref : Target
  ref_field : Target → ℕ → Target
  attribute : Target → ℕ → Target
  subscript : Target → Target
  other_target : Target

-- The statements: `ann_assign` is `StmtAnnAssign`, which has no bodies, and `block` any other class, by its `body`, `orelse`, `handlers` and `finalbody`.
mutual
  pub data Stmt : Type 0 where
    assign : List Target → Stmt
    aug_assign : Target → Stmt
    ann_assign : Target → Stmt
    block : Stmts → Stmts → Stmts → Stmts → Stmt

  pub data Stmts : Type 0 where
    done : Stmts
    seq : Stmt → Stmts → Stmts

-- `_target_field_index`: `none` is -1.
unfoldable pub target_field_index : Target → Option ℕ
target_field_index (ref_field self_ref index) = some index
target_field_index (attribute (ref_field self_ref index) attr) = some index
target_field_index _ = none

-- `written.add(idx)`: a set is the list of what was added.
abbrev pub add_index : Option ℕ → List ℕ → List ℕ
add_index none written = written
add_index (some index) written = index ∷ written

unfoldable pub add_targets : List Target → List ℕ → List ℕ
unfolding target_field_index
add_targets [] written = written
add_targets (t ∷ ts) written = add_targets ts (add_index (target_field_index t) written)

-- `_collect_written_fields`
unfoldable mutual
  unfolding add_targets target_field_index

  pub collect_written : Stmt → List ℕ → List ℕ
  collect_written (assign targets) written = add_targets targets written
  collect_written (aug_assign target) written = add_index (target_field_index target) written
  collect_written (ann_assign target) written = written
  collect_written (block body orelse handlers finalbody) written =
      collect_written_fields finalbody (
        collect_written_fields handlers
          (collect_written_fields orelse (collect_written_fields body written)))

  pub collect_written_fields : Stmts → List ℕ → List ℕ
  collect_written_fields done written = written
  collect_written_fields (seq s ss) written = collect_written_fields ss (collect_written s written)

-- `fields[i].name` where `i` is a field, for the names of the fields.
abbrev name_at : List ℕ → ℕ → List ℕ
name_at names i = if ltb i (length names) then get_or names i 0 ∷ [] else []

abbrev names_at : List ℕ → List ℕ → List ℕ
names_at names [] = []
names_at names (i ∷ is) = name_at names i ++ names_at names is

unfoldable pub collect_processes : List Stmts → List ℕ → List ℕ
unfolding collect_written_fields
collect_processes [] written = written
collect_processes (body ∷ bodies) written =
    collect_processes bodies (collect_written_fields body written)

-- `NextStateSplitPass.run`: the names in `ctx.rtl_nxt_fields`.
unfoldable pub nxt_fields : List ℕ → List Stmts → List ℕ
unfolding collect_processes
nxt_fields names bodies = names_at names (collect_processes bodies [])
