-- ===== src/Rtl/NextState/Tests.antt =====
-- `if ...: self.io.valid = ...`, and the theorem at it.
use mathlib.Core.List.{Memᴰ}
use zuspec_be_sw.Prelude.{ℕ, ◌⊎◌, refl, List, [], ◌∷◌}
use zuspec_be_sw.Rtl.NextState.{
  self_ref, ref_field, attribute, assign, block, Stmts, done, seq, collect_written_fields,
}
use zuspec_be_sw.Rtl.NextState.Written.{plain_stmts, WritesIn, collect_written_fields-WritesIn}

abbrev field : ℕ
field = 4

abbrev body : Stmts
body = seq (block (seq (assign (attribute (ref_field self_ref 4) 2 ∷ [])) done) done done done) done

abbrev none_written : List ℕ
none_written = []

collect_written_fields-WritesIn_example :
    (Memᴰ field (collect_written_fields body none_written)
      → WritesIn field body ⊎ Memᴰ field none_written)
    × (WritesIn field body ⊎ Memᴰ field none_written
        → Memᴰ field (collect_written_fields body none_written))
unfolding plain_stmts
collect_written_fields-WritesIn_example =
    collect_written_fields-WritesIn field body none_written refl
