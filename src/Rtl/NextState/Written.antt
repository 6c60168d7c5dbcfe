-- ===== src/Rtl/NextState/Written.antt =====
-- The fields that src/zuspec/be/sw/passes/rtl/next_state_split.py collects are those that are written.
use mathlib.Core.List.{Memᴰ}
use zuspec_be_sw.Prelude.{
  ℕ, ◌≡◌, ◌⊎◌, inl, inr, refl, sym, ap, ◌∙◌, subst, Bool, true, false, ◌&&◌, arith, Option, none,
  some, List, [], ◌∷◌,
}
use zuspec_be_sw.Rtl.NextState.{
  Target, self_ref, ref_field, attribute, subscript, other_target, Stmt, assign, aug_assign,
  ann_assign, block, Stmts, done, seq, target_field_index, add_index, add_targets, collect_written,
  collect_written_fields,
}

-- A target that is the field `i` of the component or lies in it, at any depth.
pub data WritesField (i : ℕ) : Target → Type 0 where
  whole : {j : ℕ} → j ≡ i → WritesField i (ref_field self_ref j)
  inner : {t : Target} {j : ℕ} → WritesField i t → WritesField i (ref_field t j)
  member : {t : Target} {a : ℕ} → WritesField i t → WritesField i (attribute t a)
  element : {t : Target} → WritesField i t → WritesField i (subscript t)

-- A field of the component, an attribute of one, or no part of the component.
abbrev pub is_plain : Target → Bool
is_plain (ref_field self_ref i) = true
is_plain (attribute (ref_field self_ref i) a) = true
is_plain other_target = true
is_plain _ = false

abbrev pub are_plain : List Target → Bool
are_plain [] = true
are_plain (t ∷ ts) = is_plain t && are_plain ts

abbrev pub is_other : Target → Bool
is_other other_target = true
is_other _ = false

-- The targets are plain, and no annotated assignment writes a part of the component.
unfoldable mutual
  pub plain_stmt : Stmt → Bool
  plain_stmt (assign ts) = are_plain ts
  plain_stmt (aug_assign t) = is_plain t
  plain_stmt (ann_assign t) = is_other t
  plain_stmt (block a b c d) = plain_stmts a && (plain_stmts b && (plain_stmts c && plain_stmts d))

  pub plain_stmts : Stmts → Bool
  plain_stmts done = true
  plain_stmts (seq s ss) = plain_stmt s && plain_stmts ss

index-WritesField : (i : ℕ) (t : Target) → target_field_index t ≡ some i → WritesField i t
unfolding target_field_index
index-WritesField i (ref_field self_ref j) e = WritesField.whole (ground arith)
index-WritesField i (ref_field (ref_field b k) j) e = cc
index-WritesField i (ref_field (attribute b k) j) e = cc
index-WritesField i (ref_field (subscript b) j) e = cc
index-WritesField i (ref_field other_target j) e = cc
index-WritesField i (attribute (ref_field self_ref j) a) e =
    WritesField.member (WritesField.whole (ground arith))
index-WritesField i (attribute (ref_field (ref_field b k) j) a) e = cc
index-WritesField i (attribute (ref_field (attribute b k) j) a) e = cc
index-WritesField i (attribute (ref_field (subscript b) j) a) e = cc
index-WritesField i (attribute (ref_field other_target j) a) e = cc
index-WritesField i (attribute self_ref a) e = cc
index-WritesField i (attribute (attribute b k) a) e = cc
index-WritesField i (attribute (subscript b) a) e = cc
index-WritesField i (attribute other_target a) e = cc
index-WritesField i self_ref e = cc
index-WritesField i (subscript b) e = cc
index-WritesField i other_target e = cc

plain_index :
    (i : ℕ) (t : Target) → is_plain t ≡ true → WritesField i t → target_field_index t ≡ some i
unfolding target_field_index
plain_index i (ref_field self_ref j) h (WritesField.whole e) = ap some e
plain_index i (ref_field self_ref j) h (WritesField.inner w) = elim w [ ]
plain_index i (ref_field (ref_field b k) j) h w = cc
plain_index i (ref_field (attribute b k) j) h w = cc
plain_index i (ref_field (subscript b) j) h w = cc
plain_index i (ref_field other_target j) h w = cc
plain_index i (attribute (ref_field self_ref j) a) h (WritesField.member (WritesField.whole e)) =
    ap some e
plain_index i (attribute (ref_field self_ref j) a) h (WritesField.member (WritesField.inner w)) =
    elim w [ ]
plain_index i (attribute (ref_field (ref_field b k) j) a) h w = cc
plain_index i (attribute (ref_field (attribute b k) j) a) h w = cc
plain_index i (attribute (ref_field (subscript b) j) a) h w = cc
plain_index i (attribute (ref_field other_target j) a) h w = cc
plain_index i (attribute self_ref a) h w = cc
plain_index i (attribute (attribute b k) a) h w = cc
plain_index i (attribute (subscript b) a) h w = cc
plain_index i (attribute other_target a) h w = cc
plain_index i self_ref h w = cc
plain_index i (subscript b) h w = cc
plain_index i other_target h w = elim w [ ]

are_plain-all :
    (ts : List Target) (t : Target) → are_plain ts ≡ true → Memᴰ t ts → is_plain t ≡ true
are_plain-all [] t h m = elim m [ ]
are_plain-all (x ∷ ts) t h (Memᴰ.head e) =
    let first : is_plain x ≡ true = ground arith in ap is_plain e ∙ first
are_plain-all (x ∷ ts) t h (Memᴰ.tail m) = are_plain-all ts t (ground arith) m

-- A target that writes the field `i`, in a statement or anywhere under it.
mutual
  pub data Writes (i : ℕ) : Stmt → Type 0 where
    assigned : {ts : List Target} {t : Target} → Memᴰ t ts → WritesField i t → Writes i (assign ts)
    augmented : {t : Target} → WritesField i t → Writes i (aug_assign t)
    annotated : {t : Target} → WritesField i t → Writes i (ann_assign t)
    in_body : {a b c d : Stmts} → WritesIn i a → Writes i (block a b c d)
    in_orelse : {a b c d : Stmts} → WritesIn i b → Writes i (block a b c d)
    in_handlers : {a b c d : Stmts} → WritesIn i c → Writes i (block a b c d)
    in_finalbody : {a b c d : Stmts} → WritesIn i d → Writes i (block a b c d)

  pub data WritesIn (i : ℕ) : Stmts → Type 0 where
    now : {s : Stmt} {ss : Stmts} → Writes i s → WritesIn i (seq s ss)
    after : {s : Stmt} {ss : Stmts} → WritesIn i ss → WritesIn i (seq s ss)

add_found : (i : ℕ) (o : Option ℕ) (w : List ℕ) → Memᴰ i (add_index o w) → (o ≡ some i) ⊎ Memᴰ i w
add_found i none w m = inr m
add_found i (some j) w (Memᴰ.head e) = inl (ap some (sym e))
add_found i (some j) w (Memᴰ.tail m) = inr m

add_targets_found :
    (i : ℕ) (ts : List Target) (w : List ℕ)
    → Memᴰ i (add_targets ts w)
    → ((t : Target) × (Memᴰ t ts × (target_field_index t ≡ some i))) ⊎ Memᴰ i w
unfolding add_targets
add_targets_found i [] w m = inr m
add_targets_found i (t ∷ ts) w m =
    elim (add_targets_found i ts (add_index (target_field_index t) w) m) [
      | inl f ↦ inl (f.0, (Memᴰ.tail f.1.0, f.1.1))
      | inr n ↦ elim (add_found i (target_field_index t) w n) [
        | inl e ↦ inl (t, (Memᴰ.head refl, e))
        | inr old ↦ inr old
      ]
    ]

mutual
  unfolding collect_written collect_written_fields

  found : (i : ℕ) (s : Stmt) (w : List ℕ) → Memᴰ i (collect_written s w) → Writes i s ⊎ Memᴰ i w
  found i (assign ts) w m = elim (add_targets_found i ts w m) [
    | inl f ↦ inl (assigned f.1.0 (index-WritesField i f.0 f.1.1))
    | inr old ↦ inr old
  ]
  found i (aug_assign t) w m = elim (add_found i (target_field_index t) w m) [
    | inl e ↦ inl (augmented (index-WritesField i t e))
    | inr old ↦ inr old
  ]
  found i (ann_assign t) w m = inr m
  found i (block a b c d) w m = elim (found_in i d _ m) [
    | inl f ↦ inl (in_finalbody f)
    | inr m₁ ↦ elim (found_in i c _ m₁) [
      | inl f ↦ inl (in_handlers f)
      | inr m₂ ↦ elim (found_in i b _ m₂) [
        | inl f ↦ inl (in_orelse f)
        | inr m₃ ↦ elim (found_in i a _ m₃) [ inl f ↦ inl (in_body f) | inr old ↦ inr old ]
      ]
    ]
  ]

  found_in :
      (i : ℕ) (ss : Stmts) (w : List ℕ)
      → Memᴰ i (collect_written_fields ss w)
      → WritesIn i ss ⊎ Memᴰ i w
  found_in i done w m = inr m
  found_in i (seq s ss) w m = elim (found_in i ss _ m) [
    | inl f ↦ inl (after f)
    | inr n ↦ elim (found i s w n) [ inl f ↦ inl (now f) | inr old ↦ inr old ]
  ]

add_keeps : (i : ℕ) (o : Option ℕ) (w : List ℕ) → Memᴰ i w → Memᴰ i (add_index o w)
add_keeps i none w m = m
add_keeps i (some j) w m = Memᴰ.tail m

add_targets_keeps : (i : ℕ) (ts : List Target) (w : List ℕ) → Memᴰ i w → Memᴰ i (add_targets ts w)
unfolding add_targets
add_targets_keeps i [] w m = m
add_targets_keeps i (t ∷ ts) w m =
    add_targets_keeps i ts (add_index (target_field_index t) w)
      (add_keeps i (target_field_index t) w m)

mutual
  unfolding collect_written collect_written_fields

  keeps : (i : ℕ) (s : Stmt) (w : List ℕ) → Memᴰ i w → Memᴰ i (collect_written s w)
  keeps i (assign ts) w m = add_targets_keeps i ts w m
  keeps i (aug_assign t) w m = add_keeps i (target_field_index t) w m
  keeps i (ann_assign t) w m = m
  keeps i (block a b c d) w m = keeps_in i d _ (keeps_in i c _ (keeps_in i b _ (keeps_in i a w m)))

  keeps_in : (i : ℕ) (ss : Stmts) (w : List ℕ) → Memᴰ i w → Memᴰ i (collect_written_fields ss w)
  keeps_in i done w m = m
  keeps_in i (seq s ss) w m = keeps_in i ss _ (keeps i s w m)

add_new : (i : ℕ) (o : Option ℕ) (w : List ℕ) → o ≡ some i → Memᴰ i (add_index o w)
add_new i o w e = subst (λ p. Memᴰ i (add_index p w)) (sym e) (Memᴰ.head refl)

add_targets_new :
    (i : ℕ) (ts : List Target) (t : Target) (w : List ℕ)
    → Memᴰ t ts
    → target_field_index t ≡ some i
    → Memᴰ i (add_targets ts w)
unfolding add_targets
add_targets_new i [] t w m e = elim m [ ]
add_targets_new i (x ∷ ts) t w (Memᴰ.head same) e =
    add_targets_keeps i ts (add_index (target_field_index x) w)
      (add_new i (target_field_index x) w (ap target_field_index (sym same) ∙ e))
add_targets_new i (x ∷ ts) t w (Memᴰ.tail m) e = add_targets_new i ts t _ m e

mutual
  unfolding collect_written collect_written_fields plain_stmt plain_stmts

  covers :
      (i : ℕ) (s : Stmt) (w : List ℕ)
      → plain_stmt s ≡ true
      → Writes i s
      → Memᴰ i (collect_written s w)
  covers i (assign ts) w h (assigned {t} m e) =
      add_targets_new i ts t w m (plain_index i t (are_plain-all ts t h m) e)
  covers i (aug_assign t) w h (augmented e) =
      add_new i (target_field_index t) w (plain_index i t h e)
  covers i (ann_assign other_target) w h (annotated e) = elim e [ ]
  covers i (ann_assign self_ref) w h f = cc
  covers i (ann_assign (ref_field t j)) w h f = cc
  covers i (ann_assign (attribute t j)) w h f = cc
  covers i (ann_assign (subscript t)) w h f = cc
  covers i (block a b c d) w h (in_body f) =
      keeps_in i d _ (keeps_in i c _ (keeps_in i b _ (covers_in i a w (ground arith) f)))
  covers i (block a b c d) w h (in_orelse f) =
      keeps_in i d _ (keeps_in i c _ (covers_in i b _ (ground arith) f))
  covers i (block a b c d) w h (in_handlers f) = keeps_in i d _ (covers_in i c _ (ground arith) f)
  covers i (block a b c d) w h (in_finalbody f) = covers_in i d _ (ground arith) f

  covers_in :
      (i : ℕ) (ss : Stmts) (w : List ℕ)
      → plain_stmts ss ≡ true
      → WritesIn i ss
      → Memᴰ i (collect_written_fields ss w)
  covers_in i done w h f = elim f [ ]
  covers_in i (seq s ss) w h (now f) = keeps_in i ss _ (covers i s w (ground arith) f)
  covers_in i (seq s ss) w h (after f) = covers_in i ss _ (ground arith) f

-- The fields that are collected from a body are those that an assignment in it writes, whole or in
-- part, at its top level or in a block, and those that were collected before. A target is a field of
-- the component, an attribute of one or no part of the component, and an annotated assignment
-- writes no part of the component.
pub collect_written_fields-WritesIn :
    (i : ℕ) (body : Stmts) (written : List ℕ)
    → plain_stmts body ≡ true
    → (Memᴰ i (collect_written_fields body written) → WritesIn i body ⊎ Memᴰ i written)
      × (WritesIn i body ⊎ Memᴰ i written → Memᴰ i (collect_written_fields body written))
collect_written_fields-WritesIn i body written plain = (
  found_in i body written,
  λ o. elim o [ inl f ↦ covers_in i body written plain f | inr m ↦ keeps_in i body written m ],
)
