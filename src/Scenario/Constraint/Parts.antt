-- ===== src/Scenario/Constraint/Parts.antt =====
-- The parts of the emitter compute the values of the parts of an expression.
use zuspec_be_sw.Prelude.{
  ℕ, zero, suc, ◌+◌, ◌*◌, ◌^◌, ◌≤◌, ◌≡◌, ◌∙◌, true, false, Option, none, some, List, if◌then◌else◌,
}
use zuspec_be_sw.Prelude.Int.{ℤ, pos, negsuc, distance, low_bits}
use zuspec_be_sw.Scenario.Constraint.Builder.{
  DvsBin, dvs_band, dvs_rshift, Ref, const_call, State, ok, Emit, raise, emit, unsupported,
}
use zuspec_be_sw.Scenario.Constraint.Syntax.{BinOp, bin_table}
use zuspec_be_sw.Scenario.Constraint.Emitter.{
  const, binary, Bounds, no_bounds, bad_bounds, bounds, mask_of, Masked, not_masked, masked_error,
  masked, emit_masked, is_equality, plain_bin, masked_or, emit_bin, shift_down, emit_bit_extract,
}
use zuspec_be_sw.Scenario.Constraint.Solver.{Solver, Machine}
use zuspec_be_sw.Scenario.Constraint.Meaning.{
  nothing, int_value, masked_value, masked_or_value, bin_value, shifted_value, extract_value,
}
use zuspec_be_sw.Scenario.Constraint.Computes.{
  >>=-eq-ok, bind-ok, at, Gives, Gives-after, Gives-later, Spec, emit-Gives, binary-Gives, SpecAll,
  pure-Gives, plain_bin-Spec,
}

module _ (s : Solver) (vars : ℕ → Solver.Value s) (start : Machine s) where
  open s use {Value, const_value, binary_value, unary_value, in_range_value}

  abbrev pub Sound : Emit Ref → Value → Type 0
  Sound = Spec s vars start

  abbrev pub SoundAll : Emit (List Ref) → List Value → Type 0
  SoundAll = SpecAll s vars start

  pub const-Spec : (v : ℤ) → Sound (const v) (int_value s v)
  unfolding const
  const-Spec (pos v) st st' t k = emit-Gives s vars start (const_call (pos v) 0) st st' t k
  const-Spec (negsuc v) st st' t k = emit-Gives s vars start (const_call (negsuc v) 1) st st' t k

  emit_masked-Spec :
      (code : DvsBin) {x : Emit Ref} {v : Value} (hi lo c : ℤ)
      → Sound x v
      → Sound (emit_masked code x hi lo c) (masked_value s code v hi lo c)
  unfolding emit_masked
  emit_masked-Spec code hi (negsuc lo) c hx st st' t k = cc
  emit_masked-Spec code {x} hi (pos lo) c hx st st' t k =
      let width = distance hi (pos lo) + 1 in
      let mask = const_call (pos (mask_of width * 2 ^ lo)) 0 in
      bind-ok x _ st k λ r st₁ e₁ k₁. bind-ok (emit mask) _ st₁ k₁ λ mref st₂ e₂ k₂.
        bind-ok (binary dvs_band r mref) _ st₂ k₂ λ band st₃ e₃ k₃.
          bind-ok (emit (const_call (pos (low_bits c width * 2 ^ lo)) 0)) _ st₃ k₃ λ cref st₄ e₄ k₄.
            let g₁ = hx st st₁ r e₁ in
            let g₂ = emit-Gives s vars start mask st₁ st₂ mref e₂ in
            let g₃ =
              binary-Gives s vars start dvs_band r mref st₂ st₃ band
                (Gives-later s vars start g₁ g₂.ext).value g₂.value e₃ in
            let g₄ =
              emit-Gives s vars start (const_call (pos (low_bits c width * 2 ^ lo)) 0) st₃ st₄ cref
                e₄ in
            Gives-after s vars start g₁.ext (
              Gives-after s vars start g₂.ext (
                Gives-after s vars start g₃.ext (
                  Gives-after s vars start g₄.ext (
                    binary-Gives s vars start code band cref st₄ st' t
                      (Gives-later s vars start g₃ g₄.ext).value g₄.value k₄))))

  masked_or-Spec :
      (code : DvsBin) (side : Masked) {x next : Emit Ref} {v w : Value}
      → Sound x v
      → Sound next w
      → Sound (masked_or code side x next) (masked_or_value s code side v w)
  masked_or-Spec code not_masked hx hn st st' t k = hn st st' t k
  masked_or-Spec code (masked_error e) hx hn st st' t k = cc
  masked_or-Spec code (masked hi lo c) hx hn st st' t k =
      emit_masked-Spec code hi lo c hx st st' t k

  pub emit_bin-Spec :
      (op : BinOp) (left right : Masked) {x y l r : Emit Ref} {vx vy vl vr : Value}
      → Sound x vx
      → Sound y vy
      → Sound l vl
      → Sound r vr
      → Sound (emit_bin op left right x y l r) (bin_value s op left right vx vy vl vr)
  unfolding emit_bin
  emit_bin-Spec op left right {x} {y} {l} {r} {vx} {vy} {vl} {vr} hx hy hl hr = go (bin_table op)
    where
      go :
          (code : Option DvsBin)
          → Sound
              (elim code [
                | none ↦ raise unsupported
                | some c ↦
                    if is_equality op
                    then masked_or c left x (masked_or c right y (plain_bin c l r))
                    else plain_bin c l r
              ])
              (elim code [
                | none ↦ nothing s
                | some c ↦
                    if is_equality op
                    then masked_or_value s c left vx
                        (masked_or_value s c right vy (binary_value c vl vr))
                    else binary_value c vl vr
              ])
      go none st st' t k = cc
      go (some c) st st' t k =
          (elim (is_equality op)
              as (λ b.
                Sound
                  (if b
                    then masked_or c left x (masked_or c right y (plain_bin c l r))
                    else plain_bin c l r)
                  (if b
                    then masked_or_value s c left vx
                        (masked_or_value s c right vy (binary_value c vl vr))
                    else binary_value c vl vr)) [
                      | true ↦
                          masked_or-Spec c left hx
                            (masked_or-Spec c right hy (plain_bin-Spec s vars start c hl hr))
                      | false ↦ plain_bin-Spec s vars start c hl hr
                    ])
            st st' t k

  shift_down-Gives :
      (lo : ℤ) (r : Ref) (st st' : State) (t : Ref) {v : Value}
      → r ≤ st.n
      → (at s vars start st).env r ≡ v
      → shift_down lo r st ≡ ok (t, st')
      → Gives s vars start st st' t (shifted_value s lo v)
  unfolding shift_down
  shift_down-Gives (pos zero) r st st' t h e k = pure-Gives s vars start r st st' t h e k
  shift_down-Gives (pos (suc lo)) r st st' t h e k =
      let (c, st₁, e₁, k₁) = >>=-eq-ok (const (pos (suc lo))) (λ c. binary dvs_rshift r c) st k in
      let g = const-Spec (pos (suc lo)) st st₁ c e₁ in
      Gives-after s vars start g.ext
        (binary-Gives s vars start dvs_rshift r c st₁ st' t (g.ext.keep r h ∙ e) g.value k₁)
  shift_down-Gives (negsuc lo) r st st' t h e k =
      let (c, st₁, e₁, k₁) = >>=-eq-ok (const (negsuc lo)) (λ c. binary dvs_rshift r c) st k in
      let g = const-Spec (negsuc lo) st st₁ c e₁ in
      Gives-after s vars start g.ext
        (binary-Gives s vars start dvs_rshift r c st₁ st' t (g.ext.keep r h ∙ e) g.value k₁)

  pub extract-Spec :
      (b : Bounds) {x : Emit Ref} {v : Value}
      → Sound x v
      → Sound (emit_bit_extract x b) (extract_value s v b)
  unfolding emit_bit_extract
  extract-Spec no_bounds hx st st' t k = cc
  extract-Spec bad_bounds hx st st' t k = cc
  extract-Spec (bounds hi lo) {x} hx st st' t k =
      let mask = pos (mask_of (distance hi lo + 1)) in
      bind-ok x _ st k λ r st₁ e₁ k₁. bind-ok (shift_down lo r) _ st₁ k₁ λ sh st₂ e₂ k₂.
        bind-ok (const mask) _ st₂ k₂ λ mref st₃ e₃ k₃.
          let g₁ = hx st st₁ r e₁ in
          let g₂ = shift_down-Gives lo r st₁ st₂ sh g₁.fresh g₁.value e₂ in
          let g₃ = const-Spec mask st₂ st₃ mref e₃ in
          Gives-after s vars start g₁.ext (
            Gives-after s vars start g₂.ext (
              Gives-after s vars start g₃.ext (
                binary-Gives s vars start dvs_band sh mref st₃ st' t
                  (Gives-later s vars start g₂ g₃.ext).value g₃.value k₃)))
