-- ===== src/Passes/Devirtualize/Direct.antt =====
-- The direct calls of src/zuspec/be/sw/passes/devirtualize.py after the elaboration of
-- src/zuspec/be/sw/passes/elaborate.py.
use mathlib.Core.List.{Memᴰ}
use mathlib.Core.List.Memᴰ.{append_cases}
use zuspec_be_sw.Prelude.{
  ℕ, ◌≡◌, ◌≢◌, refl, sym, ap, subst, ◌∙◌, inl, inr, ◌⊎◌, true, none, some, List, [], ◌∷◌, ◌++◌,
  Bool-cases,
}
use zuspec_be_sw.Passes.Elaborate.Syntax.{DataType, name_of, binds, empty_name, or_name}
use zuspec_be_sw.Passes.Elaborate.Instances.{components}
use zuspec_be_sw.Passes.Elaborate.Indexed.{type_found}
use zuspec_be_sw.Passes.Elaborate.Binds.{Connection, Context, elaborate_binds, all_binds, run}
use zuspec_be_sw.Passes.Elaborate.Complete.{IsReady, run-all_binds, run-connections}
use zuspec_be_sw.Passes.Devirtualize.{
  same_key, same_key-eq, run_devirtualize, key_of, direct_call, connections_of, only_or,
  run_devirtualize-direct_call,
}

connections_of-member :
    (k : ℕ × ℕ) (cs : List Connection) (c : Connection)
    → Memᴰ c (connections_of k cs)
    → Memᴰ c cs × (same_key k (key_of c) ≡ true)
unfolding connections_of
connections_of-member k [] c m = elim m [ ]
connections_of-member k (d ∷ cs) c m = elim (Bool-cases (same_key k (key_of d))) [
  | inl e ↦ first e (subst (λ l. Memᴰ c l) (rw e refl) m) (connections_of-member k cs c)
  | inr e ↦
      let (deep, same) = connections_of-member k cs c (subst (λ l. Memᴰ c l) (rw e refl) m) in
      (Memᴰ.tail deep, same)
]
  where
    first :
        same_key k (key_of d) ≡ true
        → Memᴰ c (d ∷ connections_of k cs)
        → (Memᴰ c (connections_of k cs) → Memᴰ c cs × (same_key k (key_of c) ≡ true))
        → Memᴰ c (d ∷ cs) × (same_key k (key_of c) ≡ true)
    first e (Memᴰ.head p) rest = (Memᴰ.head p, subst (λ x. same_key k (key_of x) ≡ true) (sym p) e)
    first e (Memᴰ.tail j) rest = let (deep, same) = rest j in (Memᴰ.tail deep, same)

-- The only connection of a port is one of them.
only_or-member : (cs : List Connection) (c : Connection) → only_or cs none ≡ some c → Memᴰ c cs
unfolding only_or
only_or-member [] c e = absurd (cc)
only_or-member (d ∷ []) c e = Memᴰ.head (cc)
only_or-member (d ∷ f ∷ cs) c e = absurd (cc)

all_binds-member :
    (lower : ℕ → ℕ) (type_m : List (ℕ × DataType)) (cs : List DataType) (conn : Connection)
    → Memᴰ conn (all_binds lower type_m cs)
    → (c : DataType) × Memᴰ c cs × Memᴰ conn (elaborate_binds lower type_m c (binds c))
unfolding all_binds
all_binds-member lower type_m [] conn k = elim k [ ]
all_binds-member lower type_m (c ∷ cs) conn k =
    elim (append_cases (elaborate_binds lower type_m c (binds c)) k) [
      | inl j ↦ (c, Memᴰ.head refl, j)
      | inr j ↦ let (d, m, i) = all_binds-member lower type_m cs conn j in (d, Memᴰ.tail m, i)
    ]

no_bind :
    (lower : ℕ → ℕ) (type_m : List (ℕ × DataType)) (c : DataType) (conn : Connection)
    → ¬ Memᴰ conn (elaborate_binds lower type_m c [])
unfolding elaborate_binds
no_bind lower type_m c conn k = elim k [ ]

-- Where the context is ready, the top has a name, which is not empty, and no other component has
-- binds, a port that is called directly is the initiator of one of the connections, and the two ends
-- of that connection have an instance, of the types that the key and the connection name.
pub run_devirtualize-run :
    {rank : DataType → ℕ} (lower : ℕ → ℕ) (fuel : ℕ) (ctxt : Context) (top : DataType) (n : ℕ)
    (k : ℕ × ℕ) (conn : Connection) (done : Context)
    → IsReady rank fuel ctxt top
    → name_of top ≡ some n
    → n ≢ empty_name
    → ctxt.connections ≡ []
    → ((c : DataType) → Memᴰ c (components ctxt.type_m) → (c ≡ top) ⊎ (binds c ≡ []))
    → run lower none fuel ctxt ≡ some done
    → direct_call k (run_devirtualize done.connections []) ≡ some conn
    → Memᴰ conn done.connections
      × (conn.initiator_component ≡ k.0)
      × (conn.initiator_port ≡ k.1)
      × (initiator target : DataType) × (type_found conn.initiator_inst_path done.inst_m
          ≡ some initiator)
      × (or_name (name_of initiator) empty_name ≡ k.0)
      × (type_found conn.target_inst_path done.inst_m ≡ some target)
      × (or_name (name_of target) empty_name ≡ conn.target_component)
unfolding direct_call key_of
run_devirtualize-run lower fuel ctxt top n k conn done ready named full fresh only_top h direct =
    let alone = sym (run_devirtualize-direct_call k done.connections []) ∙ direct in
    let (member, same) =
      connections_of-member k done.connections conn
        (only_or-member (connections_of k done.connections) conn alone) in
    let made = run-all_binds lower fuel ctxt top ready done h in
    let listed : Memᴰ conn (all_binds lower ctxt.type_m (components ctxt.type_m)) =
      subst (λ l. Memᴰ conn l)
        (made ∙ ap (λ l. l ++ all_binds lower ctxt.type_m (components ctxt.type_m)) fresh) member in
    let (c, known, bound) =
      all_binds-member lower ctxt.type_m (components ctxt.type_m) conn listed in
    elim (only_top c known) [
      | inr nothing ↦ absurd (
          no_bind lower ctxt.type_m c conn
            (subst (λ b. Memᴰ conn (elaborate_binds lower ctxt.type_m c b)) nothing bound))
      | inl is_top ↦
          let at_top =
            subst (λ t. Memᴰ conn (elaborate_binds lower ctxt.type_m t (binds t))) is_top bound in
          let (final, initiator, target, e, found, name, found', name') =
            run-connections lower fuel ctxt top ready n named full conn at_top in
          let same_done : final ≡ done = let both = sym e ∙ h in cc in
          let key_same = same_key-eq k (key_of conn) same in
          (
            member,
            ap (λ (x : ℕ × ℕ). x.0) (sym key_same),
            ap (λ (x : ℕ × ℕ). x.1) (sym key_same),
            initiator,
            target,
            subst (λ (x : Context). type_found conn.initiator_inst_path x.inst_m ≡ some initiator)
                same_done found,
            name ∙ ap (λ (x : ℕ × ℕ). x.0) (sym key_same),
            subst (λ (x : Context). type_found conn.target_inst_path x.inst_m ≡ some target)
                same_done found',
            name',
          )
    ]
