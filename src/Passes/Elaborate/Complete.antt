-- ===== src/Passes/Elaborate/Complete.antt =====
-- What `run` of src/zuspec/be/sw/passes/elaborate.py leaves in the context.
use mathlib.Core.List.{Memᴰ}
use zuspec_be_sw.Prelude.{
  ℕ, suc, ◌<◌, ◌≡◌, ◌≢◌, refl, sym, ap, ◌∙◌, false, ◌==◌, ==_refl, none, some, List, [], ◌∷◌, ◌++◌,
  arith,
}
use zuspec_be_sw.Passes.Elaborate.Syntax.{
  DataType, fields, name_of, binds, empty_name, top_word, or_name, ◌>>=◌,
}
use zuspec_be_sw.Passes.Elaborate.Instances.{InstPath, components, roots}
use zuspec_be_sw.Passes.Elaborate.Paths.{below, below_refl, child_type, type_at}
use zuspec_be_sw.Passes.Elaborate.Indexed.{FieldsDistinct, type_found, reach, instantiate-reach}
use zuspec_be_sw.Passes.Elaborate.Model.{AllModelled, modelled-IsHierarchy}
use zuspec_be_sw.Passes.Elaborate.Tops.{root_reaches, find_top-roots}
use zuspec_be_sw.Passes.Elaborate.Binds.{
  Connection, Context, elaborate_binds, all_binds, elaborated, run_top, run,
}
use zuspec_be_sw.Passes.Elaborate.Decoded.{elaborate_binds-Decoded}

-- A context of which one component is the field of no other, with enough fuel for the depth of its
-- hierarchy, which is not elaborated yet.
pub record IsReady (rank : DataType → ℕ) (fuel : ℕ) (ctxt : Context) (top : DataType) : Type 0 where
  pub only : roots (components ctxt.type_m) (components ctxt.type_m) ≡ top ∷ []
  pub modelled : AllModelled ctxt.type_m rank (components ctxt.type_m)
  pub depth : (t : DataType) → Memᴰ t (components ctxt.type_m) → rank t < fuel
  pub fresh : ctxt.inst_m ≡ []

abbrev pub root_name : (ℕ → ℕ) → DataType → ℕ
root_name lower top = lower (or_name (name_of top) top_word)

nil_append {ℓ} : {A : Type ℓ} (a b : List A) → b ≡ [] → a ++ b ≡ a
nil_append [] b e = e
nil_append (x ∷ a) b e = ap (λ l. x ∷ l) (nil_append a b e)

module _ {rank : DataType → ℕ} (lower : ℕ → ℕ) (fuel : ℕ) (ctxt : Context) (top : DataType)
    (ready : IsReady rank fuel ctxt top) where
  -- In a context that is ready, the pass ends, and inst_m has an instance at a path exactly where
  -- the path is the name of the root and component fields lead along its rest from the top, with
  -- the type that they lead to.
  pub run-reach :
      (done : Context) × (run lower none fuel ctxt ≡ some done)
      × ((x : InstPath)
          → type_found x done.inst_m ≡ reach ctxt.type_m top (below (root_name lower top ∷ []) x))
  unfolding run run_top elaborated ◌>>=◌
  run-reach =
      let (found, member) = find_top-roots ctxt.type_m top ready.only in
      let (made, e, same, indexed) =
        instantiate-reach ctxt.type_m fuel rank top (root_name lower top ∷ [])
          (modelled-IsHierarchy ctxt.type_m rank top ready.modelled member)
          (ready.depth top member) in
      (
        elaborated lower ctxt made,
        rw found (rw e refl),
        λ x. ap (type_found x) (nil_append made.1 ctxt.inst_m ready.fresh) ∙ indexed x,
      )

  -- The connections that the pass adds are those of the binds of all components.
  pub run-all_binds :
      (done : Context)
      → run lower none fuel ctxt ≡ some done
      → done.connections ≡ ctxt.connections ++ all_binds lower ctxt.type_m (components ctxt.type_m)
  unfolding run run_top elaborated ◌>>=◌
  run-all_binds done h =
      let (found, member) = find_top-roots ctxt.type_m top ready.only in
      let (made, e, same, indexed) =
        instantiate-reach ctxt.type_m fuel rank top (root_name lower top ∷ [])
          (modelled-IsHierarchy ctxt.type_m rank top ready.modelled member)
          (ready.depth top member) in
      let there : run lower none fuel ctxt ≡ some (elaborated lower ctxt made) =
        rw found (rw e refl) in
      let both : some (elaborated lower ctxt made) ≡ some done = sym there ∙ h in
      let same_done : elaborated lower ctxt made ≡ done = cc in
      ap (λ (c : Context). c.connections) (sym same_done)

  -- In a context that is ready, the pass ends, and each component of the model has an instance.
  pub run-every_component :
      (c : DataType)
      → Memᴰ c (components ctxt.type_m)
      → (done : Context) × (x : InstPath) × (run lower none fuel ctxt ≡ some done)
        × (type_found x done.inst_m ≡ some c)
  unfolding reach
  run-every_component c k =
      let (done, e, indexed) = run-reach in
      let (x, at) =
        root_reaches ctxt.type_m (suc fuel) fuel rank top c ready.only ready.modelled ready.depth k
          (omega arith) in
      (
        done,
        root_name lower top ∷ x,
        e,
        indexed (root_name lower top ∷ x) ∙ rw (below_refl (root_name lower top ∷ []) x) at,
      )

  module _ (n : ℕ) (named : name_of top ≡ some n) (full : n ≢ empty_name) where
    at_field :
        (f : ℕ)
        → reach ctxt.type_m top
            (below (root_name lower top ∷ []) (lower (or_name (name_of top) empty_name) ∷ f ∷ []))
          ≡ child_type ctxt.type_m f (fields top)
    unfolding reach below type_at or_name ◌>>=◌
    at_field f =
        let other : (n == empty_name) ≡ false = ground arith in
        rw (named, other) (rw (==_refl (lower n)) refl)

    -- Where the top has a name, which is not empty, and the context is ready, the two ends of a
    -- connection that the binds of the top make have an instance, at the path that the connection
    -- holds and of the type that it names.
    pub run-connections :
        (conn : Connection)
        → Memᴰ conn (elaborate_binds lower ctxt.type_m top (binds top))
        → (done : Context) × (initiator target : DataType) × (run lower none fuel ctxt ≡ some done)
          × (type_found conn.initiator_inst_path done.inst_m ≡ some initiator)
          × (or_name (name_of initiator) empty_name ≡ conn.initiator_component)
          × (type_found conn.target_inst_path done.inst_m ≡ some target)
          × (or_name (name_of target) empty_name ≡ conn.target_component)
    unfolding reach type_at child_type ◌>>=◌
    run-connections conn k =
        let (found, member) = find_top-roots ctxt.type_m top ready.only in
        let hierarchy = modelled-IsHierarchy ctxt.type_m rank top ready.modelled member in
        let decoded =
          elaborate_binds-Decoded lower ctxt.type_m top (binds top) conn
            (hierarchy.distinct [] top refl) k in
        let (done, e, indexed) = run-reach in
        (
          done,
          decoded.initiator.sub_type,
          decoded.target.sub_type,
          e,
          indexed conn.initiator_inst_path
              ∙ rw (decoded.initiator_path)
                  (at_field decoded.initiator.sub_field.name ∙ decoded.initiator_found),
          sym decoded.initiator_type,
          indexed conn.target_inst_path
              ∙ rw (decoded.target_path)
                  (at_field decoded.target.sub_field.name ∙ decoded.target_found),
          sym decoded.target_type,
        )

  -- In a context that is ready, a connection that the binds of another component make, with fields of
  -- distinct names and a name that is not the name of the root in lower case, holds two paths at
  -- which no instance is indexed.
  pub run-nested_connections :
      (owner : DataType) (conn : Connection)
      → FieldsDistinct ctxt.type_m (fields owner)
      → lower (or_name (name_of owner) empty_name) ≢ root_name lower top
      → Memᴰ conn (elaborate_binds lower ctxt.type_m owner (binds owner))
      → (done : Context) × (run lower none fuel ctxt ≡ some done)
        × (type_found conn.initiator_inst_path done.inst_m ≡ none)
        × (type_found conn.target_inst_path done.inst_m ≡ none)
  unfolding reach below
  run-nested_connections owner conn distinct other k =
      let decoded = elaborate_binds-Decoded lower ctxt.type_m owner (binds owner) conn distinct k in
      let (done, e, indexed) = run-reach in
      (
        done,
        e,
        indexed conn.initiator_inst_path
            ∙ astray conn.initiator_inst_path decoded.initiator.sub_field.name
                decoded.initiator_path,
        indexed conn.target_inst_path
            ∙ astray conn.target_inst_path decoded.target.sub_field.name decoded.target_path,
      )
    where
      astray :
          (path : InstPath) (f : ℕ)
          → path ≡ lower (or_name (name_of owner) empty_name) ∷ f ∷ []
          → reach ctxt.type_m top (below (root_name lower top ∷ []) path) ≡ none
      astray path f e =
          let no : (lower (or_name (name_of owner) empty_name) == root_name lower top) ≡ false =
            ground arith in
          rw e (rw no refl)
