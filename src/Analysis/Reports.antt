-- ===== src/Analysis/Reports.antt =====
-- What the map of src/zuspec/be/sw/async_analyzer.py says of a function.
use mathlib.Core.List.{Memᴰ}
use zuspec_be_sw.Prelude.{
  ℕ, ◌≡◌, ◌⊎◌, refl, sym, ap, ◌∙◌, true, false, not, List, [], ◌∷◌, arith, if◌then◌else◌,
  Bool-cases, inl, inr,
}
use zuspec_be_sw.Analysis.Syntax.{Func, DataType, component, protocol, other_type}
use zuspec_be_sw.Analysis.Analyzer.{
  FuncId, eq_id, has_id, SyncMap, can_convert_to_sync, identify_external_tasks, analyze_component,
  analyze_types, analyze, lookup, is_sync_convertible,
}

-- The map says that a key may be made sync, by an async function of a component that may.
abbrev pub IsWitnessed : List FuncId → List (ℕ × DataType) → ℕ → ℕ → Type 0
IsWitnessed external types comp name =
    (type_name : ℕ) × (functions : List Func) × (f : Func) × (Memᴰ
        (type_name, component comp functions) types
      × (Memᴰ f functions
          × ((f.name ≡ name)
              × ((f.is_async ≡ true)
                  × ((has_id (comp, name) external ≡ false) × (can_convert_to_sync f ≡ true))))))

empty_map : (comp name : ℕ) → lookup (comp, name) [] ≡ true → ⊥
unfolding lookup
empty_map comp name h = cc

-- The same for the functions of one component.
abbrev IsWitnessedIn : List FuncId → ℕ → List Func → FuncId → Type 0
IsWitnessedIn external comp fs id =
    (comp ≡ id.0)
    × ((f : Func) × (Memᴰ f fs
          × ((f.name ≡ id.1)
              × ((f.is_async ≡ true)
                  × ((has_id id external ≡ false) × (can_convert_to_sync f ≡ true))))))

later_func :
    (external : List FuncId) (comp : ℕ) (f : Func) (fs : List Func) (id : FuncId)
    → IsWitnessedIn external comp fs id
    → IsWitnessedIn external comp (f ∷ fs) id
later_func external comp f fs id w = (w.0, (w.1.0, (Memᴰ.tail w.1.1.0, w.1.1.1)))

-- What the analysis of one function stores.
abbrev after_func : List FuncId → ℕ → Func → SyncMap → SyncMap
after_func external comp f sync =
    let id : FuncId = (comp, f.name) in
    if not f.is_async
    then sync
    else (id, (if has_id id external then false else can_convert_to_sync f)) ∷ sync

lookup-after_func :
    (external : List FuncId) (comp : ℕ) (f : Func) (fs : List Func) (sync : SyncMap) (id : FuncId)
    → lookup id (after_func external comp f sync) ≡ true
    → (lookup id sync ≡ true) ⊎ IsWitnessedIn external comp (f ∷ fs) id
unfolding lookup
lookup-after_func external comp f fs sync id h = elim (Bool-cases f.is_async) [
  | inr a ↦ inl (ground arith)
  | inl a ↦ elim (Bool-cases (eq_id id (comp, f.name))) [
    | inr e ↦ inl (ground arith)
    | inl e ↦
        let first : comp ≡ id.0 = ground arith in
        let second : f.name ≡ id.1 = ground arith in
        let same : (comp, f.name) ≡ id = cc in
        let stored : (if has_id (comp, f.name) external then false else can_convert_to_sync f)
            ≡ true =
          ground arith in
        let outside : has_id (comp, f.name) external ≡ false = ground arith in
        let yes : can_convert_to_sync f ≡ true = ground arith in
        inr (
          first,
          (
            f,
            (
              Memᴰ.head refl,
              (second, (a, (sym (ap (λ i. has_id i external) same) ∙ outside, yes))),
            ),
          ),
        )
  ]
]

lookup-analyze_component :
    (external : List FuncId) (comp : ℕ) (fs : List Func) (sync : SyncMap) (id : FuncId)
    → lookup id (analyze_component external comp fs sync) ≡ true
    → (lookup id sync ≡ true) ⊎ IsWitnessedIn external comp fs id
unfolding analyze_component lookup
lookup-analyze_component external comp [] sync id h = inl h
lookup-analyze_component external comp (f ∷ fs) sync id h =
    elim (lookup-analyze_component external comp fs (after_func external comp f sync) id h) [
      | inl rest ↦ lookup-after_func external comp f fs sync id rest
      | inr w ↦ inr (later_func external comp f fs id w)
    ]

later_type :
    (external : List FuncId) (t : ℕ × DataType) (types : List (ℕ × DataType)) (comp name : ℕ)
    → IsWitnessed external types comp name
    → IsWitnessed external (t ∷ types) comp name
later_type external t types comp name w = (w.0, w.1, w.2, (Memᴰ.tail w.3.0, w.3.1))

lookup-analyze_types :
    (external : List FuncId) (types : List (ℕ × DataType)) (sync : SyncMap) (comp name : ℕ)
    → lookup (comp, name) (analyze_types external types sync) ≡ true
    → (lookup (comp, name) sync ≡ true) ⊎ IsWitnessed external types comp name
unfolding analyze_types
lookup-analyze_types external [] sync comp name h = inl h
lookup-analyze_types external ((t, protocol methods) ∷ types) sync comp name h =
    elim (lookup-analyze_types external types sync comp name h) [
      | inl rest ↦ inl rest
      | inr w ↦ inr (later_type external (t, protocol methods) types comp name w)
    ]
lookup-analyze_types external ((t, other_type) ∷ types) sync comp name h =
    elim (lookup-analyze_types external types sync comp name h) [
      | inl rest ↦ inl rest
      | inr w ↦ inr (later_type external (t, other_type) types comp name w)
    ]
lookup-analyze_types external ((t, component c functions) ∷ types) sync comp name h =
    elim (lookup-analyze_types external types (analyze_component external c functions sync) comp
      name h) [
        | inr w ↦ inr (later_type external (t, component c functions) types comp name w)
        | inl rest ↦ elim (lookup-analyze_component external c functions sync (comp, name) rest) [
          | inl old ↦ inl old
          | inr w ↦
              let here = ap (λ n. (t, component n functions)) (sym w.0) in
              inr (t, functions, w.1.0, (Memᴰ.head here, w.1.1))
        ]
      ]

-- A function that is reported as convertible is an async function of a component of that name, is
-- no method of a protocol under the name of the component, and passes the walk of its body.
pub is_sync_convertible-IsWitnessed :
    (types : List (ℕ × DataType)) (comp name : ℕ)
    → is_sync_convertible (analyze types) comp name ≡ true
    → IsWitnessed (identify_external_tasks types) types comp name
unfolding analyze
is_sync_convertible-IsWitnessed types comp name h =
    elim (lookup-analyze_types (identify_external_tasks types) types [] comp name h) [
      | inl nothing ↦ absurd (empty_map comp name nothing)
      | inr w ↦ w
    ]
