-- ===== src/Passes/Scheduling/Disjoint.antt =====
-- src/zuspec/be/sw/passes/bulk_sync.py schedules no method that
-- src/zuspec/be/sw/passes/frame_eliminate.py leaves without a frame.
use mathlib.Core.List.{Memᴰ}
use mathlib.Core.List.Memᴰ.{append_cases}
use zuspec_be_sw.Prelude.{
  ℕ, suc, ◌≡◌, refl, sym, subst, ◌∙◌, inl, inr, ◌⊎◌, Bool, true, false, not, ◌&&◌, ◌||◌, ◌==◌,
  ==_refl, none, some, List, [], ◌∷◌, ◌++◌, arith, length, Bool-cases,
}
use zuspec_be_sw.Passes.WaitPoints.Syntax.{Func}
use zuspec_be_sw.Passes.WaitPoints.Scan.{Latency, analyze, has_latency, run_functions, run}
use zuspec_be_sw.Passes.Scheduling.{
  BulkSyncEntry, get_latency, waits, is_entry, bulk_entries, run_bulk_sync, run_frame_eliminate,
}
use zuspec_be_sw.Passes.Scheduling.Waits.{run_frame_eliminate-member}

-- A dictionary has each key once.
abbrev KeysDistinct : List ((ℕ × ℕ) × Latency) → Type 0
KeysDistinct [] = Unit
KeysDistinct (p ∷ ps) = (get_latency p.0 ps ≡ none) × KeysDistinct ps

get_latency-member :
    (lats : List ((ℕ × ℕ) × Latency)) (k : ℕ × ℕ) (lat : Latency)
    → KeysDistinct lats
    → Memᴰ (k, lat) lats
    → get_latency k lats ≡ some lat
unfolding get_latency
get_latency-member [] k lat d m = elim m [ ]
get_latency-member (p ∷ ps) k lat (d, ds) (Memᴰ.head e) =
    subst (λ (x : (ℕ × ℕ) × Latency). get_latency x.0 (p ∷ ps) ≡ some x.1) (sym e)
      (rw (==_refl p.0.0, ==_refl p.0.1) refl)
get_latency-member (p ∷ ps) k lat (d, ds) (Memᴰ.tail m) =
    let deep = get_latency-member ps k lat ds m in
    elim (Bool-cases ((k.0 == p.0.0) && (k.1 == p.0.1))) [
      | inr e ↦ rw e deep
      | inl e ↦
          let first : k.0 ≡ p.0.0 = ground arith in
          let second : k.1 ≡ p.0.1 = ground arith in
          let same : k ≡ p.0 = cc in
          let clash = subst (λ x. get_latency x ps ≡ some lat) same deep in absurd (cc)
    ]

bulk_entries-waits :
    (quantum t : ℕ) (lats : List ((ℕ × ℕ) × Latency)) (fs : List Func) (e : BulkSyncEntry)
    → Memᴰ e (bulk_entries quantum t lats fs)
    → waits (get_latency (e.component_name, e.run_method) lats) ≡ true
unfolding bulk_entries is_entry
bulk_entries-waits quantum t lats [] e k = elim k [ ]
bulk_entries-waits quantum t lats (f ∷ fs) e k = elim (Bool-cases (is_entry t lats f)) [
  | inr q ↦ bulk_entries-waits quantum t lats fs e (subst (λ l. Memᴰ e l) (rw q refl) k)
  | inl q ↦
      let entry : BulkSyncEntry = record {
        component_name = t;
        run_method = f.name;
        quantum_ps = quantum;
      } in
      let here : Memᴰ e (entry ∷ []) = subst (λ l. Memᴰ e l) (rw q refl) k in
      let there : waits (get_latency (t, f.name) lats) ≡ true = ground arith in
      first entry there here
]
  where
    first :
        (entry : BulkSyncEntry)
        → waits (get_latency (entry.component_name, entry.run_method) lats) ≡ true
        → Memᴰ e (entry ∷ [])
        → waits (get_latency (e.component_name, e.run_method) lats) ≡ true
    first entry w (Memᴰ.head p) =
        subst
          (λ (x : BulkSyncEntry). waits (get_latency (x.component_name, x.run_method) lats) ≡ true)
          (sym p) w
    first entry w (Memᴰ.tail j) = elim j [ ]

run_bulk_sync-waits :
    (quantum : ℕ) (lats : List ((ℕ × ℕ) × Latency)) (types : List (ℕ × List Func))
    (old : List BulkSyncEntry) (e : BulkSyncEntry)
    → Memᴰ e (run_bulk_sync quantum lats types old)
    → Memᴰ e old ⊎ (waits (get_latency (e.component_name, e.run_method) lats) ≡ true)
unfolding run_bulk_sync
run_bulk_sync-waits quantum lats [] old e k = inl k
run_bulk_sync-waits quantum lats (t ∷ ts) old e k =
    elim (run_bulk_sync-waits quantum lats ts (old ++ bulk_entries quantum t.0 lats t.1) e k) [
      | inr w ↦ inr w
      | inl m ↦ elim (append_cases old m) [
        | inl j ↦ inl j
        | inr j ↦ inr (bulk_entries-waits quantum t.0 lats t.1 e j)
      ]
    ]

get_latency-append :
    (k : ℕ × ℕ) (a : List ((ℕ × ℕ) × Latency)) (b : List ((ℕ × ℕ) × Latency))
    → get_latency k a ≡ none
    → get_latency k (a ++ b) ≡ get_latency k b
unfolding get_latency
get_latency-append k [] b e = refl
get_latency-append k (p ∷ a) b e = elim (Bool-cases ((k.0 == p.0.0) && (k.1 == p.0.1))) [
  | inl q ↦ absurd (let no : some p.1 ≡ none = subst (λ o. o ≡ none) (rw q refl) e in cc)
  | inr q ↦ rw q (get_latency-append k a b (subst (λ o. o ≡ none) (rw q refl) e))
]

get_latency-one :
    (p x : (ℕ × ℕ) × Latency) (ps : List ((ℕ × ℕ) × Latency))
    → get_latency x.0 (p ∷ ps) ≡ none
    → get_latency p.0 (x ∷ []) ≡ none
unfolding get_latency
get_latency-one p x ps e = ground arith

KeysDistinct-append :
    (a : List ((ℕ × ℕ) × Latency)) (x : (ℕ × ℕ) × Latency)
    → KeysDistinct a
    → get_latency x.0 a ≡ none
    → KeysDistinct (a ++ (x ∷ []))
unfolding get_latency
KeysDistinct-append [] x d e = (refl, tt)
KeysDistinct-append (p ∷ a) x (d, ds) e = (
  get_latency-append p.0 a (x ∷ []) d ∙ get_latency-one p x a e,
  KeysDistinct-append a x ds (later p a x e),
)
  where
    later :
        (q : (ℕ × ℕ) × Latency) (l : List ((ℕ × ℕ) × Latency)) (y : (ℕ × ℕ) × Latency)
        → get_latency y.0 (q ∷ l) ≡ none
        → get_latency y.0 l ≡ none
    later q l y h = ground arith

module _ (starts_wait : ℕ → Bool) where
  has_latency-get_latency :
      (t n : ℕ) (lats : List ((ℕ × ℕ) × Latency))
      → has_latency starts_wait t n lats ≡ false
      → get_latency (t, n) lats ≡ none
  unfolding has_latency get_latency
  has_latency-get_latency t n [] e = refl
  has_latency-get_latency t n (p ∷ ps) e = ground (arith, has_latency-get_latency t n ps)

  run_functions-KeysDistinct :
      (t : ℕ) (methods fs : List Func) (out : List ((ℕ × ℕ) × Latency))
      → KeysDistinct out
      → KeysDistinct (run_functions starts_wait t methods fs out)
  unfolding run_functions
  run_functions-KeysDistinct t methods [] out d = d
  run_functions-KeysDistinct t methods (f ∷ fs) out d =
      run_functions-KeysDistinct t methods fs _
        (elim (Bool-cases (not f.is_async || has_latency starts_wait t f.name out)) [
          | inl q ↦ rw q d
          | inr q ↦ rw q (
              KeysDistinct-append out
                ((t, f.name), analyze starts_wait methods (suc (length methods)) [] f) d
                (has_latency-get_latency t f.name out (ground arith)))
        ])

  run-KeysDistinct :
      (types : List (ℕ × List Func)) (out : List ((ℕ × ℕ) × Latency))
      → KeysDistinct out
      → KeysDistinct (run starts_wait types out)
  unfolding run
  run-KeysDistinct [] out d = d
  run-KeysDistinct (c ∷ cs) out d =
      run-KeysDistinct cs (run_functions starts_wait c.0 c.1 c.1 out)
        (run_functions-KeysDistinct c.0 c.1 c.1 out d)

  -- No method that the bulk synchronisation starts a thread in is one that gets no frame.
  pub run_bulk_sync-run_frame_eliminate :
      (types : List (ℕ × List Func)) (quantum : ℕ) (e : BulkSyncEntry)
      → Memᴰ e (run_bulk_sync quantum (run starts_wait types []) types [])
      → ¬ Memᴰ (e.component_name, e.run_method) (run_frame_eliminate (run starts_wait types []) [])
  unfolding waits
  run_bulk_sync-run_frame_eliminate types quantum e k m =
      elim (run_bulk_sync-waits quantum (run starts_wait types []) types [] e k) [
        | inl none_before ↦ elim none_before [ ]
        | inr w ↦
            elim (run_frame_eliminate-member (run starts_wait types []) []
              (e.component_name, e.run_method) m) [
                | inl none_before ↦ elim none_before [ ]
                | inr (lat, there, quiet) ↦
                    let found =
                      get_latency-member (run starts_wait types []) (e.component_name, e.run_method)
                        lat (run-KeysDistinct types [] tt) there in
                    let loud = subst (λ o. waits o ≡ true) found w in absurd (cc)
              ]
      ]
