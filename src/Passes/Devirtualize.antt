-- ===== src/Passes/Devirtualize.antt =====
-- `DevirtualizePass` of src/zuspec/be/sw/passes/devirtualize.py: the ports with a direct call.
mod Direct
mod Tests
use zuspec_be_sw.Prelude.{
  ℕ, ◌≡◌, refl, sym, subst, inl, inr, ap, ◌∙◌, Bool, true, false, ◌&&◌, if◌then◌else◌, ◌==◌, ==_iff,
  Option, none, some, List, [], ◌∷◌, arith, Bool-cases, Option-cases,
}
use zuspec_be_sw.Passes.Elaborate.Binds.{Connection}

-- A key is a component's name and the name of its port.
unfoldable pub key_of : Connection → ℕ × ℕ
key_of c = (c.initiator_component, c.initiator_port)

unfoldable pub same_key : ℕ × ℕ → ℕ × ℕ → Bool
same_key (a, b) (c, d) = (a == c) && (b == d)

-- `port_map` with a connection more: a second one for a key leaves `None` there.
unfoldable pub add_port :
    Connection → List ((ℕ × ℕ) × Option Connection) → List ((ℕ × ℕ) × Option Connection)
add_port c [] = (key_of c, some c) ∷ []
add_port c ((k, o) ∷ r) = if same_key (key_of c) k then (k, none) ∷ r else (k, o) ∷ add_port c r

unfoldable pub port_map :
    List Connection → List ((ℕ × ℕ) × Option Connection) → List ((ℕ × ℕ) × Option Connection)
port_map [] m = m
port_map (c ∷ cs) m = port_map cs (add_port c m)

-- `ctxt.devirtualized` is the list of its assignments, the newest first.
unfoldable pub assign_direct :
    ℕ × ℕ → Option Connection → List ((ℕ × ℕ) × Connection) → List ((ℕ × ℕ) × Connection)
assign_direct k none d = d
assign_direct k (some c) d = (k, c) ∷ d

unfoldable pub record_direct :
    List ((ℕ × ℕ) × Option Connection) → List ((ℕ × ℕ) × Connection) → List ((ℕ × ℕ) × Connection)
record_direct [] d = d
record_direct ((k, o) ∷ r) d = record_direct r (assign_direct k o d)

-- `run`, with the connections and `ctxt.devirtualized` from before.
unfoldable pub run_devirtualize :
    List Connection → List ((ℕ × ℕ) × Connection) → List ((ℕ × ℕ) × Connection)
run_devirtualize connections d = record_direct (port_map connections []) d

unfoldable pub direct_call : ℕ × ℕ → List ((ℕ × ℕ) × Connection) → Option Connection
direct_call k [] = none
direct_call k ((j, c) ∷ r) = if same_key k j then some c else direct_call k r

-- The connections of a port.
unfoldable pub connections_of : ℕ × ℕ → List Connection → List Connection
connections_of k [] = []
connections_of k (c ∷ cs) =
    if same_key k (key_of c) then c ∷ connections_of k cs else connections_of k cs

-- The only connection, or else what was there.
unfoldable pub only_or : List Connection → Option Connection → Option Connection
only_or (c ∷ []) old = some c
only_or cs old = old

unfoldable port_at : ℕ × ℕ → List ((ℕ × ℕ) × Option Connection) → Option (Option Connection)
port_at k [] = none
port_at k ((j, o) ∷ r) = if same_key k j then some o else port_at k r

-- What the connections of a port make of its entry.
abbrev bump : Option (Option Connection) → Connection → Option (Option Connection)
bump none c = some (some c)
bump (some o) c = some none

abbrev bumps : Option (Option Connection) → List Connection → Option (Option Connection)
bumps s [] = s
bumps s (c ∷ cs) = bumps (bump s c) cs

pub same_key-eq : (a b : ℕ × ℕ) → same_key a b ≡ true → a ≡ b
unfolding same_key
same_key-eq (a, b) (c, d) h = let p : a ≡ c = ground arith in let q : b ≡ d = ground arith in cc

same_key_refl : (a : ℕ × ℕ) → same_key a a ≡ true
unfolding same_key
same_key_refl (a, b) = ground arith

unlike : (a b : ℕ × ℕ) → same_key a b ≡ false → same_key b a ≡ false
unfolding same_key
unlike (a, b) (c, d) h = ground arith

port_at-add_port :
    (k : ℕ × ℕ) (c : Connection) (m : List ((ℕ × ℕ) × Option Connection))
    → port_at k (add_port c m)
      ≡ (if same_key k (key_of c) then bump (port_at k m) c else port_at k m)
unfolding port_at add_port
port_at-add_port k c [] = refl
port_at-add_port k c ((j, o) ∷ m) = elim (Bool-cases (same_key (key_of c) j)) [
  | inl e ↦
      let same = same_key-eq (key_of c) j e in
      let here : same_key k j ≡ same_key k (key_of c) = ap (same_key k) (sym same) in
      rw e (elim (Bool-cases (same_key k (key_of c))) [
        | inl q ↦ rw (here, q) refl
        | inr q ↦ rw (here, q) refl
      ])
  | inr e ↦ elim (Bool-cases (same_key k j)) [
    | inl q ↦ rw (e, q) (rw (other (same_key-eq k j q) e) refl)
    | inr q ↦ rw (e, q) (port_at-add_port k c m)
  ]
]
  where
    other : k ≡ j → same_key (key_of c) j ≡ false → same_key k (key_of c) ≡ false
    other q e = elim (Bool-cases (same_key k (key_of c))) [
      | inr r ↦ r
      | inl r ↦
          let back : key_of c ≡ j = sym (same_key-eq k (key_of c) r) ∙ q in
          let clash : same_key j j ≡ false = subst (λ x. same_key x j ≡ false) back e in
          let hit = same_key_refl j in absurd (cc)
    ]

port_at-port_map :
    (k : ℕ × ℕ) (cs : List Connection) (m : List ((ℕ × ℕ) × Option Connection))
    → port_at k (port_map cs m) ≡ bumps (port_at k m) (connections_of k cs)
unfolding port_map connections_of
port_at-port_map k [] m = refl
port_at-port_map k (c ∷ cs) m = elim (Bool-cases (same_key k (key_of c))) [
  | inl e ↦ rw e (port_at-port_map k cs (add_port c m) ∙ rw (port_at-add_port k c m, e) refl)
  | inr e ↦ rw e (port_at-port_map k cs (add_port c m) ∙ rw (port_at-add_port k c m, e) refl)
]

-- Each key has one entry.
abbrev KeysDistinct : List ((ℕ × ℕ) × Option Connection) → Type 0
KeysDistinct [] = Unit
KeysDistinct (e ∷ m) = (port_at e.0 m ≡ none) × KeysDistinct m

add_port-KeysDistinct :
    (c : Connection) (m : List ((ℕ × ℕ) × Option Connection))
    → KeysDistinct m
    → KeysDistinct (add_port c m)
unfolding add_port port_at
add_port-KeysDistinct c [] d = (refl, tt)
add_port-KeysDistinct c ((j, o) ∷ m) (d, ds) = elim (Bool-cases (same_key (key_of c) j)) [
  | inl e ↦ rw e (d, ds)
  | inr e ↦
      rw e
        (port_at-add_port j c m ∙ rw (unlike (key_of c) j e, d) refl, add_port-KeysDistinct c m ds)
]

port_map-KeysDistinct :
    (cs : List Connection) (m : List ((ℕ × ℕ) × Option Connection))
    → KeysDistinct m
    → KeysDistinct (port_map cs m)
unfolding port_map
port_map-KeysDistinct [] m d = d
port_map-KeysDistinct (c ∷ cs) m d =
    port_map-KeysDistinct cs (add_port c m) (add_port-KeysDistinct c m d)

-- What an entry leaves to be called directly.
abbrev settled : Option (Option Connection) → Option Connection → Option Connection
settled (some (some c)) old = some c
settled s old = old

direct_call-record_direct :
    (k : ℕ × ℕ) (m : List ((ℕ × ℕ) × Option Connection)) (d : List ((ℕ × ℕ) × Connection))
    → KeysDistinct m
    → direct_call k (record_direct m d) ≡ settled (port_at k m) (direct_call k d)
unfolding record_direct assign_direct direct_call port_at
direct_call-record_direct k [] d u = refl
direct_call-record_direct k ((j, none) ∷ m) d (u, us) = elim (Bool-cases (same_key k j)) [
  | inl e ↦
      let free : port_at k m ≡ none = subst (λ x. port_at x m ≡ none) (sym (same_key-eq k j e)) u in
      rw e (direct_call-record_direct k m d us ∙ rw free refl)
  | inr e ↦ rw e (direct_call-record_direct k m d us)
]
direct_call-record_direct k ((j, some c) ∷ m) d (u, us) = elim (Bool-cases (same_key k j)) [
  | inl e ↦
      let free : port_at k m ≡ none = subst (λ x. port_at x m ≡ none) (sym (same_key-eq k j e)) u in
      rw e (direct_call-record_direct k m ((j, c) ∷ d) us ∙ rw (free, e) refl)
  | inr e ↦ rw e (direct_call-record_direct k m ((j, c) ∷ d) us ∙ rw e refl)
]

settled-bumps :
    (cs : List Connection) (old : Option Connection) → settled (bumps none cs) old ≡ only_or cs old
unfolding only_or
settled-bumps [] old = refl
settled-bumps (c ∷ []) old = refl
settled-bumps (c ∷ d ∷ cs) old = spent cs
  where
    spent : (l : List Connection) → settled (bumps (some none) l) old ≡ old
    spent [] = refl
    spent (x ∷ l) = spent l

-- A port is called directly exactly where one connection has it as its initiator, and then the
-- connection of the call is that one; the calls from before stay at the other ports.
pub run_devirtualize-direct_call :
    (k : ℕ × ℕ) (connections : List Connection) (d : List ((ℕ × ℕ) × Connection))
    → direct_call k (run_devirtualize connections d)
      ≡ only_or (connections_of k connections) (direct_call k d)
unfolding run_devirtualize port_at only_or
run_devirtualize-direct_call k connections d =
    direct_call-record_direct k (port_map connections []) d
      (port_map-KeysDistinct connections [] tt)
    ∙ ap (λ s. settled s (direct_call k d)) (port_at-port_map k connections [])
    ∙ settled-bumps (connections_of k connections) (direct_call k d)
