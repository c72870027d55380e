-- ===== src/Simulator/States/Snapshot.antt =====
-- simulator/simulator.go: the snapshot that a new subscriber is sent, against the history of the states.
use go_aioesphomeapi.Base.{
  ◌≡◌, refl, Bool, true, false, ◌||◌, Option, none, some, List, [], ◌∷◌, ◌++◌, arith, if◌then◌else◌,
  sym, ap, ◌∙◌, inl, inr, append-nil, append_assoc, Option-cases, Bool-cases,
}
use go_aioesphomeapi.Messages.{Message}
use go_aioesphomeapi.Simulator.States.{
  Family, same_family, StateIdentity, same_identity, state_identity_of, StateMap, lookup_state,
  insert_state, States, store_state, binary_sensor, sensor, text_sensor, switch, number, fan, light,
  no_states, snapshot_of, state_snapshot,
}

same_family_self : (f : Family) → same_family f f ≡ true
same_family_self binary_sensor = refl
same_family_self sensor = refl
same_family_self text_sensor = refl
same_family_self switch = refl
same_family_self number = refl
same_family_self fan = refl
same_family_self light = refl

pub same_identity_self : (i : StateIdentity) → same_identity i i ≡ true
unfolding same_identity
same_identity_self i = ground (arith, same_family_self i.family)

same_family_eq : (f g : Family) → same_family f g ≡ true → f ≡ g
same_family_eq f g e = ground arith

pub same_identity_eq : (i j : StateIdentity) → same_identity i j ≡ true → i ≡ j
unfolding same_identity
same_identity_eq i j e = ground (arith, same_family_eq i.family j.family)

pub lookup_state-insert_state :
    (i j : StateIdentity) (m : Message) (c : StateMap)
    → lookup_state j (insert_state i m c) ≡ (if same_identity i j then some m else lookup_state j c)
unfolding lookup_state insert_state
lookup_state-insert_state i j m [] = ground arith
lookup_state-insert_state i j m ((k, old) ∷ c) = ground (
  arith,
  lookup_state-insert_state i j m c,
  same_identity_eq k i,
  same_identity_eq i j,
  same_identity_eq k j,
  same_identity_self i,
)

unfoldable pub store_all : List Message → States → States
store_all [] s = s
store_all (m ∷ ms) s = store_all ms (store_state m s)

abbrev pub or_else {ℓ} : {A : Type ℓ} → Option A → Option A → Option A
or_else none b = b
or_else (some a) b = some a

-- Of a history, the last state with an identity.
unfoldable pub last_state : StateIdentity → List Message → Option Message
last_state i [] = none
last_state i (m ∷ ms) = or_else (last_state i ms) (elim (state_identity_of m) [
  | none ↦ none
  | some j ↦ if same_identity j i then some m else none
])

unfoldable pub has_identity : StateIdentity → List StateIdentity → Bool
has_identity i [] = false
has_identity i (j ∷ js) = same_identity j i || has_identity i js

-- The identities of a history, each where it came first, without those already `seen`.
unfoldable pub first_seen : List StateIdentity → List Message → List StateIdentity
first_seen seen [] = []
first_seen seen (m ∷ ms) = elim (state_identity_of m) [
  | none ↦ first_seen seen ms
  | some i ↦
      if has_identity i seen then first_seen seen ms else i ∷ first_seen (seen ++ (i ∷ [])) ms
]

unfoldable pub collect {ℓ κ} : {A : Type ℓ} {B : Type κ} → (A → Option B) → List A → List B
collect f [] = []
collect f (x ∷ xs) = elim (f x) [ none ↦ collect f xs | some y ↦ y ∷ collect f xs ]

pub lookup-store_state :
    (i : StateIdentity) (m : Message) (s : States)
    → lookup_state i (store_state m s).current
      ≡ or_else
          (elim (state_identity_of m) [
            | none ↦ none
            | some j ↦ if same_identity j i then some m else none
          ])
          (lookup_state i s.current)
unfolding store_state
lookup-store_state i m s = elim (Option-cases (state_identity_of m)) [
  | inl e ↦ ground (arith, e)
  | inr (j, e) ↦ ground (arith, e, lookup_state-insert_state j i m s.current)
]

pub lookup-store_all :
    (i : StateIdentity) (ms : List Message) (s : States)
    → lookup_state i (store_all ms s).current ≡ or_else (last_state i ms) (lookup_state i s.current)
unfolding store_all last_state
lookup-store_all i [] s = refl
lookup-store_all i (m ∷ ms) s =
    ground (arith, lookup-store_all i ms (store_state m s), lookup-store_state i m s)

pub has_identity-append :
    (i j : StateIdentity) (js : List StateIdentity)
    → has_identity i (js ++ (j ∷ [])) ≡ (has_identity i js || same_identity j i)
unfolding has_identity
has_identity-append i j [] = ground arith
has_identity-append i j (k ∷ js) = ground (arith, has_identity-append i j js)

abbrev pub has_state : StateIdentity → States → Bool
has_state i s = elim (lookup_state i s.current) [ none ↦ false | some _ ↦ true ]

-- The order names exactly the identities that have a state.
abbrev pub IsOrdered : States → Type 0
IsOrdered s = (i : StateIdentity) → has_state i s ≡ has_identity i s.order

pub store_state-IsOrdered : (m : Message) (s : States) → IsOrdered s → IsOrdered (store_state m s)
unfolding store_state
store_state-IsOrdered m s h i = elim (Option-cases (state_identity_of m)) [
  | inl e ↦ ground (arith, e, h i)
  | inr (j, e) ↦ ground (
    arith,
    e,
    h i,
    h j,
    lookup_state-insert_state j i m s.current,
    has_identity-append i j s.order,
    same_identity_eq j i,
  )
]

order-store_all :
    (ms : List Message) (s : States)
    → IsOrdered s
    → (store_all ms s).order ≡ s.order ++ first_seen s.order ms
unfolding store_all first_seen store_state
order-store_all [] s h = sym (append-nil s.order)
order-store_all (m ∷ ms) s h = elim (Option-cases (state_identity_of m)) [
  | inl e ↦ ground (arith, e, order-store_all ms (store_state m s) (store_state-IsOrdered m s h))
  | inr (j, e) ↦ ground (
    arith,
    e,
    h j,
    append_assoc s.order (j ∷ []) (first_seen (s.order ++ (j ∷ [])) ms),
    order-store_all ms (store_state m s) (store_state-IsOrdered m s h),
  )
]

snapshot_of-collect :
    (c : StateMap) (order : List StateIdentity)
    → snapshot_of c order ≡ collect (λ i. lookup_state i c) order
unfolding snapshot_of collect
snapshot_of-collect c [] = refl
snapshot_of-collect c (i ∷ order) = ground (arith, snapshot_of-collect c order)

collect_ap {ℓ κ} :
    {A : Type ℓ} {B : Type κ} (f g : A → Option B)
    → ((x : A) → f x ≡ g x)
    → (xs : List A) → collect f xs ≡ collect g xs
unfolding collect
collect_ap f g h [] = refl
collect_ap {B = B} f g h (x ∷ xs) =
    ap (λ (o : Option B). elim o [ none ↦ collect f xs | some y ↦ y ∷ collect f xs ]) (h x)
    ∙ ap (λ (r : List B). elim (g x) [ none ↦ r | some y ↦ y ∷ r ]) (collect_ap f g h xs)

pub no_states-IsOrdered : IsOrdered no_states
unfolding lookup_state has_identity
no_states-IsOrdered i = refl

last_state-lookup :
    (history : List Message) (i : StateIdentity)
    → lookup_state i (store_all history no_states).current ≡ last_state i history
unfolding lookup_state
last_state-lookup history i = ground (arith, lookup-store_all i history no_states)

-- After any history of messages the snapshot of a new device lists each entity once, in the order
-- of first appearance, with its last state.
pub snapshot-store_all :
    (history : List Message)
    → state_snapshot (store_all history no_states)
      ≡ collect (λ i. last_state i history) (first_seen [] history)
unfolding state_snapshot
snapshot-store_all history =
    snapshot_of-collect (store_all history no_states).current (store_all history no_states).order
    ∙ collect_ap _ _ (last_state-lookup history) _
    ∙ ap (collect (λ i. last_state i history))
        (order-store_all history no_states no_states-IsOrdered)

-- Every state stands under its own identity.
abbrev pub IsKeyed : States → Type 0
IsKeyed s =
    (i : StateIdentity) (m : Message)
    → lookup_state i s.current ≡ some m
    → state_identity_of m ≡ some i

-- The states of a device, as every store leaves them.
pub record IsWellFormed (s : States) : Type 0 where
  pub ordered : IsOrdered s
  pub keyed : IsKeyed s

no_states-IsKeyed : IsKeyed no_states
unfolding lookup_state
no_states-IsKeyed i m e = absurd (ground arith)

store_state-IsKeyed : (m : Message) (s : States) → IsKeyed s → IsKeyed (store_state m s)
store_state-IsKeyed m s k i n e = elim (Option-cases (state_identity_of m)) [
  | inl none_stored ↦ k i n (ground (arith, none_stored, lookup-store_state i m s))
  | inr (j, stored) ↦ elim (Bool-cases (same_identity j i)) [
    | inl same ↦ ground (arith, stored, same, same_identity_eq j i, lookup-store_state i m s)
    | inr apart ↦ k i n (ground (arith, stored, apart, lookup-store_state i m s))
  ]
]

pub no_states-IsWellFormed : IsWellFormed no_states
no_states-IsWellFormed = record { ordered = no_states-IsOrdered; keyed = no_states-IsKeyed }

pub store_state-IsWellFormed :
    (m : Message) (s : States) → IsWellFormed s → IsWellFormed (store_state m s)
store_state-IsWellFormed m s w = record {
  ordered = store_state-IsOrdered m s w.ordered;
  keyed = store_state-IsKeyed m s w.keyed;
}

last_state-snapshot_of :
    (i : StateIdentity) (s : States) (order : List StateIdentity)
    → IsKeyed s
    → last_state i (snapshot_of s.current order)
      ≡ (if has_identity i order then lookup_state i s.current else none)
unfolding last_state snapshot_of has_identity
last_state-snapshot_of i s [] k = refl
last_state-snapshot_of i s (j ∷ order) k = elim (Option-cases (lookup_state j s.current)) [
  | inl e ↦ ground (arith, e, last_state-snapshot_of i s order k, same_identity_eq j i)
  | inr (m, e) ↦
      ground (arith, e, k j m e, last_state-snapshot_of i s order k, same_identity_eq j i)
]

-- Replayed, a snapshot gives back every state.
pub last_state-snapshot :
    (i : StateIdentity) (s : States)
    → IsWellFormed s
    → last_state i (state_snapshot s) ≡ lookup_state i s.current
unfolding state_snapshot
last_state-snapshot i s w = ground (arith, last_state-snapshot_of i s s.order w.keyed, w.ordered i)
