-- ===== src/Client/Subscribe/Callbacks.antt =====
-- client.go: the callbacks that a subscription adds and takes away.
use mathlib.Core.Path.{subst}
use go_aioesphomeapi.Client.Subscribe.{register_all, unsubscribe}
use go_aioesphomeapi.Base.{
  ℕ, suc, ◌<◌, ◌≡◌, ap, inl, inr, Bool, false, ◌&&◌, ◌||◌, Option, none, some, List, [], ◌∷◌, arith,
  ◌==◌, if◌then◌else◌, Bool-cases, Option-cases, lookup, insert, delete, lookup-insert,
  HasUniqueKeys, insert-HasUniqueKeys, refl, delete-HasUniqueKeys, lookup-delete, sym, true, map,
  ◌∙◌,
}
use go_aioesphomeapi.Client.State.{Client, handlers_of, on, remove}

-- The callback under an ID and a token.
unfoldable pub callback_at : Client → ℕ → ℕ → Option ℕ
callback_at c id token = lookup token (handlers_of c id)

-- Every token stands once under an ID, and the tokens to come are not in use.
pub record IsRegistry (c : Client) : Type 0 where
  pub unique : (id : ℕ) → HasUniqueKeys (handlers_of c id)
  pub fresh : (id token : ℕ) → c.next_handler < token → callback_at c id token ≡ none

abbrev pub is_pair : ℕ → ℕ → ℕ → ℕ → Bool
is_pair id token i t = id == i && (token == t)

unfoldable pub has_pair : ℕ → ℕ → List (ℕ × ℕ) → Bool
has_pair i t [] = false
has_pair i t ((id, token) ∷ rest) = is_pair id token i t || has_pair i t rest

handlers_of-on :
    (c : Client) (id i : ℕ)
    → handlers_of (on c id).0 i ≡ (
        if id == i
        then insert (suc c.next_handler) (suc c.next_handler) (handlers_of c id)
        else handlers_of c i)
unfolding on
handlers_of-on c id i =
    let k =
      lookup-insert id i (insert (suc c.next_handler) (suc c.next_handler) (handlers_of c id))
        c.handlers in
    ground (arith, k)

on-callback :
    (c : Client) (id i t : ℕ)
    → callback_at (on c id).0 i t
      ≡ (if is_pair id (suc c.next_handler) i t then some t else callback_at c i t)
unfolding callback_at
on-callback c id i t = elim (Bool-cases (id == i)) [
  | inl e ↦
      let same : id ≡ i = ground (arith, e) in
      let k = lookup-insert (suc c.next_handler) t (suc c.next_handler) (handlers_of c id) in
      ground (arith, e, handlers_of-on c id i, k, ap (handlers_of c) same)
  | inr e ↦ ground (arith, e, handlers_of-on c id i)
]

on-next_handler : (c : Client) (id : ℕ) → (on c id).0.next_handler ≡ suc c.next_handler
unfolding on
on-next_handler c id = refl

after_next : (c : Client) (id t : ℕ) → (on c id).0.next_handler < t → suc c.next_handler < t
unfolding on
after_next c id t lt = lt

after_token : (c : Client) (id t : ℕ) → (on c id).0.next_handler < t → c.next_handler < t
unfolding on
after_token c id t lt = omega (arith, lt)

on-IsRegistry : (c : Client) (id : ℕ) → IsRegistry c → IsRegistry (on c id).0
on-IsRegistry c id h = record {
  unique = λ i.
      let k =
        insert-HasUniqueKeys (suc c.next_handler) (suc c.next_handler) (handlers_of c id)
          (h.unique id) in
      let j = h.unique i in ground (arith, handlers_of-on c id i, k, j);
  fresh = λ i t lt.
      let k = h.fresh i t (after_token c id t lt) in
      let above = after_token c id t lt in
      let later = after_next c id t lt in ground (arith, on-callback c id i t, k, later);
}

handlers_of-remove :
    (c : Client) (id token i : ℕ)
    → handlers_of (remove c id token) i
      ≡ (if id == i then delete token (handlers_of c id) else handlers_of c i)
unfolding remove delete
handlers_of-remove c id token i = elim (Option-cases (lookup id c.handlers)) [
  | inl e ↦ elim (Bool-cases (id == i)) [
    | inl f ↦
        let same : id ≡ i = ground (arith, f) in
        ground (arith, e, f, ap (λ k. lookup k c.handlers) same)
    | inr f ↦ ground (arith, e, f)
  ]
  | inr (m, e) ↦ let k = lookup-insert id i (delete token m) c.handlers in ground (arith, e, k)
]

remove-callback :
    (c : Client) (id token i t : ℕ)
    → ((j : ℕ) → HasUniqueKeys (handlers_of c j))
    → callback_at (remove c id token) i t
      ≡ (if is_pair id token i t then none else callback_at c i t)
unfolding callback_at
remove-callback c id token i t u = elim (Bool-cases (id == i)) [
  | inl e ↦
      let same : id ≡ i = ground (arith, e) in
      let k = lookup-delete token t (handlers_of c id) (u id) in
      ground (arith, e, handlers_of-remove c id token i, k, ap (handlers_of c) same)
  | inr e ↦ ground (arith, e, handlers_of-remove c id token i)
]

remove_unique :
    (c : Client) (id token : ℕ)
    → ((j : ℕ) → HasUniqueKeys (handlers_of c j))
    → (j : ℕ) → HasUniqueKeys (handlers_of (remove c id token) j)
remove_unique c id token u j =
    let k = delete-HasUniqueKeys token (handlers_of c id) (u id) in
    let l = u j in ground (arith, handlers_of-remove c id token j, k, l)

next_token : (c : Client) (id : ℕ) → (on c id).1 ≡ suc c.next_handler
unfolding on
next_token c id = refl

pub register_all-callback :
    (ids : List ℕ) (c : Client) (i t : ℕ)
    → callback_at (register_all ids c).0 i t
      ≡ (if has_pair i t (register_all ids c).1 then some t else callback_at c i t)
unfolding register_all has_pair
register_all-callback [] c i t = refl
register_all-callback (id ∷ ids) c i t =
    let later = register_all-callback ids (on c id).0 i t in
    ground (arith, later, on-callback c id i t, next_token c id)

register_all-IsRegistry :
    (ids : List ℕ) (c : Client) → IsRegistry c → IsRegistry (register_all ids c).0
unfolding register_all
register_all-IsRegistry [] c h = h
register_all-IsRegistry (id ∷ ids) c h =
    register_all-IsRegistry ids (on c id).0 (on-IsRegistry c id h)

-- A token that was given out is new.
register_all_above :
    (ids : List ℕ) (c : Client) (i t : ℕ)
    → has_pair i t (register_all ids c).1 ≡ true
    → c.next_handler < t
unfolding register_all has_pair on
register_all_above [] c i t h = absurd cc
register_all_above (id ∷ ids) c i t h =
    let later = register_all_above ids (on c id).0 i t in ground (arith, later, h)

unsubscribe-callback :
    (pairs : List (ℕ × ℕ)) (c : Client) (i t : ℕ)
    → ((j : ℕ) → HasUniqueKeys (handlers_of c j))
    → callback_at (unsubscribe pairs c) i t
      ≡ (if has_pair i t pairs then none else callback_at c i t)
unfolding unsubscribe has_pair
unsubscribe-callback [] c i t u = refl
unsubscribe-callback ((id, token) ∷ rest) c i t u =
    let later = unsubscribe-callback rest (remove c id token) i t (remove_unique c id token u) in
    ground (arith, later, remove-callback c id token i t u)

pub register_all_ids : (ids : List ℕ) (c : Client) → map (λ p. p.0) (register_all ids c).1 ≡ ids
unfolding register_all
register_all_ids [] c = refl
register_all_ids (id ∷ ids) c = ap (◌∷◌ id) (register_all_ids ids (on c id).0)

pub callback_at-handlers :
    (c d : Client) (i t : ℕ) → d.handlers ≡ c.handlers → callback_at d i t ≡ callback_at c i t
unfolding callback_at
callback_at-handlers c d i t e =
    ap (λ m. lookup t (elim (lookup i m) [ none ↦ [] | some inner ↦ inner ])) e

unique-handlers :
    (c d : Client)
    → d.handlers ≡ c.handlers
    → ((j : ℕ) → HasUniqueKeys (handlers_of c j))
    → (j : ℕ) → HasUniqueKeys (handlers_of d j)
unique-handlers c d e u j =
    subst (λ m. HasUniqueKeys (elim (lookup j m) [ none ↦ [] | some inner ↦ inner ])) (sym e) (u j)

-- What was registered in one go is taken away by unsubscribing.
pub undone :
    (ids : List ℕ) (c d : Client) (i t : ℕ)
    → IsRegistry c
    → d.handlers ≡ (register_all ids c).0.handlers
    → callback_at (unsubscribe (register_all ids c).1 d) i t ≡ callback_at c i t
undone ids c d i t h same =
    let unique =
      unique-handlers (register_all ids c).0 d same (register_all-IsRegistry ids c h).unique in
    let k = unsubscribe-callback (register_all ids c).1 d i t unique in
    let j =
      callback_at-handlers (register_all ids c).0 d i t same ∙ register_all-callback ids c i t in
    let above = register_all_above ids c i t in
    let free = h.fresh i t in
    elim (Bool-cases (has_pair i t (register_all ids c).1)) [
      | inl e ↦ ground (arith, k, e, sym (free (above e)))
      | inr e ↦ ground (arith, k, j, e)
    ]
