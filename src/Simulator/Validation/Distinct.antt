-- ===== src/Simulator/Validation/Distinct.antt =====
-- simulator/validation.go: the loops that give every message an identity, and take its size off the budget.
use go_aioesphomeapi.Base.{
  ℕ, suc, ◌+◌, ◌≤◌, ◌≡◌, refl, sym, ap, ◌∙◌, Bool, false, Option, none, some, List, [], ◌∷◌, arith,
  All, ok,
}
use go_aioesphomeapi.Messages.{Message}
use go_aioesphomeapi.Simulator.Validation.{
  Field, max_scenario_message_bytes, add_size, seen_at, size_of, check_distinct,
}
use go_aioesphomeapi.Simulator.Validation.Chains.{
  ok_eq, some_eq, option_some_ok, option_none_ok, result_ok, if_some-none,
}

pub add_size_spends :
    (field : Field) (index size remaining left : ℕ)
    → add_size field index size remaining ≡ ok left
    → (size ≤ max_scenario_message_bytes) × (size + left ≡ remaining)
unfolding add_size
add_size_spends field index size remaining left e = ground arith

-- What a list of messages takes off the budget.
unfoldable pub total_size : (Message → ℕ) → List (Option Message) → ℕ
total_size proto_size [] = 0
total_size proto_size (m ∷ ms) = size_of proto_size m + total_size proto_size ms

module _ {ℓ} {I : Type ℓ} (same : I → I → Bool) (identity : Option Message → Option I) where
  -- Whatever identity the message has was not seen.
  abbrev Fresh : List (I × ℕ) → Option Message → Type ℓ
  Fresh seen m = (j : I) → identity m ≡ some j → seen_at same j seen ≡ none

  -- The message is not about `i`.
  abbrev pub Other : I → Option Message → Type ℓ
  Other i m = (j : I) → identity m ≡ some j → same i j ≡ false

  -- Every message has an identity, and no later one has the same.
  abbrev pub AllDistinct : List (Option Message) → Type ℓ
  AllDistinct [] = Unit {ℓ}
  AllDistinct (m ∷ ms) = (i : I) × (identity m ≡ some i) × All (Other i) ms × AllDistinct ms

  Fresh-Other :
      (i : I) (n : ℕ) (seen : List (I × ℕ)) (ms : List (Option Message))
      → All (Fresh ((i, n) ∷ seen)) ms
      → All (Other i) ms × All (Fresh seen) ms
  unfolding seen_at
  Fresh-Other i n seen [] a = (tt, tt)
  Fresh-Other i n seen (m ∷ ms) a =
      let rest = Fresh-Other i n seen ms a.1 in
      (
        (λ j e. (if_some-none (same i j) n (seen_at same j seen) (a.0 j e)).0, rest.0),
        (λ j e. (if_some-none (same i j) n (seen_at same j seen) (a.0 j e)).1, rest.1),
      )

  module _ (proto_size : Message → ℕ) where
    pub check_distinct_sound :
        (field : Field) (index : ℕ) (seen : List (I × ℕ)) (ms : List (Option Message))
        (remaining left : ℕ)
        → check_distinct proto_size same identity field index seen ms remaining ≡ ok left
        → All (Fresh seen) ms × AllDistinct ms × (total_size proto_size ms + left ≡ remaining)
    unfolding check_distinct total_size
    check_distinct_sound field index seen [] remaining left e =
        (tt, tt, omega (arith, ok_eq (ok remaining) remaining left refl e))
    check_distinct_sound field index seen (m ∷ ms) remaining left e =
        let (i, is_i, e1) = option_some_ok (identity m) _ _ left e in
        let (unseen, e2) = option_none_ok (seen_at same i seen) _ _ left e1 in
        let (mid, spent, e3) =
          result_ok (add_size field index (size_of proto_size m) remaining) _ left e2 in
        let (fresh, distinct, total) =
          check_distinct_sound field (suc index) ((i, index) ∷ seen) ms mid left e3 in
        let split = Fresh-Other i index seen ms fresh in
        let sizes = add_size_spends field index (size_of proto_size m) remaining mid spent in
        (
          (
            λ j is_j. ap (λ (k : I). seen_at same k seen) (some_eq (sym is_j ∙ is_i)) ∙ unseen,
            split.1,
          ),
          (i, is_i, split.0, distinct),
          omega (arith, sizes.1, total),
        )
