-- ===== src/Simulator/Expectations/Order.antt =====
-- simulator/command_expectations.go: the expectations spelled out as a list of commands.
use go_aioesphomeapi.Base.{
  ℕ, zero, suc, ◌+◌, ◌-◌, ◌≤◌, ◌<◌, ◌≡◌, refl, sym, ◌∙◌, ap, Bool, true, false, List, [], ◌∷◌, ◌++◌,
  none, some, arith, inl, inr, ◌⊎◌, ◌≢◌, ◌↔◌, ◌==◌, ==_iff, ◌&&◌, length, get_elem?, drop,
  replicate, All, Bool-cases,
}
use mathlib.Core.Path.{subst}
use go_aioesphomeapi.Messages.{Message}
use go_aioesphomeapi.Simulator.Expectations.{
  Expectation, Observer, new_observer, is_some, match_expectation, observe, check_expectations,
  satisfied,
}

-- The messages that the expectations stand for.
abbrev pub expand : List Expectation → List Message
expand [] = []
expand (e ∷ es) = replicate e.count e.command ++ expand es

-- What is still to come, with `matched` of the first already seen.
abbrev rest_of : ℕ → List Expectation → List Message
rest_of matched [] = []
rest_of matched (e ∷ es) = replicate (e.count - matched) e.command ++ expand es

abbrev pub remaining : Observer → List Message
remaining o = rest_of o.matched (drop o.index o.expected)

-- The expectation that is due wants more than was matched.
abbrev IsDue : ℕ → List Expectation → Type 0
IsDue matched [] = Unit
IsDue matched (e ∷ es) = matched < e.count

abbrev pub IsCounted : Expectation → Type 0
IsCounted e = 0 < e.count

pub record IsObserver (o : Observer) : Type 0 where
  pub counted : All IsCounted o.expected
  pub some_expected : o.expected ≢ []
  pub within : o.index ≤ length o.expected
  pub due : IsDue o.matched (drop o.index o.expected)

module _ {ℓ} {A : Type ℓ} where
  drop-get :
      (xs : List A) (i : ℕ)
      → i < length xs
      → (x : A) × (get_elem? xs i ≡ some x) × (drop i xs ≡ x ∷ drop (suc i) xs)
  drop-get [] i h = absurd (omega arith)
  drop-get (x ∷ xs) zero h = (x, refl, refl)
  drop-get (x ∷ xs) (suc i) h = drop-get xs i (omega arith)

  drop-length : (xs : List A) → drop (length xs) xs ≡ []
  drop-length [] = refl
  drop-length (x ∷ xs) = drop-length xs

module _ (proto_equal : Message → Message → Bool) where
  -- The commands fit the front of the list.
  unfoldable pub fits : List Message → List Message → Bool
  fits rest [] = true
  fits [] (c ∷ cs) = false
  fits (m ∷ rest) (c ∷ cs) = proto_equal c m && fits rest cs

pub rest_of-zero : (es : List Expectation) → rest_of 0 es ≡ expand es
rest_of-zero [] = refl
rest_of-zero (e ∷ es) =
    let same : e.count - 0 ≡ e.count = omega arith in
    ap (λ (n : ℕ). replicate n e.command ++ expand es) same

replicate-next {ℓ} :
    {A : Type ℓ} (n k : ℕ) (x : A) → k < n → replicate (n - k) x ≡ x ∷ replicate (n - (k + 1)) x
replicate-next n k x h =
    let same : n - k ≡ suc (n - (k + 1)) = omega arith in ap (λ (j : ℕ). replicate j x) same

IsDue-drop : (es : List Expectation) (i : ℕ) → All IsCounted es → IsDue 0 (drop i es)
IsDue-drop [] zero h = tt
IsDue-drop [] (suc i) h = tt
IsDue-drop (e ∷ es) zero h = h.0
IsDue-drop (e ∷ es) (suc i) h = IsDue-drop es i h.1

module _ (proto_equal : Message → Message → Bool) where
  -- What one command does to an observer that has not failed.
  abbrev pub Observed : Message → Observer → Observer → Type 0
  Observed c o o' =
      ((remaining o ≡ []) × (is_some o'.failure ≡ true))
      ⊎ ((m : Message) × (rest : List Message) × (remaining o ≡ m ∷ rest)
          × (((proto_equal c m ≡ false) × (is_some o'.failure ≡ true))
              ⊎ ((proto_equal c m ≡ true)
                  × (IsObserver o' × (o'.failure ≡ none) × (remaining o' ≡ rest)))))

  due-Observed :
      (c : Message) (o : Observer) (e : Expectation)
      → IsObserver o
      → o.failure ≡ none
      → o.index < length o.expected
      → drop o.index o.expected ≡ e ∷ drop (suc o.index) o.expected
      → Observed c o (match_expectation proto_equal c e (record o { observed = o.observed + 1 }))
  unfolding match_expectation
  due-Observed c o e v clear inside here = elim (Bool-cases (proto_equal c e.command)) [
    | inr differs ↦ inr (e.command, later, start, inl (differs, ground arith))
    | inl same ↦ inr (
      e.command,
      later,
      start,
      inr (
        same,
        elim (Bool-cases (o.matched + 1 == e.count)) [
          | inl last ↦
              let result : match_expectation proto_equal c e seen
                  ≡ record seen { index = suc o.index; matched = 0 } =
                ground arith in
              subst Goes (sym result) (moves_on (ground arith))
          | inr more ↦
              let result : match_expectation proto_equal c e seen
                  ≡ record seen { matched = o.matched + 1 } =
                ground arith in
              subst Goes (sym result) (stays (ground arith))
        ],
      ),
    )
  ]
    where
      later : List Message
      later =
          replicate (e.count - (o.matched + 1)) e.command ++ expand (drop (suc o.index) o.expected)

      enough : o.matched < e.count
      enough = subst (IsDue o.matched) here v.due

      start : remaining o ≡ e.command ∷ later
      start =
          ap (rest_of o.matched) here
          ∙ ap (λ (l : List Message). l ++ expand (drop (suc o.index) o.expected))
              (replicate-next e.count o.matched e.command enough)

      seen : Observer
      seen = record o { observed = o.observed + 1 }

      Goes : Observer → Type 0
      Goes o' = IsObserver o' × (o'.failure ≡ none) × (remaining o' ≡ later)

      moves_on :
          e.count - (o.matched + 1) ≡ 0 → Goes (record seen { index = suc o.index; matched = 0 })
      moves_on none_left = (
        record {
          counted = v.counted;
          some_expected = v.some_expected;
          within = inside;
          due = IsDue-drop o.expected (suc o.index) v.counted;
        },
        clear,
        rest_of-zero (drop (suc o.index) o.expected)
            ∙ ap (λ (n : ℕ). replicate n e.command ++ expand (drop (suc o.index) o.expected))
                (sym none_left),
      )

      stays : o.matched + 1 < e.count → Goes (record seen { matched = o.matched + 1 })
      stays more_left = (
        record {
          counted = v.counted;
          some_expected = v.some_expected;
          within = v.within;
          due = subst (IsDue (o.matched + 1)) (sym here) more_left;
        },
        clear,
        ap (rest_of (o.matched + 1)) here,
      )

  pub observe-Observed :
      (c : Message) (o : Observer)
      → IsObserver o
      → o.failure ≡ none
      → Observed c o (observe proto_equal c o)
  unfolding observe
  observe-Observed c o v clear = elim (Bool-cases (o.index == length o.expected)) [
    | inl end ↦ inl (
      ap (rest_of o.matched) (
          ap (λ (i : ℕ). drop i o.expected) ((==_iff o.index (length o.expected)).0 end)
          ∙ drop-length o.expected),
      ground (arith, v.some_expected),
    )
    | inr before ↦
        let (e, found, here) = drop-get o.expected o.index (ground (arith, v.within)) in
        let result : observe proto_equal c o
            ≡ match_expectation proto_equal c e (record o { observed = o.observed + 1 }) =
          ground (arith, v.some_expected) in
        subst (Observed c o) (sym result)
          (due-Observed c o e v clear (ground (arith, v.within)) here)
  ]

pub new-IsObserver :
    (es : List Expectation) → All IsCounted es → es ≢ [] → IsObserver (new_observer es)
unfolding new_observer
new-IsObserver es h n = record {
  counted = h;
  some_expected = n;
  within = omega arith;
  due = IsDue-drop es 0 h;
}

pub satisfied_iff :
    (o : Observer)
    → IsObserver o
    → o.failure ≡ none
    → (check_expectations o ≡ satisfied) ↔ (remaining o ≡ [])
unfolding check_expectations
satisfied_iff o v clear = elim (Bool-cases (o.index == length o.expected)) [
  | inl end ↦
      let empty : remaining o ≡ [] = ap (rest_of o.matched) (
        ap (λ (i : ℕ). drop i o.expected) ((==_iff o.index (length o.expected)).0 end)
        ∙ drop-length o.expected) in
      (λ _. empty, λ _. ground (arith, v.some_expected))
  | inr before ↦
      let (e, found, here) = drop-get o.expected o.index (ground (arith, v.within)) in
      let more : remaining o
          ≡ e.command
            ∷ (replicate (e.count - (o.matched + 1)) e.command
                ++ expand (drop (suc o.index) o.expected)) =
        ap (rest_of o.matched) here
        ∙ ap (λ (l : List Message). l ++ expand (drop (suc o.index) o.expected))
            (replicate-next e.count o.matched e.command (subst (IsDue o.matched) here v.due)) in
      (λ h. absurd (ground (arith, v.some_expected)), λ h. absurd (cc more))
]

pub drop-eq-nil {ℓ} :
    {A : Type ℓ} (n : ℕ) (xs : List A) → n ≤ length xs → (drop n xs ≡ []) ↔ (n ≡ length xs)
drop-eq-nil zero [] h = (λ _. omega arith, λ _. refl)
drop-eq-nil zero (x ∷ xs) h = (λ e. absurd (cc), λ e. absurd (omega arith))
drop-eq-nil (suc n) [] h = absurd (omega arith)
drop-eq-nil (suc n) (x ∷ xs) h =
    let (to, from) = drop-eq-nil n xs (omega arith) in (λ e. ap suc (to e), λ e. from (omega arith))
