-- ===== src/Approvals/Latest.antt =====
-- The latest of the rows that pass a test.
use self_healing_agent.Prelude.{
  inr, subst, inl, ap, ◌∙◌, Bool-cases, ◌++◌, arith, keep, find, Option-cases, List, true, Bool, ℕ,
  refl, none, ◌≡◌, some, [], ◌∷◌,
}
use self_healing_agent.Approvals.Store.{latest}

module _ {ℓ} {A : Type ℓ} where
  pub keep-append : (p : A → Bool) (xs ys : List A) → keep p (xs ++ ys) ≡ keep p xs ++ keep p ys
  keep-append p [] ys = refl
  keep-append p (x ∷ xs) ys = ground (arith, keep-append p xs ys)

  pub latest-none : (f : A → ℕ) (xs : List A) → latest f xs ≡ none → xs ≡ []
  unfolding latest
  latest-none f [] h = refl
  latest-none f (x ∷ xs) h = elim (Option-cases (latest f xs)) [
    | inl empty ↦ absurd (ground (arith, h, empty))
    | inr (y, has_one) ↦ absurd (ground (arith, h, has_one))
  ]

  -- A stronger test keeps nothing where a weaker one keeps nothing.
  pub keep-stronger :
      (p q : A → Bool)
      → ((x : A) → q x ≡ true → p x ≡ true)
      → (xs : List A) → keep p xs ≡ []
      → keep q xs ≡ []
  keep-stronger p q imp [] h = refl
  keep-stronger p q imp (x ∷ xs) h = elim (Bool-cases (p x)) [
    | inl hit ↦ absurd (ground (arith, h, hit))
    | inr miss ↦
        let rest = keep-stronger p q imp xs (ground (arith, h, miss)) in
        elim (Bool-cases (q x)) [
          | inl bad ↦ absurd (ground (arith, miss, imp x bad))
          | inr fine ↦ ground (arith, rest, fine)
        ]
  ]

  -- One new row that passes the test is the latest of those that do, where there was none.
  pub latest-only :
      (f : A → ℕ) (p : A → Bool) (xs : List A) (x : A)
      → keep p xs ≡ []
      → p x ≡ true
      → latest f (keep p (xs ++ x ∷ [])) ≡ some x
  unfolding latest
  latest-only f p xs x h good =
      let shape : keep p (xs ++ x ∷ []) ≡ x ∷ [] = keep-append p xs (x ∷ []) ∙ rw (h, good) refl in
      ap (latest f) shape

pub find-true {ℓ} :
    {A : Type ℓ} (p : A → Bool) (xs : List A) (x : A) → find p xs ≡ some x → p x ≡ true
find-true p [] x h = absurd (ground (arith, h))
find-true p (y ∷ ys) x h = elim (Bool-cases (p y)) [
  | inl hit ↦ let same : y ≡ x = ground (arith, h, hit) in subst (λ z. p z ≡ true) same hit
  | inr miss ↦ find-true p ys x (ground (arith, h, miss))
]
