-- ===== src/Base/Outcomes.antt =====
-- What holds of the result of a call, if it has one, and of its error, if it has one.
use mathlib.Core.Path.{◌≡◌, sym, subst}
use group_bridge.Base.Exec.{Result, ok, err, Exec, continue, ◌>>=◌}

module _ {ℓ} {E S A : Type ℓ} where
  -- The answer is an error, or what it carries has the property.
  abbrev pub Yields {κ} : (A → Type κ) → Result E A × S → Type κ
  Yields P (ok a, c) = P a
  Yields P (err e, c) = Unit

  -- So it is from every state.
  abbrev pub Ensures {κ} : (A → Type κ) → Exec E S A → Type (ℓ ⊔ κ)
  Ensures P m = (c : S) → Yields P (m c)

  pub anything : (m : Exec E S A) → Ensures (λ a. Unit {0}) m
  anything m c = of_result (m c)
    where
      of_result : (r : Result E A × S) → Yields (λ a. Unit {0}) r
      of_result (ok a, d) = tt
      of_result (err e, d) = tt

  pub weakened {κ μ} :
      (P : A → Type κ) (Q : A → Type μ) (r : Result E A × S)
      → ((a : A) → P a → Q a)
      → Yields P r
      → Yields Q r
  weakened P Q (ok a, c) f p = f a p
  weakened P Q (err e, c) f p = tt

module _ {ℓ} {E S A B : Type ℓ} where
  pub in_turn {κ μ} :
      (P : A → Type κ) (Q : B → Type μ) (m : Exec E S A) (f : A → Exec E S B)
      → Ensures P m
      → ((a : A) → P a → Ensures Q (f a))
      → Ensures Q (m >>= f)
  in_turn P Q m f h g c = of_result (m c) (h c)
    where
      of_result : (r : Result E A × S) → Yields P r → Yields Q (let (a, d) = r in continue a f d)
      of_result (ok a, d) p = g a p d
      of_result (err e, d) p = tt

module _ {E S A B : Type 0} where
  -- A result that can only be one value.
  pub same_in_turn :
      (Q : B → Type 0) (a : A) (m : Exec E S A) (f : A → Exec E S B)
      → Ensures (λ b. b ≡ a) m
      → Ensures Q (f a)
      → Ensures Q (m >>= f)
  same_in_turn Q a m f h g =
      in_turn (λ b. b ≡ a) Q m f h (λ b e. subst (λ x. Ensures Q (f x)) (sym e) g)

-- A result that is not an error.
module _ {ℓ} {E S A : Type ℓ} where
  -- The answer is not an error, and what it carries has the property.
  abbrev pub Gives : (A → Type 0) → Result E A × S → Type 0
  Gives P (ok a, c) = P a
  Gives P (err e, c) = ⊥

  -- So it is from every state.
  abbrev pub Delivers : (A → Type 0) → Exec E S A → Type ℓ
  Delivers P m = (c : S) → Gives P (m c)

module _ {ℓ} {E S A B : Type ℓ} where
  pub given_in_turn :
      (P : A → Type 0) (Q : B → Type 0) (m : Exec E S A) (f : A → Exec E S B)
      → Delivers P m
      → ((a : A) → P a → Delivers Q (f a))
      → Delivers Q (m >>= f)
  given_in_turn P Q m f h g c = of_result (m c) (h c)
    where
      of_result : (r : Result E A × S) → Gives P r → Gives Q (let (a, d) = r in continue a f d)
      of_result (ok a, d) p = g a p d
      of_result (err e, d) p = absurd p

module _ {E S A B : Type 0} where
  -- A result that is known already.
  pub known_in_turn :
      (Q : B → Type 0) (a : A) (m : Exec E S A) (f : A → Exec E S B)
      → Delivers (λ b. b ≡ a) m
      → Delivers Q (f a)
      → Delivers Q (m >>= f)
  known_in_turn Q a m f h g =
      given_in_turn (λ b. b ≡ a) Q m f h (λ b e. subst (λ x. Delivers Q (f x)) (sym e) g)

-- What holds of the value and of the state.
module _ {E S A : Type 0} where
  -- The answer is not an error, and what it carries has the property in the state after it.
  abbrev pub Reaches : (A → S → Type 0) → Result E A × S → Type 0
  Reaches Q (ok a, c) = Q a c
  Reaches Q (err e, c) = ⊥

  pub Gives-Reaches : (P : A → Type 0) (r : Result E A × S) → Gives P r → Reaches (λ a c. P a) r
  Gives-Reaches P (ok a, c) h = h
  Gives-Reaches P (err e, c) h = h

module _ {E S A B : Type 0} where
  pub reached_in_turn :
      (Q : A → S → Type 0) (R : Result E B × S → Type 0) (m : Exec E S A) (f : A → Exec E S B)
      (c : S)
      → Reaches Q (m c)
      → ((a : A) (d : S) → Q a d → R (f a d))
      → R ((m >>= f) c)
  reached_in_turn Q R m f c h g = of_result (m c) h
    where
      of_result : (r : Result E A × S) → Reaches Q r → R (let (a, d) = r in continue a f d)
      of_result (ok a, d) q = g a d q
      of_result (err e, d) q = absurd q
