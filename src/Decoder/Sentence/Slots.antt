-- ===== src/Decoder/Sentence/Slots.antt =====
-- Lists with a slot for each number: reading a slot, and what holds of every slot.
use moses.Base.{
  ℕ, zero, suc, ◌+◌, ◌<◌, ◌≡◌, refl, Option, none, some, List, [], ◌∷◌, arith, length, set,
  replicate,
}
use mathlib.Core.Path.{subst}

-- operator[]; none stands for an access past the end.
unfoldable pub nth {ℓ} : {A : Type ℓ} → List A → ℕ → Option A
nth [] i = none
nth (x ∷ xs) zero = some x
nth (x ∷ xs) (suc i) = nth xs i

-- `Q` holds of each element and its number, counted from `k`.
abbrev pub EachSlot {ℓ} : {A : Type ℓ} → (ℕ → A → Type 0) → ℕ → List A → Type 0
EachSlot Q k [] = Unit
EachSlot Q k (x ∷ xs) = Q k x × EachSlot Q (suc k) xs

module _ {ℓ} {A : Type ℓ} (Q : ℕ → A → Type 0) where
  pub EachSlot-nth :
      (k : ℕ) (xs : List A) (i : ℕ) {x : A} → EachSlot Q k xs → nth xs i ≡ some x → Q (k + i) x
  unfolding nth
  EachSlot-nth k [] i h e = absurd (ground arith)
  EachSlot-nth k (y ∷ xs) zero {x} h e =
      subst (λ a. Q (k + 0) a) (ground arith) (subst (λ j. Q j y) (omega arith) h.0)
  EachSlot-nth k (y ∷ xs) (suc i) {x} h e =
      subst (λ j. Q j x) (omega arith) (EachSlot-nth (suc k) xs i h.1 e)

  pub EachSlot-set :
      (k : ℕ) (xs : List A) (i : ℕ) (x : A)
      → EachSlot Q k xs
      → Q (k + i) x
      → EachSlot Q k (set xs i x)
  EachSlot-set k [] i x h q = tt
  EachSlot-set k (y ∷ xs) zero x h q = (subst (λ j. Q j x) (omega arith) q, h.1)
  EachSlot-set k (y ∷ xs) (suc i) x h q =
      (h.0, EachSlot-set (suc k) xs i x h.1 (subst (λ j. Q j x) (omega arith) q))

  pub EachSlot-replicate : (k n : ℕ) (x : A) → ((j : ℕ) → Q j x) → EachSlot Q k (replicate n x)
  EachSlot-replicate k zero x q = tt
  EachSlot-replicate k (suc n) x q = (q k, EachSlot-replicate (suc k) n x q)

pub nth-in {ℓ} : {A : Type ℓ} (xs : List A) (i : ℕ) → i < length xs → (x : A) × (nth xs i ≡ some x)
unfolding nth
nth-in [] i h = absurd (omega arith)
nth-in (x ∷ xs) zero h = (x, refl)
nth-in (x ∷ xs) (suc i) h = nth-in xs i (omega arith)

pub EachSlot-map {ℓ} :
    {A : Type ℓ} (Q R : ℕ → A → Type 0) (k : ℕ) (xs : List A)
    → ((j : ℕ) (x : A) → Q j x → R j x)
    → EachSlot Q k xs
    → EachSlot R k xs
EachSlot-map Q R k [] f h = tt
EachSlot-map Q R k (x ∷ xs) f h = (f k x h.0, EachSlot-map Q R (suc k) xs f h.1)
