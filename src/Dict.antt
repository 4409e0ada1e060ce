-- ===== src/Dict.antt =====
-- A Python dict in insertion order, over any key type with a decided equality.
pub mod Keys
use openframe_adapters.Prelude.{
  ◌≡◌, refl, ◌↔◌, Bool, true, Option, none, some, List, [], ◌∷◌, Text, eq_text, eq_text→eq,
  eq_text_refl, arith, if◌then◌else◌,
}

-- `==` of keys.
pub record Eq (K : Type 0) : Type 0 where
  pub beq : K → K → Bool
  pub beq_iff : (a b : K) → (beq a b ≡ true) ↔ (a ≡ b)

pub text_iff : (a b : Text) → (eq_text a b ≡ true) ↔ (a ≡ b)
text_iff a b = (eq_text→eq a b, λ p. subst_refl p)
  where
    subst_refl : a ≡ b → eq_text a b ≡ true
    subst_refl p = rw (← p) (eq_text_refl a)

instance abbrev pub text_eq : Eq Text
text_eq = record { beq = eq_text; beq_iff = text_iff }

abbrev pub Dict : Type 0 → Type 0 → Type 0
Dict K V = List (K × V)

pub beq_refl : {K : Type 0} ⦃e : Eq K⦄ (k : K) → e.beq k k ≡ true
beq_refl ⦃e⦄ k = (e.beq_iff k k).1 refl

module _ {K V : Type 0} ⦃e : Eq K⦄ where
  -- `d.get(k)`
  unfoldable pub lookup : K → Dict K V → Option V
  lookup k [] = none
  lookup k ((j, v) ∷ d) = if e.beq j k then some v else lookup k d

  -- `d[k] = v`
  unfoldable pub insert : K → V → Dict K V → Dict K V
  insert k v [] = (k, v) ∷ []
  insert k v ((j, w) ∷ d) = if e.beq j k then (j, v) ∷ d else (j, w) ∷ insert k v d

  -- `d.pop(k, None)`, on every entry of the key
  unfoldable pub pop : K → Dict K V → Dict K V
  pop k [] = []
  pop k ((j, w) ∷ d) = let rest = pop k d in if e.beq j k then rest else (j, w) ∷ rest

  pub lookup-insert :
      (k j : K) (v : V) (d : Dict K V)
      → lookup j (insert k v d) ≡ (if e.beq k j then some v else lookup j d)
  unfolding lookup insert
  lookup-insert k j v [] = refl
  lookup-insert k j v ((i, w) ∷ d) =
      ground (arith, e.beq_iff k j, e.beq_iff i k, e.beq_iff i j, lookup-insert k j v d)

  pub lookup-pop :
      (k j : K) (d : Dict K V) → lookup j (pop k d) ≡ (if e.beq k j then none else lookup j d)
  unfolding lookup pop
  lookup-pop k j [] = ground arith
  lookup-pop k j ((i, w) ∷ d) =
      ground (arith, e.beq_iff k j, e.beq_iff i k, e.beq_iff i j, lookup-pop k j d)

  pub lookup-insert_self : (k : K) (v : V) (d : Dict K V) → lookup k (insert k v d) ≡ some v
  lookup-insert_self k v d = rw (lookup-insert k k v d) (rw (beq_refl k) refl)

  pub lookup-pop_self : (k : K) (d : Dict K V) → lookup k (pop k d) ≡ none
  lookup-pop_self k d = rw (lookup-pop k k d) (rw (beq_refl k) refl)
