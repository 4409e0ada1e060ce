-- ===== src/Falkor/Labels.antt =====
-- `_SAFE_IDENTIFIER_RE` and the validators of config.py of the FalkorDB adapter: which labels and graph
-- names they accept.
use openframe_adapters.Prelude.{
  ◌≡◌, refl, ap, Bool-cases, ◌↔◌, ◌⊎◌, inl, inr, Bool, true, false, ◌&&◌, ◌||◌, [], ◌∷◌, ◌++◌, Text,
  ℕ, leb, ◌==◌, arith,
}

-- `[A-Za-z_]` and `[A-Za-z0-9_]`
abbrev pub is_start : ℕ → Bool
is_start c = (leb 65 c && leb c 90) || ((leb 97 c && leb c 122) || c == 95)

abbrev pub is_word : ℕ → Bool
is_word c = is_start c || (leb 48 c && leb c 57)

-- `[A-Za-z0-9_]*$`, where `$` stands at the end and before a line feed that ends the text
unfoldable pub rest_matches : Text → Bool
rest_matches [] = true
rest_matches (c ∷ []) = is_word c || c == 10
rest_matches (c ∷ d ∷ ds) = is_word c && rest_matches (d ∷ ds)

-- `_SAFE_IDENTIFIER_RE.match(value)`, which `_validate_node_label` demands
unfoldable pub accepts_node_label : Text → Bool
unfolding rest_matches
accepts_node_label [] = false
accepts_node_label (c ∷ cs) = is_start c && rest_matches cs

-- `_validate_graph_name` demands a text that is not empty.
unfoldable pub accepts_graph_name : Text → Bool
accepts_graph_name [] = false
accepts_graph_name (c ∷ cs) = true

-- A Cypher identifier of ASCII letters, digits and underscores.
abbrev pub all_words : Text → Bool
all_words [] = true
all_words (c ∷ cs) = is_word c && all_words cs

abbrev pub is_identifier : Text → Bool
is_identifier [] = false
is_identifier (c ∷ cs) = is_start c && all_words cs

abbrev pub WithLineFeed : (Text → Bool) → Text → Type 0
WithLineFeed is_good value =
    (t : Text) × (is_good t ≡ true) × ((value ≡ t) ⊎ (value ≡ t ++ 10 ∷ []))

behind :
    (c : ℕ) {cs : Text} (t : Text)
    → ((cs ≡ t) ⊎ (cs ≡ t ++ 10 ∷ []))
    → (c ∷ cs ≡ c ∷ t) ⊎ (c ∷ cs ≡ c ∷ (t ++ 10 ∷ []))
behind c t (inl p) = inl (ap (◌∷◌ c) p)
behind c t (inr p) = inr (ap (◌∷◌ c) p)

rest_split : (cs : Text) → rest_matches cs ≡ true → WithLineFeed all_words cs
unfolding rest_matches
rest_split [] h = ([], refl, inl refl)
rest_split (c ∷ []) h = elim (Bool-cases (is_word c)) [
  | inl w ↦ (c ∷ [], ground (arith, w), inl refl)
  | inr n ↦ ([], refl, inr (ap (λ x. x ∷ []) (ground (arith, h, n))))
]
rest_split (c ∷ e ∷ cs) h =
    let (t, good, shape) = rest_split (e ∷ cs) (ground (arith, h)) in
    (c ∷ t, ground (arith, h, good), behind c t shape)

rest_joined :
    (t : Text) → all_words t ≡ true → (rest_matches t ≡ true) × (rest_matches (t ++ 10 ∷ []) ≡ true)
unfolding rest_matches
rest_joined [] h = (refl, refl)
rest_joined (c ∷ []) h = (ground (arith, h), ground (arith, h))
rest_joined (c ∷ e ∷ t) h = ground (arith, h, rest_joined (e ∷ t))

-- The validator of the node label of FalkorDB accepts exactly the identifiers of ASCII letters,
-- digits and underscores that do not begin with a digit, and these with one line feed at the end.
pub accepts_node_label_iff :
    (value : Text) → (accepts_node_label value ≡ true) ↔ WithLineFeed is_identifier value
unfolding accepts_node_label
accepts_node_label_iff value = (split value, joined value)
  where
    split : (value : Text) → accepts_node_label value ≡ true → WithLineFeed is_identifier value
    split [] h = absurd (ground (arith, h))
    split (c ∷ cs) h =
        let (t, good, shape) = rest_split cs (ground (arith, h)) in
        (c ∷ t, ground (arith, h, good), behind c t shape)

    joined : (value : Text) → WithLineFeed is_identifier value → accepts_node_label value ≡ true
    joined value ([], good, shape) = absurd (ground (arith, good))
    joined value (c ∷ t, good, inl p) = rw p (ground (arith, good, rest_joined t))
    joined value (c ∷ t, good, inr p) = rw p (ground (arith, good, rest_joined t))
