-- ===== src/Redis/Paging.antt =====
-- The pages of `list`: they do not depend on the order of SCAN, and follow one another.
use mathlib.Core.List.{Perm, Permᴰ}
use mathlib.Core.Path.{ap, ap₂}
use mathlib.Core.Logic.{∥∥₁_elim}
use openframe_adapters.Prelude.{
  ℕ, ◌≡◌, ◌+◌, refl, sym, ◌∙◌, arith, List, [], ◌∷◌, ◌++◌, Text, le_text_total, le_text_antisymm,
  le_text_trans, take, drop, take-append-take-drop, drop-drop,
}
use openframe_adapters.Redis.Keys.{insert_key, sort_keys, page_keys}

texts_set : IsSet (List Text)
texts_set = hlevel

insert_key-insert_key :
    (a b : Text) (l : List Text) → insert_key a (insert_key b l) ≡ insert_key b (insert_key a l)
unfolding insert_key
insert_key-insert_key a b [] = ground (arith, le_text_total a b, le_text_antisymm a b)
insert_key-insert_key a b (c ∷ l) = ground (
  arith,
  insert_key-insert_key a b l,
  le_text_total a b,
  le_text_antisymm a b,
  le_text_trans a b c,
  le_text_trans b a c,
  le_text_total a c,
  le_text_total b c,
  le_text_trans a c b,
  le_text_trans b c a,
)

sort_keys-permᴰ : {xs ys : List Text} → Permᴰ xs ys → sort_keys xs ≡ sort_keys ys
unfolding sort_keys
sort_keys-permᴰ Permᴰ.nil = refl
sort_keys-permᴰ (Permᴰ.cons e p) = ap₂ insert_key e (sort_keys-permᴰ p)
sort_keys-permᴰ (Permᴰ.swap {a = a} {b = b} {l = l} e f) =
    insert_key-insert_key a b (sort_keys l)
    ∙ ap₂ (λ u v. insert_key u (insert_key v (sort_keys l))) f e
sort_keys-permᴰ (Permᴰ.trans p q) = sort_keys-permᴰ p ∙ sort_keys-permᴰ q

-- The page of keys depends on which keys SCAN yields, and not on their order.
pub page_keys-perm :
    (limit offset : ℕ) (xs ys : List Text)
    → Perm xs ys
    → page_keys limit offset xs ≡ page_keys limit offset ys
unfolding page_keys
page_keys-perm limit offset xs ys p =
    ap (λ l. take limit (drop offset l)) (∥∥₁_elim p (texts_set _ _) sort_keys-permᴰ)

-- A page of keys followed by the page that begins where it ends is one longer page.
pub page_keys-append :
    (offset n k : ℕ) (keys : List Text)
    → page_keys n offset keys ++ page_keys k (offset + n) keys ≡ page_keys (n + k) offset keys
unfolding page_keys
page_keys-append offset n k keys =
    ap (λ l. take n (drop offset (sort_keys keys)) ++ take k l)
      (sym (drop-drop offset n (sort_keys keys)))
    ∙ take-append-take-drop n k (drop offset (sort_keys keys))
