-- ===== src/Dynamodb/Tests.antt =====
-- The theorems about the DynamoDB adapter at concrete inputs, on the table in memory.
use openframe_adapters.Prelude.{
  ℕ, Bool, ◌<◌, ◌≡◌, ◌≢◌, refl, true, false, none, some, Option, [], ◌∷◌, arith,
}
use openframe_adapters.Effect.{ok}
use openframe_adapters.Dict.{lookup}
use openframe_adapters.Dynamodb.Connection.{cache_key}
use openframe_adapters.Dynamodb.Repository.{list, entities_of, entity_of}
use openframe_adapters.Dynamodb.Scanning.{AnswersWith, Pages, last_page, more_pages, list_page}
use openframe_adapters.Dynamodb.Ending.{Descending, list_ends}
use openframe_adapters.Dynamodb.Fake.{fake, items, warm, served}

three-Pages : Pages fake 7 tt none ((1 ∷ 2 ∷ []) ∷ [] ∷ (3 ∷ []) ∷ [])
unfolding fake served
three-Pages = more_pages first (more_pages second (last_page third))
  where
    first : AnswersWith fake 7 tt none (1 ∷ 2 ∷ []) (some true)
    first true = refl
    first false = refl

    second : AnswersWith fake 7 tt (some true) [] (some false)
    second true = refl
    second false = refl

    third : AnswersWith fake 7 tt (some false) (3 ∷ []) none
    third true = refl
    third false = refl

-- The items 2 and 3 lie on different pages.
list_page_example : list fake items 3 2 1 warm ≡ (ok (some (2 ∷ 3 ∷ [], 3)), warm)
unfolding fake lookup cache_key entities_of entity_of
list_page_example = list_page fake items warm refl three-Pages 3 2 1 (omega arith)

abbrev rank : Option Bool → ℕ
rank none = 3
rank (some true) = 2
rank (some false) = 1

fake-Descending : Descending fake rank
unfolding fake served
fake-Descending table args s r s' key p q =
    go args.select_count args.exclusive_start_key (ground (arith, p, q))
  where
    go :
        (b : Bool) (start : Option Bool)
        → (served b start).last_evaluated_key ≡ some key
        → rank (some key) < rank start
    go true none e = ground (arith, e)
    go true (some true) e = ground (arith, e)
    go true (some false) e = ground (arith, e)
    go false none e = ground (arith, e)
    go false (some true) e = ground (arith, e)
    go false (some false) e = ground (arith, e)

list_ends_example : (list fake items 4 2 1 warm).0 ≢ ok none
list_ends_example = list_ends fake rank fake-Descending items 4 2 1 warm (omega arith)
