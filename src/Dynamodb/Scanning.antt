-- ===== src/Dynamodb/Scanning.antt =====
-- `list` of the DynamoDB repository against a table that answers a scan in pages: its loops end, and the
-- pages of the answers make no difference to what it returns.
use openframe_adapters.Prelude.{
  sym, ◌≡◌, Bool, true, false, Option, none, some, List, [], ◌∷◌, length, ℕ, ◌≤◌, zero, suc, ◌+◌,
  take, concat, ap, ◌∙◌, length-append, arith, take-append_short, refl, Bool-cases, inl, inr, ◌++◌,
  leb, drop, drop-take,
}
use mathlib.Core.List.{append-nil, append_assoc}
use openframe_adapters.Effect.{ok, ◌>>=◌, pure}
use openframe_adapters.Dict.{Dict, lookup}
use openframe_adapters.Dynamodb.Connection.{
  World, cache_key_eq, CacheKey, cache_key, get_dynamodb_table,
}
use openframe_adapters.Dynamodb.Driver.{Driver, Response}
use openframe_adapters.Dynamodb.Repository.{
  scan_items, scan_count, both_scans, list, entities_of, Repo,
}

module _ {B R L S X : Type 0} (d : Driver B R L S X) (table : B) (s : S) where
  abbrev pub answer : Bool → List R → Option L → Response R L
  answer true page last = record {
    items = none;
    count = some (length page);
    last_evaluated_key = last;
  }
  answer false page last = record {
    items = some page;
    count = some (length page);
    last_evaluated_key = last;
  }

  -- The table answers scans and counts from a key by one page.
  abbrev pub AnswersWith : Option L → List R → Option L → Type 0
  AnswersWith start page last =
      (counting : Bool)
      → d.scan table (record { select_count = counting; exclusive_start_key = start }) s
        ≡ (ok (answer counting page last), s)

  -- The pages of the table from a key on; pages may be empty, and the last one names no key.
  pub data Pages : Option L → List (List R) → Type 0 where
    last_page :
        {start : Option L} {page : List R} → AnswersWith start page none → Pages start (page ∷ [])
    more_pages :
        {start : Option L} {page : List R} {key : L} {pages : List (List R)}
        → AnswersWith start page (some key)
        → Pages (some key) pages
        → Pages start (page ∷ pages)

  beyond :
      (items page rest : List R) (needed : ℕ)
      → leb needed (length (items ++ page)) ≡ true
      → take needed (items ++ page) ≡ take needed (items ++ (page ++ rest))
  beyond items page rest needed e =
      sym (take-append_short needed (items ++ page) rest (ground (arith, e)))
      ∙ ap (take needed) (append_assoc items page rest)

  -- The first loop gathers at least the first `needed` items.
  scan_items-Pages :
      (fuel needed : ℕ) (c : Dict CacheKey B) {start : Option L} {pages : List (List R)}
      (items : List R)
      → Pages start pages
      → length pages ≤ fuel
      → (got : List R) × (scan_items d fuel table needed start items (c, s)
          ≡ (ok (some got), (c, s)))
        × (take needed got ≡ take needed (items ++ concat pages))
  unfolding scan_items
  scan_items-Pages zero needed c items (last_page at_once) h = elim h [ ]
  scan_items-Pages zero needed c items (more_pages at_once rest) h = elim h [ ]
  scan_items-Pages (suc fuel) needed c items (last_page {page = page} at_once) h =
      (items ++ page, ground (arith, at_once false), rw (append-nil page) refl)
  scan_items-Pages (suc fuel) needed c items (more_pages {page = page} {pages = ps} at_once rest)
        h =
      elim (Bool-cases (leb needed (length (items ++ page)))) [
        | inl e ↦
            (items ++ page, ground (arith, at_once false), beyond items page (concat ps) needed e)
        | inr e ↦
            (let (got, p, q) =
                scan_items-Pages fuel needed c (items ++ page) rest (omega (arith, h)) in
              (
                got,
                ground (arith, at_once false),
                q ∙ ap (take needed) (append_assoc items page (concat ps)),
              ))
      ]

  scan_count-Pages :
      (fuel : ℕ) (c : Dict CacheKey B) {start : Option L} {pages : List (List R)} (count : ℕ)
      → Pages start pages
      → length pages ≤ fuel
      → scan_count d fuel table start count (c, s)
        ≡ (ok (some (count + length (concat pages))), (c, s))
  unfolding scan_count
  scan_count-Pages zero c count (last_page at_once) h = elim h [ ]
  scan_count-Pages zero c count (more_pages at_once rest) h = elim h [ ]
  scan_count-Pages (suc fuel) c count (last_page {page = page} at_once) h =
      ground (arith, at_once true, length-append page [])
  scan_count-Pages (suc fuel) c count (more_pages {page = page} {pages = ps} at_once rest) h =
      ground (
        arith,
        at_once true,
        length-append page (concat ps),
        scan_count-Pages fuel c (count + length page) rest (omega (arith, h)),
      )

  -- Both loops, from the start: enough items for the page, and the count of all.
  both_scans-Pages :
      (fuel needed : ℕ) (c : Dict CacheKey B) {pages : List (List R)}
      → Pages none pages
      → length pages ≤ fuel
      → (got : List R) × (both_scans d fuel table needed (c, s)
          ≡ (ok (some (got, length (concat pages))), (c, s)))
        × (take needed got ≡ take needed (concat pages))
  unfolding both_scans
  both_scans-Pages fuel needed c served h =
      let (got, p, q) = scan_items-Pages fuel needed c [] served h in
      (got, ground (arith, p, scan_count-Pages fuel c 0 served h), q)

module _ {B R L S X T : Type 0} (d : Driver B R L S X) (self : Repo R X T) (w : World B S) where
  -- With a DynamoDB table in the cache that answers scans in pages (of any sizes, empty ones
  -- included) and fuel for as many turns as there are pages, `list` does what taking `limit` items
  -- from the offset `offset` of all items, converting them and counting all items does.
  pub list_page :
      {table : B} {pages : List (List R)}
      → lookup (cache_key self.settings) w.0 ≡ some table
      → Pages d table w.1 none pages
      → (fuel limit offset : ℕ) → length pages ≤ fuel
      → list d self fuel limit offset w
        ≡ (do
          entities ← entities_of d self (take limit (drop offset (concat pages)))
          pure (some (entities, length (concat pages))))
            w
  unfolding list get_dynamodb_table
  list_page {table = table} {pages = pages} cached served fuel limit offset h =
      let (got, p, q) = both_scans-Pages d table w.1 fuel (offset + limit) w.0 served h in
      ground (arith, p, cached, q, drop-take offset limit (concat pages))
