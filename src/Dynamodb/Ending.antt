-- ===== src/Dynamodb/Ending.antt =====
-- The loops of `list` of the DynamoDB repository end, whatever else happens to the table between two
-- pages, if the keys to go on from descend in some rank.
use openframe_adapters.Prelude.{
  ℕ, zero, suc, ◌+◌, ◌<◌, ◌≡◌, ◌≢◌, true, false, Option, none, some, List, [], ◌++◌, arith, inl,
  inr, take, drop, Option-cases,
}
use openframe_adapters.Effect.Errors.{outside}
use openframe_adapters.Effect.{ok, ran-cases}
use openframe_adapters.Dynamodb.Driver.{Driver, ScanArgs, Response}
use openframe_adapters.Dynamodb.Connection.{World, get_dynamodb_table}
use openframe_adapters.Dynamodb.Repository.{
  Repo, scan_items, scan_count, both_scans, entities_of, list, get_or,
}

-- A table whose scans go on only from keys of a lower rank, whatever state it is in.
abbrev pub Descending : {B R L S X : Type 0} → Driver B R L S X → (Option L → ℕ) → Type 0
Descending {B = B} {R = R} {L = L} {S = S} d rank =
    (table : B) (args : ScanArgs L) (s : S) (r : Response R L) (s' : S) (key : L)
    → d.scan table args s ≡ (ok r, s')
    → r.last_evaluated_key ≡ some key
    → rank (some key) < rank args.exclusive_start_key

module _ {B R L S X : Type 0} (d : Driver B R L S X) (rank : Option L → ℕ)
    (descending : Descending d rank) (table : B) where
  scan_items_ends :
      (fuel needed : ℕ) (start : Option L) (items : List R) (w : World B S)
      → rank start < fuel
      → (scan_items d fuel table needed start items w).0 ≢ ok none
  unfolding scan_items
  scan_items_ends zero needed start items w h e = elim h [ ]
  scan_items_ends (suc fuel) needed start items w h e =
      let after =
        (d.scan table (record { select_count = false; exclusive_start_key = start }) w.1).1 in
      elim (ran-cases
        (d.scan table (record { select_count = false; exclusive_start_key = start }) w.1)) [
          | inr (x, p) ↦ ground (arith, p)
          | inl (r, p) ↦ elim (Option-cases r.last_evaluated_key) [
            | inl q ↦ ground (arith, p, q)
            | inr (key, q) ↦ ground (
              arith,
              p,
              q,
              descending table _ w.1 r _ key p q,
              scan_items_ends fuel needed (some key) (items ++ get_or [] r.items) (w.0, after),
            )
          ]
        ]

  scan_count_ends :
      (fuel : ℕ) (start : Option L) (count : ℕ) (w : World B S)
      → rank start < fuel
      → (scan_count d fuel table start count w).0 ≢ ok none
  unfolding scan_count
  scan_count_ends zero start count w h e = elim h [ ]
  scan_count_ends (suc fuel) start count w h e =
      let scanned =
        d.scan table (record { select_count = true; exclusive_start_key = start }) w.1 in
      elim (ran-cases scanned) [
        | inr (x, p) ↦ ground (arith, p)
        | inl (r, p) ↦ elim (Option-cases r.last_evaluated_key) [
          | inl q ↦ ground (arith, p, q)
          | inr (key, q) ↦ ground (
            arith,
            p,
            q,
            descending table _ w.1 r _ key p q,
            scan_count_ends fuel (some key) (count + get_or 0 r.count) (w.0, scanned.1),
          )
        ]
      ]

  both_scans_ends :
      (fuel needed : ℕ) (w : World B S)
      → rank none < fuel
      → (both_scans d fuel table needed w).0 ≢ ok none
  unfolding both_scans
  both_scans_ends fuel needed w h e = elim (ran-cases (scan_items d fuel table needed none [] w)) [
    | inr (x, p) ↦ ground (arith, p)
    | inl (none, p) ↦ ground (arith, p, scan_items_ends fuel needed none [] w h)
    | inl (some rows, p) ↦
        (let w' = (scan_items d fuel table needed none [] w).1 in
          elim (ran-cases (scan_count d fuel table none 0 w')) [
            | inr (x, q) ↦ ground (arith, p, q)
            | inl (none, q) ↦ ground (arith, p, q, scan_count_ends fuel none 0 w' h)
            | inl (some n, q) ↦ ground (arith, p, q)
          ])
  ]

-- Where the keys that a DynamoDB scan goes on from descend in some rank, whatever state the table
-- is in, `list` with more fuel than the rank of a scan from the start does not run out of it.
pub list_ends :
    {B R L S X T : Type 0} (d : Driver B R L S X) (rank : Option L → ℕ)
    → Descending d rank
    → (self : Repo R X T) (fuel limit offset : ℕ) (w : World B S) → rank none < fuel
    → (list d self fuel limit offset w).0 ≢ ok none
unfolding list
list_ends d rank descending self fuel limit offset w h e =
    elim (ran-cases (get_dynamodb_table d self.settings w)) [
      | inr (x, p) ↦ ground (arith, p)
      | inl (table, p) ↦
          (let w' = (get_dynamodb_table d self.settings w).1 in
            elim (ran-cases (both_scans d fuel table (offset + limit) w')) [
              | inr (outside x, q) ↦ ground (arith, p, q)
              | inr (other, q) ↦ ground (arith, p, q)
              | inl (none, q) ↦
                  ground (
                    arith,
                    p,
                    q,
                    both_scans_ends d rank descending table fuel (offset + limit) w' h,
                  )
              | inl (some result, q) ↦
                  (let w'' = (both_scans d fuel table (offset + limit) w').1 in
                    elim (ran-cases
                      (entities_of d self (drop offset (take (offset + limit) result.0)) w'')) [
                        | inr (x, r) ↦ ground (arith, p, q, r)
                        | inl (es, r) ↦ ground (arith, p, q, r)
                      ])
            ])
    ]
