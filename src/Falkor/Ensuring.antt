-- ===== src/Falkor/Ensuring.antt =====
-- `_ensure_ready` of the FalkorDB repository: once it has returned it asks for nothing again.
use openframe_adapters.Prelude.{codes, ◌≡◌, true, arith, inl, inr, Bool-cases}
use openframe_adapters.Effect.{ok, catch, ran-cases}
use openframe_adapters.Effect.Objects.{call}
use openframe_adapters.Falkor.Driver.{Driver}
use openframe_adapters.Falkor.Connection.{World}
use openframe_adapters.Falkor.Repository.{Repo, ensure_ready, get_graph, constraint_failed}

module _ {C G J S X T : Type 0} (d : Driver C G J S X) (self : Repo J X T) where
  -- What it leaves where it returns is marked as ready.
  returned_ready :
      (w : World C S) {w' : World C S}
      → ensure_ready d self w ≡ (ok tt, w')
      → w'.0.constraint_ensured ≡ true
  unfolding ensure_ready
  returned_ready w h = elim (Bool-cases w.0.constraint_ensured) [
    | inl p ↦ ground (arith, h, p)
    | inr p ↦
        (let (_, w1) = get_graph d self w in
          elim (ran-cases (get_graph d self w)) [
            | inr (x, q) ↦ absurd (ground (arith, h, p, q))
            | inl (graph, q) ↦
                elim (ran-cases (
                  catch (call (d.create_constraint graph self.settings.node_label (codes "id")))
                    (constraint_failed d self) w1)) [
                      | inr (x, r) ↦ absurd (ground (arith, h, p, q, r))
                      | inl (done, r) ↦ ground (arith, h, p, q, r)
                    ]
          ])
  ]

  -- Where `_ensure_ready` of the FalkorDB repository has returned, calling it again returns and
  -- changes nothing, neither the graph nor the cache.
  pub ensure_ready_again :
      (w : World C S) {w' : World C S}
      → ensure_ready d self w ≡ (ok tt, w')
      → ensure_ready d self w' ≡ (ok tt, w')
  unfolding ensure_ready
  ensure_ready_again w h = ground (arith, returned_ready w h)
