-- ===== src/Milvus/Tests.antt =====
-- The theorems about the Milvus adapter at concrete inputs, on the server in memory.
use openframe_adapters.Prelude.{true, ℕ, ◌≡◌, refl, none, some, [], ◌∷◌, codes, Text}
use openframe_adapters.Effect.{ok, ◌>>◌}
use openframe_adapters.Dict.{Dict, text_eq, insert, lookup}
use openframe_adapters.Milvus.Connection.{World, client_key}
use openframe_adapters.Milvus.Repository.{create, get}
use openframe_adapters.Milvus.Storing.{
  deleted_is_gone, updated_is_read, delete_then_get, update_then_get, created_is_read,
}
use openframe_adapters.Milvus.Fake.{Kept, fake, fake-KeepsRows, held, repo, warm}

abbrev read : Dict Text ℕ → ℕ
read row = elim (lookup (codes "id") row) [ none ↦ 0 | some i ↦ i ]

abbrev write : ℕ → Dict Text ℕ
write e = (codes "id", e) ∷ []

abbrev stocked : World ℕ Kept
stocked = (warm.0, (some 4, write 4) ∷ [])

created_is_read_example :
    (create fake repo 4 >> get fake repo (some 4)) warm
    ≡ (ok (some 4), (warm.0, (some 4, write 4) ∷ []))
unfolding fake lookup insert client_key
created_is_read_example =
    created_is_read fake repo held fake-KeepsRows read (λ r. refl) {client = 7} warm.0 refl write
      (λ e. refl) 4 []

updated_is_read_example : (update_then_get fake repo 4 (some 4) stocked).0 ≡ ok (some 4, some 4)
unfolding fake lookup client_key
updated_is_read_example =
    updated_is_read fake repo held fake-KeepsRows read (λ r. refl) {client = 7} warm.0 refl write
      (λ e. refl) 4 stocked.1

deleted_is_gone_test : (delete_then_get fake repo 4 stocked).0 ≡ ok (true, none)
unfolding fake lookup client_key
deleted_is_gone_test =
    deleted_is_gone fake repo held fake-KeepsRows read (λ r. refl) {client = 7} warm.0 refl write
      (λ e. refl) 4 stocked.1
