-- ===== src/Lease/Examples.antt =====
-- The theorem on leases at two instances: the second takes over after the first one's grant has passed.
use build_affiliate.Common.{ℕ, ◌≤◌, ◌≡◌, refl, some, [], ◌∷◌, arith}
use build_affiliate.Lease.{
  new_run, Cluster, set_nx, Reaches, here, next, wait, acquire, idle_cluster,
}
use build_affiliate.Lease.Exclusion.{one_granted}

abbrev taken_over : Cluster
taken_over = record {
  now = 20;
  key = some (record { holder = 2; expires_at = 30 });
  runs = new_run 2 10 20 ∷ new_run 1 10 0 ∷ [];
}

abbrev expired_cluster : Cluster
expired_cluster = record {
  now = 20;
  key = some (record { holder = 1; expires_at = 10 });
  runs = new_run 1 10 0 ∷ [];
}

abbrev take_over : Reaches idle_cluster taken_over
unfolding set_nx
take_over =
    next (next (next here (acquire idle_cluster 1 10 refl)) (wait _ 20 (omega arith)))
      (acquire expired_cluster 2 10 refl)

one_granted_example :
    (10 ≤ 20)
    × ((e : ℕ) × (taken_over.key ≡ some (record { holder = 2; expires_at = e })) × (30 ≤ e))
unfolding take_over
one_granted_example =
    one_granted [] [] [] (new_run 2 10 20) (new_run 1 10 0) take_over (((tt, refl), tt), refl) refl
      (omega arith)
