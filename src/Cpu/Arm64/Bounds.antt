-- ===== src/Cpu/Arm64/Bounds.antt =====
-- `tm_collect_arm64` always has a result, and keeps every array and every text within its bounds.
use thermal_observatory.Base.{
  ℕ, ◌<◌, true, Option, Option-cases, none, some, ◌≡◌, refl, subst, some-injective, ltb→lt, [],
  arith, List, Bytes, length, codes, >>=-eq-some, everywhere, ltb, inl, inr,
}
use thermal_observatory.Base.Loops.{while_room, while_room_inv, while_room_total, with_list_inv}
use thermal_observatory.Cpu.Arm64.{
  read_cluster, add_cluster, cluster_room, collect_cluster, mark_clusters, collect_cluster_paths,
  tm_collect_arm64,
}
use thermal_observatory.Double.{Double}
use thermal_observatory.Platform.{Host, read_long}
use thermal_observatory.Platform.Bounds.{length-take-le}
use thermal_observatory.Platform.Ipmi.Bounds.{IsBounded-if}
use thermal_observatory.Platform.Paths.{tm_strip_sysroot_path, tm_glob_join}
use thermal_observatory.Platform.Sysfs.{scan_name}
use thermal_observatory.Platform.Sysfs.Bounds.{read_or_else-lt}
use thermal_observatory.Snapshot.{ArmCluster, Snapshot, max_arm_clusters}
use thermal_observatory.Snapshot.Bounds.{
  ClusterFits, FitsArray-concat, IsBounded, IsBounded-capabilities,
}

module _ {ℓ} {D : Type ℓ} ⦃d : Double D⦄ (host : Host) where
  read_cluster-ClusterFits :
      (path : Bytes) (index : ℕ) {c : ArmCluster D}
      → read_cluster host path index ≡ some c
      → ClusterFits c
  unfolding read_cluster
  read_cluster-ClusterFits path index e =
      let (temp, _, e1) = >>=-eq-some (read_long host path) _ e in
      let (zone, _, e2) =
        >>=-eq-some (scan_name (codes "/sys/class/thermal/") (tm_strip_sysroot_path host path 512))
          _ e1 in
      subst ClusterFits (some-injective _ _ e2)
        (omega (arith, length-take-le {0} 63 zone), read_or_else-lt host _ [] (omega arith))

  add_cluster-IsBounded :
      (s : Snapshot D) (found : Option (ArmCluster D))
      → IsBounded s
      → length s.arm_clusters < max_arm_clusters
      → ((x : ArmCluster D) → found ≡ some x → ClusterFits x)
      → IsBounded (add_cluster host s found)
  add_cluster-IsBounded s none h lt fits = h
  add_cluster-IsBounded s (some x) h lt fits = ground (
    arith,
    FitsArray-concat max_arm_clusters ClusterFits s.arm_clusters x h.clusters_fit lt (fits x refl),
  )

  collect_cluster-IsBounded :
      (path : Bytes) (s t : Snapshot D)
      → IsBounded s
      → cluster_room host s ≡ true
      → collect_cluster host path s ≡ some t
      → IsBounded t
  unfolding collect_cluster cluster_room
  collect_cluster-IsBounded path s t h room e = subst IsBounded (some-injective _ _ e) (
      add_cluster-IsBounded s (read_cluster host path (length s.arm_clusters)) h (ltb→lt _ _ room)
        (λ x r. read_cluster-ClusterFits path (length s.arm_clusters) r))

  collect_cluster_paths-IsBounded :
      (paths : List Bytes) (s t : Snapshot D)
      → IsBounded s
      → collect_cluster_paths host paths s ≡ some t
      → IsBounded t
  unfolding collect_cluster_paths mark_clusters
  collect_cluster_paths-IsBounded paths s t h e =
      let (after, looped, done) =
        >>=-eq-some (while_room (cluster_room host) (collect_cluster host) paths s) _ e in
      let kept =
        while_room_inv (cluster_room host) (collect_cluster host) IsBounded
          collect_cluster-IsBounded paths s after h looped in
      subst IsBounded (some-injective _ _ done) (
        IsBounded-if (ltb 0 (length after.arm_clusters)) _ _ (IsBounded-capabilities after _ kept)
          kept)

  -- Where the collector has a result, it fits its arrays and texts if the snapshot before did.
  pub tm_collect_arm64-IsBounded :
      (s t : Snapshot D) → IsBounded s → tm_collect_arm64 host s ≡ some t → IsBounded t
  unfolding tm_collect_arm64
  tm_collect_arm64-IsBounded s t h e =
      with_list_inv IsBounded (host.glob _) (collect_cluster_paths host) s
        (λ paths u. collect_cluster_paths-IsBounded paths s u h) t h e

  -- The collector never faults.
  pub tm_collect_arm64-some :
      (s : Snapshot D) → (t : Snapshot D) × (tm_collect_arm64 host s ≡ some t)
  unfolding tm_collect_arm64 collect_cluster_paths collect_cluster
  tm_collect_arm64-some s =
      elim (Option-cases
        (host.glob (tm_glob_join host 256 (codes "/sys/class/thermal/thermal_zone*/temp")))) [
          | inl e ↦ (s, rw e)
          | inr (paths, e) ↦
              let (after, looped) =
                while_room_total (cluster_room host) (collect_cluster host) (λ _. Unit {0})
                  (λ path u _. (_, refl)) paths s (everywhere _ paths (λ _. tt)) in
              (mark_clusters host after, rw e (rw looped))
        ]
