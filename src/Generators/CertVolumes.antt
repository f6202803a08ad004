-- ===== src/Generators/CertVolumes.antt =====
-- The volumes and mounts of a deployment that is given a serving certificate.
use library_olm.Prelude.{
  String, ◌≡◌, refl, ap, ◌∙◌, Bool, true, false, ◌&&◌, ◌||◌, not, List, [], ◌∷◌, map, contains,
  contains-insert, insert, keep, keep-append, All, All-map, any, ◌==◌, arith, eq_iff, Bool-cases,
  inl, inr,
}
use library_olm.Registry.{Kube, Volume, VolumeMount, Container, PodSpec, CertSecretInfo}
use library_olm.Generators.{
  CertVolumeConfig, cert_volume_configs, cert_volume, cert_volume_mount, cert_names,
  protected_paths, protected_mounts, volumes_to_remove, fix_mounts, fix_pod_spec,
}

module _ (k : Kube) where
  -- The loops only add names, and add those of the mounts at protected paths.
  contains-protected_mounts :
      (ms : List (VolumeMount k)) (names : List String) (n : String)
      → contains (protected_mounts k ms names) n ≡ (
          contains names n
          || any (λ (m : VolumeMount k). contains protected_paths m.mount_path && m.name == n) ms)
  unfolding protected_mounts
  contains-protected_mounts [] names n = ground arith
  contains-protected_mounts (m ∷ ms) names n =
      elim (Bool-cases (contains protected_paths m.mount_path)) [
        | inl at ↦ rw at (
            contains-protected_mounts ms (insert names m.name) n
            ∙ (ground (arith, contains-insert names m.name n)))
        | inr other ↦ rw other (contains-protected_mounts ms names n)
      ]

  contains-volumes_to_remove :
      (cs : List (Container k)) (names : List String) (n : String)
      → contains (volumes_to_remove k cs names) n ≡ (
          contains names n
          || any
              (λ (c : Container k).
                any
                  (λ (m : VolumeMount k). contains protected_paths m.mount_path && m.name == n)
                  c.volume_mounts)
              cs)
  unfolding volumes_to_remove
  contains-volumes_to_remove [] names n = ground arith
  contains-volumes_to_remove (c ∷ cs) names n =
      contains-volumes_to_remove cs (protected_mounts k c.volume_mounts names) n
      ∙ (ground (arith, contains-protected_mounts c.volume_mounts names n))

  -- A set of names holds that of every mount at a protected path.
  Covers : List String → Container k → Type 0
  Covers removed c =
      All
        (λ (m : VolumeMount k).
          contains protected_paths m.mount_path ≡ true → contains removed m.name ≡ true)
        c.volume_mounts

  covered :
      (removed : List String) (ms : List (VolumeMount k))
      → ((n : String)
          → any (λ (m : VolumeMount k). contains protected_paths m.mount_path && m.name == n) ms
            ≡ true
          → contains removed n ≡ true)
      → All
          (λ (m : VolumeMount k).
            contains protected_paths m.mount_path ≡ true → contains removed m.name ≡ true)
          ms
  covered removed [] h = tt
  covered removed (m ∷ ms) h = (
    λ at. h m.name (ground (arith, eq_iff m.name m.name)),
    covered removed ms (λ n behind. h n (ground arith)),
  )

  All-covered :
      (removed : List String) (cs : List (Container k))
      → ((n : String)
          → any
              (λ (c : Container k).
                any
                  (λ (m : VolumeMount k). contains protected_paths m.mount_path && m.name == n)
                  c.volume_mounts)
              cs
            ≡ true
          → contains removed n ≡ true)
      → All (Covers removed) cs
  unfolding Covers
  All-covered removed [] h = tt
  All-covered removed (c ∷ cs) h = (
    covered removed c.volume_mounts (λ n here. h n (ground arith)),
    All-covered removed cs (λ n behind. h n (ground arith)),
  )

  -- The mounts of a container at a path, and the volumes of a pod with a name.
  abbrev pub mounts_at : Container k → String → List (VolumeMount k)
  mounts_at c path = keep (λ (m : VolumeMount k). m.mount_path == path) c.volume_mounts

  abbrev pub volumes_named : PodSpec k → String → List (Volume k)
  volumes_named p name = keep (λ (vol : Volume k). vol.name == name) p.volumes

  -- The certificate is mounted as one configuration says.
  pub record IsMounted (info : CertSecretInfo) (p : PodSpec k) (cfg : CertVolumeConfig)
      : Type 0 where
    pub one_volume : volumes_named p cfg.name ≡ cert_volume k info cfg ∷ []
    pub one_mount :
        All (λ (c : Container k). mounts_at c cfg.path ≡ cert_volume_mount k cfg ∷ []) p.containers

  keep-keep-nil {ℓ} :
      {A : Type ℓ} (p q : A → Bool) (xs : List A)
      → All (λ x. q x ≡ true → p x ≡ false) xs
      → keep q (keep p xs) ≡ []
  unfolding keep
  keep-keep-nil p q [] h = refl
  keep-keep-nil p q (x ∷ xs) h = ground (arith, h.0, keep-keep-nil p q xs h.1)

  All-map-map {ℓ κ} :
      {A : Type ℓ} {B : Type ℓ} (f : A → B) (P : B → Type κ) (xs : List A)
      → All (λ x. P (f x)) xs
      → All P (map f xs)
  All-map-map f P [] h = tt
  All-map-map f P (x ∷ xs) h = (h.0, All-map-map f P xs h.1)

  removed_volumes :
      (removed : List String) (vols : List (Volume k)) (name : String)
      → contains removed name ≡ true
      → All
          (λ (vol : Volume k). vol.name == name ≡ true → not (contains removed vol.name) ≡ false)
          vols
  removed_volumes removed [] name h = tt
  removed_volumes removed (vol ∷ vols) name h =
      (λ at. ground (arith, eq_iff vol.name name), removed_volumes removed vols name h)

  removed_mounts :
      (removed : List String) (ms : List (VolumeMount k)) (path : String)
      → contains protected_paths path ≡ true
      → All
          (λ (m : VolumeMount k).
            contains protected_paths m.mount_path ≡ true → contains removed m.name ≡ true)
          ms
      → All
          (λ (m : VolumeMount k).
            m.mount_path == path ≡ true → not (contains removed m.name) ≡ false)
          ms
  removed_mounts removed [] path p h = tt
  removed_mounts removed (m ∷ ms) path p h = (
    λ at. ap not (h.0 (ap (contains protected_paths) ((eq_iff m.mount_path path).0 at) ∙ p)),
    removed_mounts removed ms path p h.1,
  )

  module _ (info : CertSecretInfo) (p : PodSpec k) where
    removed : List String
    removed = volumes_to_remove k p.containers cert_names

    removed-cert_names : (n : String) → contains cert_names n ≡ true → contains removed n ≡ true
    unfolding removed
    removed-cert_names n h = ground (arith, contains-volumes_to_remove p.containers cert_names n)

    All-removed : All (Covers removed) p.containers
    unfolding removed
    All-removed =
        All-covered (volumes_to_remove k p.containers cert_names) p.containers
          (λ n h. ground (arith, contains-volumes_to_remove p.containers cert_names n))

    one_mount_in :
        (c : Container k) (cfg : CertVolumeConfig)
        → contains protected_paths cfg.path ≡ true
        → keep
            (λ (m : VolumeMount k). m.mount_path == cfg.path)
            (map (cert_volume_mount k) cert_volume_configs)
          ≡ cert_volume_mount k cfg ∷ []
        → Covers removed c
        → mounts_at (fix_mounts k removed c) cfg.path ≡ cert_volume_mount k cfg ∷ []
    unfolding Covers
    one_mount_in c cfg path new_mount covers =
        keep-append (λ (m : VolumeMount k). m.mount_path == cfg.path)
          (keep (λ (m : VolumeMount k). not (contains removed m.name)) c.volume_mounts)
          (map (cert_volume_mount k) cert_volume_configs)
        ∙ (rw
            (
              keep-keep-nil (λ (m : VolumeMount k). not (contains removed m.name))
                  (λ (m : VolumeMount k). m.mount_path == cfg.path) c.volume_mounts
                  (removed_mounts removed c.volume_mounts cfg.path path covers),
              new_mount,
            )
            refl)

    mounted :
        (cfg : CertVolumeConfig)
        → contains cert_names cfg.name ≡ true
        → contains protected_paths cfg.path ≡ true
        → keep
            (λ (vol : Volume k). vol.name == cfg.name)
            (map (cert_volume k info) cert_volume_configs)
          ≡ cert_volume k info cfg ∷ []
        → keep
            (λ (m : VolumeMount k). m.mount_path == cfg.path)
            (map (cert_volume_mount k) cert_volume_configs)
          ≡ cert_volume_mount k cfg ∷ []
        → IsMounted info (fix_pod_spec k info p) cfg
    unfolding fix_pod_spec removed
    mounted cfg name path new_volume new_mount = record {
      one_volume =
          keep-append (λ (vol : Volume k). vol.name == cfg.name)
            (keep (λ (vol : Volume k). not (contains removed vol.name)) p.volumes)
            (map (cert_volume k info) cert_volume_configs)
          ∙ (rw
              (
                keep-keep-nil (λ (vol : Volume k). not (contains removed vol.name))
                    (λ (vol : Volume k). vol.name == cfg.name) p.volumes
                    (removed_volumes removed p.volumes cfg.name (removed-cert_names cfg.name name)),
                new_volume,
              )
              refl);
      one_mount =
          All-map-map (fix_mounts k removed)
            (λ (c : Container k). mounts_at c cfg.path ≡ cert_volume_mount k cfg ∷ []) p.containers
            (All-map (λ c covers. one_mount_in c cfg path new_mount covers) p.containers
              All-removed);
    }

    -- Once the certificate's volumes are set, each protected name is that of one volume, the
    -- certificate's, and each container mounts at each protected path that volume and nothing else.
    pub fix_pod_spec_lem : All (IsMounted info (fix_pod_spec k info p)) cert_volume_configs
    unfolding contains keep
    fix_pod_spec_lem = (mounted _ refl refl refl refl, (mounted _ refl refl refl refl, tt))
