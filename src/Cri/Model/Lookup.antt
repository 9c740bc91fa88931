-- ===== src/Cri/Model/Lookup.antt =====
-- The getters of the model find by filtering. On well-formed maps they are the lookup by key.
use runkube.Common.{
  ◌≡◌, ◌≢◌, String, true, not, ◌&&◌, eq_refl, Option, none, some, [], ◌∷◌, arith, eq_iff, lookup,
  refl, head?, select, values, Dict, Entries, head?-select-values, ◌==◌,
}
use runkube.Cri.Objects.{PodSandbox, PodSandboxStatus, ContainerStatus, ImageSpec, Externals}
use runkube.Cri.Objects
use runkube.Cri.Model.{
  passes_text, map_option, image_differs, id_filter, container_id_filter, image_name_filter,
  Sandbox, Container, Image, Store, sandbox_matches, container_matches, image_matches, get_sandbox,
  get_container, get_image,
}

-- An entry agrees with its key, and its two halves agree on the state.
abbrev pub SandboxAgrees : String → Option PodSandbox → Option PodSandboxStatus → Type 0
SandboxAgrees k (some p) (some s) = (k ≢ "") × (p.id ≡ k) × (s.id ≡ k) × (s.state ≡ p.state)
SandboxAgrees k _ _ = ⊥

abbrev pub ContainerAgrees : String → Option Objects.Container → Option ContainerStatus → Type 0
ContainerAgrees k (some p) (some s) = (k ≢ "") × (p.id ≡ k) × (s.id ≡ k) × (s.state ≡ p.state)
ContainerAgrees k _ _ = ⊥

abbrev pub ImageAgrees : String → Option ImageSpec → Type 0
ImageAgrees k none = ⊥
ImageAgrees k (some i) = i.image ≡ k

abbrev pub SandboxesAgree : Dict Sandbox → Type 0
SandboxesAgree = Entries (λ k x. SandboxAgrees k x.p x.s)

abbrev pub ContainersAgree : Dict Container → Type 0
ContainersAgree = Entries (λ k x. ContainerAgrees k x.p x.s)

abbrev pub ImagesAgree : Dict Image → Type 0
ImagesAgree = Entries (λ k x. ImageAgrees k x.i)

-- The test of the identifier, behind which the other tests of an identifier filter pass.
passes_key : (id k got : String) → id ≢ "" → got ≡ k → (passes_text id (some got)) ≡ (k == id)
passes_key id k got ne e = ground (arith, eq_iff id "", eq_iff k id, eq_iff got id)

module _ (env : Externals) where
  matches_key :
      (id : String) (m : Dict Sandbox)
      → id ≢ ""
      → SandboxesAgree m
      → Entries (λ j v. sandbox_matches env (some (id_filter id)) v ≡ (j == id)) m
  unfolding sandbox_matches
  matches_key id [] ne h = tt
  matches_key id ((k, x) ∷ m) ne h = (go x.p x.s h.0, matches_key id m ne h.1)
    where
      go :
          (p : Option PodSandbox) (s : Option PodSandboxStatus)
          → SandboxAgrees k p s
          → (passes_text id (map_option (λ q. q.id) p) && true && true) ≡ (k == id)
      go (some p) (some s) a = ground (arith, passes_key id k p.id ne a.1)
      go (some p) none a = absurd a
      go none s a = absurd a

  -- `GetSandbox` of a nonempty identifier, a scan of the map for the first match, is the lookup of
  -- the key, if each entry agrees with its key.
  pub get_sandbox-eq-lookup :
      (id : String) (st : Store)
      → id ≢ ""
      → SandboxesAgree st.sandboxes
      → get_sandbox env id st ≡ lookup id st.sandboxes
  unfolding get_sandbox
  get_sandbox-eq-lookup id st ne h =
      head?-select-values _ id st.sandboxes (matches_key id st.sandboxes ne h)

  container_matches_key :
      (id : String) (m : Dict Container)
      → id ≢ ""
      → ContainersAgree m
      → Entries (λ j v. container_matches env (some (container_id_filter id)) v ≡ (j == id)) m
  unfolding container_matches
  container_matches_key id [] ne h = tt
  container_matches_key id ((k, x) ∷ m) ne h = (go x.p x.s h.0, container_matches_key id m ne h.1)
    where
      go :
          (p : Option Objects.Container) (s : Option ContainerStatus)
          → ContainerAgrees k p s
          → (passes_text id (map_option (λ q. q.id) p)
              && passes_text "" (map_option (λ q. q.pod_sandbox_id) p)
              && true
              && true)
            ≡ (k == id)
      go (some p) (some s) a = ground (arith, passes_key id k p.id ne a.1, eq_refl "")
      go (some p) none a = absurd a
      go none s a = absurd a

  -- `GetContainer` is the lookup of the key.
  pub get_container-eq-lookup :
      (id : String) (st : Store)
      → id ≢ ""
      → ContainersAgree st.containers
      → get_container env id st ≡ lookup id st.containers
  unfolding get_container
  get_container-eq-lookup id st ne h =
      head?-select-values _ id st.containers (container_matches_key id st.containers ne h)

image_matches_key :
    (id : String) (m : Dict Image)
    → id ≢ ""
    → ImagesAgree m
    → Entries (λ j v. image_matches (some (image_name_filter id)) v ≡ (j == id)) m
unfolding image_matches
image_matches_key id [] ne h = tt
image_matches_key id ((k, x) ∷ m) ne h = (go x.i h.0, image_matches_key id m ne h.1)
  where
    go :
        (i : Option ImageSpec)
        → ImageAgrees k i
        → not (image_differs (image_name_filter id).image i) ≡ (k == id)
    go (some i) a = ground (arith, eq_iff id "", eq_iff i.image id, eq_iff k id)
    go none a = absurd a

-- `GetImage` is the lookup of the key.
pub get_image-eq-lookup :
    (id : String) (st : Store)
    → id ≢ ""
    → ImagesAgree st.images
    → get_image id st ≡ lookup id st.images
unfolding get_image
get_image-eq-lookup id st ne h =
    head?-select-values _ id st.images (image_matches_key id st.images ne h)

-- With the empty name it is the first image, if there is one.
pub get_image-empty : (st : Store) → get_image "" st ≡ head? (values st.images)
unfolding get_image image_matches
get_image-empty st = first st.images
  where
    first :
        (m : Dict Image)
        → head? (select (image_matches (some (image_name_filter ""))) (values m)) ≡ head? (values m)
    first [] = refl
    first ((k, x) ∷ m) = ground arith
