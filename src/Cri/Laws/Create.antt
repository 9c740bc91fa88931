-- ===== src/Cri/Laws/Create.antt =====
-- `CreateContainer` of pkg/cri/cri.go, on every branch.
use runkube.Common.{
  ℕ, ◌≡◌, refl, ◌≢◌, ◌⊎◌, inl, inr, String, none, some, [], ◌∷◌, arith, eq_iff, Option-cases,
  lookup, insert, lookup-insert, ◌==◌, if◌then◌else◌, ◌∙◌, ap, Option, Dict, head?, values,
  Bool-cases,
}
use runkube.Cri.Objects.{container_created, ImageSpec, Externals, get_image_name}
use runkube.Cri.Model.{Container, Image, Store, get_image, new_container, add_container}
use runkube.Cri.Model.Lookup.{
  get_sandbox-eq-lookup, get_container-eq-lookup, get_image-eq-lookup, get_image-empty, ImagesAgree,
}
use runkube.Cri.Runtime.{Runtime}
use runkube.Cri.Service.{
  invalid_argument, not_found, already_exists, Reply, ok, err, panic, uniq_id, uniq_id-ne-empty,
}
use runkube.Cri.Containers.{
  CreateContainerRequest, get_config, get_name, new_container_object, new_container_status,
  create_container,
}
use runkube.Cri.Exits.{placed}
use runkube.Cri.Sound.{IsSound, with_store}

-- The identifier that `CreateContainer` makes.
abbrev pub container_id : Externals → (ℕ → ℕ) → CreateContainerRequest → String
container_id env clock req =
    uniq_id env (clock 0)
      ("container" ∷ req.pod_sandbox_id ∷ get_name (get_config req).metadata ∷ [])

pub container_id-ne-empty :
    (env : Externals) (clock : ℕ → ℕ) (req : CreateContainerRequest)
    → container_id env clock req ≢ ""
container_id-ne-empty env clock req =
    uniq_id-ne-empty env (clock 0) "container" req.pod_sandbox_id
      (get_name (get_config req).metadata ∷ []) (λ e. ground (arith, eq_iff "container" ""))

-- The container that it stores.
abbrev pub created_container : Externals → (ℕ → ℕ) → CreateContainerRequest → ImageSpec → Container
created_container env clock req image =
    let nc = new_container_object req image (container_id env clock req) (clock 1) in
    new_container nc (new_container_status req image nc)

abbrev pub created_store : Externals → (ℕ → ℕ) → CreateContainerRequest → ImageSpec → Store → Store
created_store env clock req image st = record st {
  containers =
      insert (container_id env clock req) (created_container env clock req image) st.containers;
}

-- The image under a name; the first of all under the empty name, which a nil image has too.
abbrev pub pulled : String → Dict Image → Option Image
pulled name m = if name == "" then head? (values m) else lookup name m

get_image-eq-pulled :
    (name : String) (st : Store) → ImagesAgree st.images → get_image name st ≡ pulled name st.images
get_image-eq-pulled name st agree = elim (Bool-cases (name == "")) [
  | inl empty ↦
      ap (λ n. get_image n st) ((eq_iff name "").0 empty) ∙ get_image-empty st ∙ rw empty refl
  | inr named ↦
      get_image-eq-lookup name st (λ e. ground (arith, eq_iff name "")) agree ∙ rw named refl
]

-- A container in state CREATED was added, and all else is as before.
abbrev pub Created : String → String → Runtime → Reply String × Runtime → Type 0
Created id sbid r out =
    (out.0 ≡ ok id)
    × ((k : String)
        → placed (lookup k out.1.store.containers) ≡ (
            if id == k
            then some (sbid, container_created)
            else placed (lookup k r.store.containers)))
    × (out.1.store.sandboxes ≡ r.store.sandboxes)
    × (out.1.store.images ≡ r.store.images)

-- What a call comes to, by the guards in their order.
abbrev pub Creation :
    Externals → (ℕ → ℕ) → CreateContainerRequest → Runtime → Reply String × Runtime → Type 0
Creation env clock req r out =
    let sbid = req.pod_sandbox_id in
    let id = container_id env clock req in
    let image = (get_config req).image in
    ((sbid ≡ "") × (out ≡ (err invalid_argument, r)))
    ⊎ ((sbid ≢ "") × (lookup sbid r.store.sandboxes ≡ none) × (out ≡ (err not_found, r)))
    ⊎ ((sbid ≢ "")
        × (lookup sbid r.store.sandboxes ≢ none)
        × (pulled (get_image_name image) r.store.images ≡ none)
        × (out ≡ (err not_found, r)))
    ⊎ ((sbid ≢ "")
        × (lookup sbid r.store.sandboxes ≢ none)
        × (pulled (get_image_name image) r.store.images ≢ none)
        × (lookup id r.store.containers ≢ none)
        × (out ≡ (err already_exists, r)))
    ⊎ ((sbid ≢ "")
        × (lookup sbid r.store.sandboxes ≢ none)
        × (pulled (get_image_name image) r.store.images ≢ none)
        × (lookup id r.store.containers ≡ none)
        × (((image ≡ none) × (out ≡ (panic, r))) ⊎ ((image ≢ none) × Created id sbid r out)))

module _ (env : Externals) (clock : ℕ → ℕ) (r : Runtime) (sound : IsSound r) where
  -- All branches of the handler in one equation, for a request that names an image.
  pub create_container_cases :
      (req : CreateContainerRequest) (image : ImageSpec)
      → req.pod_sandbox_id ≢ ""
      → (get_config req).image ≡ some image
      → image.image ≢ ""
      → create_container env clock req r ≡ elim (lookup req.pod_sandbox_id r.store.sandboxes) [
        | none ↦ (err not_found, r)
        | some sb ↦ elim (lookup image.image r.store.images) [
          | none ↦ (err not_found, r)
          | some img ↦ elim (lookup (container_id env clock req) r.store.containers) [
            | some c ↦ (err already_exists, r)
            | none ↦ (
              ok (container_id env clock req),
              with_store (created_store env clock req image r.store) r,
            )
          ]
        ]
      ]
  unfolding create_container add_container
  create_container_cases req image ne given named = ground (
    arith,
    eq_iff req.pod_sandbox_id "",
    get_sandbox-eq-lookup env req.pod_sandbox_id r.store ne sound.consistent.sandboxes,
    get_image-eq-lookup image.image r.store named sound.consistent.images,
    get_container-eq-lookup env (container_id env clock req) r.store
        (container_id-ne-empty env clock req) sound.consistent.containers,
  )

  -- All branches for a named sandbox, whatever the request says of the image.
  create_container_named :
      (req : CreateContainerRequest)
      → req.pod_sandbox_id ≢ ""
      → create_container env clock req r ≡ elim (lookup req.pod_sandbox_id r.store.sandboxes) [
        | none ↦ (err not_found, r)
        | some sb ↦ elim (pulled (get_image_name (get_config req).image) r.store.images) [
          | none ↦ (err not_found, r)
          | some img ↦ elim (lookup (container_id env clock req) r.store.containers) [
            | some c ↦ (err already_exists, r)
            | none ↦ elim (get_config req).image [
              | none ↦ (panic, r)
              | some image ↦ (
                ok (container_id env clock req),
                with_store (created_store env clock req image r.store) r,
              )
            ]
          ]
        ]
      ]
  unfolding create_container add_container
  create_container_named req ne = ground (
    arith,
    eq_iff req.pod_sandbox_id "",
    get_sandbox-eq-lookup env req.pod_sandbox_id r.store ne sound.consistent.sandboxes,
    get_image-eq-pulled (get_image_name (get_config req).image) r.store sound.consistent.images,
    get_container-eq-lookup env (container_id env clock req) r.store
        (container_id-ne-empty env clock req) sound.consistent.containers,
  )

  create_container_unnamed :
      (req : CreateContainerRequest)
      → req.pod_sandbox_id ≡ ""
      → create_container env clock req r ≡ (err invalid_argument, r)
  unfolding create_container
  create_container_unnamed req e = ground (arith, eq_iff req.pod_sandbox_id "")

  stored-Created :
      (req : CreateContainerRequest) (image : ImageSpec)
      → Created (container_id env clock req) req.pod_sandbox_id r (
        ok (container_id env clock req),
        with_store (created_store env clock req image r.store) r,
      )
  unfolding new_container_object
  stored-Created req image = (
    refl,
    (λ k. ground (
      arith,
      lookup-insert (container_id env clock req) k (created_container env clock req image)
          r.store.containers,
    )),
    refl,
    refl,
  )

  image_cases :
      (req : CreateContainerRequest)
      → create_container env clock req r ≡ elim (get_config req).image [
        | none ↦ (panic, r)
        | some image ↦ (
          ok (container_id env clock req),
          with_store (created_store env clock req image r.store) r,
        )
      ]
      → (((get_config req).image ≡ none) × (create_container env clock req r ≡ (panic, r)))
        ⊎ (((get_config req).image ≢ none)
            × Created
                (container_id env clock req)
                req.pod_sandbox_id
                r
                (create_container env clock req r))
  image_cases req e = elim (Option-cases (get_config req).image) [
    | inl missing ↦ inl (missing, e ∙ rw missing)
    | inr (image, given) ↦
        let done : create_container env clock req r ≡ (
          ok (container_id env clock req),
          with_store (created_store env clock req image r.store) r,
        ) =
          e ∙ rw given in
        inr ((λ h. cc), rw done (stored-Created req image))
  ]

  -- On a sound runtime, `CreateContainer` refuses in this order: the empty identifier of a sandbox, an
  -- unknown sandbox, an image that was not pulled, where a missing or empty name stands for any image,
  -- and an identifier in use. It panics then if the request has no image. In all these cases nothing
  -- changes. Otherwise it adds a container in state CREATED in the sandbox, and the place and state
  -- of every other container, the sandboxes and the images are as before (`Creation`).
  pub create_container_lem :
      (req : CreateContainerRequest) → Creation env clock req r (create_container env clock req r)
  create_container_lem req = elim (Bool-cases (req.pod_sandbox_id == "")) [
    | inl empty ↦
        let e = (eq_iff req.pod_sandbox_id "").0 empty in inl (e, create_container_unnamed req e)
    | inr filled ↦
        let ne : req.pod_sandbox_id ≢ "" = λ e. ground (arith, eq_iff req.pod_sandbox_id "") in
        let same = create_container_named req ne in
        elim (Option-cases (lookup req.pod_sandbox_id r.store.sandboxes)) [
          | inl e ↦ inr (inl (ne, e, same ∙ rw e))
          | inr (sb, e) ↦
              elim (Option-cases (pulled (get_image_name (get_config req).image) r.store.images)) [
                | inl e2 ↦ inr (inr (inl (ne, (λ h. cc), e2, same ∙ rw (e, e2))))
                | inr (img, e2) ↦
                    elim (Option-cases (lookup (container_id env clock req) r.store.containers)) [
                      | inr (c, e3) ↦ inr (
                          inr (
                            inr (inl (ne, (λ h. cc), (λ h. cc), (λ h. cc), same ∙ rw (e, e2, e3)))))
                      | inl e3 ↦ inr (
                          inr (
                            inr (
                              inr (
                                ne,
                                (λ h. cc),
                                (λ h. cc),
                                e3,
                                image_cases req (same ∙ rw (e, e2, e3)),
                              ))))
                    ]
              ]
        ]
  ]
