-- ===== src/Requestor/Laws.antt =====
-- tools/requestor/requestor.go: where a verb is met that is not known, and the verbs of pkg/kapi.
use runkube.Common.{
  ◌≡◌, refl, sym, ap, subst, inl, inr, String, Bool, false, Option, none, some, List, [], ◌∷◌, In,
  here, there, In-head_or_tail, In-append_left, In-append_right, ltb, length, if◌then◌else◌, ◌∙◌,
}
use runkube.Kapi.{ResourceSpec, default_verbs, descriptor}
use runkube.Quotable.{ApiResource, ApiResourceList}
use runkube.Requestor.{
  RequestInfo, Request, method_of, request_with, to_rest_request, cut, expand_verbs,
  expand_resources, expand, prepend, make_requests,
}

In-expand_verbs :
    (base : RequestInfo) (gv names : String × String) (verbs : List String) (v : String)
    → In v verbs
    → (r : RequestInfo) × In r (expand_verbs base gv names verbs) × (r.verb ≡ v)
unfolding expand_verbs
In-expand_verbs base gv names [] v i = absurd (elim i [ ])
In-expand_verbs base gv names (w ∷ rest) v i = elim (In-head_or_tail i) [
  | inl same ↦ (_, here refl, same)
  | inr later ↦ let (r, j, e) = In-expand_verbs base gv names rest v later in (r, there j, e)
]

In-expand_resources :
    (base : RequestInfo) (gv : String × String) (xs : List ApiResource) (a : ApiResource)
    (v : String)
    → In a xs
    → In v a.verbs
    → (r : RequestInfo) × In r (expand_resources base gv xs) × (r.verb ≡ v)
unfolding expand_resources
In-expand_resources base gv [] a v i k = absurd (elim i [ ])
In-expand_resources base gv (b ∷ rest) a v i k = elim (In-head_or_tail i) [
  | inl same ↦
      let (r, j, e) =
        In-expand_verbs base gv (cut b.name) b.verbs v
          (subst (λ (a : ApiResource). In v a.verbs) (sym same) k) in
      (
        r,
        In-append_left r (expand_verbs base gv (cut b.name) b.verbs) (expand_resources base gv rest)
            j,
        e,
      )
  | inr later ↦
      let (r, j, e) = In-expand_resources base gv rest a v later k in
      (
        r,
        In-append_right r (expand_verbs base gv (cut b.name) b.verbs)
            (expand_resources base gv rest) j,
        e,
      )
]

In-expand :
    (p : String → String × String) (base : RequestInfo) (groups : List ApiResourceList)
    (g : ApiResourceList) (a : ApiResource) (v : String)
    → In g groups
    → In a g.api_resources
    → In v a.verbs
    → (r : RequestInfo) × In r (expand p base groups) × (r.verb ≡ v)
unfolding expand
In-expand p base [] g a v i j k = absurd (elim i [ ])
In-expand p base (h ∷ groups) g a v i j k = elim (In-head_or_tail i) [
  | inl same ↦
      let (r, m, e) =
        In-expand_resources base (p h.group_version) h.api_resources a v
          (subst (λ (g : ApiResourceList). In a g.api_resources) (sym same) j) k in
      (
        r,
        In-append_left r (expand_resources base (p h.group_version) h.api_resources)
            (expand p base groups) m,
        e,
      )
  | inr later ↦
      let (r, m, e) = In-expand p base groups g a v later j k in
      (
        r,
        In-append_right r (expand_resources base (p h.group_version) h.api_resources)
            (expand p base groups) m,
        e,
      )
]

module _ (to_lower : String → String) where
  prepend_failed :
      (o : Option Request) (later : List Request × Bool)
      → later.1 ≡ false
      → (prepend o later).1 ≡ false
  unfolding prepend
  prepend_failed none later e = refl
  prepend_failed (some q) later e = e

  make_requests-panics :
      (rs : List RequestInfo) (r : RequestInfo)
      → In r rs
      → method_of (to_lower r.verb) ≡ none
      → (make_requests to_lower rs).1 ≡ false
  unfolding make_requests prepend to_rest_request request_with
  make_requests-panics [] r i unknown = absurd (elim i [ ])
  make_requests-panics (s ∷ rest) r i unknown = elim (In-head_or_tail i) [
    | inl same ↦
        ap (λ m. (prepend (request_with s m) (make_requests to_lower rest)).1)
          (ap (λ (s : RequestInfo). method_of (to_lower s.verb)) same ∙ unknown)
    | inr later ↦
        prepend_failed (request_with s (method_of (to_lower s.verb))) (make_requests to_lower rest)
          (make_requests-panics rest r later unknown)
  ]

  proxy_is_default : (spec : ResourceSpec) → spec.verbs ≡ [] → In "proxy" (descriptor spec).verbs
  unfolding descriptor
  proxy_is_default spec none_given =
      subst (λ vs. In "proxy" (if ltb 0 (length vs) then vs else default_verbs)) (sym none_given)
        (there (there (there (there (there (there (there (here refl))))))))

  -- The requests for what an extension server of pkg/kapi tells of end in a panic as soon as a resource
  -- has the verbs that pkg/kapi gives it if none are named: proxy is one of them, and no verb that
  -- `ToRESTRequest` knows.
  pub make_requests-expand-descriptor :
      (p : String → String × String) (base : RequestInfo) (groups : List ApiResourceList)
      (g : ApiResourceList) (a : ApiResource) (spec : ResourceSpec)
      → to_lower "proxy" ≡ "proxy"
      → In g groups
      → In a g.api_resources
      → a.verbs ≡ (descriptor spec).verbs
      → spec.verbs ≡ []
      → (make_requests to_lower (expand p base groups)).1 ≡ false
  unfolding method_of
  make_requests-expand-descriptor p base groups g a spec small i j same none_given =
      let (r, k, verb) =
        In-expand p base groups g a "proxy" i j
          (subst (In "proxy") (sym same) (proxy_is_default spec none_given)) in
      make_requests-panics (expand p base groups) r k
        (ap (λ v. method_of (to_lower v)) verb ∙ ap method_of small)
