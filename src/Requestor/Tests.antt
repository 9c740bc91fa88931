-- ===== src/Requestor/Tests.antt =====
-- Runs of tools/requestor/requestor.go, and its theorem at such a run.
use runkube.Common.{◌≡◌, refl, false, [], ◌∷◌, here}
use runkube.Kapi.{ResourceSpec, default_verbs, descriptor}
use runkube.Quotable.{ApiResource, ApiResourceList}
use runkube.Requestor.{RequestInfo, cut, expand, make_requests}
use runkube.Requestor.Laws.{make_requests-expand-descriptor}

abbrev blank : RequestInfo
blank = record {
  group = "";
  version = "";
  resource = "";
  subresource = "";
  verb = "";
  field_selector = "";
  label_selector = "";
  namespace = "";
  name = "";
}

abbrev buckets : ResourceSpec
buckets = record {
  group = "api.runkube.internal";
  version = "v1";
  kind = "Bucket";
  namespaced = false;
  resource = "buckets";
  verbs = [];
}

abbrev told_buckets : ApiResource
told_buckets = record { name = "buckets"; verbs = default_verbs }

abbrev told_group : ApiResourceList
told_group = record { group_version = "api.runkube.internal/v1"; api_resources = told_buckets ∷ [] }

make_requests-expand-descriptor_example :
    (make_requests (λ t. t) (expand cut blank (told_group ∷ []))).1 ≡ false
unfolding descriptor
make_requests-expand-descriptor_example =
    make_requests-expand-descriptor (λ t. t) cut blank (told_group ∷ []) told_group told_buckets
      buckets refl (here refl) (here refl) refl refl

subresource_cut : cut "pods/log" ≡ ("pods", "log")
unfolding cut
subresource_cut = refl
