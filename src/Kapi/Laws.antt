-- ===== src/Kapi/Laws.antt =====
-- pkg/kapi/kapi.go: what the mux serves after `NewAPI`, and when registration panics.
use runkube.Common.{
  ◌≡◌, refl, sym, ap, subst, ◌∙◌, String, true, none, some, List, [], ◌∷◌, ◌++◌, arith, In, here,
  there, In-append_left, In-append_right, Dict, lookup, insert, fields,
}
use mathlib.Core.List.{append_assoc}
use runkube.Kapi.{Group, ResourceSpec, rurl, descriptor}
use runkube.Kapi.Routes.{
  Handler, list_handler, get_handler, resource_routes, all_resource_routes, install, install_group,
  install_groups, register, new_api,
}
use runkube.Kapi.Registration.{lookup-register, register_once}

In-all_resource_routes :
    (g : Group) (r : ResourceSpec) (rs : List ResourceSpec) (route : String × Handler)
    → In r rs
    → In route (resource_routes g r)
    → In route (all_resource_routes g rs)
unfolding all_resource_routes
In-all_resource_routes g r [] route i j = elim i [ ]
In-all_resource_routes g r (x ∷ rs) route (here e) j =
    In-append_left route (resource_routes g x) (all_resource_routes g rs)
      (subst (λ y. In route (resource_routes g y)) (sym e) j)
In-all_resource_routes g r (x ∷ rs) route (there i) j =
    In-append_right route (resource_routes g x) (all_resource_routes g rs)
      (In-all_resource_routes g r rs route i j)

In-install_groups :
    (g : Group) (gs : List Group) (route : String × Handler)
    → In g gs
    → In route (all_resource_routes g g.resources)
    → In route (install_groups gs)
unfolding install_groups install_group
In-install_groups g [] route i j = elim i [ ]
In-install_groups g (x ∷ gs) route (here e) j =
    In-append_left route (install_group x) (install_groups gs)
      (subst (λ y. In route (install_group y)) (sym e) (there (there j)))
In-install_groups g (x ∷ gs) route (there i) j =
    In-append_right route (install_group x) (install_groups gs) (In-install_groups g gs route i j)

-- After `NewAPI` returns, the list of every resource of every group is served, with the handler of
-- that resource.
pub new_api-list_handler :
    (groups : List Group) (mux : Dict Handler) (g : Group) (r : ResourceSpec)
    → new_api groups ≡ some mux
    → In g groups
    → In r g.resources
    → lookup (rurl g r "/apis/{group}/{version}/{resource}") mux ≡ some (list_handler r)
unfolding new_api resource_routes
new_api-list_handler groups mux g r e i j =
    let route : String × Handler =
      (rurl g r "/apis/{group}/{version}/{resource}", list_handler r) in
    lookup-register (install groups ++ install_groups groups) [] mux route.0 route.1 e (
      In-append_right route (install groups) (install_groups groups) (
        In-install_groups g groups route i
          (In-all_resource_routes g r g.resources route j (here refl))))

all_resource_routes-append :
    (g : Group) (rs ss : List ResourceSpec)
    → all_resource_routes g (rs ++ ss) ≡ all_resource_routes g rs ++ all_resource_routes g ss
unfolding all_resource_routes
all_resource_routes-append g [] ss = refl
all_resource_routes-append g (r ∷ rs) ss = simp (all_resource_routes-append g rs ss, append_assoc)

-- The pattern of a single object of a namespaced resource does not name the resource.
abbrev name_pattern : Group → ResourceSpec → String
name_pattern g r = rurl g r "/apis/{group}/{version}/namespaces/{namespace}/{resources}/{name}"

name_pattern_same : (g : Group) (r s : ResourceSpec) → name_pattern g r ≡ name_pattern g s
unfolding rurl fields
name_pattern_same g r s = refl

In-resource_routes_name :
    (g : Group) (r : ResourceSpec)
    → r.namespaced ≡ true
    → In (name_pattern g r, get_handler r) (resource_routes g r)
unfolding resource_routes descriptor
In-resource_routes_name g r e = rw e (there (there (here refl)))

-- A list of routes that always panics, whatever stands before or after it.
abbrev Panics : List (String × Handler) → Type 0
Panics rs = (mux : Dict Handler) → register rs mux ≡ none

Panics-before : (pre rs : List (String × Handler)) → Panics rs → Panics (pre ++ rs)
unfolding register
Panics-before [] rs h mux = h mux
Panics-before ((q, k) ∷ pre) rs h mux = ground (arith, Panics-before pre rs h (insert q k mux))

register-append_none :
    (rs post : List (String × Handler)) (mux : Dict Handler)
    → register rs mux ≡ none
    → register (rs ++ post) mux ≡ none
unfolding register
register-append_none [] post mux h = cc
register-append_none ((q, k) ∷ rs) post mux h =
    ground (arith, register-append_none rs post (insert q k mux))

install_group-Panics :
    (g : Group) (front back : List ResourceSpec) (r s : ResourceSpec)
    → g.resources ≡ front ++ back
    → In r front
    → In s back
    → r.namespaced ≡ true
    → s.namespaced ≡ true
    → Panics (install_group g)
unfolding install_group
install_group-Panics g front back r s e i j first second =
    Panics-before (_ ∷ _ ∷ []) (all_resource_routes g g.resources) λ mux.
      ap (λ rs. register (all_resource_routes g rs) mux) e
      ∙ ap (λ rs. register rs mux) (all_resource_routes-append g front back)
      ∙ register_once (all_resource_routes g front) (all_resource_routes g back) mux
          (name_pattern g r) (get_handler r) (get_handler s)
          (In-all_resource_routes g r front (name_pattern g r, get_handler r) i
            (In-resource_routes_name g r first))
          (subst (λ p. In (p, get_handler s) (all_resource_routes g back)) (name_pattern_same g s r)
            (In-all_resource_routes g s back (name_pattern g s, get_handler s) j
              (In-resource_routes_name g s second)))

install_groups-Panics :
    (g : Group) (gs : List Group) → In g gs → Panics (install_group g) → Panics (install_groups gs)
unfolding install_groups
install_groups-Panics g [] i h mux = elim i [ ]
install_groups-Panics g (x ∷ gs) (here e) h mux =
    register-append_none (install_group x) (install_groups gs) mux
      (ap (λ y. register (install_group y) mux) e ∙ h mux)
install_groups-Panics g (x ∷ gs) (there i) h mux =
    Panics-before (install_group x) (install_groups gs) (install_groups-Panics g gs i h) mux

-- `NewAPI` panics if a group has two namespaced resources: the route of a single object is registered
-- under one pattern for all of them, since it says {resources} where {resource} is meant.
pub new_api_panics :
    (groups : List Group) (g : Group) (front back : List ResourceSpec) (r s : ResourceSpec)
    → In g groups
    → g.resources ≡ front ++ back
    → In r front
    → In s back
    → r.namespaced ≡ true
    → s.namespaced ≡ true
    → new_api groups ≡ none
unfolding new_api
new_api_panics groups g front back r s member e i j first second =
    Panics-before (install groups) (install_groups groups)
      (install_groups-Panics g groups member
        (install_group-Panics g front back r s e i j first second))
      []
