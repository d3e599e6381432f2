-- ===== src/Http/Registry/Preflight.antt =====
-- What the preflight of a pattern advertises.
use mathlib.Core.List.{append_assoc, append-nil}
use tempcdn.Prelude.{
  ◌≡◌, refl, sym, ◌∙◌, ap, false, ◌&&◌, List, [], ◌∷◌, ◌++◌, Option, none, some, All, inl, inr,
  Bool-cases, if◌then◌else◌,
}
use tempcdn.Text.{Text, same}
use tempcdn.Text.Laws.{same_refl, same_iff}
use tempcdn.Http.{Handler, Body, method_options}
use tempcdn.Http.Registry.{
  Registration, RouteRegistry, new_route_registry, Endpoint, preflight, route, route_all, last_for,
}

module _ {S P : Type 0} where
  -- The methods of the endpoints of a pattern, in the order of their registration.
  abbrev pub methods_of : Text → List (Endpoint S P) → List Text
  methods_of pattern [] = []
  methods_of pattern (e ∷ endpoints) =
      if same pattern e.pattern
      then e.method ∷ methods_of pattern endpoints
      else methods_of pattern endpoints

  -- The preflight that advertises some methods; without any there is none.
  abbrev pub advertises : Text → List Text → Option (Handler S (Body P))
  advertises allowed_origin [] = none
  advertises allowed_origin (m ∷ methods) = some (preflight allowed_origin (m ∷ methods))

  last_for-append :
      (method pattern : Text) (found : Option (Handler S (Body P)))
      (calls more : List (Registration S P))
      → last_for method pattern found (calls ++ more)
        ≡ last_for method pattern (last_for method pattern found calls) more
  unfolding last_for
  last_for-append method pattern found [] more = refl
  last_for-append method pattern found (c ∷ calls) more =
      last_for-append method pattern
        (if same method c.method && same pattern c.pattern then some c.handler else found) calls
        more

  advertises-append :
      (allowed_origin : Text) (ms : List Text) (m : Text)
      → advertises allowed_origin (ms ++ m ∷ []) ≡ some (preflight allowed_origin (ms ++ m ∷ []))
  advertises-append allowed_origin [] m = refl
  advertises-append allowed_origin (n ∷ ms) m = refl

  -- The preflight of every pattern advertises what the registry holds.
  abbrev Agrees : Text → RouteRegistry × List (Registration S P) → Type 0
  Agrees allowed_origin (reg, calls) =
      (pattern : Text)
      → last_for method_options pattern none calls ≡ advertises allowed_origin (reg pattern)

  route-Agrees :
      (allowed_origin : Text) (e : Endpoint S P) (st : RouteRegistry × List (Registration S P))
      → same method_options e.method ≡ false
      → Agrees allowed_origin st
      → Agrees allowed_origin (route allowed_origin e st)
  unfolding last_for route
  route-Agrees allowed_origin e (reg, calls) other h pattern =
      elim (Bool-cases (same pattern e.pattern)) [
        | inl q ↦
            rw
              (
                last_for-append method_options pattern none calls,
                h pattern,
                q,
                other,
                same_refl e.pattern,
                same_refl method_options,
              )
              (sym (advertises-append allowed_origin (reg e.pattern) e.method))
        | inr q ↦
            rw
              (
                last_for-append method_options pattern none calls,
                h pattern,
                q,
                other,
                same_refl method_options,
              )
              refl
      ]

  route_all-Agrees :
      (allowed_origin : Text) (endpoints : List (Endpoint S P))
      (st : RouteRegistry × List (Registration S P))
      → All (λ e. same method_options e.method ≡ false) endpoints
      → Agrees allowed_origin st
      → Agrees allowed_origin (route_all allowed_origin endpoints st)
  unfolding route_all
  route_all-Agrees allowed_origin [] st others h = h
  route_all-Agrees allowed_origin (e ∷ endpoints) st others h =
      route_all-Agrees allowed_origin endpoints (route allowed_origin e st) others.1
        (route-Agrees allowed_origin e st others.0 h)

  route_all-registry :
      (allowed_origin : Text) (endpoints : List (Endpoint S P))
      (st : RouteRegistry × List (Registration S P)) (pattern : Text)
      → (route_all allowed_origin endpoints st).0 pattern
        ≡ st.0 pattern ++ methods_of pattern endpoints
  unfolding route_all route
  route_all-registry allowed_origin [] st pattern = sym (append-nil (st.0 pattern))
  route_all-registry allowed_origin (e ∷ endpoints) st pattern =
      elim (Bool-cases (same pattern e.pattern)) [
        | inl q ↦
            rw
              (
                route_all-registry allowed_origin endpoints (route allowed_origin e st) pattern,
                q,
                ← (same_iff pattern e.pattern).0 q,
              )
              (append_assoc (st.0 pattern) (e.method ∷ []) (methods_of pattern endpoints))
        | inr q ↦
            rw (route_all-registry allowed_origin endpoints (route allowed_origin e st) pattern, q)
              refl
      ]

  -- After any calls of `route` for endpoints whose method is not OPTIONS, the preflight registered
  -- last for a pattern advertises exactly the methods of the pattern's endpoints, in the order of
  -- their registration, and OPTIONS; a pattern without an endpoint has no preflight.
  pub route_all-preflight :
      (allowed_origin : Text) (endpoints : List (Endpoint S P)) (pattern : Text)
      → All (λ e. same method_options e.method ≡ false) endpoints
      → last_for method_options pattern none
          (route_all allowed_origin endpoints (new_route_registry, [])).1
        ≡ advertises allowed_origin (methods_of pattern endpoints)
  unfolding last_for
  route_all-preflight allowed_origin endpoints pattern others =
      route_all-Agrees allowed_origin endpoints (new_route_registry, []) others fresh_registry
        pattern
      ∙ ap (advertises allowed_origin)
          (route_all-registry allowed_origin endpoints (new_route_registry, []) pattern)
    where
      fresh_registry : Agrees allowed_origin (new_route_registry, [])
      fresh_registry p = refl
