-- ===== src/Http/Registry.antt =====
-- internal/httpserver/middleware.go: `routeRegistry`, which registers an endpoint and its preflight
-- with the router. A registration is a call of the router, in the order of the calls.
pub mod Preflight
use tempcdn.Prelude.{◌&&◌, List, [], ◌∷◌, ◌++◌, Option, none, some, if◌then◌else◌}
use tempcdn.Text.{Text, lit, same}
use tempcdn.Http.{Handler, Middleware, Body, method_options}
use tempcdn.Http.Middleware.{cors, noop_handler}

-- `strings.Join(parts, sep)`
unfoldable pub join : Text → List Text → Text
join sep [] = []
join sep (p ∷ []) = p
join sep (p ∷ q ∷ parts) = p ++ sep ++ join sep (q ∷ parts)

-- `router.Method(method, pattern, handler)`; `Options` is that with the method OPTIONS.
pub record Registration (S P : Type 0) : Type 0 where
  pub method : Text
  pub pattern : Text
  pub handler : Handler S (Body P)

-- The map from a pattern to its methods; a missing key gives the nil slice.
abbrev pub RouteRegistry : Type 0
RouteRegistry = Text → List Text

abbrev pub new_route_registry : RouteRegistry
new_route_registry = λ pattern. []

abbrev pub with_method : Text → Text → RouteRegistry → RouteRegistry
with_method pattern method reg = λ p. if same p pattern then reg pattern ++ method ∷ [] else reg p

-- An endpoint: the arguments of a call of `route`.
pub record Endpoint (S P : Type 0) : Type 0 where
  pub method : Text
  pub pattern : Text
  pub handler : Handler S (Body P)
  pub extra_middleware : List (Middleware S (Body P))

module _ {S P : Type 0} where
  -- The loop over the chain, from its end: the first middleware is the outermost.
  unfoldable pub wrapped : List (Middleware S (Body P)) → Handler S (Body P) → Handler S (Body P)
  wrapped [] h = h
  wrapped (m ∷ chain) h = m (wrapped chain h)

  abbrev pub preflight : Text → List Text → Handler S (Body P)
  preflight allowed_origin methods =
      cors allowed_origin (join (lit ", ") (methods ++ method_options ∷ [])) noop_handler

  -- The two calls of the router, and the registry after them.
  unfoldable pub route :
      Text
      → Endpoint S P
      → RouteRegistry × List (Registration S P)
      → RouteRegistry × List (Registration S P)
  unfolding wrapped
  route allowed_origin e (reg, calls) =
      let after = with_method e.pattern e.method reg in
      (
        after,
        calls
            ++ record {
              method = e.method;
              pattern = e.pattern;
              handler =
                  wrapped (cors allowed_origin (e.method ++ lit ", OPTIONS") ∷ e.extra_middleware)
                    e.handler;
            }
              ∷ record {
                method = method_options;
                pattern = e.pattern;
                handler = preflight allowed_origin (after e.pattern);
              }
              ∷ [],
      )

  -- The calls of `route` one after the other.
  unfoldable pub route_all :
      Text
      → List (Endpoint S P)
      → RouteRegistry × List (Registration S P)
      → RouteRegistry × List (Registration S P)
  unfolding route
  route_all allowed_origin [] st = st
  route_all allowed_origin (e ∷ endpoints) st =
      route_all allowed_origin endpoints (route allowed_origin e st)

  -- The handler registered last for a method and a pattern; `found` is that of the calls before.
  unfoldable pub last_for :
      Text
      → Text
      → Option (Handler S (Body P))
      → List (Registration S P)
      → Option (Handler S (Body P))
  last_for method pattern found [] = found
  last_for method pattern found (c ∷ calls) =
      last_for method pattern
        (if same method c.method && same pattern c.pattern then some c.handler else found) calls
