-- ===== src/Cloudflare/Tests.antt =====
-- A purge that is done, and two that are not.
use tempcdn.Prelude.{◌≡◌, refl, true, false, none, some, [], ◌∷◌}
use tempcdn.Text.{lit}
use tempcdn.Action.{ok, err}
use tempcdn.Cloudflare.{answered, refused, bad_status, exchange_answer, purge_urls}

no_request : (purge_urls (λ urls. answered 500 none) []) ≡ ([], ok tt)
unfolding purge_urls
no_request = refl

purged :
    purge_urls
      (λ urls. answered 200 (some (record { success = true; messages = [] })))
      (lit "u" ∷ [])
    ≡ ((lit "u" ∷ []) ∷ [], ok tt)
unfolding purge_urls exchange_answer
purged = refl

not_purged :
    exchange_answer (answered 200 (some (record { success = false; messages = lit "m" ∷ [] })))
    ≡ err (refused (lit "m"))
unfolding exchange_answer
not_purged = refl

not_found : exchange_answer (answered 404 none) ≡ err (bad_status 404)
unfolding exchange_answer
not_found = refl
