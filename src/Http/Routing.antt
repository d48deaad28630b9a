-- ===== src/Http/Routing.antt =====
-- internal/httpapi/server.go: which requests reach which route, and which of them need a key.
use device_telemetry_ro.Prelude.{
  leb, ◌==◌, if◌then◌else◌, length, take, ◌≡◌, refl, sym, subst, ◌⊎◌, inl, inr, Bool, true, false,
  not, ◌&&◌, ◌||◌, some, [], ◌∷◌, ◌++◌, arith,
}
use device_telemetry_ro.Prelude.Bytes.{Bytes, codes, eqb, eqb_refl, eqb→eq}
use device_telemetry_ro.Service.{starts_with}
use device_telemetry_ro.Http.{Request}
use device_telemetry_ro.Http.Server.{
  Route, healthz, metrics_route, create_device_route, list_devices_route, telemetry_route,
  create_rule_route, list_rules_route, list_events_route, stats_route, audit_route, assets_route,
  index_route, get_device_route, device_status_route, get_rule_route, update_rule_route,
  delete_rule_route, rule_changes_route, get_event_route, list_deliveries_route, replay_route,
  pattern_of, Mux, requires_auth,
}

abbrev pub reads : Bytes → Bool
reads m = not (eqb m (codes "POST") || eqb m (codes "PUT") || eqb m (codes "DELETE"))

-- a pattern with the method GET also serves HEAD
unfoldable pub admits : Bytes → Bytes → Bool
admits pattern m = eqb m pattern || eqb m (codes "HEAD") && eqb pattern (codes "GET")

not_and : (a b : Bool) → not a ≡ true → a && b ≡ false
not_and a b h = ground arith

-- the path of a pattern before its first wildcard
unfoldable pub fixed_part : Bytes → Bytes
fixed_part [] = []
fixed_part (c ∷ cs) = let rest = fixed_part cs in if c == b'{' then [] else c ∷ rest

-- What net/http documents of the patterns: the method of a request is that of its pattern, or HEAD
-- for GET, and its path starts with the path of its pattern up to the first wildcard.
unfoldable pub IsMux : Mux → Type 0
IsMux mux =
    (r : Request) (route : Route)
    → mux.resolve r ≡ some route
    → (admits (pattern_of route).0 r.method ≡ true)
      × (starts_with (fixed_part (pattern_of route).1) r.path ≡ true)

both : (a b : Bool) → not (not a) ≡ true → b ≡ true → a && b ≡ true
both a b h k = ground arith

starts_with-take :
    (p s : Bytes)
    → starts_with p s ≡ true
    → leb (length p) (length s) && eqb (take (length p) s) p ≡ true
unfolding eqb
starts_with-take [] s h = ground arith
starts_with-take (c ∷ p) [] h = cc
starts_with-take (c ∷ p) (x ∷ s) h = ground (arith, starts_with-take p s)

starts_with_trans :
    (p q s : Bytes) → starts_with p q ≡ true → starts_with q s ≡ true → starts_with p s ≡ true
starts_with_trans [] q s h k = refl
starts_with_trans (c ∷ p) [] s h k = cc
starts_with_trans (c ∷ p) (x ∷ q) [] h k = cc
starts_with_trans (c ∷ p) (x ∷ q) (y ∷ s) h k = ground (arith, starts_with_trans p q s)

-- A pattern that is not for GET stands below "/api/v1/", and its method writes.
writing :
    (route : Route)
    → eqb (pattern_of route).0 (codes "GET")
        || not (reads (pattern_of route).0)
          && starts_with (codes "/api/v1/") (fixed_part (pattern_of route).1)
      ≡ true
unfolding pattern_of fixed_part eqb
writing healthz = refl
writing metrics_route = refl
writing create_device_route = refl
writing list_devices_route = refl
writing (get_device_route id) = refl
writing (device_status_route id) = refl
writing telemetry_route = refl
writing create_rule_route = refl
writing list_rules_route = refl
writing (get_rule_route id) = refl
writing (update_rule_route id) = refl
writing (delete_rule_route id) = refl
writing (rule_changes_route id) = refl
writing list_events_route = refl
writing (get_event_route id) = refl
writing (list_deliveries_route id) = refl
writing (replay_route id) = refl
writing stats_route = refl
writing audit_route = refl
writing assets_route = refl
writing index_route = refl

needs_key :
    (route : Route) (r : Request)
    → not (reads (pattern_of route).0) ≡ true
    → eqb r.method (pattern_of route).0 ≡ true
    → starts_with (codes "/api/v1/") r.path ≡ true
    → requires_auth r ≡ true
unfolding requires_auth
needs_key route r n e h =
    let t = starts_with-take (codes "/api/v1/") r.path h in
    both _ _ (subst (λ z. not (reads z) ≡ true) (sym (eqb→eq r.method (pattern_of route).0 e)) n) t

only_get :
    (g n s e d : Bool)
    → g || n && s ≡ true
    → e || d && g ≡ true
    → (n ≡ true → e ≡ true → s ≡ true → ⊥)
    → g ≡ true
only_get true n s e d h k f = refl
only_get false true true true d h k f = absurd (f refl refl refl)
only_get false true true false true h k f = cc
only_get false true true false false h k f = cc
only_get false true false e d h k f = cc
only_get false false s e d h k f = cc

-- A route that serves a request that needs no key is one for GET.
pub served-get :
    (route : Route) (r : Request)
    → admits (pattern_of route).0 r.method ≡ true
    → starts_with (fixed_part (pattern_of route).1) r.path ≡ true
    → requires_auth r ≡ false
    → eqb (pattern_of route).0 (codes "GET") ≡ true
unfolding admits
served-get route r m b h = only_get _ _ _ _ _ (writing route) m (λ n e s.
    let t = starts_with_trans (codes "/api/v1/") (fixed_part (pattern_of route).1) r.path s b in
    let k = needs_key route r n e t in cc)

starts_with-append : (p s : Bytes) → starts_with p (p ++ s) ≡ true
starts_with-append [] s = refl
starts_with-append (c ∷ p) s = ground (arith, starts_with-append p s)

guarded_method :
    (p w d s : Bool) → (p ≡ true) ⊎ ((w ≡ true) ⊎ (d ≡ true)) → s ≡ true → (p || w || d) && s ≡ true
guarded_method p w d s h k = ground arith

-- A request below "/api/v1/" with one of three methods needs a key.
pub writes-requires_auth :
    (r : Request) (rest : Bytes)
    → (r.method ≡ codes "POST") ⊎ ((r.method ≡ codes "PUT") ⊎ (r.method ≡ codes "DELETE"))
    → r.path ≡ codes "/api/v1/" ++ rest
    → requires_auth r ≡ true
unfolding requires_auth
writes-requires_auth r rest m p =
    guarded_method _ _ _ _
      (elim m [
        | inl e ↦ inl (same e)
        | inr o ↦ inr (elim o [ inl e ↦ inl (same e) | inr e ↦ inr (same e) ])
      ])
      (starts_with-take (codes "/api/v1/") r.path (
        subst (λ z. starts_with (codes "/api/v1/") z ≡ true) (sym p)
          (starts_with-append (codes "/api/v1/") rest)))
  where
    same : {a b : Bytes} → a ≡ b → eqb a b ≡ true
    same {a} {b} e = subst (λ z. eqb a z ≡ true) e (eqb_refl a)

-- A request that reads needs no key.
pub reads-requires_auth : (r : Request) → reads r.method ≡ true → requires_auth r ≡ false
unfolding requires_auth
reads-requires_auth r h = not_and _ _ h
