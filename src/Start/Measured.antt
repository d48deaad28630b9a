-- ===== src/Start/Measured.antt =====
-- cmd/server/main.go with internal/metrics: what a request leaves in the registry.
use mathlib.Core.Option.{some-injective}
use device_telemetry_ro.Prelude.Int.{negsuc}
use device_telemetry_ro.Prelude.Bytes.{Bytes}
use device_telemetry_ro.Domain.{Float64}
use device_telemetry_ro.External.{External}
use device_telemetry_ro.Parser.{ParseError}
use device_telemetry_ro.Db.{World}
use device_telemetry_ro.Start.{root_answer, App, instrumented}
use device_telemetry_ro.Metrics.{
  Gauge, Histogram, Registry, change_at, nth, one_float, add_gauge, inc_gauge, observed_in,
  observed, observe,
}
use device_telemetry_ro.Http.{Request}
use device_telemetry_ro.Http.Handlers.{Env, Codec}
use device_telemetry_ro.Http.Server.{Mux, Static}
use device_telemetry_ro.Prelude.{ℕ, zero, suc, ◌≡◌, refl, sym, ap, ◌∙◌, some, List, [], ◌∷◌}

change_at_twice {ℓ} :
    {A : Type ℓ} (n : ℕ) (f g : A → A) (l : List A) (a : A)
    → nth n l ≡ some a
    → f (g a) ≡ a
    → change_at n f (change_at n g l) ≡ l
unfolding change_at
change_at_twice n f g [] a h e = refl
change_at_twice zero f g (x ∷ xs) a h e =
    let q = some-injective x a h in ap (λ z. z ∷ xs) (ap (λ z. f (g z)) q ∙ e ∙ sym q)
change_at_twice (suc n) f g (x ∷ xs) a h e = ap (λ l. x ∷ l) (change_at_twice n f g xs a h e)

nth-change_at {ℓ} :
    {A : Type ℓ} (n : ℕ) (f : A → A) (l : List A) (a : A)
    → nth n l ≡ some a
    → nth n (change_at n f l) ≡ some (f a)
unfolding change_at
nth-change_at n f [] a h = cc
nth-change_at zero f (x ∷ xs) a h = ap some (ap f (some-injective x a h))
nth-change_at (suc n) f (x ∷ xs) a h = nth-change_at n f xs a h

module _ (ext : External) where
  -- The histogram has a bound, as `Observe` needs.
  unfoldable pub HasBound : Histogram → Type 0
  HasBound h = (b : Float64) × (bs : List Float64) × (h.bounds ≡ b ∷ bs)

  observed_one :
      (s : Float64) (h : Histogram)
      → HasBound h
      → (h' : Histogram) × (observed ext s h ≡ some h')
        × (h'.count ≡ ext.add_float h.count (one_float ext))
        × (h'.sum ≡ ext.add_float h.sum s)
  unfolding observed HasBound
  observed_one s h (b, bs, e) = given h.bounds e
    where
      given :
          (l : List Float64)
          → l ≡ b ∷ bs
          → (h' : Histogram) × (observed_in ext s h l ≡ some h')
            × (h'.count ≡ ext.add_float h.count (one_float ext))
            × (h'.sum ≡ ext.add_float h.sum s)
      given [] e = cc
      given (x ∷ xs) e = (_, refl, refl, refl)

  observe_one :
      (cell : ℕ) (s : Float64) (r : Registry) (h h' : Histogram)
      → nth cell r.histogram_cells ≡ some h
      → observed ext s h ≡ some h'
      → observe ext cell s r
        ≡ some (record r { histogram_cells = change_at cell (λ _. h') r.histogram_cells })
  unfolding observe
  observe_one cell s r h h' e o = rw (observe, e) (rw o refl)

  -- A request to the root handler, whatever its answer: the registry holds the gauge and the histogram
  -- of the server, the histogram has a bound, and adding 1 and -1 to the gauge's value gives it back.
  -- Then `Observe` does not panic, every gauge and counter is as it was, and the histogram has counted
  -- one observation more and added the seconds of the request.
  pub root_answer-measured :
      (app : App) (text_of : ParseError → Bytes) (codec : Codec) (static : Static) (mux : Mux)
      (env : Env) (seconds : Float64) (req : Request) (r : Registry) (w : World) (g : Gauge)
      (h : Histogram)
      → nth app.in_flight r.gauge_cells ≡ some g
      → ext.add_float (ext.add_float g.value (one_float ext)) (ext.constant (negsuc 0) 0) ≡ g.value
      → nth app.duration r.histogram_cells ≡ some h
      → HasBound h
      → (r' : Registry) × (h' : Histogram) × ((root_answer ext app text_of codec static mux env
            seconds req r w).2
          ≡ some r')
        × (r'.gauge_cells ≡ r.gauge_cells)
        × (r'.counter_cells ≡ r.counter_cells)
        × (nth app.duration r'.histogram_cells ≡ some h')
        × (h'.count ≡ ext.add_float h.count (one_float ext))
        × (h'.sum ≡ ext.add_float h.sum seconds)
  unfolding root_answer instrumented inc_gauge add_gauge
  root_answer-measured app text_of codec static mux env seconds req r w g h eg law eh bounded =
      let (h', e, count, sum) = observed_one seconds h bounded in
      (
        _,
        h',
        observe_one app.duration seconds
            (add_gauge ext app.in_flight (ext.constant (negsuc 0) 0)
              (inc_gauge ext app.in_flight r))
            h h' eh e,
        change_at_twice app.in_flight
            (λ g. record g { value = ext.add_float g.value (ext.constant (negsuc 0) 0) })
            (λ g. record g { value = ext.add_float g.value (one_float ext) }) r.gauge_cells g eg
            (ap (λ v. record g { value = v }) law),
        refl,
        nth-change_at app.duration (λ _. h') r.histogram_cells h eh,
        count,
        sum,
      )
