-- ===== src/Http/Rolled.antt =====
-- internal/httpapi: the tables after a request, by the status of its response.
use device_telemetry_ro.Prelude.{leb, if◌then◌else◌, ◌≡◌, refl, Bool, true, false}
use device_telemetry_ro.Domain.Errors.{Error, Result, ok, err}
use device_telemetry_ro.Db.{Tables, World, Exec}
use device_telemetry_ro.Db.Atomic.{IsReadOnly, IsAtomic}
use device_telemetry_ro.Http.{Response, render, respond}
use device_telemetry_ro.Http.Handlers.{Decoded, decoded, undecodable, with_body}

-- The handler leaves the tables as they were.
unfoldable pub IsUntouched : (World → Response × World) → Type 0
IsUntouched h = (w : World) → (h w).1.tables ≡ w.tables

-- When its status is that of an error, the handler leaves the tables as they were.
unfoldable pub IsRolled : (World → Response × World) → Type 0
IsRolled h = (w : World) → leb 400 (h w).0.status ≡ true → (h w).1.tables ≡ w.tables

pub IsUntouched-IsRolled : (h : World → Response × World) → IsUntouched h → IsRolled h
unfolding IsUntouched IsRolled
IsUntouched-IsRolled h u w e = u w

-- An answer that does not read or write the tables.
pub answer-IsUntouched : (a : World → Response) → IsUntouched (λ w. (a w, w))
unfolding IsUntouched
answer-IsUntouched a w = refl

render-tables {ℓ} :
    {A : Type ℓ} (f : A → Response) (r : Result A × World) (t : Tables)
    → r.1.tables ≡ t
    → (render f r).1.tables ≡ t
render-tables f (ok a, w) t h = h
render-tables f (err e, w) t h = h

pub respond-IsUntouched {ℓ} :
    {A : Type ℓ} (m : Exec A) (f : A → Response) → IsReadOnly m → IsUntouched (respond m f)
unfolding IsReadOnly IsUntouched respond
respond-IsUntouched m f r w = render-tables f (m w) w.tables (r w)

render-rolled {ℓ} :
    {A : Type ℓ} (f : A → Response) (r : Result A × World) (t : Tables)
    → ((a : A) → leb 400 (f a).status ≡ false)
    → ((e : Error) → r.0 ≡ err e → r.1.tables ≡ t)
    → leb 400 (render f r).0.status ≡ true
    → (render f r).1.tables ≡ t
render-rolled f (ok a, w) t good h s = let g = good a in cc
render-rolled f (err e, w) t good h s = h e refl

pub respond-IsRolled {ℓ} :
    {A : Type ℓ} (m : Exec A) (f : A → Response)
    → IsAtomic m
    → ((a : A) → leb 400 (f a).status ≡ false)
    → IsRolled (respond m f)
unfolding IsAtomic IsRolled respond
respond-IsRolled m f a good w s = render-rolled f (m w) w.tables good (a w) s

pub with_body-IsRolled {ℓ} :
    {A : Type ℓ} (d : Decoded A) (f : A → World → Response × World)
    → ((a : A) → IsRolled (f a))
    → IsRolled (with_body d f)
unfolding IsRolled
with_body-IsRolled (decoded a) f h w s = h a w s
with_body-IsRolled (undecodable text) f h w s = refl

pub answer-IsRolled : (a : World → Response) → IsRolled (λ w. (a w, w))
answer-IsRolled a = IsUntouched-IsRolled _ (answer-IsUntouched a)

pub if-IsRolled :
    (b : Bool) (h k : World → Response × World)
    → IsRolled h
    → IsRolled k
    → IsRolled (if b then h else k)
if-IsRolled true h k p q = p
if-IsRolled false h k p q = q
