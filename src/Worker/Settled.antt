-- ===== src/Worker/Settled.antt =====
-- internal/worker/worker.go: what a pass of the worker does to a delivery that is settled, that is,
-- dispatched or dead.
use mathlib.Core.Logic.Or
use mathlib.Core.List.{Mem, Perm, Mem-prop, mem-cons, mem-cons_of_mem, mem-cons_self, not-mem-nil}
use mathlib.Core.List.Perm
use device_telemetry_ro.Prelude.{
  ◌==◌, if◌then◌else◌, ==_iff, Bool-cases, &&-eq-true, take, keep, ℕ, zero, suc, ◌≡◌, refl, sym,
  subst, ◌∙◌, inl, inr, Bool, true, false, Option, List, [], ◌∷◌,
}
use device_telemetry_ro.Prelude.Int.{ℤ}
use device_telemetry_ro.Prelude.Bytes.{Bytes}
use device_telemetry_ro.Prelude.Keep.{mem-keep→}
use device_telemetry_ro.Domain.{Time, DeliveryRecord}
use device_telemetry_ro.Domain.Errors.{Result}
use device_telemetry_ro.Db.{Tables, World, update}
use device_telemetry_ro.Db.Keeps.{Keeps, pure-Keeps, bind-Keeps, update-Keeps, query_then-keeps}
use device_telemetry_ro.Store.{change_where}
use device_telemetry_ro.Store.Devices.{update_event_status}
use device_telemetry_ro.Store.Deliveries.{
  is_waiting, is_due, earlier, insert_due, sort_due, list_due_deliveries, change_delivery,
  mark_delivered, mark_failed, mark_dead,
}
use device_telemetry_ro.Worker.{Options, DispatchPayload, dispatch_all, process_once}
use device_telemetry_ro.Worker.Marks.{MarksKeep, dispatch_one-Keeps}

insert_due-perm : (d : DeliveryRecord) (l : List DeliveryRecord) → Perm (insert_due d l) (d ∷ l)
unfolding insert_due
insert_due-perm d [] = Perm.refl (d ∷ [])
insert_due-perm d (x ∷ xs) = elim (Bool-cases (earlier x d)) [
  | inl e ↦ rw e (Perm.trans (Perm.cons x (insert_due-perm d xs)) (Perm.swap d x xs))
  | inr e ↦ rw e (Perm.refl (d ∷ x ∷ xs))
]

sort_due-perm : (l : List DeliveryRecord) → Perm (sort_due l) l
unfolding sort_due
sort_due-perm [] = Perm.refl []
sort_due-perm (x ∷ xs) =
    Perm.trans (insert_due-perm x (sort_due xs)) (Perm.cons x (sort_due-perm xs))

mem-take {ℓ} : {A : Type ℓ} (n : ℕ) (a : A) (l : List A) → Mem a (take n l) → Mem a l
mem-take zero a l m = absurd (not-mem-nil m)
mem-take (suc n) a [] m = absurd (not-mem-nil m)
mem-take (suc n) a (x ∷ xs) m =
    Or.elim Mem-prop (mem-cons.0 m) (λ q. rw q mem-cons_self)
      (λ k. mem-cons_of_mem x (mem-take n a xs k))

unchanged {ℓ} :
    {A : Type ℓ} (p : A → Bool) (f : A → A) (x : A) → p x ≡ false → x ≡ (if p x then f x else x)
unchanged p f x e = rw e refl

mem-change_where {ℓ} :
    {A : Type ℓ} (p : A → Bool) (f : A → A) (a : A) (l : List A)
    → p a ≡ false
    → Mem a l
    → Mem a (change_where p f l)
mem-change_where p f a [] e m = absurd (not-mem-nil m)
mem-change_where p f a (x ∷ xs) e m =
    Or.elim Mem-prop (mem-cons.0 m)
      (λ q.
        subst (λ z. Mem z (change_where p f (x ∷ xs)))
          (sym (q ∙ unchanged p f x (subst (λ z. p z ≡ false) q e))) mem-cons_self)
      (λ k. mem-cons_of_mem _ (mem-change_where p f a xs e k))

-- The row stands in the table of deliveries.
unfoldable pub Stored : DeliveryRecord → Tables → Type 0
Stored x t = Mem x t.deliveries

-- No two deliveries have one id.
unfoldable pub DistinctDeliveries : Tables → Type 0
DistinctDeliveries t =
    (a b : DeliveryRecord) → Mem a t.deliveries → Mem b t.deliveries → a.id ≡ b.id → a ≡ b

module _ (x : DeliveryRecord) where
  change_delivery-Stored :
      (id : ℕ) (f : DeliveryRecord → DeliveryRecord)
      → (x.id == id) ≡ false
      → Keeps (Stored x) (update (change_delivery id f))
  unfolding Stored
  change_delivery-Stored id f e =
      update-Keeps (Stored x) _ (λ t m. mem-change_where (λ d. d.id == id) f x t.deliveries e m)

  marks : (max : ℤ) (d : DeliveryRecord) → (x.id == d.id) ≡ false → MarksKeep (Stored x) max d
  unfolding mark_delivered mark_dead mark_failed update_event_status Stored
  marks max d e = record {
    delivered = λ at. change_delivery-Stored d.id _ e;
    dead = λ text at. change_delivery-Stored d.id _ e;
    failed = λ attempt text next_retry h. change_delivery-Stored d.id _ e;
    advanced = λ id status. update-Keeps (Stored x) _ (λ t m. m);
  }

  module _ (opts : Options) (marshal : DispatchPayload → Result Bytes)
      (sink : ℕ → Bytes → Bytes → Option Bytes) (now : Time) where
    dispatch_all-Stored :
        (ds : List DeliveryRecord)
        → ((d : DeliveryRecord) → Mem d ds → (x.id == d.id) ≡ false)
        → Keeps (Stored x) (dispatch_all marshal sink opts now ds)
    unfolding dispatch_all
    dispatch_all-Stored [] h = pure-Keeps (Stored x) tt
    dispatch_all-Stored (d ∷ ds) h =
        bind-Keeps (Stored x) _ _
          (dispatch_one-Keeps (Stored x) opts d (marks opts.max_attempt d (h d mem-cons_self))
            marshal sink now)
          (λ _. dispatch_all-Stored ds (λ b m. h b (mem-cons_of_mem d m)))

    -- A settled delivery has another id than each that is due.
    settled-other :
        (t : Tables) (n : ℕ)
        → is_waiting x.status ≡ false
        → DistinctDeliveries t
        → Mem x t.deliveries
        → (d : DeliveryRecord) → Mem d (take n (sort_due (keep (is_due now) t.deliveries)))
        → (x.id == d.id) ≡ false
    unfolding is_due DistinctDeliveries
    settled-other t n s u m d k = elim (Bool-cases (x.id == d.id)) [
      | inl e ↦
          let (mem, due) =
            mem-keep→ (is_due now) d t.deliveries
              ((Perm.mem_iff (sort_due-perm _)).0 (mem-take n d _ k)) in
          let same : x ≡ d = u x d m mem ((==_iff x.id d.id).0 e) in
          let waits : is_waiting d.status ≡ true = (&&-eq-true _ _ due).0 in
          let w2 : is_waiting x.status ≡ true =
            subst (λ z. is_waiting z.status ≡ true) (sym same) waits in
          cc
      | inr e ↦ e
    ]

    -- A pass of the worker leaves a settled delivery, dispatched or dead, in the table as it was: in a
    -- table without two deliveries of one id, whatever the sink answers and whichever statements the
    -- database fails.
    pub process_once-Stored :
        (w : World)
        → is_waiting x.status ≡ false
        → DistinctDeliveries w.tables
        → Mem x w.tables.deliveries
        → Mem x (process_once marshal sink opts now w).1.tables.deliveries
    unfolding process_once list_due_deliveries Stored
    process_once-Stored w s u m =
        query_then-keeps (Stored x) _ (dispatch_all marshal sink opts now) w
          (dispatch_all-Stored _ (settled-other w.tables _ s u m)) m
