-- ===== src/Router/Order.antt =====
-- internal/router/router.go: the order of the matched rules.
use mathlib.Core.Bool.{Bool-set}
use mathlib.Core.List.{
  Mem, Perm, Pairwise, mem-cons_self, not-mem-nil, mem-cons_of_mem, forall_mem-cons,
}
use mathlib.Core.List.Pairwise
use mathlib.Core.List.Perm
use mathlib.Core.Path.{ap₂}
use device_telemetry_ro.Prelude.{Bool-cases, ◌≡◌, inl, inr, true, false, List, [], ◌∷◌, arith}
use device_telemetry_ro.Prelude.Bytes.{
  ltb_bytes_irrefl, ltb_bytes_connex, ltb_bytes_asymm, ltb_bytes_not_trans,
}
use device_telemetry_ro.Domain.{RouteRule}
use device_telemetry_ro.Router.{before, insert_rule, sort_rules}

before_asymm : (a b : RouteRule) → before a b ≡ true → before b a ≡ false
unfolding before
before_asymm a b h = ground (arith, ltb_bytes_asymm a.rule_id b.rule_id)

before_not_trans :
    (a b c : RouteRule) → before a b ≡ false → before b c ≡ false → before a c ≡ false
unfolding before
before_not_trans a b c p q = ground (arith, ltb_bytes_not_trans a.rule_id b.rule_id c.rule_id)

-- Two rules, neither before the other, have one id.
before_connex : (a b : RouteRule) → before a b ≡ false → before b a ≡ false → a.rule_id ≡ b.rule_id
unfolding before
before_connex a b p q = ltb_bytes_connex a.rule_id b.rule_id (ground arith) (ground arith)

-- No later rule of the list goes before an earlier one.
abbrev pub IsSorted : List RouteRule → Type 0
IsSorted = Pairwise (λ a b. before b a ≡ false)

-- Two rules of the list that share an id are one rule, as the unique column of the table has it.
abbrev pub DistinctIds : List RouteRule → Type 0
DistinctIds l = (a b : RouteRule) → Mem a l → Mem b l → a.rule_id ≡ b.rule_id → a ≡ b

abbrev IsBelow : RouteRule → List RouteRule → Type 0
IsBelow a l = (x : RouteRule) → Mem x l → before x a ≡ false

IsBelow-prop : (a x : RouteRule) → IsProp (before x a ≡ false)
IsBelow-prop a x = Bool-set (before x a) false

IsBelow-cons :
    (a b : RouteRule) {l : List RouteRule} → before b a ≡ false → IsBelow a l → IsBelow a (b ∷ l)
IsBelow-cons a b p h = (forall_mem-cons (IsBelow-prop a)).1 (p, h)

IsBelow-head :
    (a b : RouteRule) {l : List RouteRule}
    → before b a ≡ false
    → IsSorted (b ∷ l)
    → IsBelow a (b ∷ l)
IsBelow-head a b p (Pairwise.cons h _) = IsBelow-cons a b p λ x m. before_not_trans x b a (h x m) p

IsBelow-tail : {a : RouteRule} {l : List RouteRule} → IsSorted (a ∷ l) → IsBelow a l
IsBelow-tail (Pairwise.cons h _) = h

insert_rule-perm : (r : RouteRule) (l : List RouteRule) → Perm (insert_rule r l) (r ∷ l)
unfolding insert_rule
insert_rule-perm r [] = Perm.refl (r ∷ [])
insert_rule-perm r (x ∷ xs) = elim (Bool-cases (before x r)) [
  | inl e ↦ rw e (Perm.trans (Perm.cons x (insert_rule-perm r xs)) (Perm.swap r x xs))
  | inr e ↦ rw e (Perm.refl (r ∷ x ∷ xs))
]

IsBelow-insert :
    (a r : RouteRule) {l : List RouteRule}
    → before r a ≡ false
    → IsBelow a l
    → IsBelow a (insert_rule r l)
IsBelow-insert a r {l} p h x m = IsBelow-cons a r p h x ((Perm.mem_iff (insert_rule-perm r l)).0 m)

insert_rule-IsSorted :
    (r : RouteRule) (l : List RouteRule) → IsSorted l → IsSorted (insert_rule r l)
unfolding insert_rule
insert_rule-IsSorted r [] s = Pairwise.cons (λ x m. absurd (not-mem-nil m)) Pairwise.nil
insert_rule-IsSorted r (x ∷ xs) s = elim (Bool-cases (before x r)) [
  | inl e ↦ rw e (
      Pairwise.cons (IsBelow-insert x r (before_asymm x r e) (IsBelow-tail s))
        (insert_rule-IsSorted r xs (Pairwise.of_cons s)))
  | inr e ↦ rw e (Pairwise.cons (IsBelow-head r x e s) s)
]

pub sort_rules-IsSorted : (l : List RouteRule) → IsSorted (sort_rules l)
unfolding sort_rules
sort_rules-IsSorted [] = Pairwise.nil
sort_rules-IsSorted (x ∷ xs) = insert_rule-IsSorted x (sort_rules xs) (sort_rules-IsSorted xs)

pub sort_rules-perm : (l : List RouteRule) → Perm (sort_rules l) l
unfolding sort_rules
sort_rules-perm [] = Perm.refl []
sort_rules-perm (x ∷ xs) =
    Perm.trans (insert_rule-perm x (sort_rules xs)) (Perm.cons x (sort_rules-perm xs))

DistinctIds-perm : {l r : List RouteRule} → Perm l r → DistinctIds r → DistinctIds l
DistinctIds-perm p d a b ma mb e = d a b ((Perm.mem_iff p).0 ma) ((Perm.mem_iff p).0 mb) e

head_before :
    {a b : RouteRule} {l r : List RouteRule}
    → before a a ≡ false
    → IsSorted (a ∷ l)
    → Perm (b ∷ r) (a ∷ l)
    → before b a ≡ false
head_before {a} {b} irrefl s p = IsBelow-head a a irrefl s b ((Perm.mem_iff p).0 mem-cons_self)

before_irrefl : (a : RouteRule) → before a a ≡ false
unfolding before
before_irrefl a = ground (arith, ltb_bytes_irrefl a.rule_id)

-- A list of rules with distinct ids has one sorted permutation.
pub IsSorted-unique :
    (l r : List RouteRule) → DistinctIds l → IsSorted l → IsSorted r → Perm l r → l ≡ r
IsSorted-unique [] r d sl sr p = Perm.nil-eq p
IsSorted-unique (a ∷ l) [] d sl sr p = Perm.eq-nil p
IsSorted-unique (a ∷ l) (b ∷ r) d sl sr p =
    let heads = d a b mem-cons_self ((Perm.mem_iff p).1 mem-cons_self) (
      before_connex a b (head_before (before_irrefl b) sr p)
        (head_before (before_irrefl a) sl (Perm.symm p))) in
    let tails = Perm.cons_inv (Perm.trans p (Perm.symm (Perm.cons' heads Perm.rfl))) in
    ap₂ ◌∷◌ heads (
      IsSorted-unique l r (λ x y mx my e. d x y (mem-cons_of_mem a mx) (mem-cons_of_mem a my) e)
        (Pairwise.of_cons sl) (Pairwise.of_cons sr) tails)
