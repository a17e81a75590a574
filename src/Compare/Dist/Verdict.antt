-- ===== src/Compare/Dist/Verdict.antt =====
-- The verdict of src/compare/dist.cpp as a statement about all the names.
use mediadiff.Base.{
  Accepts, All, Bool, List, Option, Text, [], abs_ℤ, ap, ap₂, arith, false, inl, inr, leb_ℤ, none,
  ok, pos, refl, some, subst, sym, true, ℤ, ◌*ℤ◌, ◌*◌, ◌-ℤ◌, ◌↔◌, ◌∙◌, ◌∷◌, ◌≡◌, ◌≤ℤ◌, ◌≤◌,
}
use mediadiff.Compare.{start_finding}
use mediadiff.Compare.Dist.{
  Combined, WorstBin, bin_outcome, bins_of, compare_dist, dist_outcome, within_tolerance, worst_of,
  worst_outcome,
}
use mediadiff.Compare.Dist.Bins.{count_of, entries-slots, slot_of}
use mediadiff.Compare.Dist.Found.{
  Found, IsNearAt, gap-slot_of, near_mono, pos_of, whole, worst_of-Found,
}
use mediadiff.Compare.Dist.Worst.{
  gap, in_range-injective, range_then-in_range, ranged_then-in_range,
}
use mediadiff.Compare.Sets.{IsVerdict}
use mediadiff.Compare.Tol.{Outcome}
use mediadiff.Compare.Tol.Run.{outcome_finding}
use mediadiff.Compare.Verdict.{in_range}
use mediadiff.Core.CheckedArith.{checked_mul}
use mediadiff.Core.CheckedArith.Exact.{checked_mul-some, mul-pos}
use mediadiff.Core.Model.{Finding, Measurement, Vendor, passed}
use mediadiff.Core.Policy.{Policy}
use mediadiff.Core.Policy.Resolve.{resolve_severity}
use mediadiff.Core.Registry.{CheckDef, Severity, tolerance_for}
use mediadiff.Core.Tolerance.{Tolerance, parse_tolerance}
use mediadiff.Core.Tolerance.WellFormed.{IsTolerance, parse_tolerance-IsTolerance}
use mathlib.Core.Bool.{false≢true}
use mathlib.Core.List.{Memᴰ}
use mathlib.Core.List.Memᴰ.{head, tail}
use mathlib.Core.Path.{subst₂}

-- The entry whose difference is that of the worst bin.
worst_entry :
    (bs cs : List (Text × ℤ)) (w : WorstBin) (f : Found bs cs (some w))
    → (name : Text) × (abs_ℤ w.num ≡ gap f.a f.b f.positive (count_of name bs, count_of name cs))
worst_entry bs cs w f = elim f.finds.4 [
  | inl e ↦
      let small = gap-slot_of f.a f.b f.positive (abs_ℤ w.num) [] f.bins f.finds.1 in
      ([], omega (arith, e, subst (λ s. gap f.a f.b f.positive s ≤ abs_ℤ w.num) (f.slots []) small))
  | inr (e, m, q) ↦ (
    e.0,
    q
        ∙ ap (gap f.a f.b f.positive) (
            sym
              (All-Memᴰ (λ e. slot_of e.0 f.bins ≡ e.1) f.bins (entries-slots f.bins f.sorted) e m)
            ∙ f.slots e.0),
  )
]
  where
    All-Memᴰ :
        (P : Text × (ℤ × ℤ) → Type 0) (c : Combined)
        → All P c
        → (e : Text × (ℤ × ℤ)) → Memᴰ e c
        → P e
    All-Memᴰ P [] h e m = elim m [ ]
    All-Memᴰ P (x ∷ c) h e (head p) = subst P (sym p) h.0
    All-Memᴰ P (x ∷ c) h e (tail m) = All-Memᴰ P c h.1 e m

difference_at-gap :
    (bs cs : List (Text × ℤ)) (w : Option WorstBin) (f : Found bs cs w) (name : Text)
    → abs_ℤ ((count_of name bs *ℤ whole cs) -ℤ (count_of name cs *ℤ whole bs))
      ≡ gap f.a f.b f.positive (count_of name bs, count_of name cs)
difference_at-gap bs cs w f name =
    ap₂ (λ x y. abs_ℤ ((count_of name bs *ℤ x) -ℤ (count_of name cs *ℤ y))) f.whole_b f.whole_a

module _ (t : Tolerance) (bs cs : List (Text × ℤ)) (den_ok : pos 0 ≤ℤ t.den)
    (num_ok : pos 0 ≤ℤ t.num) where
  -- The test of the worst bin decides for all the names.
  within-decides :
      (w : WorstBin) (v : Bool)
      → Found bs cs (some w)
      → within_tolerance t w ≡ in_range v
      → (v ≡ true) ↔ ((name : Text) → IsNearAt t bs cs name)
  unfolding within_tolerance
  within-decides w v f e =
      let s1 = range_then-in_range _ (checked_mul w.num t.den) _ v e in
      let s2 = range_then-in_range _ (checked_mul s1.0 (pos 100)) _ v s1.2 in
      let s3 = range_then-in_range _ (checked_mul t.num w.denom) _ v s2.2 in
      let left : s2.0 ≡ (pos (abs_ℤ w.num) *ℤ t.den) *ℤ pos 100 =
        checked_mul-some s1.0 (pos 100) s2.0 s2.1
        ∙ ap (λ x. x *ℤ pos 100)
            (checked_mul-some w.num t.den s1.0 s1.1 ∙ ap (λ x. x *ℤ t.den) f.finds.0.0) in
      let right : s3.0 ≡ t.num *ℤ (whole bs *ℤ whole cs) =
        checked_mul-some t.num w.denom s3.0 s3.1
        ∙ ap (λ x. t.num *ℤ x)
            (f.finds.0.1 ∙ sym (mul-pos f.a f.b) ∙ sym (ap₂ (λ x y. x *ℤ y) f.whole_a f.whole_b)) in
      let test : leb_ℤ s2.0 s3.0 ≡ v = in_range-injective _ v s3.2 in
      (
        λ p name.
            subst (λ n. ((pos n *ℤ t.den) *ℤ pos 100) ≤ℤ (t.num *ℤ (whole bs *ℤ whole cs)))
              (sym (difference_at-gap bs cs (some w) f name))
              (near_mono _ (abs_ℤ w.num) t.den _ den_ok
                (subst (λ s. gap f.a f.b f.positive s ≤ abs_ℤ w.num) (f.slots name)
                  (gap-slot_of f.a f.b f.positive (abs_ℤ w.num) name f.bins f.finds.1))
                (subst₂ (λ x y. x ≤ℤ y) left right (is_le s2.0 s3.0 (test ∙ p)))),
        λ all.
            let entry = worst_entry bs cs w f in
            let same = entry.1 ∙ sym (difference_at-gap bs cs (some w) f entry.0) in
            sym test
            ∙ leb_of s2.0 s3.0 (
                subst₂ (λ x y. x ≤ℤ y) (sym (left ∙ ap (λ n. (pos n *ℤ t.den) *ℤ pos 100) same))
                  (sym right) (all entry.0)),
      )
    where
      is_le : (x y : ℤ) → leb_ℤ x y ≡ true → x ≤ℤ y
      is_le x y e = ground (arith, e)

      leb_of : (x y : ℤ) → x ≤ℤ y → leb_ℤ x y ≡ true
      leb_of x y h = ground (arith, h)

  no_bins-near : Found bs cs none → (name : Text) → IsNearAt t bs cs name
  no_bins-near f name =
      let num = pos_of t.num num_ok in
      subst (λ n. ((pos n *ℤ t.den) *ℤ pos 100) ≤ℤ (t.num *ℤ (whole bs *ℤ whole cs)))
        (sym (difference_at-gap bs cs none f name))
        (near_mono _ 0 t.den _ den_ok
          (subst (λ s. gap f.a f.b f.positive s ≤ 0) (f.slots name)
            (gap-slot_of f.a f.b f.positive 0 name f.bins f.finds.1))
          (subst₂ (λ x y. x ≤ℤ y)
            (sym (
              ap (λ d. (pos 0 *ℤ d) *ℤ pos 100) (pos_of t.den den_ok).1
              ∙ ap (λ x. x *ℤ pos 100) (mul-pos 0 (pos_of t.den den_ok).0)
              ∙ mul-pos _ 100))
            (sym (
              ap₂ (λ x y. x *ℤ y) num.1 (ap₂ (λ x y. x *ℤ y) f.whole_a f.whole_b ∙ mul-pos f.a f.b)
              ∙ mul-pos num.0 (f.a * f.b)))
            (omega arith)))

  dist_outcome-IsVerdict :
      (severity : Severity) (o : Outcome)
      → dist_outcome severity t bs cs ≡ in_range o
      → IsVerdict passed severity ((name : Text) → IsNearAt t bs cs name) o.status
  unfolding dist_outcome
  dist_outcome-IsVerdict severity o e =
      let s = ranged_then-in_range (worst_of bs cs) (worst_outcome severity t) o e in
      by_worst s.0 (worst_of-Found bs cs s.0 s.1) s.2
    where
      by_within :
          (w : WorstBin) (v : Bool)
          → ((v ≡ true) ↔ ((name : Text) → IsNearAt t bs cs name))
          → IsVerdict passed severity
              ((name : Text) → IsNearAt t bs cs name)
              (bin_outcome severity w v).status
      by_within w true h = inl (h.0 refl, refl)
      by_within w false h = inr ((λ all. false≢true (h.1 all)), refl)

      by_worst :
          (w : Option WorstBin)
          → Found bs cs w
          → worst_outcome severity t w ≡ in_range o
          → IsVerdict passed severity ((name : Text) → IsNearAt t bs cs name) o.status
      by_worst none f h =
          inl (no_bins-near f, ap (λ (x : Outcome). x.status) (sym (in_range-injective _ o h)))
      by_worst (some w) f h =
          let v = ranged_then-in_range (within_tolerance t w) _ o h in
          subst
            (λ (x : Outcome).
              IsVerdict passed severity ((name : Text) → IsNearAt t bs cs name) x.status)
            (in_range-injective _ o v.2) (by_within w v.0 (within-decides w v.0 f v.1))

-- Where the tolerance text is a tolerance and nothing overflows int64_t, `compare_dist` returns a
-- finding: it passes exactly when under every name the two sides' proportions differ by at most the
-- tolerance in percent, over unbounded integers, and otherwise has the status of the check's
-- severity.
pub compare_dist-IsVerdict :
    (V : Vendor) (check : CheckDef) (b c : Measurement V.Json) (policy : Policy) (t : Tolerance)
    (o : Outcome)
    → parse_tolerance (tolerance_for check policy.profile) check.unit ≡ ok t
    → dist_outcome (resolve_severity check policy) t (bins_of b.value) (bins_of c.value)
      ≡ in_range o
    → (f : Finding V.Json) × (compare_dist V check b c policy ≡ ok f)
      × IsVerdict passed
          (resolve_severity check policy)
          ((name : Text) → IsNearAt t (bins_of b.value) (bins_of c.value) name)
          f.status
unfolding compare_dist start_finding
compare_dist-IsVerdict V check b c policy t o e d =
    let ht =
      subst (Accepts (IsTolerance check.unit)) e
        (parse_tolerance-IsTolerance (tolerance_for check policy.profile) check.unit) in
    (
      outcome_finding V check b c policy o,
      rw (e, d) refl,
      dist_outcome-IsVerdict t (bins_of b.value) (bins_of c.value) (omega (arith, ht.den_bounds))
          ht.num_bounds.0 (resolve_severity check policy) o d,
    )
